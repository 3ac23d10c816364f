-- ===== src/Tests/Admin.antt =====
-- The theorems on the admin API at a small server.
use caddy_k8s.Base.{◌≡◌, refl, String, true, none, [], ◌∷◌, ◌==◌, if◌then◌else◌}
use caddy_k8s.Dict.{lookup, insert, erase}
use caddy_k8s.Routes.Model.{CaddyRoute, marshal_route}
use caddy_k8s.Admin.Client.{
  perform, get_route, normalise_json, is_current, post_route, replace_route, round_of, upsert_round,
  attempts, upsert_route, delete_route,
}
use caddy_k8s.Routes.Nested.{IsFit, inner_ids, ids_in}
use caddy_k8s.Store.Redis.{drop_prefix}
use caddy_k8s.Json.{field, object, array, str}
use caddy_k8s.Admin.Upsert.{IsUpserted, upsert_route-IsUpserted, delete_route_lem}
use caddy_k8s.Tests.Nested.{home, nesting}
use caddy_k8s.Tests.AdminApi.{Server, api, api_server}

abbrev route : CaddyRoute
route = record { id = "caddy-k8s-shop-front-any"; match = []; handle = []; terminal = true }

abbrev before : Server
before = record {
  routes = ("other", "other") ∷ ("caddy-k8s-shop-front-any", "stale") ∷ [];
  requests = 0;
  writes = 0;
}

abbrev after : Server
after = record {
  routes = ("other", "other") ∷ ("caddy-k8s-shop-front-any", "caddy-k8s-shop-front-any") ∷ [];
  requests = 0;
  writes = 0;
}

upsert_route_test :
    upsert_route api "srv0" route before ≡ (none, record after { requests = 3; writes = 2 })
unfolding upsert_route attempts upsert_round get_route round_of replace_route post_route perform
    is_current normalise_json marshal_route field drop_prefix lookup insert erase
    caddy_k8s.Strings.has_prefix
upsert_route_test = refl

-- A route in which another is nested.
abbrev front : CaddyRoute
front = record {
  id = "front";
  match = [];
  handle = object (("routes", array (object (("@id", str "front-p0") ∷ []) ∷ [])) ∷ []) ∷ [];
  terminal = true;
}

front-IsFit : IsFit home front
unfolding home inner_ids ids_in
front-IsFit = record { own = refl; inner = (refl, tt); once = refl }

upsert_route-IsUpserted_example :
    ((upsert_route api "srv0" front before).0 ≡ none)
    × IsUpserted api nesting front before (upsert_route api "srv0" front before).1
upsert_route-IsUpserted_example =
    upsert_route-IsUpserted api nesting "srv0" front before refl front-IsFit

delete_route_lem_example :
    ((delete_route api "other" before).0 ≡ none)
    × ((k : String)
        → lookup k (delete_route api "other" before).1.routes
          ≡ (if "other" == k then none else lookup k before.routes))
delete_route_lem_example = delete_route_lem api api_server "other" before refl
