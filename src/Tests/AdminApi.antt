-- ===== src/Tests/AdminApi.antt =====
-- An admin API for the tests: it keeps the text of each route by id and counts the requests. The text
-- of a route is its id, and no wait is ever cancelled.
use Prim.Native.String.{[], ◌∷◌}
use text.Mathlib.TextPositions.{eq_refl}
use caddy_k8s.Base.{
  ◌==◌, ℕ, ◌+◌, String, ◌<>◌, ◌≡◌, refl, false, true, if◌then◌else◌, arith, Option, none, some, [],
  ◌∷◌,
}
use caddy_k8s.Strings.{is_blank, has_prefix}
use text.Mathlib.TextLemmas.{cons-append}
use caddy_k8s.Json.{Json, str, object, field}
use caddy_k8s.Dict.{Dict, lookup, insert, erase, lookup-insert, lookup-erase}
use caddy_k8s.Routes.Model.{CaddyRoute, marshal_route}
use caddy_k8s.Store.Redis.{drop_prefix}
use caddy_k8s.Store.RedisLaws.{drop_prefix-append}
use caddy_k8s.Admin.Client.{
  routes_path, Method, get, put, post, patch, delete, Reply, answer, found, Net, normalise_json,
  is_current,
}
use caddy_k8s.Admin.Upsert.{RouteServer}
use caddy_k8s.Admin.Requests.{Counter}
use caddy_k8s.App.Settled.{WriteCounter}

pub record Server : Type 0 where
  pub routes : Dict String
  pub requests : ℕ
  pub writes : ℕ

abbrev pub reply_to : Option String → Reply
reply_to none = answer 404 ""
reply_to (some b) = answer 200 b

abbrev confirm : Option String → Reply
confirm none = answer 404 ""
confirm (some b) = answer 200 ""

abbrev pub servers_prefix : String
servers_prefix = "/config/apps/http/servers/"

abbrev write_of : Method → ℕ
write_of get = 0
write_of post = 1
write_of put = 1
write_of patch = 1
write_of delete = 1

abbrev subject : Method → String → String
subject post path = path
subject get path = drop_prefix "/id/" path
subject put path = drop_prefix "/id/" path
subject patch path = drop_prefix "/id/" path
subject delete path = drop_prefix "/id/" path

pub has_prefix-append : (p s : String) → has_prefix (p <> s) p ≡ true
unfolding has_prefix
has_prefix-append [] s = refl
has_prefix-append (c ∷ p) s = rw cons-append (ground (arith, has_prefix-append p s))

abbrev exchange : Method → String → Option String → Server → Reply × Dict String
exchange get path body w = (reply_to (lookup path w.routes), w.routes)
exchange delete path body w = (confirm (lookup path w.routes), erase path w.routes)
exchange post path (some b) w =
    (answer 200 "", if has_prefix path servers_prefix then insert b b w.routes else w.routes)
exchange post path none w = (answer 400 "", w.routes)
exchange put path body w = (answer 405 "", w.routes)
exchange patch path body w = (answer 405 "", w.routes)

abbrev text_or : Option Json → String
text_or none = ""
text_or (some (str s)) = s
text_or (some _) = ""

abbrev pub api : Net
api = record {
  World = Server;
  send = λ m path body w.
      let (reply, routes) = exchange m (subject m path) body w in
      (
        reply,
        record { routes = routes; requests = w.requests + 1; writes = w.writes + write_of m },
      );
  wait = λ n w. (none, w);
  marshal = λ j. text_or (field "@id" j);
  unmarshal = λ s. some (object (("@id", str s) ∷ []));
  unmarshal_servers = λ s. found (("srv0", ":443" ∷ []) ∷ []);
}

pub marshal-route : (r : CaddyRoute) → is_blank r.id ≡ false → api.marshal (marshal_route r) ≡ r.id
unfolding marshal_route field
marshal-route r named = rw named refl

pub api_current : (b : String) → is_current api b b ≡ true
unfolding is_current normalise_json field
api_current b = eq_refl b

abbrev pub api_counter : Counter api
api_counter = record {
  spent = λ w. w.requests;
  spent-send = λ m path body w. refl;
  spent-wait = λ n w. refl;
}

pub routes-posted :
    (w : Server) (server : String) (r : CaddyRoute) (k : String)
    → is_blank r.id ≡ false
    → lookup k
        (api.send post (routes_path server) (some (api.marshal (marshal_route r))) w).1.routes
      ≡ (if r.id == k then some (api.marshal (marshal_route r)) else lookup k w.routes)
routes-posted w server r k named =
    rw (marshal-route r named, has_prefix-append servers_prefix (server <> "/routes/"))
      (lookup-insert r.id k r.id w.routes)

abbrev pub api_server : RouteServer api
api_server = record {
  home = λ k. k;
  routes = λ w k. lookup k w.routes;
  stored = λ b. b;
  missing = "";
  get_hit = λ w id b own held. rw (drop_prefix-append "/id/" id, held) refl;
  get_miss = λ w id own absent. rw (drop_prefix-append "/id/" id, absent) refl;
  get_keeps = λ w id k. refl;
  delete_hit = λ w id b own held. rw (drop_prefix-append "/id/" id, held) refl;
  delete_drops =
      λ w id b k own held. rw (drop_prefix-append "/id/" id) (lookup-erase id k w.routes);
  post_new = λ w server r named fit absent. refl;
  post_adds = λ w server r k named fit absent. routes-posted w server r k named;
  stored_current = λ r. api_current _;
}

abbrev pub api_writes : WriteCounter api
api_writes = record { written = λ w. w.writes; written-get = λ w path. omega arith }
