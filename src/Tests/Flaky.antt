-- ===== src/Tests/Flaky.antt =====
-- An admin API on a network that loses every third request.
use caddy_k8s.Base.{
  ℕ, ◌+◌, ◌%◌, ◌≡◌, refl, ap, String, true, false, Bool, Option, none, some, [], ◌==◌, nat_eq,
  arith, ◌<>◌,
}
use text.Mathlib.TextPositions.{eq_refl}
use caddy_k8s.Json.{field}
use caddy_k8s.Routes.Nested.{IsFit, inner_ids}
use caddy_k8s.Strings.{is_blank}
use caddy_k8s.Dict.{lookup, lookup-insert, lookup-erase}
use caddy_k8s.Routes.Model.{CaddyRoute, marshal_route}
use caddy_k8s.Admin.Client.{
  Method, get, post, delete, Reply, no_answer, answer, Net, id_path, routes_path, is_current,
  normalise_json,
}
use caddy_k8s.Store.RedisLaws.{drop_prefix-append}
use caddy_k8s.Admin.Threads.{FallibleServer, succeeds}
use caddy_k8s.Tests.AdminApi.{
  Server, api, reply_to, servers_prefix, has_prefix-append, marshal-route,
}

abbrev pub loses : Server → Bool
loses w = nat_eq (w.requests % 3) 2

abbrev pub send_or_lose : Bool → Method → String → Option String → Server → Reply × Server
send_or_lose true m path body w = (no_answer "reset", record w { requests = w.requests + 1 })
send_or_lose false m path body w = api.send m path body w

abbrev pub flaky : Net
flaky = record api { send = λ m path body w. send_or_lose (loses w) m path body w }

abbrev status : Reply → ℕ
status (no_answer e) = 0
status (answer code body) = code

-- What the fields say of a request, lost or not.
found_reply : (o : Option String) (b : String) → reply_to o ≡ answer 200 b → o ≡ some b
found_reply none b e = absurd (omega (arith, ap status e))
found_reply (some c) b e = cc

missing_reply : (o : Option String) (b : String) → reply_to o ≡ answer 404 b → o ≡ none
missing_reply none b e = refl
missing_reply (some c) b e = absurd (omega (arith, ap status e))

pub get_found :
    (lost : Bool) (w : Server) (id b : String)
    → (send_or_lose lost get (id_path id) none w).0 ≡ answer 200 b
    → lookup id w.routes ≡ some b
get_found true w id b e = cc
get_found false w id b e = found_reply _ b (rw (drop_prefix-append "/id/" id) at e)

pub get_missing :
    (lost : Bool) (w : Server) (id b : String)
    → (send_or_lose lost get (id_path id) none w).0 ≡ answer 404 b
    → lookup id w.routes ≡ none
get_missing true w id b e = cc
get_missing false w id b e = missing_reply _ b (rw (drop_prefix-append "/id/" id) at e)

pub get_keeps :
    (lost : Bool) (w : Server) (id k : String)
    → lookup k (send_or_lose lost get (id_path id) none w).1.routes ≡ lookup k w.routes
get_keeps true w id k = refl
get_keeps false w id k = refl

pub delete_drops :
    (lost : Bool) (w : Server) (id : String)
    → succeeds (send_or_lose lost delete (id_path id) none w).0 ≡ true
    → lookup id (send_or_lose lost delete (id_path id) none w).1.routes ≡ none
delete_drops true w id e = ground (arith, e)
delete_drops false w id e =
    rw (drop_prefix-append "/id/" id, lookup-erase id id w.routes, eq_refl id) refl

pub delete_keeps :
    (lost : Bool) (w : Server) (id k : String)
    → (id == k) ≡ false
    → lookup k (send_or_lose lost delete (id_path id) none w).1.routes ≡ lookup k w.routes
delete_keeps true w id k e = refl
delete_keeps false w id k e = rw (drop_prefix-append "/id/" id, lookup-erase id k w.routes, e) refl

pub post_adds :
    (lost : Bool) (w : Server) (server : String) (r : CaddyRoute)
    → is_blank r.id ≡ false
    → succeeds
        (send_or_lose lost post (routes_path server) (some (api.marshal (marshal_route r))) w).0
      ≡ true
    → lookup r.id
        (send_or_lose lost post
          (routes_path server)
          (some (api.marshal (marshal_route r)))
          w).1.routes
      ≡ some (api.marshal (marshal_route r))
post_adds true w server r named e = ground (arith, e)
post_adds false w server r named e =
    rw
      (
        marshal-route r named,
        has_prefix-append servers_prefix (server <> "/routes/"),
        lookup-insert r.id r.id r.id w.routes,
        eq_refl r.id,
      )
      refl

pub post_keeps :
    (lost : Bool) (w : Server) (server : String) (r : CaddyRoute) (k : String)
    → is_blank r.id ≡ false
    → (r.id == k) ≡ false
    → lookup k
        (send_or_lose lost post
          (routes_path server)
          (some (api.marshal (marshal_route r)))
          w).1.routes
      ≡ lookup k w.routes
post_keeps true w server r k named e = refl
post_keeps false w server r k named e =
    rw
      (
        marshal-route r named,
        has_prefix-append servers_prefix (server <> "/routes/"),
        lookup-insert r.id k r.id w.routes,
        e,
      )
      refl

pub flaky_current : (b : String) → is_current flaky b b ≡ true
unfolding is_current normalise_json field
flaky_current b = eq_refl b

abbrev pub flaky_server : FallibleServer flaky
flaky_server = record {
  home = λ k. k;
  routes = λ w k. lookup k w.routes;
  stored = λ b. b;
  get_found = λ w id b own. get_found (loses w) w id b;
  get_missing = λ w id b own. get_missing (loses w) w id b;
  get_keeps = λ w. get_keeps (loses w) w;
  delete_drops = λ w id own. delete_drops (loses w) w id;
  delete_keeps = λ w. delete_keeps (loses w) w;
  post_adds = λ w server r named fit absent. post_adds (loses w) w server r named;
  post_keeps = λ w server r k named fit. post_keeps (loses w) w server r k named;
  wait_keeps = λ w n k. refl;
  stored_current = λ r. flaky_current _;
}

abbrev pub front : CaddyRoute
front = record { id = "front"; match = []; handle = []; terminal = true }

pub front-IsFit : IsFit (λ k. k) front
unfolding inner_ids
front-IsFit = record { own = refl; inner = tt; once = refl }
