-- ===== src/App/Settled.antt =====
-- A second pass over the routes of an Ingress that did not change: it only reads.
use caddy_k8s.Base.{
  ℕ, String, ◌≡◌, refl, ◌∙◌, true, false, not, ◌&&◌, none, some, List, [], ◌∷◌, arith, All,
}
use text.Mathlib.TextPositions.{eq_refl}
use caddy_k8s.Strings.{is_blank}
use caddy_k8s.Dict.{lookup, insert, lookup-insert}
use caddy_k8s.Kube.{Ingress}
use caddy_k8s.Hosts.{elem, distinct}
use caddy_k8s.Annotations.Config.{IngressAnnotations}
use caddy_k8s.Routes.Model.{CaddyRoute}
use caddy_k8s.Admin.Client.{get, Net, id_path}
use caddy_k8s.Admin.Upsert.{RouteServer, upsert_route_current}
use caddy_k8s.Store.Interface.{RouteStore}
use caddy_k8s.App.State.{App, ingress_key}
use caddy_k8s.App.Delete.{ids_of, delete_routes}
use caddy_k8s.App.Add.{
  route_ids_of, IdVisit, stale_ids, target_server, upsert_routes, sync_redirects, place_on,
  place_routes,
}
use caddy_k8s.App.Placed.{IsHeld, AreFit, IsHeld-keeps, upsert_routes-IsHeld}
use caddy_k8s.App.Ids.{IsIdVisit, elem-stale_ids}

-- A count of the writes that reached the server: a read adds none.
pub record WriteCounter (net : Net) : Type 0 where
  pub written : net.World → ℕ
  pub written-get :
      (w : net.World) (path : String) → written (net.send get path none w).1 ≡ written w

none-elem : (ids : List String) → ((k : String) → elem k ids ≡ false) → ids ≡ []
none-elem [] h = refl
none-elem (id ∷ ids) h = ground (arith, h id, eq_refl id)

stale_ids_same :
    (order : IdVisit) → IsIdVisit order → (ids : List String) → stale_ids order ids ids ≡ []
stale_ids_same order visit ids =
    none-elem (stale_ids order ids ids) (λ k. ground (arith, elem-stale_ids order visit k ids ids))

module _ (net : Net) (s : RouteServer net) (c : WriteCounter net) where
  open s use {get_hit, get_keeps}
  open c use {written, written-get}

  All-IsHeld :
      (w w' : net.World) (rs : List CaddyRoute)
      → ((k : String) → s.routes w' k ≡ s.routes w k)
      → All (IsHeld net s w) rs
      → All (IsHeld net s w') rs
  All-IsHeld w w' [] same h = tt
  All-IsHeld w w' (r ∷ rs) same (h, hs) =
      (IsHeld-keeps net s w w' r (same r.id) h, All-IsHeld w w' rs same hs)

  -- Routes that the server holds are not written again.
  written-upsert_routes :
      (server : String) (rs : List CaddyRoute) (w : net.World)
      → AreFit net s rs
      → All (IsHeld net s w) rs
      → written (upsert_routes net server rs w) ≡ written w
  unfolding upsert_routes
  written-upsert_routes server [] w fits h = refl
  written-upsert_routes server (r ∷ rs) w (fit, fits) (h, hs) =
      let w1 = (net.send get (id_path r.id) none w).1 in
      rw
        (upsert_route_current net server r w h.text (get_hit w r.id h.text fit.own h.held)
          h.current)
        (written-upsert_routes server rs w1 fits (All-IsHeld w w1 rs (get_keeps w r.id) hs)
          ∙ written-get w (id_path r.id))

  -- The application with the ids recorded for the Ingress.
  abbrev recorded_at : (store : RouteStore) → String → List String → App store → App store
  recorded_at store key ids a = record a {
    route_ids = insert key ids a.route_ids;
    stored = (store.save key ids a.stored).1;
  }

  place_routes_plain :
      (store : RouteStore) (order : IdVisit) (ing : Ingress) (ann : IngressAnnotations)
      (made : List CaddyRoute) (a : App store) (w : net.World) (server : String)
      → target_server store ing a ≡ some server
      → (ann.ssl_redirect && not (is_blank a.http_server_name)) ≡ false
      → let stale =
          stale_ids order (ids_of (lookup (ingress_key ing) a.route_ids)) (route_ids_of made) in
        place_routes net store order ing ann made a w ≡ (
          recorded_at store (ingress_key ing) (route_ids_of made) a,
          upsert_routes net server made (delete_routes net stale w),
        )
  unfolding place_routes place_on sync_redirects
  place_routes_plain store order ing ann made a w server placed plain = rw (placed, plain) refl

  -- On a server that answers, for routes with distinct ids that are not blank and a server for them, where
  -- the ids nested in the routes keep to the routes that they belong to: the second of two passes over the
  -- same routes writes nothing, if no redirects are wanted. The recorded ids are the new ones, so nothing
  -- is stale, and each route is held.
  pub written-place_routes :
      (store : RouteStore) (order : IdVisit) (ing : Ingress) (ann : IngressAnnotations)
      (made : List CaddyRoute) (a : App store) (w : net.World) (server : String)
      → IsIdVisit order
      → All (λ r. is_blank r.id ≡ false) made
      → AreFit net s made
      → distinct (route_ids_of made) ≡ true
      → target_server store ing a ≡ some server
      → (ann.ssl_redirect && not (is_blank a.http_server_name)) ≡ false
      → let (a', w') = place_routes net store order ing ann made a w in
        written (place_routes net store order ing ann made a' w').1 ≡ written w'
  unfolding target_server delete_routes
  written-place_routes store order ing ann made a w server visit named fits different placed plain =
      let key = ingress_key ing in
      let new = route_ids_of made in
      let w2 = delete_routes net (stale_ids order (ids_of (lookup key a.route_ids)) new) w in
      let w' = upsert_routes net server made w2 in
      rw
        (
          place_routes_plain store order ing ann made a w server placed plain,
          place_routes_plain store order ing ann made (recorded_at store key new a) w' server placed
              plain,
          lookup-insert key key new a.route_ids,
          eq_refl key,
          stale_ids_same order visit new,
        )
        (written-upsert_routes server made w' fits
          (upsert_routes-IsHeld net s server made w2 named fits different))
