-- ===== src/App/Placed.antt =====
-- What `upsertRoute` does for a list of routes, on a server that answers.
use caddy_k8s.Base.{String, ◌≡◌, refl, ◌∙◌, true, false, some, List, [], ◌∷◌, ◌==◌, arith, All}
use caddy_k8s.Strings.{is_blank}
use caddy_k8s.Hosts.{elem, distinct}
use caddy_k8s.Routes.Model.{CaddyRoute}
use caddy_k8s.Routes.Nested.{IsFit}
use caddy_k8s.Admin.Client.{Net, is_current, upsert_route}
use caddy_k8s.Admin.Upsert.{RouteServer, body_of, IsUpserted, upsert_route-IsUpserted}
use caddy_k8s.App.Add.{route_ids_of, upsert_routes}

module _ (net : Net) (s : RouteServer net) where
  open s use {home, routes}

  -- The server holds a text that is current for the route.
  pub record IsHeld (w : net.World) (r : CaddyRoute) : Type 0 where
    pub text : String
    pub held : routes w r.id ≡ some text
    pub current : is_current net text (body_of net r) ≡ true

  pub IsHeld-keeps :
      (w w' : net.World) (r : CaddyRoute)
      → routes w' r.id ≡ routes w r.id
      → IsHeld w r
      → IsHeld w' r
  IsHeld-keeps w w' r same h = record { text = h.text; held = same ∙ h.held; current = h.current }

  other_route :
      (r : CaddyRoute) (w w' : net.World) (k : String)
      → IsUpserted net s r w w'
      → (r.id == k) ≡ false
      → routes w' k ≡ routes w k
  other_route r w w' k u other = rw other at (u.others k)

  -- Each route has an id.
  abbrev pub AreNamed : List CaddyRoute → Type 0
  AreNamed rs = All (λ r. is_blank r.id ≡ false) rs

  -- Each route and the ids nested in it keep to the routes that they belong to.
  abbrev pub AreFit : List CaddyRoute → Type 0
  AreFit rs = All (λ r. IsFit home r) rs

  pub routes-upsert_routes :
      (server : String) (rs : List CaddyRoute) (w : net.World) (k : String)
      → AreNamed rs
      → AreFit rs
      → elem k (route_ids_of rs) ≡ false
      → routes (upsert_routes net server rs w) k ≡ routes w k
  unfolding upsert_routes
  routes-upsert_routes server [] w k named fits h = refl
  routes-upsert_routes server (r ∷ rs) w k (named, rest) (fit, fits) h =
      let (done, up) = upsert_route-IsUpserted net s server r w named fit in
      let w1 = (upsert_route net server r w).1 in
      routes-upsert_routes server rs w1 k rest fits (ground arith)
      ∙ other_route r w w1 k up (ground arith)

  -- Routes with distinct ids are all held afterwards.
  pub upsert_routes-IsHeld :
      (server : String) (rs : List CaddyRoute) (w : net.World)
      → AreNamed rs
      → AreFit rs
      → distinct (route_ids_of rs) ≡ true
      → All (IsHeld (upsert_routes net server rs w)) rs
  unfolding upsert_routes
  upsert_routes-IsHeld server [] w named fits h = tt
  upsert_routes-IsHeld server (r ∷ rs) w (named, rest) (fit, fits) h =
      let (done, up) = upsert_route-IsUpserted net s server r w named fit in
      let w1 = (upsert_route net server r w).1 in
      let here : IsHeld w1 r = record { text = up.text; held = up.holds; current = up.current } in
      (
        IsHeld-keeps w1 (upsert_routes net server rs w1) r
            (routes-upsert_routes server rs w1 r.id rest fits (ground arith)) here,
        upsert_routes-IsHeld server rs w1 rest fits (ground arith),
      )
