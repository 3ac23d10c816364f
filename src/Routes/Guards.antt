-- ===== src/Routes/Guards.antt =====
-- Address lists: a request meets the guards before any other route of an Ingress.
use mathlib.Core.List.{append_assoc}
use mathlib.Core.Option.{some-injective}
use mathlib.Core.Path.{subst}
use caddy_k8s.Base.{
  ◌≡◌, refl, sym, ◌∙◌, false, ◌&&◌, some, List, [], ◌∷◌, ◌++◌, arith, is_empty, All, AllSome,
  Returns-value,
}
use caddy_k8s.Kube.{Ingress}
use caddy_k8s.Json.{Json}
use caddy_k8s.Annotations.Config.{IngressAnnotations}
use caddy_k8s.Annotations.WellFormed.{IsCors}
use caddy_k8s.Routes.Model.{CaddyRoute, SecurityConfig, unless}
use caddy_k8s.Routes.Build.{
  build_ip_guard_routes, subroute, guard_route, whitelist_match, blocklist_match,
}
use caddy_k8s.Routes.Convert.{convert_ingress}
use caddy_k8s.Routes.Rules.{Each, done, step, IsHandled, sole_path, nested, convert_ingress-Each}

module _ (ann : IngressAnnotations) where
  -- The handlers are one subroute, whose first routes answer 403: to every address outside the
  -- whitelist if there is one, then to every address on the blocklist if there is one.
  pub IsGuarded : List Json → Type 0
  IsGuarded handle =
      (rest : List CaddyRoute) × (handle
        ≡ subroute (
            unless (is_empty ann.whitelist) (guard_route (whitelist_match ann.whitelist))
            ++ (unless (is_empty ann.blocklist) (guard_route (blocklist_match ann.blocklist))
                ++ rest))
          ∷ [])

  guards_present :
      (is_empty ann.whitelist && is_empty ann.blocklist) ≡ false
      → is_empty (build_ip_guard_routes ann) ≡ false
  unfolding build_ip_guard_routes
  guards_present h = ground arith

module _ {ℓ κ μ ν} {A : Type ℓ} {B : Type κ} {R : A → B → Type μ} {P : B → Type ν} where
  pub Each-All :
      ((a : A) (b : B) → R a b → P b) → {xs : List A} {ys : List B} → Each R xs ys → All P ys
  Each-All h done = tt
  Each-All h (step {a} {b} r rs) = (h a b r, Each-All h rs)

module _ (ing : Ingress) (sec : SecurityConfig) (ann : IngressAnnotations) where
  IsHandled-IsGuarded :
      (paths : List CaddyRoute) (handle : List Json)
      → (is_empty ann.whitelist && is_empty ann.blocklist) ≡ false
      → IsHandled ing sec ann paths handle
      → IsGuarded ann handle
  unfolding IsGuarded build_ip_guard_routes
  IsHandled-IsGuarded paths _ h (sole_path r single free none_listed) = cc (guards_present ann h)
  IsHandled-IsGuarded paths _ h (nested preflight e) = (preflight ++ paths, rw append_assoc refl)

  -- For a configuration whose CORS part names an origin, with a whitelist or a blocklist: every route
  -- of the Ingress is one subroute that begins with the guards.
  pub convert_ingress-IsGuarded :
      AllSome IsCors ann.cors
      → (is_empty ann.whitelist && is_empty ann.blocklist) ≡ false
      → (routes : List CaddyRoute) → convert_ingress ing sec ann ≡ some routes
      → All (λ r. IsGuarded ann r.handle) routes
  convert_ingress-IsGuarded h listed routes e =
      let (made, f, each) = Returns-value (convert_ingress-Each ing sec ann h) in
      let guarded : All (λ r. IsGuarded ann r.handle) made =
        Each-All (λ s r route. IsHandled-IsGuarded route.paths r.handle listed route.handle) each in
      subst (All (λ r. IsGuarded ann r.handle)) (some-injective made routes (sym f ∙ e)) guarded
