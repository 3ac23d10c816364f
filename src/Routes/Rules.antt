-- ===== src/Routes/Rules.antt =====
-- The routes of a whole Ingress: one for each rule that has a path with a service, in their order.
use mathlib.Core.Option.{some-injective, none-ne-some, some-ne-none}
use mathlib.Core.Path.{subst}
use caddy_k8s.Base.{
  ℕ, suc, String, ◌≡◌, refl, ◌∙◌, ap, sym, true, false, Option, none, some, List, [], ◌∷◌, ◌++◌,
  ◌⊎◌, inl, inr, pos, is_empty, AllSome, Returns, returns, Returns-bind, Returns-value, Bool-cases,
  Option-cases, if◌then◌else◌,
}
use caddy_k8s.Kube.{HttpPath, ServiceBackend, Rule, Ingress}
use caddy_k8s.Json.{Json}
use caddy_k8s.Annotations.Config.{CorsConfig, IngressAnnotations}
use caddy_k8s.Annotations.WellFormed.{IsCors}
use caddy_k8s.Routes.Model.{CaddyRoute, SecurityConfig}
use caddy_k8s.Routes.Handlers.{cors_response_handler}
use caddy_k8s.Routes.Build.{build_ip_guard_routes, cors_preflight_route, subroute, is_many}
use caddy_k8s.Routes.Chain.{IsServed, build_handlers-IsServed, cors_response_handler-Returns}
use caddy_k8s.Routes.Convert.{
  route_id, parent, path_matches, host_matches, convert_path, upstream_of, path_route, path_routes,
  handle_of, flat_or_subroute, sole, preflight_routes, hosts_of, host_route, rule_routes,
  convert_rules, convert_ingress,
}

-- The paths that have a service, with their indices in the rule.
unfoldable pub services : ℕ → List HttpPath → List (ℕ × HttpPath × ServiceBackend)
services i [] = []
services i (p ∷ ps) =
    let rest = services (suc i) ps in elim p.service [ none ↦ rest | some svc ↦ (i, p, svc) ∷ rest ]

-- The rules that have a path with a service, with those paths.
served_rule : Rule → Option (List HttpPath) → List (Rule × List (ℕ × HttpPath × ServiceBackend))
served_rule rule none = []
served_rule rule (some paths) =
    if is_empty (services 0 paths) then [] else (rule, services 0 paths) ∷ []

unfoldable pub served_rules : List Rule → List (Rule × List (ℕ × HttpPath × ServiceBackend))
unfolding served_rule
served_rules [] = []
served_rules (rule ∷ rules) = served_rule rule rule.http ++ served_rules rules

-- Two lists of one length, related element by element.
pub data Each {ℓ κ μ} {A : Type ℓ} {B : Type κ} (R : A → B → Type μ)
    : List A → List B → Type (ℓ ⊔ κ ⊔ μ) where
  done : Each R [] []
  step :
      {a : A} {b : B} {xs : List A} {ys : List B} → R a b → Each R xs ys → Each R (a ∷ xs) (b ∷ ys)

module _ {ℓ κ μ} {A : Type ℓ} {B : Type κ} {R : A → B → Type μ} where
  Each-is_empty : {xs : List A} {ys : List B} → Each R xs ys → is_empty xs ≡ is_empty ys
  Each-is_empty done = refl
  Each-is_empty (step r rs) = refl

  Each-append :
      {xs : List A} {ys : List B} {xs' : List A} {ys' : List B}
      → Each R xs ys
      → Each R xs' ys'
      → Each R (xs ++ xs') (ys ++ ys')
  Each-append done k = k
  Each-append (step r rs) k = step r (Each-append rs k)

preflight-cases :
    (o : Option CorsConfig) (preflight : List CaddyRoute)
    → preflight_routes o ≡ some preflight
    → (preflight ≡ []) ⊎ ((q : CaddyRoute) × (preflight ≡ q ∷ []) × (is_empty q.match ≡ false))
unfolding preflight_routes cors_preflight_route
preflight-cases none preflight e = inl (sym (some-injective _ _ e))
preflight-cases (some cors) preflight e =
    elim (Option-cases (cors_response_handler cors (is_many cors.origins))) [
      | inl missing ↦ absurd (none-ne-some _ (rw missing at e))
      | inr (h, found) ↦ inr (_, sym (some-injective _ _ (rw found at e)), refl)
    ]

preflight_routes-ne-none :
    (o : Option CorsConfig) → AllSome IsCors o → preflight_routes o ≡ none → ⊥
unfolding preflight_routes cors_preflight_route
preflight_routes-ne-none none h e = some-ne-none _ e
preflight_routes-ne-none (some cors) h e =
    let (k, found, _) =
      Returns-value (cors_response_handler-Returns cors (is_many cors.origins) h.some_origin) in
    some-ne-none _ (rw found at e)

module _ (ing : Ingress) (sec : SecurityConfig) (ann : IngressAnnotations) where
  -- The route of a path: its id names its index, and its handlers serve its service.
  pub record IsPathRoute (host : String) (s : ℕ × HttpPath × ServiceBackend) (r : CaddyRoute)
      : Type 0 where
    pub id : r.id ≡ route_id ing.namespace ing.name host (pos s.0)
    pub match : r.match ≡ path_matches (convert_path s.1.path s.1.path_type)
    pub handle : IsServed sec ann (upstream_of ing s.2) (is_empty ing.tls) r.handle
    pub terminal : r.terminal ≡ false

  path_route-IsPathRoute :
      AllSome IsCors ann.cors
      → (host : String) (i : ℕ) (p : HttpPath) (svc : ServiceBackend)
      → Returns (IsPathRoute host (i, p, svc)) (path_route ing sec ann host i p svc)
  unfolding path_route
  path_route-IsPathRoute h host i p svc =
      Returns-bind _ (build_handlers-IsServed sec ann (upstream_of ing svc) (is_empty ing.tls) h)
        λ hs served.
          returns _ (record { id = refl; match = refl; handle = served; terminal = refl })

  path_routes-Each :
      AllSome IsCors ann.cors
      → (host : String) (i : ℕ) (ps : List HttpPath)
      → Returns (Each (IsPathRoute host) (services i ps)) (path_routes ing sec ann host i ps)
  unfolding path_routes services
  path_routes-Each h host i [] = returns [] done
  path_routes-Each h host i (p ∷ ps) = elim (Option-cases p.service) [
    | inl e ↦ rw e (path_routes-Each h host (suc i) ps)
    | inr (svc, e) ↦ rw e (
        Returns-bind _ (path_route-IsPathRoute h host i p svc) λ r route.
          Returns-bind _ (path_routes-Each h host (suc i) ps)
            λ rs each. returns _ (step route each))
  ]

  -- What the handlers of a host's route are, from the routes of its paths: the guards come first.
  pub data IsHandled (paths : List CaddyRoute) : List Json → Type 0 where
    sole_path :
        (r : CaddyRoute)
        → paths ≡ r ∷ []
        → is_empty r.match ≡ true
        → is_empty (build_ip_guard_routes ann) ≡ true
        → IsHandled paths r.handle
    nested :
        (preflight : List CaddyRoute)
        → preflight_routes ann.cors ≡ some preflight
        → IsHandled paths (subroute (build_ip_guard_routes ann ++ (preflight ++ paths)) ∷ [])

  -- The route of a rule: its id and hosts are the rule's, it is terminal, and it holds a route for each
  -- path with a service, behind the guards.
  pub record IsRuleRoute (s : Rule × List (ℕ × HttpPath × ServiceBackend)) (r : CaddyRoute)
      : Type 0 where
    pub paths : List CaddyRoute
    pub each : Each (IsPathRoute s.0.host) s.1 paths
    pub id : r.id ≡ route_id ing.namespace ing.name s.0.host parent
    pub match : r.match ≡ host_matches (hosts_of ann s.0)
    pub handle : IsHandled paths r.handle
    pub terminal : r.terminal ≡ true

  nested_under :
      (guards preflight paths : List CaddyRoute)
      → build_ip_guard_routes ann ≡ guards
      → preflight_routes ann.cors ≡ some preflight
      → IsHandled paths (subroute (guards ++ (preflight ++ paths)) ∷ [])
  nested_under guards preflight paths d e =
      subst (λ gs. IsHandled paths (subroute (gs ++ (preflight ++ paths)) ∷ [])) d
        (nested preflight e)

  sole_or_nested :
      (paths : List CaddyRoute)
      → build_ip_guard_routes ann ≡ []
      → preflight_routes ann.cors ≡ some []
      → IsHandled paths (flat_or_subroute (sole paths) paths)
  sole_or_nested [] d e = nested_under [] [] [] d e
  sole_or_nested (r ∷ s ∷ paths) d e = nested_under [] [] (r ∷ s ∷ paths) d e
  sole_or_nested (r ∷ []) d e = elim (Bool-cases (is_empty r.match)) [
    | inl free ↦ rw free (sole_path r refl free (ap is_empty d))
    | inr bound ↦ rw bound (nested_under [] [] (r ∷ []) d e)
  ]

  preflight_nested :
      (q : CaddyRoute) (paths : List CaddyRoute)
      → build_ip_guard_routes ann ≡ []
      → is_empty q.match ≡ false
      → preflight_routes ann.cors ≡ some (q ∷ [])
      → IsHandled paths (flat_or_subroute (sole (q ∷ paths)) (q ∷ paths))
  preflight_nested q [] d restricted e = rw restricted (nested_under [] (q ∷ []) [] d e)
  preflight_nested q (r ∷ paths) d restricted e = nested_under [] (q ∷ []) (r ∷ paths) d e

  handle_of-IsHandled :
      (guards preflight paths : List CaddyRoute)
      → build_ip_guard_routes ann ≡ guards
      → preflight_routes ann.cors ≡ some preflight
      → IsHandled paths (handle_of guards (guards ++ (preflight ++ paths)))
  unfolding handle_of
  handle_of-IsHandled (g ∷ guards) preflight paths d e =
      nested_under (g ∷ guards) preflight paths d e
  handle_of-IsHandled [] preflight paths d e = elim (preflight-cases ann.cors preflight e) [
    | inl absent ↦ rw absent (sole_or_nested paths d (rw absent at e))
    | inr (q, single, restricted) ↦
        rw single (preflight_nested q paths d restricted (rw single at e))
  ]

  host_route-IsRuleRoute :
      AllSome IsCors ann.cors
      → (rule : Rule) (services : List (ℕ × HttpPath × ServiceBackend)) (paths : List CaddyRoute)
      → Each (IsPathRoute rule.host) services paths
      → Returns (IsRuleRoute (rule, services)) (host_route ing sec ann rule paths)
  unfolding host_route
  host_route-IsRuleRoute h rule services paths each =
      elim (Option-cases (preflight_routes ann.cors)) [
        | inl missing ↦ absurd (preflight_routes-ne-none ann.cors h missing)
        | inr (preflight, e) ↦ rw e (
            returns _ (record {
              paths = paths;
              each = each;
              id = refl;
              match = refl;
              handle = handle_of-IsHandled (build_ip_guard_routes ann) preflight paths refl e;
              terminal = refl;
            }))
      ]

  rule_routes-Each :
      AllSome IsCors ann.cors
      → (rule : Rule) (o : Option (List HttpPath))
      → Returns (Each IsRuleRoute (served_rule rule o)) (rule_routes ing sec ann rule o)
  unfolding rule_routes served_rule
  rule_routes-Each h rule none = returns [] done
  rule_routes-Each h rule (some paths) =
      Returns-bind _ (path_routes-Each h rule.host 0 paths) λ routes each.
        elim (Bool-cases (is_empty (services 0 paths))) [
          | inl no_path ↦ rw (no_path, sym (Each-is_empty each) ∙ no_path) (returns [] done)
          | inr some_path ↦
              rw (some_path, sym (Each-is_empty each) ∙ some_path)
                (Returns-bind _ (host_route-IsRuleRoute h rule (services 0 paths) routes each)
                  λ r route. returns _ (step route done))
        ]

  convert_rules-Each :
      AllSome IsCors ann.cors
      → (rules : List Rule)
      → Returns (Each IsRuleRoute (served_rules rules)) (convert_rules ing sec ann rules)
  unfolding convert_rules served_rules
  convert_rules-Each h [] = returns [] done
  convert_rules-Each h (rule ∷ rules) =
      Returns-bind _ (rule_routes-Each h rule rule.http) λ here each.
        Returns-bind _ (convert_rules-Each h rules)
          λ rest others. returns _ (Each-append each others)

  -- For a configuration whose CORS part names an origin, conversion never fails, and it makes one route
  -- for each rule that has a path with a service, in the order of the rules, as `IsRuleRoute` describes.
  pub convert_ingress-Each :
      AllSome IsCors ann.cors
      → Returns (Each IsRuleRoute (served_rules ing.rules)) (convert_ingress ing sec ann)
  unfolding convert_ingress
  convert_ingress-Each h = convert_rules-Each h ing.rules
