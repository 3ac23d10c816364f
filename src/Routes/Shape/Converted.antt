-- ===== src/Routes/Shape/Converted.antt =====
-- The form of the handlers in the routes that convertIngress of routes.go makes.
use caddy_k8s.Base.{
  ℕ, suc, pos, String, ◌≡◌, refl, true, Option, none, some, List, [], ◌∷◌, AllSome, AllSome-value,
  AllSome-then, Returns, returns, Returns-value, sym, is_empty, Option-cases, Bool-cases, inl, inr,
}
use caddy_k8s.Strings.{is_blank}
use caddy_k8s.Annotations.WellFormed.{IsCors}
use caddy_k8s.Routes.Rules.{convert_ingress-Each}
use mathlib.Core.Path.{subst}
use caddy_k8s.Kube.{Ingress, Rule, HttpPath}
use caddy_k8s.Json.{Json, field}
use caddy_k8s.Annotations.Config.{IngressAnnotations, CorsConfig}
use caddy_k8s.Routes.Model.{CaddyRoute, SecurityConfig}
use caddy_k8s.Routes.Build.{
  guard_route, whitelist_match, blocklist_match, build_ip_guard_routes, cors_preflight_route,
  is_many, status_response, redirect_response,
}
use caddy_k8s.Routes.Convert.{
  sole, flat_or_subroute, handle_of, preflight_routes, upstream_of, path_route, path_routes,
  host_route, rule_routes, convert_rules, convert_ingress, redirect_routes, http_redirect_routes,
}
use caddy_k8s.Routes.Shape.{
  is_module, AreHandlers, no_handler, module_named, subroute_of, AreRoutes, no_route, route_with,
  append-AreRoutes, unless-AreRoutes,
}
use caddy_k8s.Routes.Shape.Chains.{one, cors_response_handler-is_module, build_handlers-AreHandlers}

module _ (policy : Json) where
  abbrev Shaped : List CaddyRoute → Type 0
  Shaped = AreRoutes policy

  sole-AreHandlers :
      (routes : List CaddyRoute) → Shaped routes → AllSome (AreHandlers policy) (sole routes)
  sole-AreHandlers [] h = tt
  sole-AreHandlers (r ∷ s ∷ rest) h = tt
  sole-AreHandlers (r ∷ []) (route_with r' h none_left) = elim (Bool-cases (is_empty r.match)) [
    | inl e ↦ rw e h
    | inr e ↦ rw e tt
  ]

  flat_or_subroute-AreHandlers :
      (o : Option (List Json)) (routes : List CaddyRoute)
      → AllSome (AreHandlers policy) o
      → Shaped routes
      → AreHandlers policy (flat_or_subroute o routes)
  flat_or_subroute-AreHandlers none routes h hs = subroute_of routes hs no_handler
  flat_or_subroute-AreHandlers (some handle) routes h hs = h

  handle_of-AreHandlers :
      (guards routes : List CaddyRoute)
      → Shaped routes
      → AreHandlers policy (handle_of guards routes)
  unfolding handle_of
  handle_of-AreHandlers [] routes h =
      flat_or_subroute-AreHandlers (sole routes) routes (sole-AreHandlers routes h) h
  handle_of-AreHandlers (g ∷ guards) routes h = subroute_of routes h no_handler

  cors_preflight_route-AreHandlers :
      (cors : CorsConfig) → AllSome (λ r. AreHandlers policy r.handle) (cors_preflight_route cors)
  unfolding cors_preflight_route is_module field
  cors_preflight_route-AreHandlers cors =
      AllSome-then (λ h. is_module h ≡ true) (λ r. AreHandlers policy r.handle) _ _
        (λ h known. module_named h known (one policy (status_response 204) refl))
        (cors_response_handler-is_module policy cors (is_many cors.origins))

  preflight_routes-AreRoutes : (o : Option CorsConfig) → AllSome Shaped (preflight_routes o)
  unfolding preflight_routes
  preflight_routes-AreRoutes none = no_route
  preflight_routes-AreRoutes (some cors) =
      AllSome-then (λ r. AreHandlers policy r.handle) Shaped _ _ (λ r h. route_with r h no_route)
        (cors_preflight_route-AreHandlers cors)

  build_ip_guard_routes-AreRoutes : (ann : IngressAnnotations) → Shaped (build_ip_guard_routes ann)
  unfolding build_ip_guard_routes is_module field
  build_ip_guard_routes-AreRoutes ann =
      append-AreRoutes policy
        (unless-AreRoutes policy (is_empty ann.whitelist)
          (guard_route (whitelist_match ann.whitelist)) (one policy (status_response 403) refl))
        (unless-AreRoutes policy (is_empty ann.blocklist)
          (guard_route (blocklist_match ann.blocklist)) (one policy (status_response 403) refl))

  redirect_routes-AreRoutes :
      (namespace name : String) (rules : List Rule) → Shaped (redirect_routes namespace name rules)
  unfolding redirect_routes is_module field
  redirect_routes-AreRoutes namespace name [] = no_route
  redirect_routes-AreRoutes namespace name (rule ∷ rules) = elim (Bool-cases (is_blank rule.host)) [
    | inl e ↦ rw e (redirect_routes-AreRoutes namespace name rules)
    | inr e ↦ rw e (
        route_with _
          (one policy (redirect_response (pos 301) "https://{http.request.host}{http.request.uri}")
            refl)
          (redirect_routes-AreRoutes namespace name rules))
  ]

module _ (ing : Ingress) (sec : SecurityConfig) (ann : IngressAnnotations) where
  abbrev pub annotated : Json
  annotated = ann.auth_policy_handler

  path_routes-AreRoutes :
      (host : String) (i : ℕ) (paths : List HttpPath)
      → AllSome (AreRoutes annotated) (path_routes ing sec ann host i paths)
  unfolding path_routes path_route
  path_routes-AreRoutes host i [] = no_route
  path_routes-AreRoutes host i (p ∷ ps) = elim (Option-cases p.service) [
    | inl e ↦ rw e (path_routes-AreRoutes host (suc i) ps)
    | inr (svc, e) ↦ rw e (
        AllSome-then (λ r. AreHandlers annotated r.handle) (AreRoutes annotated) _ _
          (λ r h.
            AllSome-then (AreRoutes annotated) (AreRoutes annotated) _ _
              (λ rs hs. route_with r h hs) (path_routes-AreRoutes host (suc i) ps))
          (AllSome-then (AreHandlers annotated) (λ r. AreHandlers annotated r.handle) _ _
            (λ hs h. h)
            (build_handlers-AreHandlers sec ann (upstream_of ing svc) (is_empty ing.tls))))
  ]

  host_route-AreHandlers :
      (rule : Rule) (paths : List CaddyRoute)
      → AreRoutes annotated paths
      → AllSome (λ r. AreHandlers annotated r.handle) (host_route ing sec ann rule paths)
  unfolding host_route
  host_route-AreHandlers rule paths h =
      AllSome-then (AreRoutes annotated) (λ r. AreHandlers annotated r.handle) _ _
        (λ preflight hp. handle_of-AreHandlers annotated (build_ip_guard_routes ann) _ (
          append-AreRoutes annotated (build_ip_guard_routes-AreRoutes annotated ann)
            (append-AreRoutes annotated hp h)))
        (preflight_routes-AreRoutes annotated ann.cors)

  rule_routes-AreRoutes :
      (rule : Rule) (o : Option (List HttpPath))
      → AllSome (AreRoutes annotated) (rule_routes ing sec ann rule o)
  unfolding rule_routes
  rule_routes-AreRoutes rule none = no_route
  rule_routes-AreRoutes rule (some paths) =
      AllSome-then (AreRoutes annotated) (AreRoutes annotated) _ _
        (λ routes h. elim (Bool-cases (is_empty routes)) [
          | inl e ↦ rw e no_route
          | inr e ↦ rw e (
              AllSome-then (λ r. AreHandlers annotated r.handle) (AreRoutes annotated) _ _
                (λ r hr. route_with r hr no_route) (host_route-AreHandlers rule routes h))
        ])
        (path_routes-AreRoutes rule.host 0 paths)

  convert_rules-AreRoutes :
      (rules : List Rule) → AllSome (AreRoutes annotated) (convert_rules ing sec ann rules)
  unfolding convert_rules
  convert_rules-AreRoutes [] = no_route
  convert_rules-AreRoutes (rule ∷ rules) =
      AllSome-then (AreRoutes annotated) (AreRoutes annotated) _ _
        (λ here h.
          AllSome-then (AreRoutes annotated) (AreRoutes annotated) _ _
            (λ rest hs. append-AreRoutes annotated h hs) (convert_rules-AreRoutes rules))
        (rule_routes-AreRoutes rule rule.http)

  -- For a configuration whose CORS part names an origin, the conversion returns, and each handler of its
  -- routes and of the redirect routes, at every depth of the subroutes, is an object with distinct keys
  -- that names a module of Caddy, or it is the handler of the policy annotation.
  pub convert_ingress-AreRoutes :
      AllSome IsCors ann.cors
      → Returns (AreRoutes annotated) (convert_ingress ing sec ann)
        × AreRoutes annotated (http_redirect_routes ing)
  unfolding convert_ingress http_redirect_routes
  convert_ingress-AreRoutes h =
      let (made, e, each) = Returns-value (convert_ingress-Each ing sec ann h) in
      let shaped =
        AllSome-value (AreRoutes annotated) _ made (convert_rules-AreRoutes ing.rules) e in
      (
        subst (Returns (AreRoutes annotated)) (sym e) (returns made shaped),
        redirect_routes-AreRoutes annotated ing.namespace ing.name ing.rules,
      )
