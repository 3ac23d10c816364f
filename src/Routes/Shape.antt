-- ===== src/Routes/Shape.antt =====
-- Well-formed handlers of routes.go: objects that name a module of Caddy.
pub mod Chains
pub mod Converted
use caddy_k8s.Base.{
  String, ◌≡◌, refl, Bool, true, false, not, ◌&&◌, Option, none, some, List, [], ◌∷◌, ◌++◌, map,
  if◌then◌else◌, is_empty, is_positive, arith, AllSome, map_option, ◌>>=◌, Bool-cases, inl, inr, ℤ,
}
use caddy_k8s.Json.{Json, Fields, end, entry, obj, str, int, field, is_null}
use caddy_k8s.Hosts.{elem, distinct}
use caddy_k8s.Strings.{is_blank}
use caddy_k8s.Dict.{Dict}
use caddy_k8s.Annotations.Config.{
  IngressAnnotations, HeaderConfig, ProxyConfig, CorsConfig, empty_headers, BasicAuthConfig,
}
use caddy_k8s.Routes.Model.{CaddyRoute, SecurityConfig, unless}
use caddy_k8s.Routes.Handlers.{
  handler, set_response, cors_response_handler, build_cors_response_headers, rate_limit_handler,
  basic_auth_handler, security_headers_handler, response_headers_handler, waf_handler,
  reverse_proxy_handler,
}
use caddy_k8s.Routes.Build.{
  subroute, status_response, redirect_response, guard_route, whitelist_match, blocklist_match,
  build_ip_guard_routes, auth_handlers, cors_handlers, inner_handlers, build_core_handlers,
  origin_subroute, chain_of, build_handlers, is_many, has_redirect, cors_preflight_route,
  waf_enabled, waf_mode,
}

-- The modules of Caddy that the routes use.
abbrev pub modules : List String
modules =
    "static_response" ∷ "headers" ∷ "rate_limit" ∷ "authentication" ∷ "request_body" ∷ "rewrite"
    ∷ "waf" ∷ "reverse_proxy" ∷ []

abbrev names_module : Option Json → Bool
names_module (some (str name)) = elem name modules
names_module _ = false

abbrev field_names : Fields → List String
field_names end = []
field_names (entry k v m) = k ∷ field_names m

-- An object with distinct keys whose "handler" is a module.
unfoldable pub is_module : Json → Bool
is_module (obj m) = names_module (field "handler" (obj m)) && distinct (field_names m)
is_module _ = false

mutual
  -- Each handler is an object with distinct keys that names a module, the handler of the annotation, or
  -- a subroute of such routes.
  pub data AreHandlers (policy : Json) : List Json → Type 0 where
    no_handler : AreHandlers policy []
    module_named :
        (j : Json) {rest : List Json}
        → is_module j ≡ true
        → AreHandlers policy rest
        → AreHandlers policy (j ∷ rest)
    policy_handler :
        {rest : List Json} → AreHandlers policy rest → AreHandlers policy (policy ∷ rest)
    subroute_of :
        (routes : List CaddyRoute) {rest : List Json}
        → AreRoutes policy routes
        → AreHandlers policy rest
        → AreHandlers policy (subroute routes ∷ rest)

  pub data AreRoutes (policy : Json) : List CaddyRoute → Type 0 where
    no_route : AreRoutes policy []
    route_with :
        (r : CaddyRoute) {rest : List CaddyRoute}
        → AreHandlers policy r.handle
        → AreRoutes policy rest
        → AreRoutes policy (r ∷ rest)

module _ (policy : Json) where
  pub append-AreHandlers :
      {xs ys : List Json}
      → AreHandlers policy xs
      → AreHandlers policy ys
      → AreHandlers policy (xs ++ ys)
  append-AreHandlers no_handler hy = hy
  append-AreHandlers (module_named j known hx) hy = module_named j known (append-AreHandlers hx hy)
  append-AreHandlers (policy_handler hx) hy = policy_handler (append-AreHandlers hx hy)
  append-AreHandlers (subroute_of routes inside hx) hy =
      subroute_of routes inside (append-AreHandlers hx hy)

  pub append-AreRoutes :
      {xs ys : List CaddyRoute}
      → AreRoutes policy xs
      → AreRoutes policy ys
      → AreRoutes policy (xs ++ ys)
  append-AreRoutes no_route hy = hy
  append-AreRoutes (route_with r h hx) hy = route_with r h (append-AreRoutes hx hy)

  pub link :
      (b : Bool) (j : Json) {rest : List Json}
      → AreHandlers policy (j ∷ [])
      → AreHandlers policy rest
      → AreHandlers policy (unless b j ++ rest)
  link true j h hs = hs
  link false j h hs = append-AreHandlers h hs

  pub unless-AreRoutes :
      (b : Bool) (r : CaddyRoute) → AreHandlers policy r.handle → AreRoutes policy (unless b r)
  unless-AreRoutes true r h = no_route
  unless-AreRoutes false r h = route_with r h no_route
