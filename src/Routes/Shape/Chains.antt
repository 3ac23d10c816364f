-- ===== src/Routes/Shape/Chains.antt =====
-- The form of the handlers in a chain of routes.go.
use caddy_k8s.Base.{
  String, ◌≡◌, refl, Bool, true, false, not, ◌&&◌, Option, none, some, List, [], ◌∷◌, is_positive,
  arith, AllSome, AllSome-then, map_option, Bool-cases, inl, inr, ℤ,
}
use caddy_k8s.Json.{Json, str, int, field, is_null}
use caddy_k8s.Strings.{is_blank}
use caddy_k8s.Dict.{Dict}
use caddy_k8s.Annotations.Config.{
  IngressAnnotations, HeaderConfig, ProxyConfig, CorsConfig, empty_headers, BasicAuthConfig,
}
use caddy_k8s.Routes.Model.{SecurityConfig}
use caddy_k8s.Routes.Handlers.{
  handler, set_response, cors_response_handler, build_cors_response_headers, rate_limit_handler,
  basic_auth_handler, security_headers_handler, response_headers_handler, waf_handler,
  reverse_proxy_handler,
}
use caddy_k8s.Routes.Build.{
  auth_handlers, cors_handlers, inner_handlers, build_core_handlers, origin_subroute, chain_of,
  build_handlers, is_many, has_redirect, waf_enabled, waf_mode,
}
use caddy_k8s.Routes.Shape.{
  is_module, AreHandlers, no_handler, module_named, policy_handler, subroute_of, no_route,
  route_with, append-AreHandlers, link,
}

module _ (policy : Json) where
  reverse_proxy_handler-is_module :
      (upstream : String) (inject : Bool) (proxy : ProxyConfig) (plain_http : Bool)
      (req : HeaderConfig)
      → is_module (reverse_proxy_handler upstream inject proxy plain_http req) ≡ true
  unfolding is_module reverse_proxy_handler field
  reverse_proxy_handler-is_module upstream inject proxy plain_http req = ground arith

  response_headers_handler-is_module :
      (cfg : HeaderConfig) → is_module (response_headers_handler cfg) ≡ true
  unfolding is_module response_headers_handler field
  response_headers_handler-is_module cfg = refl

  basic_auth_handler-is_module : (cfg : BasicAuthConfig) → is_module (basic_auth_handler cfg) ≡ true
  unfolding is_module basic_auth_handler field
  basic_auth_handler-is_module cfg = refl

  rate_limit_handler-is_module :
      (namespace name : String) (rps : ℤ) → is_module (rate_limit_handler namespace name rps) ≡ true
  unfolding is_module rate_limit_handler field
  rate_limit_handler-is_module namespace name rps = refl

  waf_handler-is_module :
      (mode : String) (extra : List String) → is_module (waf_handler mode extra) ≡ true
  unfolding is_module waf_handler field
  waf_handler-is_module mode extra = refl

  pub one : (j : Json) → is_module j ≡ true → AreHandlers policy (j ∷ [])
  one j known = module_named j known no_handler

  auth_handlers-AreHandlers : (o : Option BasicAuthConfig) → AreHandlers policy (auth_handlers o)
  unfolding auth_handlers
  auth_handlers-AreHandlers none = no_handler
  auth_handlers-AreHandlers (some cfg) = one _ (basic_auth_handler-is_module cfg)

  set_response-AllSome :
      (o : Option (Dict (List String)))
      → AllSome (λ h. is_module h ≡ true) (map_option set_response o)
  unfolding is_module field
  set_response-AllSome none = tt
  set_response-AllSome (some m) = refl

  pub cors_response_handler-is_module :
      (cors : CorsConfig) (dynamic : Bool)
      → AllSome (λ h. is_module h ≡ true) (cors_response_handler cors dynamic)
  unfolding cors_response_handler
  cors_response_handler-is_module cors dynamic =
      set_response-AllSome (build_cors_response_headers cors dynamic)

  cors_handlers-AreHandlers :
      (with_cors : Bool) (o : Option CorsConfig) (dynamic : Bool)
      → AllSome (AreHandlers policy) (cors_handlers with_cors o dynamic)
  unfolding cors_handlers
  cors_handlers-AreHandlers with_cors none dynamic = no_handler
  cors_handlers-AreHandlers true (some cors) dynamic =
      AllSome-then (λ h. is_module h ≡ true) (AreHandlers policy) _ _ (λ h known. one h known)
        (cors_response_handler-is_module cors dynamic)
  cors_handlers-AreHandlers false (some cors) dynamic = no_handler

module _ (sec : SecurityConfig) (ann : IngressAnnotations) where
  abbrev pub policy : Json
  policy = ann.auth_policy_handler

  inner_handlers-AreHandlers :
      (upstream : String) (plain_http : Bool)
      → AreHandlers policy (inner_handlers upstream sec ann plain_http)
  unfolding inner_handlers security_headers_handler is_module field
  inner_handlers-AreHandlers upstream plain_http =
      let proxied =
        reverse_proxy_handler-is_module policy upstream sec.inject_real_ip ann.proxy plain_http
          ann.request_headers in
      let body = handler "request_body" (("max_size", int ann.proxy.max_body_size) ∷ []) in
      let rewrite = handler "rewrite" (("uri", str ann.rewrite_target) ∷ []) in
      let limit = rate_limit_handler ann.namespace ann.name ann.limit_rps in
      let response = response_headers_handler ann.response_headers in
      let waf = waf_handler (waf_mode sec ann) ann.waf_directives in
      append-AreHandlers policy (auth_handlers-AreHandlers policy ann.basic_auth) (
        link policy (not (is_positive ann.proxy.max_body_size)) body (one policy body refl) (
          link policy (not (is_positive ann.limit_rps)) limit
            (one policy limit (rate_limit_handler-is_module policy _ _ _))
            (link policy (is_blank ann.rewrite_target) rewrite (one policy rewrite refl) (
              link policy (not (sec.security_headers && not plain_http)) security_headers_handler
                (one policy security_headers_handler refl)
                (link policy (empty_headers ann.response_headers) response
                  (one policy response (response_headers_handler-is_module policy _))
                  (link policy (not (waf_enabled sec ann)) waf
                    (one policy waf (waf_handler-is_module policy _ _))
                    (link policy (is_null ann.auth_policy_handler) ann.auth_policy_handler
                      (policy_handler no_handler) (one policy _ proxied))))))))

  build_core_handlers-AreHandlers :
      (upstream : String) (plain_http with_cors dynamic : Bool)
      → AllSome
          (AreHandlers policy)
          (build_core_handlers upstream sec ann plain_http with_cors dynamic)
  unfolding build_core_handlers
  build_core_handlers-AreHandlers upstream plain_http with_cors dynamic =
      AllSome-then (AreHandlers policy) (AreHandlers policy) _ _
        (λ cors h. append-AreHandlers policy h (inner_handlers-AreHandlers upstream plain_http))
        (cors_handlers-AreHandlers policy with_cors ann.cors dynamic)

  origin_subroute-AreHandlers :
      (origins : List String) (xs ys : List Json)
      → AreHandlers policy xs
      → AreHandlers policy ys
      → AreHandlers policy (origin_subroute origins xs ys ∷ [])
  unfolding origin_subroute
  origin_subroute-AreHandlers origins xs ys hx hy =
      subroute_of _ (route_with _ hx (route_with _ hy no_route)) no_handler

  chain_of-AreHandlers :
      (upstream : String) (plain_http : Bool) (o : Option CorsConfig)
      → AllSome (AreHandlers policy) (chain_of upstream sec ann plain_http o)
  unfolding chain_of
  chain_of-AreHandlers upstream plain_http none =
      build_core_handlers-AreHandlers upstream plain_http false false
  chain_of-AreHandlers upstream plain_http (some cors) = elim (Bool-cases (is_many cors.origins)) [
    | inl e ↦ rw e (
        AllSome-then (AreHandlers policy) (AreHandlers policy) _ _
          (λ xs hx.
            AllSome-then (AreHandlers policy) (AreHandlers policy) _ _
              (λ ys hy. origin_subroute-AreHandlers cors.origins xs ys hx hy)
              (build_core_handlers-AreHandlers upstream plain_http false false))
          (build_core_handlers-AreHandlers upstream plain_http true true))
    | inr e ↦ rw e (build_core_handlers-AreHandlers upstream plain_http true false)
  ]

  pub build_handlers-AreHandlers :
      (upstream : String) (plain_http : Bool)
      → AllSome (AreHandlers policy) (build_handlers upstream sec ann plain_http)
  unfolding build_handlers is_module field
  build_handlers-AreHandlers upstream plain_http = elim (Bool-cases (has_redirect ann)) [
    | inl e ↦ rw e (one policy _ refl)
    | inr e ↦ rw e (chain_of-AreHandlers upstream plain_http ann.cors)
  ]
