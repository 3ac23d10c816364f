-- ===== src/Routes/Chain.antt =====
-- What stands between a request and the upstream: the handlers that a chain must pass.
use caddy_k8s.Base.{
  String, ◌≡◌, refl, Bool, true, false, not, ◌&&◌, Option, none, some, List, [], ◌∷◌, ◌++◌, ◌∙◌, ap,
  sym, is_positive, is_empty, AllSome, Returns, returns, Returns-bind, Returns-imp,
  Returns-map_option, Bool-cases, inl, inr,
}
use mathlib.Core.List.{append_assoc}
use caddy_k8s.Strings.{is_blank}
use caddy_k8s.Json.{Json, int, str, is_null}
use caddy_k8s.Annotations.Config.{CorsConfig, IngressAnnotations, BasicAuthConfig, empty_headers}
use caddy_k8s.Annotations.WellFormed.{IsCors}
use caddy_k8s.Routes.Model.{SecurityConfig, unless}
use caddy_k8s.Routes.Handlers.{
  handler, first_origin, cors_response_handler, rate_limit_handler, basic_auth_handler, waf_handler,
  security_headers_handler, response_headers_handler, reverse_proxy_handler,
}
use caddy_k8s.Routes.Build.{
  waf_enabled, waf_mode, auth_handlers, cors_handlers, inner_handlers, build_core_handlers,
  redirect_response, redirect_of, has_redirect, is_many, origin_subroute, chain_of, build_handlers,
}

-- The list ends in `p`.
abbrev Ends : Json → List Json → Type 0
Ends p xs = (front : List Json) × (xs ≡ front ++ (p ∷ []))

-- The list ends in `p`, and `h` stands before it.
abbrev pub Before : Json → Json → List Json → Type 0
Before h p xs = (front middle : List Json) × (xs ≡ front ++ (h ∷ (middle ++ (p ∷ []))))

module _ {p : Json} where
  Ends-append : (xs : List Json) {ys : List Json} → Ends p ys → Ends p (xs ++ ys)
  Ends-append xs (front, e) = (xs ++ front, ap (λ l. xs ++ l) e ∙ sym (append_assoc xs front _))

module _ {h p : Json} where
  Before-append : (xs : List Json) {ys : List Json} → Before h p ys → Before h p (xs ++ ys)
  Before-append xs (front, middle, e) =
      (xs ++ front, middle, ap (λ l. xs ++ l) e ∙ sym (append_assoc xs front _))

  Before-unless :
      (b : Bool) {ys : List Json} → b ≡ false → Ends p ys → Before h p (unless b h ++ ys)
  Before-unless b e (middle, d) = rw e ([], middle, ap (λ l. h ∷ l) d)

Before-auth :
    {p : Json} {cfg : BasicAuthConfig} (o : Option BasicAuthConfig) {ys : List Json}
    → o ≡ some cfg
    → Ends p ys
    → Before (basic_auth_handler cfg) p (auth_handlers o ++ ys)
unfolding auth_handlers
Before-auth {cfg} o e (middle, d) = rw e ([], middle, ap (λ l. basic_auth_handler cfg ∷ l) d)

first_origin-Returns :
    (os : List String) → is_empty os ≡ false → Returns (λ o. Unit {0}) (first_origin os)
first_origin-Returns [] h = cc
first_origin-Returns (o ∷ os) h = returns o tt

-- No panic: there is an origin to name.
pub cors_response_handler-Returns :
    (cors : CorsConfig) (dynamic : Bool)
    → is_empty cors.origins ≡ false
    → Returns (λ h. Unit {0}) (cors_response_handler cors dynamic)
unfolding cors_response_handler
cors_response_handler-Returns cors true h = returns _ tt
cors_response_handler-Returns cors false h =
    Returns-map_option _ (Returns-map_option _ (first_origin-Returns cors.origins h))

cors_handlers-Returns :
    (with_cors dynamic : Bool) (o : Option CorsConfig)
    → AllSome IsCors o
    → Returns (λ hs. Unit {0}) (cors_handlers with_cors o dynamic)
unfolding cors_handlers
cors_handlers-Returns with_cors dynamic none h = returns [] tt
cors_handlers-Returns true dynamic (some cors) h =
    Returns-bind _ (cors_response_handler-Returns cors dynamic h.some_origin) λ k _. returns _ tt
cors_handlers-Returns false dynamic (some cors) h = returns [] tt

module _ (sec : SecurityConfig) (ann : IngressAnnotations) where
  -- The handlers that a request must pass before the upstream sees it.
  pub data IsRequired : Json → Type 0 where
    auth : (cfg : BasicAuthConfig) → ann.basic_auth ≡ some cfg → IsRequired (basic_auth_handler cfg)
    body_limit :
        is_positive ann.proxy.max_body_size ≡ true
        → IsRequired (handler "request_body" (("max_size", int ann.proxy.max_body_size) ∷ []))
    rate_limit :
        is_positive ann.limit_rps ≡ true
        → IsRequired (rate_limit_handler ann.namespace ann.name ann.limit_rps)
    firewall :
        waf_enabled sec ann ≡ true → IsRequired (waf_handler (waf_mode sec ann) ann.waf_directives)
    policy : is_null ann.auth_policy_handler ≡ false → IsRequired ann.auth_policy_handler

  module _ (upstream : String) (plain_http : Bool) where
    abbrev proxy_handler : Json
    proxy_handler =
        reverse_proxy_handler upstream sec.inject_real_ip ann.proxy plain_http ann.request_headers

    -- Every required handler stands before the proxy, which comes last.
    abbrev pub IsChain : List Json → Type 0
    IsChain chain = (h : Json) → IsRequired h → Before h proxy_handler chain

    -- The stages of the chain, from the body limit on.
    abbrev body_stage : List Json
    body_stage =
        unless (not (is_positive ann.proxy.max_body_size))
          (handler "request_body" (("max_size", int ann.proxy.max_body_size) ∷ []))

    abbrev rate_stage : List Json
    rate_stage =
        unless (not (is_positive ann.limit_rps))
          (rate_limit_handler ann.namespace ann.name ann.limit_rps)

    abbrev rewrite_stage : List Json
    rewrite_stage =
        unless (is_blank ann.rewrite_target)
          (handler "rewrite" (("uri", str ann.rewrite_target) ∷ []))

    abbrev secure_stage : List Json
    secure_stage = unless (not (sec.security_headers && not plain_http)) security_headers_handler

    abbrev custom_stage : List Json
    custom_stage =
        unless (empty_headers ann.response_headers) (response_headers_handler ann.response_headers)

    abbrev waf_stage : List Json
    waf_stage =
        unless (not (waf_enabled sec ann)) (waf_handler (waf_mode sec ann) ann.waf_directives)

    abbrev policy_stage : List Json
    policy_stage = unless (is_null ann.auth_policy_handler) ann.auth_policy_handler

    end_policy : Ends proxy_handler (policy_stage ++ (proxy_handler ∷ []))
    end_policy = Ends-append policy_stage ([], refl)

    end_waf : Ends proxy_handler (waf_stage ++ (policy_stage ++ (proxy_handler ∷ [])))
    end_waf = Ends-append waf_stage end_policy

    abbrev tail : List Json
    tail =
        rewrite_stage
        ++ (secure_stage ++ (custom_stage ++ (waf_stage ++ (policy_stage ++ (proxy_handler ∷ [])))))

    end_tail : Ends proxy_handler tail
    end_tail =
        Ends-append rewrite_stage (Ends-append secure_stage (Ends-append custom_stage end_waf))

    Before-tail :
        {h : Json}
        → Before h proxy_handler (waf_stage ++ (policy_stage ++ (proxy_handler ∷ [])))
        → Before h proxy_handler
            (auth_handlers ann.basic_auth ++ (body_stage ++ (rate_stage ++ tail)))
    Before-tail b = Before-append (auth_handlers ann.basic_auth) (
        Before-append body_stage (
          Before-append rate_stage (
            Before-append rewrite_stage
              (Before-append secure_stage (Before-append custom_stage b)))))

    inner_handlers-IsChain : IsChain (inner_handlers upstream sec ann plain_http)
    unfolding inner_handlers
    inner_handlers-IsChain _ (auth cfg e) =
        Before-auth ann.basic_auth e (Ends-append body_stage (Ends-append rate_stage end_tail))
    inner_handlers-IsChain _ (body_limit e) =
        Before-append (auth_handlers ann.basic_auth)
          (Before-unless _ (ap not e) (Ends-append rate_stage end_tail))
    inner_handlers-IsChain _ (rate_limit e) =
        Before-append (auth_handlers ann.basic_auth)
          (Before-append body_stage (Before-unless _ (ap not e) end_tail))
    inner_handlers-IsChain _ (firewall e) = Before-tail (Before-unless _ (ap not e) end_policy)
    inner_handlers-IsChain _ (policy e) =
        Before-tail (Before-append waf_stage (Before-unless _ e ([], refl)))

    -- With an origin to name, a core chain is built, and it holds the required handlers in order.
    build_core_handlers-IsChain :
        (with_cors dynamic : Bool)
        → AllSome IsCors ann.cors
        → Returns IsChain (build_core_handlers upstream sec ann plain_http with_cors dynamic)
    unfolding build_core_handlers
    build_core_handlers-IsChain with_cors dynamic h =
        Returns-bind _ (cors_handlers-Returns with_cors dynamic ann.cors h)
          λ cors _. returns _ λ k r. Before-append cors (inner_handlers-IsChain k r)

    -- What `build_handlers` makes: a redirect, one chain, or a chain for the listed origins and one for
    -- the others. No form reaches the upstream past a required handler.
    pub data IsServed : List Json → Type 0 where
      redirected :
          has_redirect ann ≡ true
          → IsServed (redirect_response (redirect_of ann).0 (redirect_of ann).1 ∷ [])
      chained : (chain : List Json) → has_redirect ann ≡ false → IsChain chain → IsServed chain
      by_origin :
          (cors : CorsConfig) (listed others : List Json)
          → has_redirect ann ≡ false
          → ann.cors ≡ some cors
          → IsChain listed
          → IsChain others
          → IsServed (origin_subroute cors.origins listed others ∷ [])

    chain_of-IsServed :
        (o : Option CorsConfig)
        → has_redirect ann ≡ false
        → ann.cors ≡ o
        → AllSome IsCors ann.cors
        → Returns IsServed (chain_of upstream sec ann plain_http o)
    unfolding chain_of
    chain_of-IsServed none n e h =
        Returns-imp (build_core_handlers-IsChain false false h) λ chain c. chained chain n c
    chain_of-IsServed (some cors) n e h = elim (Bool-cases (is_many cors.origins)) [
      | inl many ↦ rw many (
          Returns-bind _ (build_core_handlers-IsChain true true h) λ listed l.
            Returns-bind _ (build_core_handlers-IsChain false false h)
              λ others o. returns _ (by_origin cors listed others n e l o))
      | inr sole ↦
          rw sole
            (Returns-imp (build_core_handlers-IsChain true false h) λ chain c. chained chain n c)
    ]

    -- For a configuration whose CORS part names an origin, handlers are always built, and they are a
    -- redirect exactly for a redirect annotation; else every required handler stands before the proxy
    -- on every path to the upstream.
    pub build_handlers-IsServed :
        AllSome IsCors ann.cors → Returns IsServed (build_handlers upstream sec ann plain_http)
    unfolding build_handlers
    build_handlers-IsServed h = elim (Bool-cases (has_redirect ann)) [
      | inl r ↦ rw r (returns _ (redirected r))
      | inr n ↦ rw n (chain_of-IsServed ann.cors n refl h)
    ]
