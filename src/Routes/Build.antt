-- ===== src/Routes/Build.antt =====
-- Handler chains and the routes before the paths: `buildIPGuardRoutes`, `buildHandlers`,
-- `buildCoreHandlers` and `corsPreflightRoute` of routes.go. `none` is the panic of `cors.origins[0]`
-- on an empty list.
use caddy_k8s.Base.{
  ◌>>=◌, ℕ, String, Bool, true, false, not, ◌&&◌, ◌||◌, Option, none, some, List, [], ◌∷◌, ◌++◌,
  map, ltb, if◌then◌else◌, ℤ, pos, is_positive, is_empty, length,
}
use caddy_k8s.Strings.{is_blank}
use caddy_k8s.Json.{Json, int, str, array, number, is_null}
use caddy_k8s.Annotations.Config.{
  CorsConfig, is_wildcard, IngressAnnotations, BasicAuthConfig, empty_headers,
}
use caddy_k8s.Routes.Model.{
  CaddyMatch, match_all, CaddyRoute, SecurityConfig, unless, header_map, marshal_route,
}
use caddy_k8s.Routes.Handlers.{
  handler, cors_response_handler, rate_limit_handler, basic_auth_handler, security_headers_handler,
  response_headers_handler, waf_handler, reverse_proxy_handler,
}

-- A handler that answers with a status.
abbrev pub status_response : ℕ → Json
status_response code = handler "static_response" (("status_code", number code) ∷ [])

-- A handler that answers with a redirect.
abbrev pub redirect_response : ℤ → String → Json
redirect_response code url =
    handler "static_response"
      (("status_code", int code) ∷ ("headers", header_map (("Location", url ∷ []) ∷ [])) ∷ [])

abbrev pub subroute : List CaddyRoute → Json
subroute routes = handler "subroute" (("routes", array (map marshal_route routes)) ∷ [])

-- A route that refuses the requests of a match.
abbrev pub guard_route : CaddyMatch → CaddyRoute
guard_route m = record {
  id = "";
  match = m ∷ [];
  handle = status_response 403 ∷ [];
  terminal = true;
}

abbrev pub whitelist_match : List String → CaddyMatch
whitelist_match ranges = record match_all {
  not = record { remote_ip = some (record { ranges = ranges }) } ∷ [];
}

abbrev pub blocklist_match : List String → CaddyMatch
blocklist_match ranges = record match_all { remote_ip = some (record { ranges = ranges }) }

unfoldable pub build_ip_guard_routes : IngressAnnotations → List CaddyRoute
build_ip_guard_routes ann =
    unless (is_empty ann.whitelist) (guard_route (whitelist_match ann.whitelist))
    ++ unless (is_empty ann.blocklist) (guard_route (blocklist_match ann.blocklist))

-- The settings of the firewall: the annotation's, or the global ones.
unfoldable pub waf_enabled : SecurityConfig → IngressAnnotations → Bool
waf_enabled sec ann = elim ann.waf_override [ none ↦ sec.waf | some on ↦ on ]

unfoldable pub waf_mode : SecurityConfig → IngressAnnotations → String
waf_mode sec ann = elim ann.waf_override [
  | none ↦ sec.waf_mode
  | some on ↦ if is_blank ann.waf_mode_override then sec.waf_mode else ann.waf_mode_override
]

unfoldable pub auth_handlers : Option BasicAuthConfig → List Json
auth_handlers none = []
auth_handlers (some cfg) = basic_auth_handler cfg ∷ []

unfoldable pub cors_handlers : Bool → Option CorsConfig → Bool → Option (List Json)
cors_handlers with_cors none dynamic = some []
cors_handlers with_cors (some cors) dynamic =
    if with_cors then (do h ← cors_response_handler cors dynamic; some (h ∷ [])) else some []

-- The chain behind the CORS headers.
unfoldable pub inner_handlers : String → SecurityConfig → IngressAnnotations → Bool → List Json
inner_handlers upstream sec ann plain_http =
    auth_handlers ann.basic_auth
    ++ (unless (not (is_positive ann.proxy.max_body_size))
          (handler "request_body" (("max_size", int ann.proxy.max_body_size) ∷ []))
        ++ (unless (not (is_positive ann.limit_rps))
              (rate_limit_handler ann.namespace ann.name ann.limit_rps)
            ++ (unless (is_blank ann.rewrite_target)
                  (handler "rewrite" (("uri", str ann.rewrite_target) ∷ []))
                ++ (unless (not (sec.security_headers && not plain_http)) security_headers_handler
                    ++ (unless (empty_headers ann.response_headers)
                          (response_headers_handler ann.response_headers)
                        ++ (unless (not (waf_enabled sec ann))
                              (waf_handler (waf_mode sec ann) ann.waf_directives)
                            ++ (unless (is_null ann.auth_policy_handler) ann.auth_policy_handler
                                ++ (reverse_proxy_handler upstream sec.inject_real_ip ann.proxy
                                      plain_http ann.request_headers
                                    ∷ []))))))))

unfoldable pub build_core_handlers :
    String → SecurityConfig → IngressAnnotations → Bool → Bool → Bool → Option (List Json)
build_core_handlers upstream sec ann plain_http with_cors dynamic = do
  cors ← cors_handlers with_cors ann.cors dynamic
  some (cors ++ inner_handlers upstream sec ann plain_http)

-- The status and the target of a redirect annotation: the temporal one wins, and `redirect-code`
-- overrides either status.
unfoldable pub redirect_of : IngressAnnotations → ℤ × String
redirect_of ann =
    let temporal = not (is_blank ann.temporal_redirect) in
    let code : ℤ = if temporal then pos 302 else pos 301 in
    let url = if temporal then ann.temporal_redirect else ann.permanent_redirect in
    (if is_positive ann.redirect_code then ann.redirect_code else code, url)

abbrev pub has_redirect : IngressAnnotations → Bool
has_redirect ann = not (is_blank ann.permanent_redirect) || not (is_blank ann.temporal_redirect)

-- The list has more than one element.
abbrev pub is_many {ℓ} : {A : Type ℓ} → List A → Bool
is_many xs = ltb 1 (length xs)

abbrev pub origin_match : List String → CaddyMatch
origin_match origins = record match_all { headers = ("Origin", origins) ∷ [] }

-- The subroute that echoes an origin only where it is listed.
unfoldable pub origin_subroute : List String → List Json → List Json → Json
origin_subroute origins with_cors without_cors = subroute (
    record { id = ""; match = origin_match origins ∷ []; handle = with_cors; terminal = true }
    ∷ record { id = ""; match = []; handle = without_cors; terminal = true }
    ∷ [])

unfoldable pub chain_of :
    String → SecurityConfig → IngressAnnotations → Bool → Option CorsConfig → Option (List Json)
chain_of upstream sec ann plain_http none =
    build_core_handlers upstream sec ann plain_http false false
chain_of upstream sec ann plain_http (some cors) =
    if is_many cors.origins
    then (do
      with_cors ← build_core_handlers upstream sec ann plain_http true true
      without_cors ← build_core_handlers upstream sec ann plain_http false false
      some (origin_subroute cors.origins with_cors without_cors ∷ []))
    else build_core_handlers upstream sec ann plain_http true false

unfoldable pub build_handlers :
    String → SecurityConfig → IngressAnnotations → Bool → Option (List Json)
build_handlers upstream sec ann plain_http =
    let (code, url) = redirect_of ann in
    if has_redirect ann
    then some (redirect_response code url ∷ [])
    else chain_of upstream sec ann plain_http ann.cors

-- The match of a preflight request.
preflight_match : CorsConfig → CaddyMatch
preflight_match cors =
    let options = record match_all { method = "OPTIONS" ∷ [] } in
    if is_wildcard cors then options else record options { headers = ("Origin", cors.origins) ∷ [] }

unfoldable pub cors_preflight_route : CorsConfig → Option CaddyRoute
unfolding preflight_match
cors_preflight_route cors = do
  h ← cors_response_handler cors (is_many cors.origins)
  some (record {
    id = "";
    match = preflight_match cors ∷ [];
    handle = h ∷ status_response 204 ∷ [];
    terminal = true;
  })
