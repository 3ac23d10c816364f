-- ===== src/Routes/Handlers.antt =====
-- The handlers of a route: routes.go from `corsResponseHandler` to `reverseProxyHandler`.
use caddy_k8s.Base.{
  map_option, String, ◌<>◌, Bool, true, not, Option, none, some, List, [], ◌∷◌, ◌++◌, map, ◌==◌,
  if◌then◌else◌, ℤ, is_positive, is_empty,
}
use caddy_k8s.Strings.{is_blank, equal_fold, join}
use caddy_k8s.Strings.Numbers.{itoa}
use caddy_k8s.Dict.{Dict, insert, merge, map_values}
use caddy_k8s.Json.{Json, bool, int, str, array, object, texts}
use caddy_k8s.Annotations.Config.{
  HeaderConfig, CorsConfig, ProxyConfig, BasicAuthAccount, BasicAuthConfig,
}
use caddy_k8s.Routes.Model.{header_map, unless}

-- A handler with its name under the key "handler".
abbrev pub handler : String → List (String × Json) → Json
handler name settings = object (("handler", str name) ∷ settings)

-- `cors.origins[0]`: `none` is the panic on an empty list.
abbrev pub first_origin : List String → Option String
first_origin [] = none
first_origin (o ∷ os) = some o

allow_origin : CorsConfig → Bool → Option String
allow_origin cors dynamic =
    if dynamic then some "{http.request.header.Origin}" else first_origin cors.origins

-- The headers beside an `Access-Control-Allow-Origin` value.
cors_headers : CorsConfig → String → Dict (List String)
cors_headers cors origin =
    ("Access-Control-Allow-Origin", origin ∷ [])
    ∷ (unless (origin == "*") ("Vary", "Origin" ∷ [])
        ++ (unless (is_blank cors.allow_methods)
              ("Access-Control-Allow-Methods", cors.allow_methods ∷ [])
            ++ (unless (is_blank cors.allow_headers)
                  ("Access-Control-Allow-Headers", cors.allow_headers ∷ [])
                ++ (unless (is_blank cors.expose_headers)
                      ("Access-Control-Expose-Headers", cors.expose_headers ∷ [])
                    ++ (unless (not cors.allow_creds)
                          ("Access-Control-Allow-Credentials", "true" ∷ [])
                        ++ unless (not (is_positive cors.max_age))
                            ("Access-Control-Max-Age", itoa cors.max_age ∷ []))))))

unfoldable pub build_cors_response_headers : CorsConfig → Bool → Option (Dict (List String))
unfolding allow_origin cors_headers
build_cors_response_headers cors dynamic =
    map_option (cors_headers cors) (allow_origin cors dynamic)

abbrev pub set_response : Dict (List String) → Json
set_response m = handler "headers" (("response", object (("set", header_map m) ∷ [])) ∷ [])

unfoldable pub cors_response_handler : CorsConfig → Bool → Option Json
unfolding build_cors_response_headers
cors_response_handler cors dynamic =
    map_option set_response (build_cors_response_headers cors dynamic)

unfoldable pub rate_limit_handler : String → String → ℤ → Json
rate_limit_handler namespace name rps =
    let zone = "caddy-k8s-" <> (namespace <> ("-" <> name)) in
    let limit =
      object (("key", str "{client_ip}") ∷ ("window", str "1s") ∷ ("max_events", int rps) ∷ []) in
    handler "rate_limit" (("rate_limits", object ((zone, limit) ∷ [])) ∷ [])

abbrev account : BasicAuthAccount → Json
account a = object (("username", str a.username) ∷ ("password", str a.password) ∷ [])

unfoldable pub basic_auth_handler : BasicAuthConfig → Json
basic_auth_handler cfg =
    let basic =
      object (("realm", str cfg.realm) ∷ ("accounts", array (map account cfg.accounts)) ∷ []) in
    handler "authentication" (("providers", object (("http_basic", basic) ∷ [])) ∷ [])

unfoldable pub security_headers_handler : Json
security_headers_handler =
    let set : Dict (List String) =
      ("Strict-Transport-Security", "max-age=31536000; includeSubDomains" ∷ [])
      ∷ ("X-Content-Type-Options", "nosniff" ∷ [])
      ∷ ("X-Frame-Options", "SAMEORIGIN" ∷ [])
      ∷ ("Referrer-Policy", "strict-origin-when-cross-origin" ∷ [])
      ∷ [] in
    let response = object (("set", header_map set) ∷ ("delete", texts ("Server" ∷ [])) ∷ []) in
    handler "headers" (("response", response) ∷ [])

abbrev pub singletons : Dict String → Dict (List String)
singletons = map_values (λ v. v ∷ [])

unfoldable pub response_headers_handler : HeaderConfig → Json
response_headers_handler cfg =
    let response = object (
      unless (is_empty cfg.set) ("set", header_map (singletons cfg.set))
      ++ unless (is_empty cfg.delete) ("delete", texts cfg.delete)) in
    handler "headers" (("response", response) ∷ [])

unfoldable pub rule_engine : String → String
rule_engine mode = if equal_fold mode "On" then "On" else "DetectionOnly"

-- The lines of the WAF configuration, in their order.
unfoldable pub waf_lines : String → List String → List String
waf_lines mode extra =
    ("Include @coraza.conf-recommended" ∷ "Include @crs-setup.conf.example"
      ∷ "Include @owasp_crs/*.conf" ∷ [])
    ++ (extra
        ++ (("SecRuleEngine " <> rule_engine mode)
            ∷ "SecRequestBodyAccess On"
            ∷ "SecResponseBodyAccess Off"
            ∷ "SecRequestBodyLimit 13107200"
            ∷ []))

unfoldable pub waf_handler : String → List String → Json
unfolding waf_lines
waf_handler mode extra =
    handler "waf"
      (("load_owasp_crs", bool true) ∷ ("directives", str (join "\n" (waf_lines mode extra))) ∷ [])

-- The settings of the transport beside its protocol; the transport is sent if there is one.
transport_settings : ProxyConfig → List (String × Json)
transport_settings proxy =
    unless (not proxy.backend_tls)
      ("tls", object (unless (not proxy.backend_tls_insecure) ("insecure_skip_verify", bool true)))
    ++ (unless (is_blank proxy.http_version) ("versions", texts (proxy.http_version ∷ []))
        ++ (unless (is_blank proxy.read_timeout) ("response_header_timeout", str proxy.read_timeout)
            ++ (unless (is_blank proxy.send_timeout) ("write_timeout", str proxy.send_timeout)
                ++ unless (is_blank proxy.connect_timeout)
                    ("dial_timeout", str proxy.connect_timeout))))

-- The headers that tell the upstream about the client.
unfoldable pub real_ip_headers : Bool → Dict (List String)
real_ip_headers plain_http =
    ("X-Real-IP", "{http.vars.client_ip}" ∷ [])
    ∷ ("X-Forwarded-For", "{http.vars.client_ip}" ∷ [])
    ∷ ("X-Forwarded-Proto", (if plain_http then "http" else "https") ∷ [])
    ∷ ("X-Forwarded-Host", "{http.request.host}" ∷ [])
    ∷ ("X-Forwarded-Port", (if plain_http then "80" else "443") ∷ [])
    ∷ []

-- `m[k] = []string{v}` if `v` is not empty
abbrev pub insert_text : String → String → Dict (List String) → Dict (List String)
insert_text k v m = if is_blank v then m else insert k (v ∷ []) m

-- All headers set on the upstream request; those of the annotation come last and win.
unfoldable pub request_headers_of : Bool → ProxyConfig → Bool → HeaderConfig → Dict (List String)
request_headers_of inject proxy plain_http req = merge (singletons req.set) (
    insert_text "X-Forwarded-Prefix" proxy.x_forwarded_prefix
      (insert_text "Host" proxy.upstream_vhost (if inject then real_ip_headers plain_http else [])))

unfoldable pub reverse_proxy_handler : String → Bool → ProxyConfig → Bool → HeaderConfig → Json
unfolding transport_settings request_headers_of
reverse_proxy_handler upstream inject proxy plain_http req =
    let transport = transport_settings proxy in
    let set = request_headers_of inject proxy plain_http req in
    let section =
      unless (is_empty set) ("set", header_map set)
      ++ unless (is_empty req.delete) ("delete", texts req.delete) in
    handler "reverse_proxy" (
      ("upstreams", array (object (("dial", str upstream) ∷ []) ∷ []))
      ∷ (unless (is_empty transport) ("transport", object (("protocol", str "http") ∷ transport))
          ++ (unless (is_empty section) ("headers", object (("request", object section) ∷ []))
              ++ unless (not (is_positive proxy.retries))
                  ("load_balancing", object (("retries", int proxy.retries) ∷ [])))))
