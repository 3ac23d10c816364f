-- ===== src/Annotations/Fields.antt =====
-- The fields that the log shows of a configuration, and what they do not show.
use caddy_k8s.Base.{
  ℤ, pos, String, ◌≡◌, refl, Bool, true, not, Option, none, some, List, [], ◌∷◌, ◌++◌, length, map,
  map_option, if◌then◌else◌, is_empty, is_positive,
}
use caddy_k8s.Strings.{is_blank}
use caddy_k8s.Json.{Json, null}
use caddy_k8s.Routes.Model.{unless}
use caddy_k8s.Annotations.Config.{
  HeaderConfig, empty_headers, CorsConfig, BasicAuthAccount, BasicAuthConfig, IngressAnnotations,
}

-- A value of a log field.
data Field : Type 0 where
  strings : List String → Field
  text : String → Field
  number : ℤ → Field
  flag : Bool → Field

abbrev Fields : Type 0
Fields = List (String × Field)

abbrev list_field : String → List String → Fields
list_field name xs = unless (is_empty xs) (name, strings xs)

abbrev text_field : String → String → Fields
text_field name s = unless (is_blank s) (name, text s)

abbrev flag_field : String → Bool → Fields
flag_field name b = unless (not b) (name, flag true)

abbrev number_field : String → ℤ → Fields
number_field name n = unless (not (is_positive n)) (name, number n)

abbrev cors_field : Option CorsConfig → Fields
cors_field none = []
cors_field (some cors) = ("cors-origins", strings cors.origins) ∷ []

abbrev waf_mode_shown : String → Bool → String
waf_mode_shown mode on = if is_blank mode then (if on then "on" else "off") else mode

abbrev waf_field : Option Bool → String → Fields
waf_field none mode = []
waf_field (some on) mode = ("waf", text (waf_mode_shown mode on)) ∷ []

abbrev count_field : List String → Fields
count_field xs = unless (is_empty xs) ("waf-extra-directives", number (pos (length xs)))

abbrev realm_field : Option BasicAuthConfig → Fields
realm_field none = []
realm_field (some auth) = ("basic-auth-realm", text auth.realm) ∷ []

abbrev policy_field : Json → Fields
policy_field null = []
policy_field _ = ("auth-policy", flag true) ∷ []

-- The keys of the headers are visited in some order.
abbrev header_field : (List String → List String) → String → HeaderConfig → Fields
header_field visit name h =
    unless (empty_headers h) (name, strings (visit (map (λ (k, v). k) h.set) ++ h.delete))

-- `annotationFields`
annotation_fields : (List String → List String) → IngressAnnotations → Fields
annotation_fields visit ann =
    list_field "whitelist" ann.whitelist
    ++ (list_field "blocklist" ann.blocklist
        ++ (flag_field "ssl-redirect" ann.ssl_redirect
            ++ (text_field "permanent-redirect" ann.permanent_redirect
                ++ (text_field "temporal-redirect" ann.temporal_redirect
                    ++ (text_field "rewrite-target" ann.rewrite_target
                        ++ (list_field "server-aliases" ann.server_aliases
                            ++ (number_field "limit-rps" ann.limit_rps
                                ++ (cors_field ann.cors
                                    ++ (flag_field "access-log-disabled" ann.access_log_disabled
                                        ++ (header_field visit "request-headers" ann.request_headers
                                            ++ (header_field visit "response-headers"
                                                  ann.response_headers
                                                ++ (text_field "tls" ann.tls_handler
                                                    ++ (flag_field "tls-ondemand" ann.tls_on_demand
                                                        ++ (text_field "tls-ca" ann.tls_ca
                                                            ++ (waf_field ann.waf_override
                                                            ann.waf_mode_override
                                                            ++ (count_field ann.waf_directives
                                                            ++ (number_field "proxy-body-size"
                                                            ann.proxy.max_body_size
                                                            ++ (text_field "proxy-read-timeout"
                                                            ann.proxy.read_timeout
                                                            ++ (text_field "proxy-connect-timeout"
                                                            ann.proxy.connect_timeout
                                                            ++ (flag_field "backend-protocol-https"
                                                            ann.proxy.backend_tls
                                                            ++ (text_field "upstream-vhost"
                                                            ann.proxy.upstream_vhost
                                                            ++ (number_field "proxy-retries"
                                                            ann.proxy.retries
                                                            ++ (realm_field ann.basic_auth
                                                            ++ policy_field
                                                            ann.auth_policy_handler)))))))))))))))))))))))

abbrev set_accounts : List BasicAuthAccount → BasicAuthConfig → BasicAuthConfig
set_accounts accounts auth = record auth { accounts = accounts }

-- The configuration with other accounts.
abbrev with_accounts : List BasicAuthAccount → IngressAnnotations → IngressAnnotations
with_accounts accounts ann = record ann {
  basic_auth = map_option (set_accounts accounts) ann.basic_auth;
}

realm_field-accounts :
    (accounts : List BasicAuthAccount) (o : Option BasicAuthConfig)
    → realm_field (map_option (set_accounts accounts) o) ≡ realm_field o
realm_field-accounts accounts none = refl
realm_field-accounts accounts (some auth) = refl

-- The log shows nothing of the accounts: with others in their place it has the same fields.
annotation_fields-with_accounts :
    (visit : List String → List String) (accounts : List BasicAuthAccount)
    (ann : IngressAnnotations)
    → annotation_fields visit (with_accounts accounts ann) ≡ annotation_fields visit ann
unfolding annotation_fields
annotation_fields-with_accounts visit accounts ann =
    rw (realm_field-accounts accounts ann.basic_auth) refl
