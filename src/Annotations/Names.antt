-- ===== src/Annotations/Names.antt =====
-- The annotations of an Ingress that the program reads, all under `caddy.ingress/`
-- (the constants of annotations.go).
use caddy_k8s.Base.{String}

abbrev pub annotation_whitelist : String
annotation_whitelist = "caddy.ingress/whitelist-source-range"

abbrev pub annotation_blocklist : String
annotation_blocklist = "caddy.ingress/blocklist-source-range"

abbrev pub annotation_ssl_redirect : String
annotation_ssl_redirect = "caddy.ingress/ssl-redirect"

abbrev pub annotation_proxy_read_timeout : String
annotation_proxy_read_timeout = "caddy.ingress/proxy-read-timeout"

abbrev pub annotation_proxy_send_timeout : String
annotation_proxy_send_timeout = "caddy.ingress/proxy-send-timeout"

abbrev pub annotation_proxy_connect_timeout : String
annotation_proxy_connect_timeout = "caddy.ingress/proxy-connect-timeout"

abbrev pub annotation_proxy_body_size : String
annotation_proxy_body_size = "caddy.ingress/proxy-body-size"

abbrev pub annotation_backend_protocol : String
annotation_backend_protocol = "caddy.ingress/backend-protocol"

abbrev pub annotation_backend_tls_insecure : String
annotation_backend_tls_insecure = "caddy.ingress/backend-tls-insecure-skip-verify"

abbrev pub annotation_permanent_redirect : String
annotation_permanent_redirect = "caddy.ingress/permanent-redirect"

abbrev pub annotation_temporal_redirect : String
annotation_temporal_redirect = "caddy.ingress/temporal-redirect"

abbrev pub annotation_redirect_code : String
annotation_redirect_code = "caddy.ingress/redirect-code"

abbrev pub annotation_rewrite_target : String
annotation_rewrite_target = "caddy.ingress/rewrite-target"

abbrev pub annotation_upstream_vhost : String
annotation_upstream_vhost = "caddy.ingress/upstream-vhost"

abbrev pub annotation_x_forwarded_prefix : String
annotation_x_forwarded_prefix = "caddy.ingress/x-forwarded-prefix"

abbrev pub annotation_server_alias : String
annotation_server_alias = "caddy.ingress/server-alias"

abbrev pub annotation_limit_rps : String
annotation_limit_rps = "caddy.ingress/limit-rps"

abbrev pub annotation_proxy_next_upstream_tries : String
annotation_proxy_next_upstream_tries = "caddy.ingress/proxy-next-upstream-tries"

abbrev pub annotation_proxy_http_version : String
annotation_proxy_http_version = "caddy.ingress/proxy-http-version"

abbrev pub annotation_waf : String
annotation_waf = "caddy.ingress/waf"

abbrev pub annotation_enable_cors : String
annotation_enable_cors = "caddy.ingress/enable-cors"

abbrev pub annotation_cors_allow_origin : String
annotation_cors_allow_origin = "caddy.ingress/cors-allow-origin"

abbrev pub annotation_cors_allow_methods : String
annotation_cors_allow_methods = "caddy.ingress/cors-allow-methods"

abbrev pub annotation_cors_allow_headers : String
annotation_cors_allow_headers = "caddy.ingress/cors-allow-headers"

abbrev pub annotation_cors_expose_headers : String
annotation_cors_expose_headers = "caddy.ingress/cors-expose-headers"

abbrev pub annotation_cors_allow_credentials : String
annotation_cors_allow_credentials = "caddy.ingress/cors-allow-credentials"

abbrev pub annotation_cors_max_age : String
annotation_cors_max_age = "caddy.ingress/cors-max-age"

abbrev pub annotation_access_log : String
annotation_access_log = "caddy.ingress/access-log"

abbrev pub annotation_request_headers : String
annotation_request_headers = "caddy.ingress/request-headers"

abbrev pub annotation_response_headers : String
annotation_response_headers = "caddy.ingress/response-headers"

abbrev pub annotation_tls_handler : String
annotation_tls_handler = "caddy.ingress/tls"

abbrev pub annotation_tls_on_demand : String
annotation_tls_on_demand = "caddy.ingress/tls-ondemand"

abbrev pub annotation_tls_ca : String
annotation_tls_ca = "caddy.ingress/tls-ca"

abbrev pub annotation_tls_ca_secret : String
annotation_tls_ca_secret = "caddy.ingress/tls-ca-secret"

abbrev pub annotation_waf_rules_config_map : String
annotation_waf_rules_config_map = "caddy.ingress/waf-rules-configmap"

abbrev pub annotation_basic_auth_secret : String
annotation_basic_auth_secret = "caddy.ingress/basic-auth-secret"

abbrev pub annotation_basic_auth_realm : String
annotation_basic_auth_realm = "caddy.ingress/basic-auth-realm"

abbrev pub annotation_auth_policy : String
annotation_auth_policy = "caddy.ingress/auth-policy"
