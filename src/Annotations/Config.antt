-- ===== src/Annotations/Config.antt =====
-- The parsed annotations (the types of annotations.go). A pointer that may be nil is an `Option`, an
-- `int` is a `ℤ`, and an authorization handler that is nil is `null`.
use caddy_k8s.Base.{ℤ, String, Bool, false, ◌&&◌, Option, List, [], ◌∷◌, ◌==◌, is_empty}
use caddy_k8s.Dict.{Dict}
use caddy_k8s.Json.{Json}

pub record HeaderConfig : Type 0 where
  pub set : Dict String
  pub delete : List String

abbrev pub no_headers : HeaderConfig
no_headers = record { set = []; delete = [] }

unfoldable pub empty_headers : HeaderConfig → Bool
empty_headers h = is_empty h.set && is_empty h.delete

pub record CorsConfig : Type 0 where
  pub origins : List String
  pub allow_methods : String
  pub allow_headers : String
  pub expose_headers : String
  pub allow_creds : Bool
  pub max_age : ℤ

wildcard_origins : List String → Bool
wildcard_origins (o ∷ []) = o == "*"
wildcard_origins _ = false

unfoldable pub is_wildcard : CorsConfig → Bool
unfolding wildcard_origins
is_wildcard c = wildcard_origins c.origins

pub record ProxyConfig : Type 0 where
  pub read_timeout : String
  pub send_timeout : String
  pub connect_timeout : String
  pub max_body_size : ℤ
  pub backend_tls : Bool
  pub backend_tls_insecure : Bool
  pub http_version : String
  pub upstream_vhost : String
  pub x_forwarded_prefix : String
  pub retries : ℤ

pub record BasicAuthAccount : Type 0 where
  pub username : String
  pub password : String

pub record BasicAuthConfig : Type 0 where
  pub realm : String
  pub accounts : List BasicAuthAccount

pub record IngressAnnotations : Type 0 where
  pub namespace : String
  pub name : String
  pub whitelist : List String
  pub blocklist : List String
  pub ssl_redirect : Bool
  pub permanent_redirect : String
  pub temporal_redirect : String
  pub redirect_code : ℤ
  pub rewrite_target : String
  pub server_aliases : List String
  pub limit_rps : ℤ
  pub cors : Option CorsConfig
  pub access_log_disabled : Bool
  pub request_headers : HeaderConfig
  pub response_headers : HeaderConfig
  pub tls_handler : String
  pub tls_on_demand : Bool
  pub tls_ca : String
  pub tls_ca_secret : String
  pub waf_override : Option Bool
  pub waf_mode_override : String
  pub waf_directives : List String
  pub proxy : ProxyConfig
  pub basic_auth : Option BasicAuthConfig
  pub auth_policy_handler : Json
