-- ===== src/Annotations/Resolve.antt =====
-- `resolveAnnotations`: the configuration that an Ingress's annotations ask for. The assignments to
-- `out` are independent of one another, so the result is one record, with a function for each group.
-- The warnings that are logged are left out: a value that is refused keeps its default.
use caddy_k8s.Base.{
  String, Bool, true, false, Option, none, some, List, [], ◌∷◌, ◌==◌, if◌then◌else◌, ℤ, pos,
  is_positive, is_nonneg, in_range, is_empty,
}
use caddy_k8s.Strings.{is_blank, trim_space, to_lower, equal_fold, split}
use caddy_k8s.Strings.Numbers.{parse_int}
use caddy_k8s.Dict.{Dict, get_text}
use caddy_k8s.Kube.{Cluster, Ingress}
use caddy_k8s.Json.{Json, null}
use caddy_k8s.Annotations.Names
use caddy_k8s.Annotations.Config.{
  no_headers, CorsConfig, is_wildcard, ProxyConfig, BasicAuthConfig, IngressAnnotations,
}
use caddy_k8s.Annotations.Parse.{
  trimmed_parts, parse_cidr_list, parse_header_annotation, parse_timeout_seconds, parse_body_size,
  fetch_waf_directives, fetch_basic_auth_accounts, fetch_auth_policy_handler,
}

-- `if v := a[name]; v != "" { … }`
abbrev pub when_set {ℓ} : {A : Type ℓ} → A → (String → A) → String → A
when_set default f v = if is_blank v then default else f v

abbrev pub or_default : ℤ → Option ℤ → ℤ
or_default d none = d
or_default d (some n) = n

abbrev pub checked : (ℤ → Bool) → ℤ → Option ℤ → ℤ
checked test d none = d
checked test d (some n) = if test n then n else d

-- A number that passes a test, or the default.
unfoldable pub number_or : (ℤ → Bool) → ℤ → String → ℤ
number_or test default v = checked test default (parse_int (trim_space v))

-- The two fields that the `waf` annotation sets.
unfoldable pub waf_setting : String → Option Bool × String
waf_setting v =
    if v == "off"
    then (some false, "")
    else if v == "on"
    then (some true, "On")
    else if v == "detection"
    then (some true, "DetectionOnly")
    else (none, "")

-- The origins of a CORS configuration: any origin if none is listed.
unfoldable pub cors_origins : String → List String
cors_origins v =
    let listed = when_set [] (λ w. trimmed_parts (split b',' w)) v in
    if is_empty listed then "*" ∷ [] else listed

unfoldable pub cors_config : Dict String → CorsConfig
cors_config a = record {
  origins = cors_origins (get_text Names.annotation_cors_allow_origin a);
  allow_methods =
      when_set "GET, PUT, POST, DELETE, PATCH, OPTIONS" trim_space
        (get_text Names.annotation_cors_allow_methods a);
  allow_headers =
      when_set
        "DNT,Keep-Alive,User-Agent,X-Requested-With,If-Modified-Since,Cache-Control,Content-Type,Range,Authorization"
        trim_space (get_text Names.annotation_cors_allow_headers a);
  expose_headers = when_set "" trim_space (get_text Names.annotation_cors_expose_headers a);
  allow_creds = false;
  max_age =
      when_set (pos 1728000) (number_or is_nonneg (pos 1728000))
        (get_text Names.annotation_cors_max_age a);
}

-- Credentials are allowed only beside specific origins.
unfoldable pub with_credentials : Bool → CorsConfig → CorsConfig
with_credentials wanted cfg =
    if wanted then (if is_wildcard cfg then cfg else record cfg { allow_creds = true }) else cfg

unfoldable pub resolve_cors : Dict String → Option CorsConfig
resolve_cors a =
    if equal_fold (get_text Names.annotation_enable_cors a) "true"
    then some (
        with_credentials (equal_fold (get_text Names.annotation_cors_allow_credentials a) "true")
          (cors_config a))
    else none

unfoldable pub resolve_proxy : Dict String → ProxyConfig
resolve_proxy a = record {
  read_timeout = when_set "" parse_timeout_seconds (get_text Names.annotation_proxy_read_timeout a);
  send_timeout = when_set "" parse_timeout_seconds (get_text Names.annotation_proxy_send_timeout a);
  connect_timeout =
      when_set "" parse_timeout_seconds (get_text Names.annotation_proxy_connect_timeout a);
  max_body_size =
      when_set (pos 0) (λ v. or_default (pos 0) (parse_body_size v))
        (get_text Names.annotation_proxy_body_size a);
  backend_tls = equal_fold (get_text Names.annotation_backend_protocol a) "https";
  backend_tls_insecure = equal_fold (get_text Names.annotation_backend_tls_insecure a) "true";
  http_version = when_set "" trim_space (get_text Names.annotation_proxy_http_version a);
  upstream_vhost = when_set "" trim_space (get_text Names.annotation_upstream_vhost a);
  x_forwarded_prefix = when_set "" trim_space (get_text Names.annotation_x_forwarded_prefix a);
  retries =
      when_set (pos 0) (number_or is_positive (pos 0))
        (get_text Names.annotation_proxy_next_upstream_tries a);
}

abbrev pub or_none {ℓ} : {A : Type ℓ} → List A → Option (List A) → List A
or_none default none = default
or_none default (some xs) = xs

abbrev pub or_null : Option Json → Json
or_null none = null
or_null (some h) = h

module _ (parse_json : String → Option Json) (cluster : Cluster) where
  unfoldable pub resolve_basic_auth : String → Dict String → Option BasicAuthConfig
  resolve_basic_auth namespace a =
      let secret = get_text Names.annotation_basic_auth_secret a in
      let realm = get_text Names.annotation_basic_auth_realm a in
      if is_blank secret then none else elim (fetch_basic_auth_accounts cluster namespace secret) [
        | none ↦ none
        | some found ↦
            some
              (record { realm = if is_blank realm then "Restricted" else realm; accounts = found })
      ]

  unfoldable pub resolve_annotations : Ingress → IngressAnnotations
  resolve_annotations ing =
      let a = ing.annotations in
      let (override, mode) =
        waf_setting (to_lower (trim_space (get_text Names.annotation_waf a))) in
      let rules = trim_space (get_text Names.annotation_waf_rules_config_map a) in
      let policy = trim_space (get_text Names.annotation_auth_policy a) in
      record {
        namespace = ing.namespace;
        name = ing.name;
        whitelist = when_set [] parse_cidr_list (get_text Names.annotation_whitelist a);
        blocklist = when_set [] parse_cidr_list (get_text Names.annotation_blocklist a);
        ssl_redirect =
            when_set false (λ v. equal_fold v "true") (get_text Names.annotation_ssl_redirect a);
        permanent_redirect =
            when_set "" trim_space (get_text Names.annotation_permanent_redirect a);
        temporal_redirect = when_set "" trim_space (get_text Names.annotation_temporal_redirect a);
        redirect_code =
            when_set (pos 0) (number_or (in_range 300 400) (pos 0))
              (get_text Names.annotation_redirect_code a);
        rewrite_target = when_set "" trim_space (get_text Names.annotation_rewrite_target a);
        server_aliases =
            when_set [] (λ v. trimmed_parts (split b',' v))
              (get_text Names.annotation_server_alias a);
        limit_rps =
            when_set (pos 0) (number_or is_positive (pos 0))
              (get_text Names.annotation_limit_rps a);
        cors = resolve_cors a;
        access_log_disabled =
            equal_fold (trim_space (get_text Names.annotation_access_log a)) "false";
        request_headers =
            when_set no_headers parse_header_annotation
              (get_text Names.annotation_request_headers a);
        response_headers =
            when_set no_headers parse_header_annotation
              (get_text Names.annotation_response_headers a);
        tls_handler = to_lower (trim_space (get_text Names.annotation_tls_handler a));
        tls_on_demand = equal_fold (trim_space (get_text Names.annotation_tls_on_demand a)) "true";
        tls_ca = trim_space (get_text Names.annotation_tls_ca a);
        tls_ca_secret = trim_space (get_text Names.annotation_tls_ca_secret a);
        waf_override = override;
        waf_mode_override = mode;
        waf_directives =
            if is_blank rules
            then []
            else or_none [] (fetch_waf_directives cluster ing.namespace rules);
        proxy = resolve_proxy a;
        basic_auth = resolve_basic_auth ing.namespace a;
        auth_policy_handler =
            if is_blank policy
            then null
            else or_null (fetch_auth_policy_handler cluster parse_json ing.namespace policy);
      }
