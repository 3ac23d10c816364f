-- ===== src/Annotations/WellFormed.antt =====
-- What every resolved configuration satisfies, whatever the annotations of the Ingress are.
use Prim.Native.String.{[], ◌∷◌}
use caddy_k8s.Base.{
  ◌&&◌, ◌||◌, Bool-cases, Option-cases, IsInt64, nat_eq, String, ◌≡◌, refl, Bool, true, false,
  Option, none, some, List, [], ◌∷◌, arith, All, inl, inr, ℤ, pos, negsuc, is_positive, is_nonneg,
  in_range, is_empty, AllSome, if◌then◌else◌,
}
use caddy_k8s.Strings.{is_blank, trim_space, equal_fold, split}
use caddy_k8s.Strings.Numbers.{parse_int}
use caddy_k8s.Dict.{Dict, get_text}
use caddy_k8s.Kube.{Cluster, Ingress}
use caddy_k8s.Json.{Json}
use caddy_k8s.Annotations.Config.{CorsConfig, is_wildcard, IngressAnnotations, BasicAuthConfig}
use caddy_k8s.Annotations.Parse.{
  trimmed_parts, parse_cidr_list, parse_body_size, fetch_waf_directives, fetch_basic_auth_accounts,
}
use caddy_k8s.Annotations.Names
use caddy_k8s.Strings.Split.{split-Lacks}
use caddy_k8s.Annotations.BodySize.{parse_body_size-IsInt64}
use caddy_k8s.Annotations.Fetched.{
  IsDirective, IsAccount, fetch_waf_directives-IsDirective, fetch_basic_auth_accounts-IsAccount,
}
use caddy_k8s.Annotations.Entries.{IsListed, parse_cidr_list-IsListed, trimmed_parts-IsListed}
use caddy_k8s.Annotations.Resolve.{
  when_set, number_or, checked, cors_origins, cors_config, with_credentials, resolve_cors,
  resolve_proxy, or_default, or_none, resolve_basic_auth, resolve_annotations,
}

-- A configuration of CORS that the handlers can use: there is an origin, and there are no credentials
-- where the origins are the sole `*`.
pub record IsCors (c : CorsConfig) : Type 0 where
  pub some_origin : is_empty c.origins ≡ false
  pub creds : (c.allow_creds && is_wildcard c) ≡ false
  pub age : is_nonneg c.max_age ≡ true

cors_origins-inked : (v : String) → is_empty (cors_origins v) ≡ false
unfolding cors_origins
cors_origins-inked v = ground arith

checked-test :
    (test : ℤ → Bool) (default : ℤ) (o : Option ℤ)
    → test default ≡ true
    → test (checked test default o) ≡ true
checked-test test default none h = h
checked-test test default (some n) h = elim (Bool-cases (test n)) [
  | inl e ↦ rw e e
  | inr e ↦ rw e h
]

when_set-test :
    (test : ℤ → Bool) (default : ℤ) (v : String)
    → test default ≡ true
    → test (when_set default (number_or test default) v) ≡ true
unfolding number_or
when_set-test test default [] h = h
when_set-test test default (c ∷ s) h = checked-test test default (parse_int (trim_space (c ∷ s))) h

cors_config-IsCors : (a : Dict String) → IsCors (cors_config a)
unfolding cors_config
cors_config-IsCors a = record {
  some_origin = cors_origins-inked (get_text Names.annotation_cors_allow_origin a);
  creds = refl;
  age = when_set-test is_nonneg (pos 1728000) (get_text Names.annotation_cors_max_age a) refl;
}

with_credentials-IsCors :
    (wanted : Bool) (c : CorsConfig) → IsCors c → IsCors (with_credentials wanted c)
unfolding with_credentials is_wildcard
with_credentials-IsCors wanted c h = ground arith

-- Whatever the annotations, a CORS configuration has an origin, an age that is not negative, and
-- credentials only beside origins other than the sole `*`.
pub resolve_cors-IsCors : (a : Dict String) → AllSome IsCors (resolve_cors a)
unfolding resolve_cors
resolve_cors-IsCors a =
    elim (Bool-cases (equal_fold (get_text Names.annotation_enable_cors a) "true")) [
      | inl e ↦ rw e (
          with_credentials-IsCors
            (equal_fold (get_text Names.annotation_cors_allow_credentials a) "true") (cors_config a)
            (cors_config-IsCors a))
      | inr e ↦ rw e tt
    ]

when_set-All :
    (P : String → Type 0) (f : String → List String)
    → ((v : String) → All P (f v))
    → (v : String) → All P (when_set [] f v)
when_set-All P f h [] = tt
when_set-All P f h (c ∷ s) = h (c ∷ s)

abbrev is_zero : ℤ → Bool
is_zero (pos n) = nat_eq n 0
is_zero (negsuc n) = false

-- Unset, or a value that passes the test.
abbrev pub zero_or : (ℤ → Bool) → ℤ → Bool
zero_or test n = is_zero n || test n

zero_or-when_set :
    (test : ℤ → Bool) (v : String)
    → zero_or test (when_set (pos 0) (number_or test (pos 0)) v) ≡ true
unfolding number_or
zero_or-when_set test [] = refl
zero_or-when_set test (c ∷ s) = elim (Option-cases (parse_int (trim_space (c ∷ s)))) [
  | inl e ↦ rw e refl
  | inr (n, e) ↦ rw e (ground arith)
]

-- The accounts of basic authentication: at least one, with bcrypt hashes.
abbrev HasAccounts : BasicAuthConfig → Type 0
HasAccounts cfg = (is_empty cfg.accounts ≡ false) × All IsAccount cfg.accounts

-- The invariant of a resolved configuration.
pub record IsWellFormed (ann : IngressAnnotations) : Type 0 where
  pub whitelist : All IsListed ann.whitelist
  pub blocklist : All IsListed ann.blocklist
  pub aliases : All IsListed ann.server_aliases
  pub redirect : zero_or (in_range 300 400) ann.redirect_code ≡ true
  pub limit : zero_or is_positive ann.limit_rps ≡ true
  pub retries : zero_or is_positive ann.proxy.retries ≡ true
  pub body_size : IsInt64 ann.proxy.max_body_size
  pub cors : AllSome IsCors ann.cors
  pub accounts : AllSome HasAccounts ann.basic_auth
  pub directives : All IsDirective ann.waf_directives

parts-IsListed : (v : String) → All IsListed (trimmed_parts (split b',' v))
parts-IsListed v = trimmed_parts-IsListed (split b',' v) (split-Lacks b',' v)

body_size-IsInt64 :
    (v : String) → IsInt64 (when_set (pos 0) (λ w. or_default (pos 0) (parse_body_size w)) v)
body_size-IsInt64 [] = omega arith
body_size-IsInt64 (c ∷ s) = elim (Option-cases (parse_body_size (c ∷ s))) [
  | inl e ↦ rw e (omega arith)
  | inr (z, e) ↦ rw e (parse_body_size-IsInt64 (c ∷ s) z e)
]

module _ (parse_json : String → Option Json) (cluster : Cluster) where
  basic_auth-HasAccounts :
      (namespace : String) (a : Dict String)
      → AllSome HasAccounts (resolve_basic_auth parse_json cluster namespace a)
  unfolding resolve_basic_auth
  basic_auth-HasAccounts namespace a =
      let secret = get_text Names.annotation_basic_auth_secret a in
      elim (Bool-cases (is_blank secret)) [
        | inl e ↦ rw e tt
        | inr e ↦ elim (Option-cases (fetch_basic_auth_accounts cluster namespace secret)) [
          | inl f ↦ rw (e, f) tt
          | inr (found, f) ↦
              rw (e, f) (fetch_basic_auth_accounts-IsAccount cluster namespace secret found f)
        ]
      ]

  directives-IsDirective :
      (namespace rules : String)
      → All IsDirective
          (if is_blank rules then [] else or_none [] (fetch_waf_directives cluster namespace rules))
  directives-IsDirective namespace [] = tt
  directives-IsDirective namespace (c ∷ s) =
      elim (Option-cases (fetch_waf_directives cluster namespace (c ∷ s))) [
        | inl e ↦ rw e tt
        | inr (found, e) ↦ rw e (fetch_waf_directives-IsDirective cluster namespace (c ∷ s) found e)
      ]

  -- Whatever the annotations and the objects of the cluster, the resolved configuration is well formed.
  pub resolve_annotations-IsWellFormed :
      (ing : Ingress) → IsWellFormed (resolve_annotations parse_json cluster ing)
  unfolding resolve_annotations resolve_proxy
  resolve_annotations-IsWellFormed ing =
      let a = ing.annotations in
      record {
        whitelist =
            when_set-All IsListed parse_cidr_list parse_cidr_list-IsListed
              (get_text Names.annotation_whitelist a);
        blocklist =
            when_set-All IsListed parse_cidr_list parse_cidr_list-IsListed
              (get_text Names.annotation_blocklist a);
        aliases =
            when_set-All IsListed (λ v. trimmed_parts (split b',' v)) parts-IsListed
              (get_text Names.annotation_server_alias a);
        redirect = zero_or-when_set (in_range 300 400) (get_text Names.annotation_redirect_code a);
        limit = zero_or-when_set is_positive (get_text Names.annotation_limit_rps a);
        retries =
            zero_or-when_set is_positive (get_text Names.annotation_proxy_next_upstream_tries a);
        body_size = body_size-IsInt64 (get_text Names.annotation_proxy_body_size a);
        cors = resolve_cors-IsCors a;
        accounts = basic_auth-HasAccounts ing.namespace a;
        directives =
            directives-IsDirective ing.namespace
              (trim_space (get_text Names.annotation_waf_rules_config_map a));
      }
