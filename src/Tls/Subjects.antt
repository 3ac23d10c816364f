-- ===== src/Tls/Subjects.antt =====
-- What a policy covers and with which credentials.
use caddy_k8s.Base.{
  String, ◌≡◌, refl, ◌∙◌, Bool, true, false, not, ◌&&◌, Option, none, some, List, [], ◌∷◌, ◌>>=◌,
  any, arith, All, AllSome, AllSome-bind, AllSome-value, Bool-cases, inl, inr,
}
use caddy_k8s.Kube.{Ingress, IngressTls, Cluster}
use caddy_k8s.Strings.{is_blank, trim_space}
use caddy_k8s.Strings.Trim.{trim_space_idem}
use caddy_k8s.Dict.{get_text}
use caddy_k8s.Annotations.Config.{IngressAnnotations}
use caddy_k8s.Hosts.{
  named_hosts, elem-named_hosts, elem, distinct, elem-append, elem-unique, distinct-unique,
}
use caddy_k8s.Tls.Policy.{
  AcmeExternalAccount, AcmeIssuer, entry_hosts, tls_hosts, read_eab_secret, issuer_of, issuers_of,
}

elem-entry_hosts :
    (h : String) (entries : List IngressTls)
    → elem h (entry_hosts entries) ≡ (not (is_blank h) && any (λ tls. elem h tls.hosts) entries)
unfolding entry_hosts
elem-entry_hosts h [] = ground arith
elem-entry_hosts h (tls ∷ rest) = ground (
  arith,
  elem-append h (named_hosts tls.hosts) (entry_hosts rest),
  elem-named_hosts h tls.hosts,
  elem-entry_hosts h rest,
)

-- The subjects of a policy: each host stands there once, and it stands there exactly if it is not
-- empty and an entry of the Ingress lists it.
pub tls_hosts-elem :
    (ing : Ingress) (h : String)
    → (distinct (tls_hosts ing) ≡ true)
      × (elem h (tls_hosts ing) ≡ (not (is_blank h) && any (λ tls. elem h tls.hosts) ing.tls))
unfolding tls_hosts
tls_hosts-elem ing h =
    (distinct-unique (entry_hosts ing.tls), elem-unique h _ ∙ elem-entry_hosts h ing.tls)

-- Credentials with both parts, without white space around them.
pub record IsCredential (a : AcmeExternalAccount) : Type 0 where
  pub key_id : is_blank a.key_id ≡ false
  pub mac_key : is_blank a.mac_key ≡ false
  pub trimmed_id : trim_space a.key_id ≡ a.key_id
  pub trimmed_key : trim_space a.mac_key ≡ a.mac_key

abbrev is_some {ℓ} : {A : Type ℓ} → Option A → Bool
is_some none = false
is_some (some a) = true

-- An issuer for the annotations: their authority, and credentials exactly if a secret is named.
pub record IsIssuer (ann : IngressAnnotations) (i : AcmeIssuer) : Type 0 where
  pub authority : i.ca ≡ ann.tls_ca
  pub given : is_some i.external_account ≡ not (is_blank ann.tls_ca_secret)
  pub credential : AllSome IsCredential i.external_account

issued_with :
    (ing : Ingress) (ann : IngressAnnotations) (o : Option AcmeExternalAccount)
    → is_blank ann.tls_ca_secret ≡ false
    → AllSome IsCredential o
    → AllSome (All (IsIssuer ann)) (o >>= λ account. some (issuer_of ann (some account) ∷ []))
issued_with ing ann none s h = tt
issued_with ing ann (some a) s h =
    (record { authority = refl; given = rw s refl; credential = h }, tt)

module _ (cluster : Cluster) where
  read_eab_secret-IsCredential :
      (namespace name : String) → AllSome IsCredential (read_eab_secret cluster namespace name)
  unfolding read_eab_secret
  read_eab_secret-IsCredential namespace name =
      AllSome-bind IsCredential (cluster.secret namespace name) _ λ secret. ground (
        arith,
        trim_space_idem (get_text "key_id" secret.contents),
        trim_space_idem (get_text "mac_key" secret.contents),
      )

  -- The issuers of a policy: each has the annotations' authority, and credentials with both parts
  -- exactly where the annotations name a secret.
  pub issuers_of-IsIssuer :
      (ing : Ingress) (ann : IngressAnnotations) (issuers : List AcmeIssuer)
      → issuers_of cluster ing ann ≡ some issuers
      → All (IsIssuer ann) issuers
  unfolding issuers_of
  issuers_of-IsIssuer ing ann issuers e =
      AllSome-value (All (IsIssuer ann)) _ issuers
        (elim (Bool-cases (is_blank ann.tls_ca)) [
          | inl b ↦ rw b tt
          | inr b ↦ elim (Bool-cases (is_blank ann.tls_ca_secret)) [
            | inl s ↦
                rw (b, s) (record { authority = refl; given = rw s refl; credential = tt }, tt)
            | inr s ↦
                rw (b, s)
                  (issued_with ing ann (read_eab_secret cluster ing.namespace ann.tls_ca_secret) s
                    (read_eab_secret-IsCredential ing.namespace ann.tls_ca_secret))
          ]
        ])
        e
