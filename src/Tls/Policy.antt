-- ===== src/Tls/Policy.antt =====
-- The automation policy of an Ingress: tls_policy.go. A Secret's data are texts.
use mathlib.Core.Option
use caddy_k8s.Base.{
  String, ◌<>◌, Bool, true, false, not, ◌||◌, Option, none, some, List, [], ◌∷◌, ◌++◌,
  if◌then◌else◌, is_empty, ◌>>=◌,
}
use caddy_k8s.Dict.{get_text}
use caddy_k8s.Json.{Json, str, bool, texts, array, object}
use caddy_k8s.Kube.{Ingress, IngressTls, Cluster}
use caddy_k8s.Strings.{is_blank, trim_space}
use caddy_k8s.Annotations.Config.{IngressAnnotations}
use caddy_k8s.Routes.Model.{unless}
use caddy_k8s.Admin.Client.{Net}
use caddy_k8s.Admin.Policies.{upsert_tls_policy, delete_tls_policy}
use caddy_k8s.Hosts.{named_hosts, unique}

pub record AcmeExternalAccount : Type 0 where
  pub key_id : String
  pub mac_key : String

pub record AcmeIssuer : Type 0 where
  pub module_name : String
  pub ca : String
  pub external_account : Option AcmeExternalAccount

pub record TlsAutomationPolicy : Type 0 where
  pub id : String
  pub subjects : List String
  pub issuers : List AcmeIssuer
  pub on_demand : Bool

abbrev account_field : Option AcmeExternalAccount → List (String × Json)
account_field none = []
account_field (some a) =
    ("external_account", object (("key_id", str a.key_id) ∷ ("mac_key", str a.mac_key) ∷ [])) ∷ []

abbrev marshal_issuer : AcmeIssuer → Json
marshal_issuer i = object (
    ("module", str i.module_name)
    ∷ (unless (is_blank i.ca) ("ca", str i.ca) ++ account_field i.external_account))

abbrev marshal_issuers : List AcmeIssuer → List Json
marshal_issuers [] = []
marshal_issuers (i ∷ is) = marshal_issuer i ∷ marshal_issuers is

unfoldable pub marshal_policy : TlsAutomationPolicy → Json
marshal_policy p = object (
    ("@id", str p.id)
    ∷ ("subjects", texts p.subjects)
    ∷ (unless (is_empty p.issuers) ("issuers", array (marshal_issuers p.issuers))
        ++ unless (not p.on_demand) ("on_demand", bool true)))

unfoldable pub tls_policy_id : Ingress → String
tls_policy_id ing = "k8s-tls-policy-" <> (ing.namespace <> ("-" <> ing.name))

unfoldable pub entry_hosts : List IngressTls → List String
entry_hosts [] = []
entry_hosts (tls ∷ rest) = named_hosts tls.hosts ++ entry_hosts rest

unfoldable pub tls_hosts : Ingress → List String
tls_hosts ing = unique (entry_hosts ing.tls)

-- Why `Sync` fails: the secret of the account cannot be used, or the request failed.
pub data SyncError : Type 0 where
  secret_unusable : SyncError
  upsert_failed : String → SyncError

abbrev upsert_error : Option String → Option SyncError
upsert_error none = none
upsert_error (some e) = some (upsert_failed e)

abbrev pub issuer_of : IngressAnnotations → Option AcmeExternalAccount → AcmeIssuer
issuer_of ann account = record { module_name = "acme"; ca = ann.tls_ca; external_account = account }

-- Both parts are needed.
abbrev account_if : Bool → String → String → Option AcmeExternalAccount
account_if true key_id mac_key = none
account_if false key_id mac_key = some (record { key_id = key_id; mac_key = mac_key })

module _ (cluster : Cluster) where
  unfoldable pub read_eab_secret : String → String → Option AcmeExternalAccount
  read_eab_secret namespace name = do
    secret ← cluster.secret namespace name
    let key_id = trim_space (get_text "key_id" secret.contents)
    let mac_key = trim_space (get_text "mac_key" secret.contents)
    account_if (is_blank key_id || is_blank mac_key) key_id mac_key

  -- The issuers of the policy; `none` stands for a secret that cannot be used.
  unfoldable pub issuers_of : Ingress → IngressAnnotations → Option (List AcmeIssuer)
  issuers_of ing ann =
      if is_blank ann.tls_ca
      then some []
      else if is_blank ann.tls_ca_secret
      then some (issuer_of ann none ∷ [])
      else (do
        account ← read_eab_secret ing.namespace ann.tls_ca_secret
        some (issuer_of ann (some account) ∷ []))

  abbrev policy_of : Ingress → IngressAnnotations → List AcmeIssuer → TlsAutomationPolicy
  policy_of ing ann issuers = record {
    id = tls_policy_id ing;
    subjects = tls_hosts ing;
    issuers = issuers;
    on_demand = ann.tls_on_demand;
  }

  module _ (net : Net) where
    abbrev pub sync_with :
        Ingress
        → IngressAnnotations
        → Option (List AcmeIssuer)
        → net.World
        → Option SyncError × net.World
    sync_with ing ann none w = (some secret_unusable, w)
    sync_with ing ann (some issuers) w =
        let (e, w') =
          upsert_tls_policy net (tls_policy_id ing) (marshal_policy (policy_of ing ann issuers))
            w in
        (upsert_error e, w')

    unfoldable pub sync : Ingress → IngressAnnotations → net.World → Option SyncError × net.World
    sync ing ann w =
        if is_empty (tls_hosts ing) then (none, w) else sync_with ing ann (issuers_of ing ann) w

module _ (net : Net) where
  -- `Remove`: the error's text, or `none`.
  unfoldable pub remove_policy : Ingress → net.World → Option String × net.World
  remove_policy ing w =
      let (e, w') = delete_tls_policy net (tls_policy_id ing) w in
      (Option.map (λ t. "delete TLS policy: " <> t) e, w')
