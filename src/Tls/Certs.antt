-- ===== src/Tls/Certs.antt =====
-- The state of `TLSManager` and its operations. The locks make each part that reads or writes the
-- state one step; a call is run here from start to end. A set of Ingress keys is a map to `true`, as in
-- Go. The data of a Secret are texts.
use caddy_k8s.Base.{
  String, ◌<>◌, Bool, true, ◌||◌, Option, none, some, List, [], ◌∷◌, ◌==◌, if◌then◌else◌, is_empty,
}
use caddy_k8s.Dict.{Dict, empty, get_text, lookup, insert, erase}
use caddy_k8s.Json.{Json, str, texts, array, object}
use caddy_k8s.Kube.{Ingress, IngressTls, Secret, Cluster}
use caddy_k8s.Strings.{is_blank}
use caddy_k8s.Admin.Client.{Net}
use caddy_k8s.Admin.Policies.{post_json}

pub record TlsCert : Type 0 where
  pub secret_namespace : String
  pub secret_name : String
  pub hosts : List String
  pub cert : String
  pub key : String

pub record TlsManager : Type 0 where
  pub managed_certs : Dict TlsCert
  pub secret_to_ingress : Dict (Dict Bool)

abbrev pub new_tls_manager : TlsManager
new_tls_manager = record { managed_certs = empty; secret_to_ingress = empty }

-- `namespace + "/" + name`
abbrev pub object_key : String → String → String
object_key namespace name = namespace <> ("/" <> name)

abbrev pub or_new : Option (Dict Bool) → Dict Bool
or_new none = empty
or_new (some refs) = refs

-- The Ingress references the secret.
unfoldable pub track : String → String → TlsManager → TlsManager
track secret_key ingress_key m =
    let refs = or_new (lookup secret_key m.secret_to_ingress) in
    record m {
      secret_to_ingress = insert secret_key (insert ingress_key true refs) m.secret_to_ingress;
    }

-- A certificate needs both parts.
unfoldable pub cert_of : String → String → List String → Secret → Option TlsCert
cert_of namespace name hosts secret =
    let cert = get_text "tls.crt" secret.contents in
    let key = get_text "tls.key" secret.contents in
    if is_blank cert || is_blank key
    then none
    else some (record {
      secret_namespace = namespace;
      secret_name = name;
      hosts = hosts;
      cert = cert;
      key = key;
    })

-- The certificate of an entry, from the secret that was read; an entry without one is skipped.
unfoldable pub entry_cert : Ingress → IngressTls → Option Secret → Option TlsCert
entry_cert ing tls none = none
entry_cert ing tls (some secret) =
    if secret.secret_type == "kubernetes.io/tls"
    then cert_of ing.namespace tls.secret_name tls.hosts secret
    else none

-- One entry of `RemoveFromIngress`.
unfoldable pub release : String → String → TlsManager → TlsManager
release secret_key ingress_key m = elim (lookup secret_key m.secret_to_ingress) [
  | none ↦ m
  | some refs ↦
      let left = erase ingress_key refs in
      if is_empty left
      then record {
        managed_certs = erase secret_key m.managed_certs;
        secret_to_ingress = erase secret_key m.secret_to_ingress;
      }
      else record m { secret_to_ingress = insert secret_key left m.secret_to_ingress }
]

unfoldable pub release_entries : Ingress → List IngressTls → TlsManager → TlsManager
release_entries ing [] m = m
release_entries ing (tls ∷ rest) m =
    let kept = release_entries ing rest m in
    let released =
      release_entries ing rest (
        release (object_key ing.namespace tls.secret_name) (object_key ing.namespace ing.name) m) in
    if is_blank tls.secret_name then kept else released

unfoldable pub remove_from_ingress : Ingress → TlsManager → TlsManager
remove_from_ingress ing m = release_entries ing ing.tls m

abbrev pub certificates_path : String
certificates_path = "/config/apps/tls/certificates"

module _ (net : Net) where
  open net use {World}

  abbrev cert_payload : TlsCert → Json
  cert_payload cert =
      let pem = object (
        ("certificate", str cert.cert)
        ∷ ("key", str cert.key)
        ∷ ("tags", texts ("k8s-ingress" ∷ object_key cert.secret_namespace cert.secret_name ∷ []))
        ∷ []) in
      object (("load_pem", array (pem ∷ [])) ∷ [])

  unfoldable pub push_cert_to_caddy : TlsCert → World → Option String × World
  push_cert_to_caddy cert w = post_json net certificates_path (cert_payload cert) w

  -- A certificate is managed once it was pushed.
  abbrev pub pushed : Option String → String → TlsCert → TlsManager → TlsManager
  pushed none secret_key cert m = record m {
    managed_certs = insert secret_key cert m.managed_certs;
  }
  pushed (some e) secret_key cert m = m

  unfoldable pub push : String → Option TlsCert → TlsManager → World → TlsManager × World
  push secret_key none m w = (m, w)
  push secret_key (some cert) m w =
      let (e, w') = push_cert_to_caddy cert w in (pushed e secret_key cert m, w')

  -- `reloadSecret`, on an event about a secret; one that is not managed is left alone.
  unfoldable pub reload_secret : Secret → TlsManager → World → TlsManager × World
  reload_secret secret m w =
      let secret_key = object_key secret.namespace secret.name in
      elim (lookup secret_key m.managed_certs) [
        | none ↦ (m, w)
        | some existing ↦
            push secret_key (cert_of secret.namespace secret.name existing.hosts secret) m w
      ]

  module _ (cluster : Cluster) where
    -- One entry of `LoadFromIngress`, and the loop, whose result is always `nil`.
    unfoldable pub load_entry : Ingress → IngressTls → TlsManager → World → TlsManager × World
    load_entry ing tls m w =
        let secret_key = object_key ing.namespace tls.secret_name in
        let secret = cluster.secret ing.namespace tls.secret_name in
        if is_blank tls.secret_name
        then (m, w)
        else push secret_key (entry_cert ing tls secret)
            (track secret_key (object_key ing.namespace ing.name) m) w

    unfoldable pub load_entries :
        Ingress → List IngressTls → TlsManager → World → TlsManager × World
    load_entries ing [] m w = (m, w)
    load_entries ing (tls ∷ rest) m w =
        let (m', w') = load_entry ing tls m w in load_entries ing rest m' w'

    unfoldable pub load_from_ingress : Ingress → TlsManager → World → TlsManager × World
    load_from_ingress ing m w = load_entries ing ing.tls m w
