-- ===== src/Tests/Tls.antt =====
-- The theorems on certificates and policies at a small cluster.
use caddy_k8s.Base.{◌≡◌, refl, none, some, [], ◌∷◌, ◌==◌, if◌then◌else◌, All}
use mathlib.Core.Option.{none-ne-some}
use caddy_k8s.Dict
use caddy_k8s.Dict.{lookup}
use caddy_k8s.Strings
use caddy_k8s.Kube.{Ingress, Secret, Cluster}
use caddy_k8s.Strings.{is_blank}
use caddy_k8s.Hosts.{elem, distinct}
use caddy_k8s.Annotations.Config.{IngressAnnotations}
use caddy_k8s.Tls.Certs.{TlsManager, new_tls_manager, load_from_ingress}
use caddy_k8s.Tls.Tracked.{IsManaged}
use caddy_k8s.Tls.Policy.{AcmeIssuer, AcmeExternalAccount, tls_hosts, read_eab_secret, issuers_of}
use caddy_k8s.Tls.Subjects.{IsIssuer, issuers_of-IsIssuer}
use caddy_k8s.Tests.Samples.{ingress, configuration}
use caddy_k8s.Tests.AdminApi.{Server, api}

abbrev pub secret : Secret
secret = record {
  namespace = "shop";
  name = "cert";
  secret_type = "kubernetes.io/tls";
  contents =
      ("tls.crt", "CERT") ∷ ("tls.key", "KEY") ∷ ("key_id", " id ") ∷ ("mac_key", "mac") ∷ [];
}

abbrev pub tls_cluster : Cluster
tls_cluster = record {
  config_map = λ namespace name. none;
  secret = λ namespace name. if name == "cert" then some secret else none;
}

abbrev tls_ingress : Ingress
tls_ingress = record ingress {
  tls =
      record { hosts = "a" ∷ "" ∷ "b" ∷ []; secret_name = "cert" }
      ∷ record { hosts = "a" ∷ []; secret_name = "gone" }
      ∷ [];
}

abbrev pub idle : Server
idle = record { routes = []; requests = 0; writes = 0 }

pub new_tls_manager-IsManaged : IsManaged new_tls_manager
unfolding lookup
new_tls_manager-IsManaged = record {
  tracked = λ k c e. absurd (none-ne-some c e);
  certs = λ k c e. absurd (none-ne-some c e);
}

abbrev loaded : TlsManager
loaded = (load_from_ingress api tls_cluster tls_ingress new_tls_manager idle).0

tls_hosts_test : tls_hosts tls_ingress ≡ "a" ∷ "b" ∷ []
unfolding tls_hosts caddy_k8s.Hosts.unique caddy_k8s.Hosts.collect caddy_k8s.Tls.Policy.entry_hosts
    caddy_k8s.Hosts.named_hosts
tls_hosts_test = refl

abbrev with_authority : IngressAnnotations
with_authority = record configuration {
  tls_ca = "https://acme.example/directory";
  tls_ca_secret = "cert";
}

abbrev issuer : AcmeIssuer
issuer = record {
  module_name = "acme";
  ca = "https://acme.example/directory";
  external_account = some (record { key_id = "id"; mac_key = "mac" });
}

issued : issuers_of tls_cluster tls_ingress with_authority ≡ some (issuer ∷ [])
unfolding issuers_of read_eab_secret Strings.trim_space Dict.get_text
issued = refl

issuers_of-IsIssuer_example : All (IsIssuer with_authority) (issuer ∷ [])
issuers_of-IsIssuer_example =
    issuers_of-IsIssuer tls_cluster tls_ingress with_authority (issuer ∷ []) issued
