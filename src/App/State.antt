-- ===== src/App/State.antt =====
-- The state that the event handlers of the application share, and the small functions they use.
use caddy_k8s.Base.{String, Bool, false, ◌||◌, Option, none, some, List, ◌==◌, map}
use caddy_k8s.Dict.{Dict, get_text}
use caddy_k8s.Kube.{Ingress}
use caddy_k8s.Hosts.{unique, named_hosts}
use caddy_k8s.Routes.Model.{SecurityConfig}
use caddy_k8s.AccessLog.Manager.{AccessLogManager}
use caddy_k8s.Store.Interface.{RouteStore}
use caddy_k8s.Tls.Certs.{TlsManager, object_key}

module _ (store : RouteStore) where
  -- The fields of `App` that the handlers use; there is an access log manager if access logging is on.
  pub record App : Type 0 where
    pub ingress_class : String
    pub security : SecurityConfig
    pub server_name : String
    pub http_server_name : String
    pub route_ids : Dict (List String)
    pub stored : store.State
    pub tls_manager : TlsManager
    pub access_log_mgr : Option AccessLogManager

abbrev is_class : String → Option String → Bool
is_class class none = false
is_class class (some c) = c == class

unfoldable pub is_ours : String → Ingress → Bool
is_ours class ing =
    is_class class ing.ingress_class_name
    || get_text "kubernetes.io/ingress.class" ing.annotations == class

-- The hosts of the rules, each once.
unfoldable pub ingress_hosts : Ingress → List String
ingress_hosts ing = unique (named_hosts (map (λ rule. rule.host) ing.rules))

abbrev pub ingress_key : Ingress → String
ingress_key ing = object_key ing.namespace ing.name
