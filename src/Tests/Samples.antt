-- ===== src/Tests/Samples.antt =====
-- An Ingress with most of the annotations, and the objects that it names.
use caddy_k8s.Base.{String, true, false, Option, none, some, [], ◌∷◌, pos, ◌==◌, if◌then◌else◌}
use caddy_k8s.Json.{Json}
use caddy_k8s.Kube.{prefix, HttpPath, Ingress, Secret, Cluster}
use caddy_k8s.Annotations.Names
use caddy_k8s.Annotations.Config.{IngressAnnotations}
use caddy_k8s.Annotations.Resolve.{resolve_annotations}
use caddy_k8s.Routes.Model.{SecurityConfig}

abbrev accounts_secret : Secret
accounts_secret = record {
  namespace = "shop";
  name = "accounts";
  secret_type = "Opaque";
  contents = ("auth", "# staff\nann:$2y$05$abc\nbob:plain\n") ∷ [];
}

abbrev pub cluster : Cluster
cluster = record {
  config_map = λ namespace name.
      if name == "rules"
      then some (("directives", "# extra\nSecRuleEngine Off\n\nSecRule ARGS x\n") ∷ [])
      else none;
  secret = λ namespace name. if name == "accounts" then some accounts_secret else none;
}

abbrev pub no_json : String → Option Json
no_json text = none

abbrev web : HttpPath
web = record {
  path = "/";
  path_type = some prefix;
  service = some (record { name = "web"; port = pos 80 });
}

abbrev api : HttpPath
api = record {
  path = "/api";
  path_type = some prefix;
  service = some (record { name = "api"; port = pos 8080 });
}

abbrev pub ingress : Ingress
ingress = record {
  namespace = "shop";
  name = "front";
  uid = "1";
  annotations =
      (Names.annotation_whitelist, "10.0.0.0/8, 192.168.1.5")
      ∷ (Names.annotation_enable_cors, "true")
      ∷ (Names.annotation_cors_allow_origin, "https://a.example, https://b.example")
      ∷ (Names.annotation_basic_auth_secret, "accounts")
      ∷ (Names.annotation_limit_rps, "10")
      ∷ (Names.annotation_waf, "on")
      ∷ (Names.annotation_waf_rules_config_map, "rules")
      ∷ (Names.annotation_proxy_body_size, "8m")
      ∷ [];
  ingress_class_name = some "caddy";
  rules = record { host = "shop.example"; http = some (web ∷ api ∷ []) } ∷ [];
  tls = [];
}

abbrev pub security : SecurityConfig
security = record { waf = false; waf_mode = ""; security_headers = true; inject_real_ip = true }

abbrev pub configuration : IngressAnnotations
configuration = resolve_annotations no_json cluster ingress
