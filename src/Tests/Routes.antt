-- ===== src/Tests/Routes.antt =====
-- The theorems on routes at the sample Ingress.
use caddy_k8s.Base.{
  ◌≡◌, refl, ◌<>◌, false, true, ◌&&◌, Option, some, List, [], ◌∷◌, All, AllSome, Returns, returns,
  is_empty, map_option, pos,
}
use caddy_k8s.Dict.{lookup}
use caddy_k8s.Strings.{replace_all}
use caddy_k8s.Annotations.Config.{no_headers, ProxyConfig}
use caddy_k8s.Annotations.Parse.{parse_header_annotation}
use caddy_k8s.Annotations.Resolve.{or_none}
use caddy_k8s.Annotations.WellFormed.{IsCors, resolve_annotations-IsWellFormed}
use caddy_k8s.Routes.Model.{CaddyRoute}
use caddy_k8s.Routes.Handlers.{rule_engine, waf_lines, request_headers_of}
use caddy_k8s.Routes.Build.{build_handlers}
use caddy_k8s.Routes.Convert.{convert_ingress, http_redirect_routes}
use caddy_k8s.Routes.Shape.{AreRoutes}
use caddy_k8s.Routes.Shape.Converted.{convert_ingress-AreRoutes}
use caddy_k8s.Routes.Chain.{IsServed, build_handlers-IsServed}
use caddy_k8s.Routes.Rules.{Each, IsRuleRoute, served_rules, convert_ingress-Each}
use caddy_k8s.Routes.Guards.{IsGuarded, convert_ingress-IsGuarded}
use caddy_k8s.Routes.Firewall.{last_with, waf_lines-engine}
use caddy_k8s.Routes.Upstream.{lookup-request_headers_of}
use caddy_k8s.Dict.{or_else}
use caddy_k8s.Tests.Samples.{cluster, no_json, ingress, security, configuration}

cors_usable : AllSome IsCors configuration.cors
cors_usable = (resolve_annotations-IsWellFormed no_json cluster ingress).cors

build_handlers-IsServed_example :
    Returns
      (IsServed security configuration "web.shop.svc.cluster.local:80" true)
      (build_handlers "web.shop.svc.cluster.local:80" security configuration true)
build_handlers-IsServed_example =
    build_handlers-IsServed security configuration "web.shop.svc.cluster.local:80" true cors_usable

convert_ingress-Each_example :
    Returns
      (Each (IsRuleRoute ingress security configuration) (served_rules ingress.rules))
      (convert_ingress ingress security configuration)
convert_ingress-Each_example = convert_ingress-Each ingress security configuration cors_usable

listed : (is_empty configuration.whitelist && is_empty configuration.blocklist) ≡ false
unfolding caddy_k8s.Annotations.Resolve.resolve_annotations caddy_k8s.Dict.get_text
    caddy_k8s.Annotations.Parse.parse_cidr_list caddy_k8s.Strings.split caddy_k8s.Strings.trim_space
listed = refl

abbrev routes : List CaddyRoute
routes = or_none [] (convert_ingress ingress security configuration)

returned :
    {A : Type 0} {P : List A → Type 0} {o : Option (List A)} → Returns P o → o ≡ some (or_none [] o)
returned (returns a p) = refl

converted : convert_ingress ingress security configuration ≡ some routes
converted = returned (convert_ingress-Each ingress security configuration cors_usable)

convert_ingress-IsGuarded_example : All (λ r. IsGuarded configuration r.handle) routes
convert_ingress-IsGuarded_example =
    convert_ingress-IsGuarded ingress security configuration cors_usable listed routes converted

waf_lines-engine_example :
    last_with "SecRuleEngine" (waf_lines "On" ("SecRuleEngine Off" ∷ []))
    ≡ some ("SecRuleEngine " <> rule_engine "On")
waf_lines-engine_example = waf_lines-engine "On" ("SecRuleEngine Off" ∷ [])

abbrev plain_proxy : ProxyConfig
plain_proxy = record {
  read_timeout = "";
  send_timeout = "";
  connect_timeout = "";
  max_body_size = pos 0;
  backend_tls = false;
  backend_tls_insecure = false;
  http_version = "";
  upstream_vhost = "inner.example";
  x_forwarded_prefix = "";
  retries = pos 0;
}

lookup-request_headers_of_example :
    lookup "Host"
      (request_headers_of true plain_proxy false (parse_header_annotation "Host=own.example"))
    ≡ or_else
        (map_option (λ v. v ∷ []) (lookup "Host" (parse_header_annotation "Host=own.example").set))
        (lookup "Host" (request_headers_of true plain_proxy false no_headers))
lookup-request_headers_of_example =
    lookup-request_headers_of true false plain_proxy "Host=own.example" "Host"

convert_ingress-AreRoutes_example :
    Returns
      (AreRoutes configuration.auth_policy_handler)
      (convert_ingress ingress security configuration)
    × AreRoutes configuration.auth_policy_handler (http_redirect_routes ingress)
convert_ingress-AreRoutes_example =
    convert_ingress-AreRoutes ingress security configuration cors_usable
