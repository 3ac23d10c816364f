-- ===== src/Tests/Nested.antt =====
-- An Ingress with two paths of a host, whose routes have ids in the index of a small server.
use caddy_k8s.Base.{
  String, ◌≡◌, refl, true, Option, none, some, List, [], ◌∷◌, Returns, All, pos, false, eq_iff,
  arith, ◌==◌, Bool, ap, ◌∙◌, Bool-cases, inl, inr, if◌then◌else◌,
}
use caddy_k8s.Dict.{Dict, lookup, insert, erase}
use caddy_k8s.Kube.{prefix, Ingress, HttpPath}
use caddy_k8s.Hosts.{distinct}
use caddy_k8s.Annotations.Config.{IngressAnnotations}
use caddy_k8s.Store.Memory.{memory_store}
use caddy_k8s.Routes.Model.{CaddyRoute, marshal_route}
use caddy_k8s.Routes.Convert.{convert_ingress, http_redirect_routes, redirect_routes}
use caddy_k8s.App.State.{is_ours, ingress_key}
use caddy_k8s.App.Delete.{ids_of}
use caddy_k8s.App.Add.{place_routes, IdVisit, route_ids_of, target_server, configured, handle_add}
use caddy_k8s.App.Reconciled.{IsReconciled, touched_ids, handle_add-IsReconciled}
use caddy_k8s.Routes.Nested.{inner_ids, ids_in}
use caddy_k8s.App.Placed.{AreFit}
use caddy_k8s.Strings.{is_blank}
use caddy_k8s.Routes.Rules.{served_rules}
use caddy_k8s.Routes.Distinct.{labels_of}
use mathlib.Core.Path.{subst}
use caddy_k8s.Tests.Samples.{no_json}
use caddy_k8s.Tests.AdminApi.{Server, api, api_server, routes-posted}
use caddy_k8s.Tests.Cluster.{kube, empty}
use caddy_k8s.Tests.Deletion.{api-IsSeparate, app, in_order}
use text.Mathlib.TextPositions.{eq_refl}
use caddy_k8s.Admin.Upsert.{RouteServer}
use caddy_k8s.App.Apart.{IsSeparate}
use caddy_k8s.Tests.Add.{plain_ingress, web, as_given, as_given-IsIdVisit, before, or_empty}

-- Which ids are nested in which routes.
unfoldable pub home : String → String
home k =
    if k == "front-p0"
    then "front"
    else if k == "caddy-k8s-shop-front-shop-example-p0"
    then "caddy-k8s-shop-front-shop-example"
    else if k == "caddy-k8s-shop-front-shop-example-p1"
    then "caddy-k8s-shop-front-shop-example"
    else k

abbrev pub shown : Server → String → Option String
shown w k = if home k == k then lookup k w.routes else none

pub lookup-shown : (w : Server) (id : String) → home id ≡ id → lookup id w.routes ≡ shown w id
lookup-shown w id own = rw (own, eq_refl id) refl

pub shown-erased :
    (h e : Bool) (o : Option String)
    → (if h then (if e then none else o) else none) ≡ (if e then none else (if h then o else none))
shown-erased h e o = ground arith

pub shown-posted :
    (id k b : String) (o : Option String)
    → home id ≡ id
    → (if home k == k then (if id == k then some b else o) else none)
      ≡ (if id == k then some b else (if home k == k then o else none))
shown-posted id k b o own = elim (Bool-cases (id == k)) [
  | inr other ↦ rw other refl
  | inl same ↦ rw same (
      subst (λ j. (if home j == j then some b else none) ≡ some b) ((eq_iff id k).0 same)
        (rw (own, eq_refl id) refl))
]

abbrev pub nesting : RouteServer api
nesting = record {
  home = home;
  routes = shown;
  stored = λ b. b;
  missing = "";
  get_hit = λ w id b own held. api_server.get_hit w id b refl (lookup-shown w id own ∙ held);
  get_miss = λ w id own absent. api_server.get_miss w id refl (lookup-shown w id own ∙ absent);
  get_keeps = λ w id k. refl;
  delete_hit = λ w id b own held. api_server.delete_hit w id b refl (lookup-shown w id own ∙ held);
  delete_drops = λ w id b k own held.
      ap (λ o. if home k == k then o else none)
        (api_server.delete_drops w id b k refl (lookup-shown w id own ∙ held))
      ∙ shown-erased (home k == k) (id == k) (lookup k w.routes);
  post_new = λ w server r named fit absent. refl;
  post_adds = λ w server r k named fit absent.
      ap (λ o. if home k == k then o else none) (routes-posted w server r k named)
      ∙ shown-posted r.id k _ (lookup k w.routes) fit.own;
  stored_current = λ r. api_server.stored_current r;
}

nested_keeps :
    (k : String) (o o' : Option String)
    → (home k == k) ≡ false
    → (if home k == k then o else none) ≡ (if home k == k then o' else none)
nested_keeps k o o' e = rw e refl

nesting-IsSeparate : IsSeparate api nesting
nesting-IsSeparate = record {
  delete_keeps = λ w id k other. elim (Bool-cases (id == k)) [
    | inr apart ↦
        ap (λ o. if home k == k then o else none) (api-IsSeparate.delete_keeps w id k apart)
    | inl same ↦
        nested_keeps k _ _ (subst (λ j. (home j == k) ≡ false) ((eq_iff id k).0 same) other)
  ];
  patch_keeps = λ w srv body k. refl;
  put_keeps = λ w id body k other. refl;
  policy_keeps =
      λ w body k. ap (λ o. if home k == k then o else none) (api-IsSeparate.policy_keeps w body k);
  cert_keeps =
      λ w body k. ap (λ o. if home k == k then o else none) (api-IsSeparate.cert_keeps w body k);
}

abbrev app_path : HttpPath
app_path = record {
  path = "/app";
  path_type = some prefix;
  service = some (record { name = "app"; port = pos 8080 });
}

abbrev two_paths : Ingress
two_paths = record plain_ingress {
  rules = record { host = "shop.example"; http = some (app_path ∷ web ∷ []) } ∷ [];
}

abbrev ann : IngressAnnotations
ann = (configured kube no_json two_paths empty).1

abbrev made : List CaddyRoute
made = or_empty (convert_ingress (configured kube no_json two_paths empty).0 app.security ann)

ours : is_ours app.ingress_class two_paths ≡ true
unfolding is_ours
ours = refl

converted : convert_ingress (configured kube no_json two_paths empty).0 app.security ann ≡ some made
unfolding convert_ingress caddy_k8s.Routes.Convert.convert_rules configured
    caddy_k8s.App.Add.with_config_map caddy_k8s.WafMap.ensure_waf_config_map
    caddy_k8s.WafMap.wants_waf caddy_k8s.Strings.to_lower caddy_k8s.Strings.trim_space
    caddy_k8s.Dict.get_text caddy_k8s.Routes.Convert.rule_routes
    caddy_k8s.Routes.Convert.path_routes caddy_k8s.Routes.Convert.path_route
    caddy_k8s.Routes.Build.build_handlers caddy_k8s.Annotations.Resolve.resolve_annotations
    caddy_k8s.Routes.Build.chain_of caddy_k8s.Annotations.Resolve.resolve_cors
    caddy_k8s.Strings.equal_fold caddy_k8s.Routes.Build.build_core_handlers
    caddy_k8s.Routes.Build.cors_handlers caddy_k8s.Routes.Convert.host_route
    caddy_k8s.Routes.Convert.preflight_routes
converted = refl

different : distinct (labels_of (served_rules two_paths.rules)) ≡ true
unfolding served_rules caddy_k8s.Routes.Rules.services
different = refl

placed : target_server memory_store two_paths app ≡ some "srv1"
unfolding target_server
placed = refl

made-AreFit : AreFit api nesting made
unfolding home caddy_k8s.Routes.Convert.route_id caddy_k8s.Strings.replace_all
    caddy_k8s.Strings.Numbers.itoa convert_ingress caddy_k8s.Routes.Convert.convert_rules configured
    caddy_k8s.App.Add.with_config_map caddy_k8s.WafMap.ensure_waf_config_map
    caddy_k8s.WafMap.wants_waf caddy_k8s.Strings.to_lower caddy_k8s.Strings.trim_space
    caddy_k8s.Dict.get_text caddy_k8s.Routes.Convert.rule_routes
    caddy_k8s.Routes.Convert.path_routes caddy_k8s.Routes.Convert.path_route
    caddy_k8s.Routes.Build.build_handlers caddy_k8s.Annotations.Resolve.resolve_annotations
    caddy_k8s.Routes.Build.chain_of caddy_k8s.Annotations.Resolve.resolve_cors
    caddy_k8s.Strings.equal_fold caddy_k8s.Routes.Build.build_core_handlers
    caddy_k8s.Routes.Build.cors_handlers caddy_k8s.Routes.Convert.host_route
    caddy_k8s.Routes.Convert.preflight_routes inner_ids ids_in caddy_k8s.Routes.Convert.handle_of
    caddy_k8s.Routes.Build.build_ip_guard_routes caddy_k8s.Routes.Convert.convert_path
    caddy_k8s.Routes.Build.inner_handlers caddy_k8s.Routes.Build.auth_handlers
    caddy_k8s.Annotations.Resolve.resolve_basic_auth caddy_k8s.Annotations.Resolve.resolve_proxy
    caddy_k8s.Annotations.Config.empty_headers caddy_k8s.Routes.Build.waf_enabled
    caddy_k8s.Annotations.Resolve.waf_setting caddy_k8s.Routes.Handlers.reverse_proxy_handler
    caddy_k8s.Dict.merge caddy_k8s.Routes.Handlers.real_ip_headers
    caddy_k8s.Routes.Model.marshal_route caddy_k8s.Strings.has_suffix
made-AreFit = (record { own = refl; inner = (refl, (refl, tt)); once = refl }, tt)

redirects-AreFit : AreFit api nesting (http_redirect_routes two_paths)
unfolding home caddy_k8s.Routes.Convert.route_id caddy_k8s.Strings.replace_all http_redirect_routes
    redirect_routes inner_ids ids_in
redirects-AreFit = (record { own = refl; inner = tt; once = refl }, tt)

recorded_own : All (λ id. home id ≡ id) (ids_of (lookup (ingress_key two_paths) app.route_ids))
unfolding lookup home
recorded_own = (refl, (refl, tt))

handle_add-IsReconciled_example :
    Returns
      (λ out.
        IsReconciled api nesting
          (ids_of (lookup (ingress_key two_paths) app.route_ids))
          (touched_ids api nesting nesting-IsSeparate memory_store app.http_server_name two_paths
            ann)
          made
          before
          out.1)
      (handle_add api memory_store kube no_json in_order as_given two_paths app before empty)
handle_add-IsReconciled_example =
    handle_add-IsReconciled api nesting nesting-IsSeparate memory_store kube no_json in_order
      as_given two_paths app before empty made "srv1" ours as_given-IsIdVisit converted made-AreFit
      redirects-AreFit recorded_own different placed
