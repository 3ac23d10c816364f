-- ===== src/Tests/Add.antt =====
-- The addition of an Ingress at a small server and a small cluster, with the store in memory.
use caddy_k8s.Base.{
  String, ◌≡◌, refl, true, Option, none, some, List, [], ◌∷◌, Returns, All, pos, ◌&&◌, not, false,
}
use caddy_k8s.Dict.{Dict, lookup}
use caddy_k8s.Kube.{prefix, Ingress, HttpPath}
use caddy_k8s.Hosts.{distinct, elem}
use caddy_k8s.Annotations.Config.{IngressAnnotations}
use caddy_k8s.Store.Memory.{MemoryStore, memory_store, memory_store-IsFaithful}
use caddy_k8s.Routes.Model.{CaddyRoute}
use caddy_k8s.Routes.Convert.{convert_ingress, http_redirect_routes, redirect_routes}
use caddy_k8s.App.State.{is_ours, ingress_key}
use caddy_k8s.App.Delete.{ids_of}
use caddy_k8s.App.Add.{place_routes, IdVisit, route_ids_of, target_server, configured, handle_add}
use caddy_k8s.App.Recorded.{IsSynced, handle_add-IsSynced}
use caddy_k8s.App.Ids.{IsIdVisit}
use caddy_k8s.App.Reconciled.{touched_ids}
use caddy_k8s.Routes.Nested.{IsFit, inner_ids, ids_in}
use caddy_k8s.App.Placed.{AreFit}
use caddy_k8s.App.Settled.{written-place_routes}
use caddy_k8s.Strings.{is_blank}
use caddy_k8s.Routes.Rules.{served_rules}
use caddy_k8s.Routes.Distinct.{labels_of}
use mathlib.Core.Path.{subst}
use caddy_k8s.Base.{eq_iff, arith, ◌||◌, ◌==◌}
use caddy_k8s.Tls.Policy.{tls_policy_id}
use caddy_k8s.App.Delete.{handle_delete}
use caddy_k8s.App.Owned.{IsOwned, IsUnshared, handle_add-IsOwned, handle_delete-IsOwned}
use caddy_k8s.Tests.Samples.{no_json}
use caddy_k8s.Tests.AdminApi.{Server, api, api_server, api_writes}
use caddy_k8s.Tests.Cluster.{kube, empty}
use caddy_k8s.Tests.Deletion.{api-IsSeparate, app, in_order}

abbrev pub web : HttpPath
web = record {
  path = "/";
  path_type = some prefix;
  service = some (record { name = "web"; port = pos 80 });
}

abbrev pub plain_ingress : Ingress
plain_ingress = record {
  namespace = "shop";
  name = "front";
  uid = "1";
  annotations = [];
  ingress_class_name = some "caddy";
  rules = record { host = "shop.example"; http = some (web ∷ []) } ∷ [];
  tls = [];
}

abbrev pub as_given : IdVisit
as_given ids = ids

pub as_given-IsIdVisit : IsIdVisit as_given
as_given-IsIdVisit = record { meets = λ k ids. refl }

abbrev pub before : Server
before = record {
  routes = ("r1", "r1") ∷ ("r2", "r2") ∷ ("r3", "r3") ∷ [];
  requests = 0;
  writes = 0;
}

abbrev view : MemoryStore → String → Option (List String)
view s j = lookup j s.contents

abbrev pub or_empty : Option (List CaddyRoute) → List CaddyRoute
or_empty none = []
or_empty (some rs) = rs

abbrev ann : IngressAnnotations
ann = (configured kube no_json plain_ingress empty).1

abbrev made : List CaddyRoute
made = or_empty (convert_ingress (configured kube no_json plain_ingress empty).0 app.security ann)

ours : is_ours app.ingress_class plain_ingress ≡ true
unfolding is_ours
ours = refl

converted :
    convert_ingress (configured kube no_json plain_ingress empty).0 app.security ann ≡ some made
unfolding convert_ingress caddy_k8s.Routes.Convert.convert_rules configured
    caddy_k8s.App.Add.with_config_map caddy_k8s.WafMap.ensure_waf_config_map
    caddy_k8s.WafMap.wants_waf caddy_k8s.Strings.to_lower caddy_k8s.Strings.trim_space
    caddy_k8s.Dict.get_text caddy_k8s.Routes.Convert.rule_routes
    caddy_k8s.Routes.Convert.path_routes caddy_k8s.Routes.Convert.path_route
    caddy_k8s.Routes.Build.build_handlers caddy_k8s.Annotations.Resolve.resolve_annotations
    caddy_k8s.Routes.Build.chain_of caddy_k8s.Annotations.Resolve.resolve_cors
    caddy_k8s.Strings.equal_fold caddy_k8s.Routes.Build.build_core_handlers
    caddy_k8s.Routes.Build.cors_handlers caddy_k8s.Routes.Convert.host_route
    caddy_k8s.Routes.Convert.preflight_routes
converted = refl

recorded_own : All (λ id. id ≡ id) (ids_of (lookup (ingress_key plain_ingress) app.route_ids))
unfolding lookup
recorded_own = (refl, (refl, tt))

made-AreFit : AreFit api api_server made
unfolding convert_ingress caddy_k8s.Routes.Convert.convert_rules configured
    caddy_k8s.App.Add.with_config_map caddy_k8s.WafMap.ensure_waf_config_map
    caddy_k8s.WafMap.wants_waf caddy_k8s.Strings.to_lower caddy_k8s.Strings.trim_space
    caddy_k8s.Dict.get_text caddy_k8s.Routes.Convert.rule_routes
    caddy_k8s.Routes.Convert.path_routes caddy_k8s.Routes.Convert.path_route
    caddy_k8s.Routes.Build.build_handlers caddy_k8s.Annotations.Resolve.resolve_annotations
    caddy_k8s.Routes.Build.chain_of caddy_k8s.Annotations.Resolve.resolve_cors
    caddy_k8s.Strings.equal_fold caddy_k8s.Routes.Build.build_core_handlers
    caddy_k8s.Routes.Build.cors_handlers caddy_k8s.Routes.Convert.host_route
    caddy_k8s.Routes.Convert.preflight_routes inner_ids ids_in caddy_k8s.Routes.Convert.handle_of
    caddy_k8s.Routes.Build.build_ip_guard_routes caddy_k8s.Routes.Convert.convert_path
    caddy_k8s.Routes.Build.inner_handlers caddy_k8s.Routes.Build.auth_handlers
    caddy_k8s.Annotations.Resolve.resolve_basic_auth caddy_k8s.Annotations.Resolve.resolve_proxy
    caddy_k8s.Annotations.Config.empty_headers caddy_k8s.Routes.Build.waf_enabled
    caddy_k8s.Annotations.Resolve.waf_setting caddy_k8s.Routes.Handlers.reverse_proxy_handler
    caddy_k8s.Dict.merge caddy_k8s.Routes.Handlers.real_ip_headers
made-AreFit = (record { own = refl; inner = tt; once = refl }, tt)

redirects-AreFit : AreFit api api_server (http_redirect_routes plain_ingress)
unfolding http_redirect_routes redirect_routes inner_ids ids_in
redirects-AreFit = (record { own = refl; inner = tt; once = refl }, tt)

different : distinct (labels_of (served_rules plain_ingress.rules)) ≡ true
unfolding served_rules caddy_k8s.Routes.Rules.services
different = refl

placed : target_server memory_store plain_ingress app ≡ some "srv1"
unfolding target_server
placed = refl

handle_add-IsSynced_example :
    Returns
      (IsSynced api memory_store view memory_store-IsFaithful kube no_json plain_ingress app empty)
      (handle_add api memory_store kube no_json in_order as_given plain_ingress app before empty)
handle_add-IsSynced_example =
    handle_add-IsSynced api memory_store view memory_store-IsFaithful kube no_json in_order as_given
      plain_ingress app before empty ours

unredirected : (ann.ssl_redirect && not (is_blank app.http_server_name)) ≡ false
unfolding configured caddy_k8s.Annotations.Resolve.resolve_annotations caddy_k8s.Dict.get_text
    caddy_k8s.App.Add.with_config_map caddy_k8s.WafMap.ensure_waf_config_map
    caddy_k8s.WafMap.wants_waf caddy_k8s.Strings.to_lower caddy_k8s.Strings.trim_space
unredirected = refl

abbrev page : CaddyRoute
page = record { id = "page"; match = []; handle = []; terminal = true }

page-IsFit : IsFit (λ k. k) page
unfolding inner_ids
page-IsFit = record { own = refl; inner = tt; once = refl }

written-place_routes_example :
    let (a', w') =
      place_routes api memory_store as_given plain_ingress ann (page ∷ []) app before in
    (place_routes api memory_store as_given plain_ingress ann (page ∷ []) a' w').1.writes
    ≡ w'.writes
written-place_routes_example =
    written-place_routes api api_server api_writes memory_store as_given plain_ingress ann
      (page ∷ []) app before "srv1" as_given-IsIdVisit (refl, tt) (page-IsFit, tt) refl placed
      unredirected

app-IsOwned : IsOwned api api_server memory_store app before
unfolding lookup
app-IsOwned k id e = ground (arith, e)

only_r3 :
    (k id : String)
    → ("shop/front" == k) ≡ false
    → elem id (ids_of (lookup k app.route_ids)) ≡ true
    → "r3" ≡ id
unfolding lookup
only_r3 k id other e = ground (arith, other, e, eq_iff "r3" id)

unconcerned :
    (elem "r3" (ids_of (lookup "shop/front" app.route_ids))
      || elem "r3" (route_ids_of made)
      || elem "r3" (
          touched_ids api api_server api-IsSeparate memory_store app.http_server_name plain_ingress
            ann))
    ≡ false
unfolding lookup convert_ingress caddy_k8s.Routes.Convert.convert_rules configured
    caddy_k8s.App.Add.with_config_map caddy_k8s.WafMap.ensure_waf_config_map
    caddy_k8s.WafMap.wants_waf caddy_k8s.Strings.to_lower caddy_k8s.Strings.trim_space
    caddy_k8s.Dict.get_text caddy_k8s.Routes.Convert.rule_routes
    caddy_k8s.Routes.Convert.path_routes caddy_k8s.Routes.Convert.path_route
    caddy_k8s.Routes.Build.build_handlers caddy_k8s.Annotations.Resolve.resolve_annotations
    caddy_k8s.Routes.Build.chain_of caddy_k8s.Annotations.Resolve.resolve_cors
    caddy_k8s.Strings.equal_fold caddy_k8s.Routes.Build.build_core_handlers
    caddy_k8s.Routes.Build.cors_handlers caddy_k8s.Routes.Convert.host_route
    caddy_k8s.Routes.Convert.preflight_routes caddy_k8s.Routes.Convert.route_id
    caddy_k8s.Strings.replace_all tls_policy_id
unconcerned = refl

add-IsUnshared :
    IsUnshared api api_server memory_store "shop/front"
      (λ id.
        elem id (ids_of (lookup "shop/front" app.route_ids))
        || elem id (route_ids_of made)
        || elem id (
            touched_ids api api_server api-IsSeparate memory_store app.http_server_name
              plain_ingress ann))
      app
add-IsUnshared k id other e =
    subst
      (λ i.
        (elem i (ids_of (lookup "shop/front" app.route_ids))
          || elem i (route_ids_of made)
          || elem i (
              touched_ids api api_server api-IsSeparate memory_store app.http_server_name
                plain_ingress ann))
        ≡ false)
      (only_r3 k id other e) unconcerned

handle_add-IsOwned_example :
    Returns
      (λ out. IsOwned api api_server memory_store out.0 out.1)
      (handle_add api memory_store kube no_json in_order as_given plain_ingress app before empty)
handle_add-IsOwned_example =
    handle_add-IsOwned api api_server memory_store api-IsSeparate view memory_store-IsFaithful kube
      no_json in_order as_given plain_ingress app before empty made "srv1" ours as_given-IsIdVisit
      converted made-AreFit redirects-AreFit recorded_own different placed add-IsUnshared
      app-IsOwned

deleted_unconcerned :
    (elem "r3" (ids_of (lookup "shop/front" app.route_ids)) || tls_policy_id plain_ingress == "r3")
    ≡ false
unfolding tls_policy_id lookup
deleted_unconcerned = refl

delete-IsUnshared :
    IsUnshared api api_server memory_store "shop/front"
      (λ id.
        elem id (ids_of (lookup "shop/front" app.route_ids)) || tls_policy_id plain_ingress == id)
      app
delete-IsUnshared k id other e =
    subst
      (λ i.
        (elem i (ids_of (lookup "shop/front" app.route_ids)) || tls_policy_id plain_ingress == i)
        ≡ false)
      (only_r3 k id other e) deleted_unconcerned

handle_delete-IsOwned_example :
    let (a', w') = handle_delete api memory_store in_order plain_ingress app before in
    IsOwned api api_server memory_store a' w'
handle_delete-IsOwned_example =
    handle_delete-IsOwned api api_server memory_store api-IsSeparate view memory_store-IsFaithful
      in_order plain_ingress app before recorded_own delete-IsUnshared app-IsOwned
