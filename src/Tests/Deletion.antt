-- ===== src/Tests/Deletion.antt =====
-- The deletion of an Ingress at a small server, with the store in memory.
use caddy_k8s.Base.{◌≡◌, refl, ◌∙◌, false, none, [], ◌∷◌, ◌==◌, if◌then◌else◌, map, All}
use caddy_k8s.Dict.{lookup, erase, lookup-erase}
use caddy_k8s.Hosts.{elem}
use caddy_k8s.Store.Redis.{drop_prefix}
use caddy_k8s.Store.Memory.{memory_store, memory_store-IsFaithful}
use caddy_k8s.AccessLog.Manager.{Visit}
use caddy_k8s.Tls.Certs.{new_tls_manager, certificates_path}
use caddy_k8s.Tls.Policy.{tls_policy_id}
use caddy_k8s.App.State.{App, ingress_key}
use caddy_k8s.App.Delete.{ids_of, handle_delete}
use caddy_k8s.App.Apart.{IsSeparate}
use caddy_k8s.App.Removed.{handle_delete_lem}
use caddy_k8s.Strings.{has_prefix}
use caddy_k8s.Admin.Policies.{policies_path}
use caddy_k8s.Store.RedisLaws.{drop_prefix-append}
use caddy_k8s.Tests.Samples.{ingress, security}
use caddy_k8s.Tests.AdminApi.{Server, api, api_server}

unprefixed_policies : has_prefix policies_path "/config/apps/http/servers/" ≡ false
unfolding has_prefix
unprefixed_policies = refl

unprefixed_certificates : has_prefix certificates_path "/config/apps/http/servers/" ≡ false
unfolding has_prefix
unprefixed_certificates = refl

pub api-IsSeparate : IsSeparate api api_server
api-IsSeparate = record {
  delete_keeps = λ w id k other.
      rw (drop_prefix-append "/id/" id) (lookup-erase id k w.routes ∙ rw other refl);
  patch_keeps = λ w srv body k. refl;
  put_keeps = λ w id body k other. refl;
  policy_keeps = λ w body k. rw unprefixed_policies refl;
  cert_keeps = λ w body k. rw unprefixed_certificates refl;
}

abbrev pub in_order : Visit
in_order m = map (λ (k, hosts). hosts) m

abbrev pub app : App memory_store
app = record {
  ingress_class = "caddy";
  security = security;
  server_name = "srv0";
  http_server_name = "srv1";
  route_ids = ("shop/front", "r1" ∷ "r2" ∷ []) ∷ ("shop/back", "r3" ∷ []) ∷ [];
  stored = record { contents = ("shop/front", "r1" ∷ "r2" ∷ []) ∷ [] };
  tls_manager = new_tls_manager;
  access_log_mgr = none;
}

abbrev before : Server
before = record {
  routes = ("r1", "r1") ∷ ("r2", "r2") ∷ ("r3", "r3") ∷ [];
  requests = 0;
  writes = 0;
}

apart : (tls_policy_id ingress == "r2") ≡ false
unfolding tls_policy_id
apart = refl

recorded_own : All (λ id. id ≡ id) (ids_of (lookup (ingress_key ingress) app.route_ids))
unfolding lookup
recorded_own = (refl, (refl, tt))

handle_delete_test :
    (handle_delete api memory_store in_order ingress app before).1.routes ≡ ("r3", "r3") ∷ []
unfolding handle_delete caddy_k8s.App.Delete.delete_routes lookup
    caddy_k8s.Admin.Client.delete_route caddy_k8s.Admin.Client.get_route
    caddy_k8s.App.Delete.unskip_if caddy_k8s.App.Delete.remove_tls drop_prefix
    caddy_k8s.Admin.Client.perform erase
handle_delete_test = refl

handle_delete_lem_example :
    let (a', w') = handle_delete api memory_store in_order ingress app before in
    (lookup "r2" w'.routes ≡ (
      if elem "r2" (ids_of (lookup (ingress_key ingress) app.route_ids))
      then none
      else lookup "r2" before.routes))
    × (lookup "shop/front" a'.route_ids
        ≡ (if ingress_key ingress == "shop/front" then none else lookup "shop/front" app.route_ids))
    × (lookup "shop/front" a'.stored.contents ≡ (
        if ingress_key ingress == "shop/front"
        then none
        else lookup "shop/front" app.stored.contents))
handle_delete_lem_example =
    handle_delete_lem api api_server api-IsSeparate memory_store (λ s j. lookup j s.contents)
      memory_store-IsFaithful in_order ingress app before "r2" "shop/front" recorded_own apart
