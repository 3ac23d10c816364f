-- ===== src/App/Removed.antt =====
-- What `handleDelete` of app.go leaves on a server that answers every request.
use caddy_k8s.Base.{String, ◌≡◌, ap, ◌∙◌, false, Option, none, List, ◌==◌, if◌then◌else◌, All}
use caddy_k8s.Dict.{lookup, lookup-erase}
use caddy_k8s.Kube.{Ingress}
use caddy_k8s.Hosts.{elem}
use caddy_k8s.Admin.Client.{Net}
use caddy_k8s.Admin.Upsert.{RouteServer}
use caddy_k8s.AccessLog.Manager.{Visit}
use caddy_k8s.Store.Interface.{RouteStore, IsFaithful}
use caddy_k8s.Tls.Policy.{tls_policy_id}
use caddy_k8s.App.State.{App, ingress_key}
use caddy_k8s.App.Apart.{IsSeparate, routes-delete_routes, routes-unskip_if, routes-remove_tls}
use caddy_k8s.App.Delete.{ids_of, unskip_if, remove_tls, handle_delete}

module _ (net : Net) (s : RouteServer net) (apart : IsSeparate net s) where
  open s use {home, routes}

  module _ (store : RouteStore) (view : store.State → String → Option (List String)) where
    -- On a server that answers and with a store that keeps what it is given, where the ids recorded for an
    -- Ingress are not those of objects nested in a route: after its deletion, the server holds none of the
    -- routes recorded for it, and every other top-level route as before, but for one that the id of its
    -- automation policy points into; neither the application nor the store has a record of it, and both
    -- have every other record as before.
    pub handle_delete_lem :
        IsFaithful store view
        → (visit : Visit) (ing : Ingress) (a : App store) (w : net.World) (k key : String)
        → All (λ id. home id ≡ id) (ids_of (lookup (ingress_key ing) a.route_ids))
        → (home (tls_policy_id ing) == k) ≡ false
        → let (a', w') = handle_delete net store visit ing a w in
          (routes w' k
            ≡ (if elem k (ids_of (lookup (ingress_key ing) a.route_ids)) then none else routes w k))
          × (lookup key a'.route_ids
              ≡ (if ingress_key ing == key then none else lookup key a.route_ids))
          × (view a'.stored key ≡ (if ingress_key ing == key then none else view a.stored key))
    unfolding handle_delete
    handle_delete_lem faithful visit ing a w k key own other =
        let ids = ids_of (lookup (ingress_key ing) a.route_ids) in
        let (tls, w1) = remove_tls net ing a.tls_manager w in
        let (log, w2) = unskip_if net visit (ingress_key ing) a.access_log_mgr w1 in
        let same =
          routes-unskip_if net s apart visit (ingress_key ing) a.access_log_mgr w1 k
          ∙ routes-remove_tls net s apart ing a.tls_manager w k other in
        (
          routes-delete_routes net s ids w2 k own ∙ ap (λ o. if elem k ids then none else o) same,
          lookup-erase (ingress_key ing) key a.route_ids,
          faithful.view-remove (ingress_key ing) key a.stored,
        )
