-- ===== src/App/Delete.antt =====
-- `handleDelete`, on the event of an Ingress. Errors are only logged, so the handler goes on after each.
-- The lock of the Ingress's key makes the handler one step for that Ingress.
use caddy_k8s.Base.{String, Option, none, some, List, [], ◌∷◌, if◌then◌else◌, is_empty}
use caddy_k8s.Dict.{lookup, erase}
use caddy_k8s.Kube.{Ingress}
use caddy_k8s.Admin.Client.{Net, delete_route}
use caddy_k8s.AccessLog.Manager.{AccessLogManager, Visit, unskip}
use caddy_k8s.Store.Interface.{RouteStore}
use caddy_k8s.Tls.Certs.{TlsManager, remove_from_ingress}
use caddy_k8s.Tls.Policy.{remove_policy}
use caddy_k8s.App.State.{App, ingress_key}

abbrev pub ids_of : Option (List String) → List String
ids_of none = []
ids_of (some ids) = ids

module _ (net : Net) where
  open net use {World}

  -- The loop over the ids.
  unfoldable pub delete_routes : List String → World → World
  delete_routes [] w = w
  delete_routes (id ∷ ids) w = let (e, w') = delete_route net id w in delete_routes ids w'

  unfoldable pub unskip_if :
      Visit → String → Option AccessLogManager → World → Option AccessLogManager × World
  unskip_if visit key none w = (none, w)
  unskip_if visit key (some m) w = let (e, m', w') = unskip net visit key m w in (some m', w')

  -- The clean-up of certificates and policies of an Ingress with TLS.
  unfoldable pub remove_tls : Ingress → TlsManager → World → TlsManager × World
  remove_tls ing m w =
      let (e, w') = remove_policy net ing w in
      if is_empty ing.tls then (m, w) else (remove_from_ingress ing m, w')

  module _ (store : RouteStore) where
    unfoldable pub handle_delete : Visit → Ingress → App store → World → App store × World
    handle_delete visit ing a w =
        let key = ingress_key ing in
        let (tls, w1) = remove_tls ing a.tls_manager w in
        let (log, w2) = unskip_if visit key a.access_log_mgr w1 in
        let w3 = delete_routes (ids_of (lookup key a.route_ids)) w2 in
        let (e, stored) = store.remove key a.stored in
        (
          record a {
            tls_manager = tls;
            access_log_mgr = log;
            route_ids = erase key a.route_ids;
            stored = stored;
          },
          w3,
        )
