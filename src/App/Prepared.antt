-- ===== src/App/Prepared.antt =====
-- The routes on the server beside what handleAdd of app.go does with certificates, access log and
-- policy.
use caddy_k8s.Base.{
  String, ◌≡◌, refl, ◌∙◌, Bool, true, false, not, ◌&&◌, Option, none, some, List, [], ◌∷◌, ◌==◌,
  is_empty, Bool-cases, inl, inr,
}
use caddy_k8s.Kube.{Ingress, IngressTls, Cluster}
use caddy_k8s.Admin.Client.{get, Net, Fetched, found, failure, id_path, perform}
use caddy_k8s.Admin.Policies.{post_json, put_or_post, upsert_tls_policy, route_exists, exists_of}
use caddy_k8s.Admin.Upsert.{RouteServer}
use caddy_k8s.AccessLog.Manager.{AccessLogManager, Visit, skip, unskip}
use caddy_k8s.Store.Interface.{RouteStore}
use caddy_k8s.Tls.Certs.{
  TlsCert, TlsManager, push_cert_to_caddy, push, load_entry, load_entries, load_from_ingress,
}
use caddy_k8s.Tls.Policy.{AcmeIssuer, tls_hosts, tls_policy_id, issuers_of, sync_with, sync}
use caddy_k8s.App.State.{App, ingress_hosts}
use caddy_k8s.Strings.{is_blank}
use caddy_k8s.Annotations.Config.{IngressAnnotations}
use caddy_k8s.App.Add.{loads_certs, needs_policy, sync_log, sync_certs, sync_policy, prepare}
use caddy_k8s.App.Apart.{IsSeparate, routes-rebuild}

module _ (net : Net) (s : RouteServer net) where
  open s use {home, routes, get_keeps}

  module _ (apart : IsSeparate net s) where
    open apart use {delete_keeps, patch_keeps, put_keeps, policy_keeps, cert_keeps}

    routes-put_or_post :
        (e : Fetched Bool) (id body : String) (w : net.World) (k : String)
        → (home id == k) ≡ false
        → routes (put_or_post net e id body w).1 k ≡ routes w k
    unfolding perform
    routes-put_or_post (failure e) id body w k other = refl
    routes-put_or_post (found true) id body w k other = put_keeps w id body k other
    routes-put_or_post (found false) id body w k other = policy_keeps w body k

    routes-sync_with :
        (cluster : Cluster) (ing : Ingress) (ann : IngressAnnotations)
        (o : Option (List AcmeIssuer)) (w : net.World) (k : String)
        → (home (tls_policy_id ing) == k) ≡ false
        → routes (sync_with cluster net ing ann o w).1 k ≡ routes w k
    unfolding upsert_tls_policy route_exists
    routes-sync_with cluster ing ann none w k other = refl
    routes-sync_with cluster ing ann (some issuers) w k other =
        let id = tls_policy_id ing in
        let (reply, w') = net.send get (id_path id) none w in
        routes-put_or_post (exists_of net reply) id _ w' k other ∙ get_keeps w id k

    routes-sync_policy :
        (cluster : Cluster) (ing : Ingress) (ann : IngressAnnotations) (w : net.World) (k : String)
        → (home (tls_policy_id ing) == k) ≡ false
        → routes (sync_policy net cluster ing ann w) k ≡ routes w k
    unfolding sync_policy sync
    routes-sync_policy cluster ing ann w k other = elim (Bool-cases (needs_policy ing ann)) [
      | inr e ↦ rw e refl
      | inl e ↦ elim (Bool-cases (is_empty (tls_hosts ing))) [
        | inl f ↦ rw (e, f) refl
        | inr f ↦
            rw (e, f) (routes-sync_with cluster ing ann (issuers_of cluster ing ann) w k other)
      ]
    ]

    routes-push :
        (key : String) (o : Option TlsCert) (m : TlsManager) (w : net.World) (k : String)
        → routes (push net key o m w).1 k ≡ routes w k
    unfolding push push_cert_to_caddy post_json perform
    routes-push key none m w k = refl
    routes-push key (some cert) m w k = cert_keeps w _ k

    routes-load_entries :
        (cluster : Cluster) (ing : Ingress) (entries : List IngressTls) (m : TlsManager)
        (w : net.World) (k : String)
        → routes (load_entries net cluster ing entries m w).1 k ≡ routes w k
    unfolding load_entries load_entry
    routes-load_entries cluster ing [] m w k = refl
    routes-load_entries cluster ing (tls ∷ rest) m w k =
        let (m', w') = load_entry net cluster ing tls m w in
        routes-load_entries cluster ing rest m' w' k
        ∙ elim (Bool-cases (is_blank tls.secret_name)) [
          | inl e ↦ rw e refl
          | inr e ↦ rw e (routes-push _ _ _ w k)
        ]

    routes-sync_certs :
        (cluster : Cluster) (ing : Ingress) (ann : IngressAnnotations) (m : TlsManager)
        (w : net.World) (k : String)
        → routes (sync_certs net cluster ing ann m w).1 k ≡ routes w k
    unfolding sync_certs load_from_ingress
    routes-sync_certs cluster ing ann m w k = elim (Bool-cases (loads_certs ing ann)) [
      | inl e ↦ rw e (routes-load_entries cluster ing ing.tls m w k)
      | inr e ↦ rw e refl
    ]

    routes-sync_log :
        (visit : Visit) (ing : Ingress) (ann : IngressAnnotations) (o : Option AccessLogManager)
        (w : net.World) (k : String)
        → routes (sync_log net visit ing ann o w).1 k ≡ routes w k
    unfolding sync_log skip unskip
    routes-sync_log visit ing ann none w k = refl
    routes-sync_log visit ing ann (some m) w k =
        elim (Bool-cases (ann.access_log_disabled && not (is_empty (ingress_hosts ing)))) [
          | inl e ↦ rw e (routes-rebuild net s apart visit _ w k)
          | inr e ↦ rw e (routes-rebuild net s apart visit _ w k)
        ]

    -- What is done beside the routes changes at most a route that the policy's id points into.
    pub routes-prepare :
        (store : RouteStore) (visit : Visit) (cluster : Cluster) (ing : Ingress)
        (ann : IngressAnnotations) (a : App store) (w : net.World) (k : String)
        → (home (tls_policy_id ing) == k) ≡ false
        → routes (prepare net store visit cluster ing ann a w).1 k ≡ routes w k
    unfolding prepare
    routes-prepare store visit cluster ing ann a w k other =
        let (tls, w1) = sync_certs net cluster ing ann a.tls_manager w in
        let (log, w2) = sync_log net visit ing ann a.access_log_mgr w1 in
        routes-sync_policy cluster ing ann w2 k other
        ∙ (routes-sync_log visit ing ann a.access_log_mgr w1 k
            ∙ routes-sync_certs cluster ing ann a.tls_manager w k)
