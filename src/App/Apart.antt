-- ===== src/App/Apart.antt =====
-- Which requests of the handlers leave the routes of a server alone.
use caddy_k8s.Base.{
  String, ◌≡◌, refl, ◌∙◌, Bool, true, false, Option, none, some, List, [], ◌∷◌, ◌==◌, arith,
  if◌then◌else◌, is_empty, All, Bool-cases, inl, inr,
}
use caddy_k8s.Kube.{Ingress}
use caddy_k8s.Json.{texts}
use caddy_k8s.Hosts.{elem}
use caddy_k8s.Admin.Client.{
  get, put, post, patch, delete, Net, Fetched, found, failure, id_path, reply_error, perform,
  delete_route,
}
use caddy_k8s.Admin.Policies.{policies_path, route_exists, exists_of, delete_if, delete_tls_policy}
use caddy_k8s.Admin.Upsert.{RouteServer, delete_route_lem}
use caddy_k8s.AccessLog.Manager.{
  AccessLogManager, Visit, servers, skip_list, skip_path, go_on, patch_servers, recorded, rebuild,
  unskip,
}
use caddy_k8s.Tls.Certs.{TlsManager, certificates_path}
use caddy_k8s.Tls.Policy.{tls_policy_id, remove_policy}
use caddy_k8s.App.Delete.{delete_routes, unskip_if, remove_tls}

module _ (net : Net) (s : RouteServer net) where
  open s use {home, routes, get_keeps}

  -- Requests about other things leave the top-level routes alone: a skip list, the policies, and the
  -- certificates; and a request about an id changes at most the route that the id points into.
  pub record IsSeparate : Type 0 where
    pub delete_keeps :
        (w : net.World) (id k : String)
        → (home id == k) ≡ false
        → routes (net.send delete (id_path id) none w).1 k ≡ routes w k
    pub patch_keeps :
        (w : net.World) (srv body k : String)
        → routes (net.send patch (skip_path srv) (some body) w).1 k ≡ routes w k
    pub put_keeps :
        (w : net.World) (id body k : String)
        → (home id == k) ≡ false
        → routes (net.send put (id_path id) (some body) w).1 k ≡ routes w k
    pub policy_keeps :
        (w : net.World) (body k : String)
        → routes (net.send post policies_path (some body) w).1 k ≡ routes w k
    pub cert_keeps :
        (w : net.World) (body k : String)
        → routes (net.send post certificates_path (some body) w).1 k ≡ routes w k

  pub routes-delete_routes :
      (ids : List String) (w : net.World) (k : String)
      → All (λ id. home id ≡ id) ids
      → routes (delete_routes net ids w) k ≡ (if elem k ids then none else routes w k)
  unfolding delete_routes
  routes-delete_routes [] w k own = refl
  routes-delete_routes (id ∷ ids) w k (here, rest) =
      let w' = (delete_route net id w).1 in
      ground (arith, routes-delete_routes ids w' k rest, (delete_route_lem net s id w here).1 k)

  module _ (apart : IsSeparate) where
    open apart use {delete_keeps, patch_keeps, put_keeps, policy_keeps, cert_keeps}

    routes-go_on :
        (o : Option String) (what srv : String) (w : net.World) (rest : Option String × net.World)
        (k : String)
        → routes rest.1 k ≡ routes w k
        → routes (go_on net o what srv w rest).1 k ≡ routes w k
    routes-go_on none what srv w rest k h = h
    routes-go_on (some e) what srv w rest k h = refl

    routes-patch_servers :
        (srvs : List String) (body : String) (w : net.World) (k : String)
        → routes (patch_servers net srvs body w).1 k ≡ routes w k
    unfolding patch_servers perform
    routes-patch_servers [] body w k = refl
    routes-patch_servers (srv ∷ srvs) body w k =
        let (reply, w') = net.send patch (skip_path srv) (some body) w in
        routes-go_on (reply_error net patch (skip_path srv) reply) "update skip_hosts" srv w' _ k
          (routes-patch_servers srvs body w' k)
        ∙ patch_keeps w srv body k

    routes-recorded :
        (m : AccessLogManager) (body : String) (sent : Option String × net.World) (k : String)
        → routes (recorded net m body sent).2 k ≡ routes sent.1 k
    routes-recorded m body (none, w) k = refl
    routes-recorded m body (some e, w) k = refl

    pub routes-rebuild :
        (visit : Visit) (m : AccessLogManager) (w : net.World) (k : String)
        → routes (rebuild net visit m w).2 k ≡ routes w k
    unfolding rebuild
    routes-rebuild visit m w k =
        let body = net.marshal (texts (skip_list visit m)) in
        elim (Bool-cases (m.last_skip == body)) [
          | inl e ↦ rw e refl
          | inr e ↦ rw e (
              routes-recorded m body (patch_servers net (servers m) body w) k
              ∙ routes-patch_servers (servers m) body w k)
        ]

    pub routes-unskip_if :
        (visit : Visit) (key : String) (o : Option AccessLogManager) (w : net.World) (k : String)
        → routes (unskip_if net visit key o w).1 k ≡ routes w k
    unfolding unskip_if unskip
    routes-unskip_if visit key none w k = refl
    routes-unskip_if visit key (some m) w k = routes-rebuild visit _ w k

    routes-delete_if :
        (e : Fetched Bool) (id : String) (w : net.World) (k : String)
        → (home id == k) ≡ false
        → routes (delete_if net e id w).1 k ≡ routes w k
    unfolding perform
    routes-delete_if (failure e) id w k other = refl
    routes-delete_if (found true) id w k other = delete_keeps w id k other
    routes-delete_if (found false) id w k other = refl

    routes-remove_policy :
        (ing : Ingress) (w : net.World) (k : String)
        → (home (tls_policy_id ing) == k) ≡ false
        → routes (remove_policy net ing w).1 k ≡ routes w k
    unfolding remove_policy delete_tls_policy route_exists
    routes-remove_policy ing w k other =
        let id = tls_policy_id ing in
        let (reply, w') = net.send get (id_path id) none w in
        routes-delete_if (exists_of net reply) id w' k other ∙ get_keeps w id k

    pub routes-remove_tls :
        (ing : Ingress) (m : TlsManager) (w : net.World) (k : String)
        → (home (tls_policy_id ing) == k) ≡ false
        → routes (remove_tls net ing m w).1 k ≡ routes w k
    unfolding remove_tls
    routes-remove_tls ing m w k other = elim (Bool-cases (is_empty ing.tls)) [
      | inl e ↦ rw e refl
      | inr e ↦ rw e (routes-remove_policy ing w k other)
    ]
