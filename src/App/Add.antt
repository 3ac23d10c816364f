-- ===== src/App/Add.antt =====
-- `handleAdd`, on the event that an Ingress was added or changed. Errors are only logged, so the handler
-- goes on after each. The lock of the Ingress's key makes the handler one step for that Ingress. `none`
-- is a panic of the conversion.
use caddy_k8s.Base.{
  String, Bool, not, ◌&&◌, ◌||◌, Option, none, some, List, [], ◌∷◌, ◌==◌, if◌then◌else◌, is_empty,
  map, ◌>>=◌,
}
use caddy_k8s.Dict.{lookup, insert}
use caddy_k8s.Json.{Json}
use caddy_k8s.Kube.{Ingress, Cluster, Kube, cluster_at}
use caddy_k8s.Strings.{is_blank}
use caddy_k8s.Hosts.{elem, unique}
use caddy_k8s.Annotations.Names
use caddy_k8s.Annotations.Config.{IngressAnnotations}
use caddy_k8s.Annotations.Resolve.{resolve_annotations}
use caddy_k8s.Routes.Model.{CaddyRoute}
use caddy_k8s.Routes.Convert.{convert_ingress, http_redirect_routes}
use caddy_k8s.Admin.Client.{Fetched, found, failure, Net, upsert_route}
use caddy_k8s.AccessLog.Manager.{AccessLogManager, Visit, skip, unskip}
use caddy_k8s.Store.Interface.{RouteStore}
use caddy_k8s.Tls.Certs.{TlsManager, load_from_ingress}
use caddy_k8s.Tls.Policy.{sync}
use caddy_k8s.WafMap.{ensure_waf_config_map}
use caddy_k8s.App.State.{App, is_ours, ingress_hosts, ingress_key}
use caddy_k8s.App.Delete.{ids_of, delete_routes}

-- The name of the ConfigMap is put into the annotations of the object at hand.
unfoldable pub with_config_map : Fetched String → Ingress → Ingress
with_config_map (failure e) ing = ing
with_config_map (found name) ing = if is_blank name then ing else record ing {
  annotations = insert Names.annotation_waf_rules_config_map name ing.annotations;
}

abbrev pub route_ids_of : List CaddyRoute → List String
route_ids_of routes = map (λ r. r.id) routes

-- The order in which Go visits a set of ids.
abbrev pub IdVisit : Type 0
IdVisit = List String → List String

-- Those of the ids that are not among the new ones.
unfoldable pub missing_from : List String → List String → List String
missing_from new [] = []
missing_from new (id ∷ ids) =
    let rest = missing_from new ids in if elem id new then rest else id ∷ rest

unfoldable pub stale_ids : IdVisit → List String → List String → List String
stale_ids order old new = missing_from new (order (unique old))

-- Certificates are loaded unless CertMagic manages them.
abbrev pub loads_certs : Ingress → IngressAnnotations → Bool
loads_certs ing ann = not (is_empty ing.tls) && not (ann.tls_handler == "certmagic")

-- A policy is needed for on-demand certificates and for a custom authority.
abbrev pub needs_policy : Ingress → IngressAnnotations → Bool
needs_policy ing ann =
    (not (is_empty ing.tls) && ann.tls_handler == "certmagic")
    && (ann.tls_on_demand || not (is_blank ann.tls_ca))

module _ (store : RouteStore) where
  -- The server for the routes: none if the Ingress is plain HTTP and there is no HTTP server.
  unfoldable pub target_server : Ingress → App store → Option String
  target_server ing a =
      if is_empty ing.tls
      then (if is_blank a.http_server_name then none else some a.http_server_name)
      else some a.server_name

module _ (kube : Kube) (parse_json : String → Option Json) where
  -- The Ingress with its ConfigMap named, its configuration, and the objects.
  unfoldable pub configured : Ingress → kube.Objects → Ingress × IngressAnnotations × kube.Objects
  configured ing o =
      let (name, o') = ensure_waf_config_map kube ing o in
      let ing' = with_config_map name ing in
      (ing', resolve_annotations parse_json (cluster_at kube o') ing', o')

module _ (net : Net) where
  open net use {World}

  unfoldable pub sync_log :
      Visit
      → Ingress
      → IngressAnnotations
      → Option AccessLogManager
      → World
      → Option AccessLogManager × World
  sync_log visit ing ann none w = (none, w)
  sync_log visit ing ann (some m) w =
      let hosts = ingress_hosts ing in
      let (e, m', w') =
        if ann.access_log_disabled && not (is_empty hosts)
        then skip net visit (ingress_key ing) hosts m w
        else unskip net visit (ingress_key ing) m w in
      (some m', w')

  unfoldable pub upsert_routes : String → List CaddyRoute → World → World
  upsert_routes server [] w = w
  upsert_routes server (r ∷ rs) w =
      let (e, w') = upsert_route net server r w in upsert_routes server rs w'

  -- The routes that redirect plain HTTP, on the HTTP server.
  unfoldable pub sync_redirects : String → Ingress → IngressAnnotations → World → World
  sync_redirects http_server ing ann w =
      if ann.ssl_redirect && not (is_blank http_server)
      then upsert_routes http_server (http_redirect_routes ing) w
      else w

  module _ (cluster : Cluster) where
    unfoldable pub sync_certs :
        Ingress → IngressAnnotations → TlsManager → World → TlsManager × World
    sync_certs ing ann m w =
        if loads_certs ing ann then load_from_ingress net cluster ing m w else (m, w)

    unfoldable pub sync_policy : Ingress → IngressAnnotations → World → World
    sync_policy ing ann w =
        let (e, w') = sync cluster net ing ann w in if needs_policy ing ann then w' else w

  module _ (store : RouteStore) where
    unfoldable pub place_on :
        Option String → String → List CaddyRoute → App store → World → App store × World
    place_on none key routes a w = (a, w)
    place_on (some server) key routes a w =
        let w' = upsert_routes server routes w in
        let (e, stored) = store.save key (route_ids_of routes) a.stored in
        (record a { route_ids = insert key (route_ids_of routes) a.route_ids; stored = stored }, w')

    -- From the converted routes on: redirects, stale routes, then the routes.
    unfoldable pub place_routes :
        IdVisit
        → Ingress
        → IngressAnnotations
        → List CaddyRoute
        → App store
        → World
        → App store × World
    place_routes order ing ann routes a w =
        let old = ids_of (lookup (ingress_key ing) a.route_ids) in
        let w1 = sync_redirects a.http_server_name ing ann w in
        let w2 = delete_routes net (stale_ids order old (route_ids_of routes)) w1 in
        place_on (target_server store ing a) (ingress_key ing) routes a w2

    -- What is done beside the routes: certificates, access log, policy.
    unfoldable pub prepare :
        Visit → Cluster → Ingress → IngressAnnotations → App store → World → App store × World
    prepare visit cluster ing ann a w =
        let (tls, w1) = sync_certs cluster ing ann a.tls_manager w in
        let (log, w2) = sync_log visit ing ann a.access_log_mgr w1 in
        (record a { tls_manager = tls; access_log_mgr = log }, sync_policy cluster ing ann w2)

    module _ (kube : Kube) (parse_json : String → Option Json) where
      unfoldable pub handle_add :
          Visit
          → IdVisit
          → Ingress
          → App store
          → World
          → kube.Objects
          → Option (App store × World × kube.Objects)
      handle_add visit order ing a w o =
          let (ing', ann, o') = configured kube parse_json ing o in
          let (a1, w1) = prepare visit (cluster_at kube o') ing' ann a w in
          let synced = convert_ingress ing' a.security ann >>= λ routes.
          let (a2, w2) = place_routes order ing' ann routes a1 w1 in some (a2, w2, o') in
          if is_ours a.ingress_class ing then synced else some (a, w, o)
