-- ===== src/App/Recorded.antt =====
-- What `handleAdd` records, whatever the cluster and Caddy answer.
use mathlib.Core.Path.{subst}
use caddy_k8s.Base.{
  String, ◌≡◌, refl, sym, Bool, true, false, ◌&&◌, Option, none, some, List, ◌==◌, if◌then◌else◌,
  Returns, returns, Returns-value, Bool-cases, inl, inr,
}
use caddy_k8s.Dict.{Dict, insert, lookup, lookup-insert}
use caddy_k8s.Json.{Json}
use caddy_k8s.Kube.{Ingress, Cluster, Kube, cluster_at}
use caddy_k8s.Strings.{is_blank}
use caddy_k8s.WafMap.{ensure_waf_config_map}
use caddy_k8s.Annotations.Names
use caddy_k8s.Annotations.Resolve.{resolve_annotations}
use caddy_k8s.Annotations.Config.{IngressAnnotations}
use caddy_k8s.Annotations.WellFormed.{resolve_annotations-IsWellFormed}
use caddy_k8s.Routes.Model.{CaddyRoute}
use caddy_k8s.Routes.Convert.{convert_ingress}
use caddy_k8s.Routes.Rules.{convert_ingress-Each}
use caddy_k8s.Admin.Client.{Fetched, found, failure, Net}
use caddy_k8s.AccessLog.Manager.{Visit}
use caddy_k8s.Store.Interface.{RouteStore, IsFaithful}
use caddy_k8s.App.State.{App, is_ours, ingress_key}
use caddy_k8s.App.Add.{
  with_config_map, route_ids_of, IdVisit, target_server, place_on, place_routes, prepare,
  configured, handle_add,
}

abbrev pub is_some {ℓ} : {A : Type ℓ} → Option A → Bool
is_some none = false
is_some (some a) = true

-- The name of a ConfigMap changes the annotations alone.
pub with_config_map-cases :
    (r : Fetched String) (ing : Ingress)
    → (annotations : Dict String) × (with_config_map r ing
        ≡ record ing { annotations = annotations })
unfolding with_config_map
with_config_map-cases (failure e) ing = (ing.annotations, refl)
with_config_map-cases (found name) ing = elim (Bool-cases (is_blank name)) [
  | inl e ↦ (ing.annotations, rw e refl)
  | inr e ↦ (insert Names.annotation_waf_rules_config_map name ing.annotations, rw e refl)
]

module _ (net : Net) (store : RouteStore) (view : store.State → String → Option (List String)) where
  -- The record of the Ingress is the list of the ids if there is a server for the routes, and as before
  -- if there is none; the other records are as before. The store has what the application has.
  pub record IsRecorded (key : String) (placed : Bool) (ids : List String) (a a' : App store)
      : Type 0 where
    pub route_ids :
        (k : String)
        → lookup k a'.route_ids ≡ (if placed && key == k then some ids else lookup k a.route_ids)
    pub stored :
        (k : String) → view a'.stored k ≡ (if placed && key == k then some ids else view a.stored k)

  module _ (faithful : IsFaithful store view) where
    place_on-IsRecorded :
        (server : Option String) (key : String) (routes : List CaddyRoute) (a : App store)
        (w : net.World)
        → IsRecorded key
            (is_some server)
            (route_ids_of routes)
            a
            (place_on net store server key routes a w).0
    unfolding place_on
    place_on-IsRecorded none key routes a w = record { route_ids = λ k. refl; stored = λ k. refl }
    place_on-IsRecorded (some server) key routes a w = record {
      route_ids = λ k. lookup-insert key k (route_ids_of routes) a.route_ids;
      stored = λ k. faithful.view-save key k (route_ids_of routes) a.stored;
    }

    synced-IsRecorded :
        (visit : Visit) (order : IdVisit) (cluster : Cluster) (ing : Ingress)
        (annotations : Dict String) (ann : IngressAnnotations) (routes : List CaddyRoute)
        (a : App store) (w : net.World)
        → let ing' = record ing { annotations = annotations } in
          let (a1, w1) = prepare net store visit cluster ing' ann a w in
          IsRecorded
            (ingress_key ing)
            (is_some (target_server store ing a))
            (route_ids_of routes)
            a
            (place_routes net store order ing' ann routes a1 w1).0
    unfolding place_routes prepare target_server
    synced-IsRecorded visit order cluster ing annotations ann routes a w =
        let r = place_on-IsRecorded (target_server store ing a) (ingress_key ing) routes _ _ in
        record { route_ids = r.route_ids; stored = r.stored }

    module _ (kube : Kube) (parse_json : String → Option Json) where
      -- The outcome for an Ingress of the class: its routes are those that the conversion makes from the
      -- configuration, and their ids are recorded.
      pub record IsSynced (ing : Ingress) (a : App store) (o : kube.Objects)
          (out : App store × net.World × kube.Objects) : Type 0 where
        pub routes : List CaddyRoute
        pub converted :
            let (ing', ann, o') = configured kube parse_json ing o in
            convert_ingress ing' a.security ann ≡ some routes
        pub recorded :
            IsRecorded
              (ingress_key ing)
              (is_some (target_server store ing a))
              (route_ids_of routes)
              a
              out.0

      -- With a store that keeps what it is given: an Ingress of the class is always converted, without a
      -- panic, and if there is a server for its routes, their ids are recorded in the application and in the
      -- store, whatever the network and the cluster answer.
      pub handle_add-IsSynced :
          (visit : Visit) (order : IdVisit) (ing : Ingress) (a : App store) (w : net.World)
          (o : kube.Objects)
          → is_ours a.ingress_class ing ≡ true
          → Returns (IsSynced ing a o) (handle_add net store kube parse_json visit order ing a w o)
      unfolding handle_add configured
      handle_add-IsSynced visit order ing a w o ours =
          let (r, o') = ensure_waf_config_map kube ing o in
          let ing' = with_config_map r ing in
          let (annotations, same) = with_config_map-cases r ing in
          let cluster = cluster_at kube o' in
          let ann = resolve_annotations parse_json cluster ing' in
          let well = resolve_annotations-IsWellFormed parse_json cluster ing' in
          let (routes, converted, each) =
            Returns-value (convert_ingress-Each ing' a.security ann well.cors) in
          rw (ours, converted)
            (returns _ (record {
              routes = routes;
              converted = converted;
              recorded =
                  subst
                    (λ i.
                      IsRecorded (ingress_key ing) (is_some (target_server store ing a))
                        (route_ids_of routes) a
                        (place_routes net store order i ann routes
                          (prepare net store visit cluster i ann a w).0
                          (prepare net store visit cluster i ann a w).1).0)
                    (sym same)
                    (synced-IsRecorded visit order cluster ing annotations ann routes a w);
            }))
