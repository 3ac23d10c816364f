-- ===== src/App/Reconciled.antt =====
-- What `handleAdd` makes of the routes of a server that answers.
use mathlib.Core.Path.{subst}
use mathlib.Core.Option.{some-injective}
use caddy_k8s.Base.{
  String, ◌≡◌, refl, ◌∙◌, sym, true, false, not, ◌&&◌, ◌||◌, Option, none, some, List, [], ◌∷◌,
  ◌==◌, arith, if◌then◌else◌, All, Returns, returns, Returns-value, Bool-cases, inl, inr,
}
use caddy_k8s.Strings.{is_blank}
use caddy_k8s.Dict.{Dict, lookup}
use caddy_k8s.Json.{Json}
use caddy_k8s.Kube.{Ingress, Cluster, Kube, cluster_at}
use caddy_k8s.Hosts.{elem, distinct}
use caddy_k8s.Annotations.Config.{IngressAnnotations}
use caddy_k8s.Annotations.Resolve.{resolve_annotations}
use caddy_k8s.Annotations.WellFormed.{resolve_annotations-IsWellFormed}
use caddy_k8s.WafMap.{ensure_waf_config_map}
use caddy_k8s.AccessLog.Manager.{Visit}
use caddy_k8s.Routes.Model.{CaddyRoute}
use caddy_k8s.Routes.Convert.{http_redirect_routes, convert_ingress}
use caddy_k8s.Routes.Distinct.{labels_of, distinct-route_ids}
use caddy_k8s.Routes.Rules.{served_rules, convert_ingress-Each}
use caddy_k8s.Admin.Client.{Net}
use caddy_k8s.Admin.Upsert.{RouteServer}
use caddy_k8s.Store.Interface.{RouteStore}
use caddy_k8s.Tls.Policy.{tls_policy_id}
use caddy_k8s.App.State.{App, is_ours, ingress_key}
use caddy_k8s.App.Delete.{ids_of, delete_routes}
use caddy_k8s.App.Add.{
  route_ids_of, IdVisit, stale_ids, target_server, sync_redirects, place_on, place_routes,
  with_config_map, prepare, configured, handle_add,
}
use caddy_k8s.App.Ids.{
  IsIdVisit, elem-stale_ids, stale_ids-own, redirect_routes-AreNamed, convert_ingress-AreNamed,
}
use caddy_k8s.App.Apart.{IsSeparate, routes-delete_routes}
use caddy_k8s.App.Prepared.{routes-prepare}
use caddy_k8s.App.Recorded.{with_config_map-cases}
use caddy_k8s.App.Placed.{IsHeld, AreFit, routes-upsert_routes, upsert_routes-IsHeld}

module _ (net : Net) (s : RouteServer net) where
  open s use {home, routes}

  -- The ids of the redirect routes, where they are wanted.
  abbrev pub redirect_ids : String → Ingress → IngressAnnotations → List String
  redirect_ids http_server ing ann =
      if ann.ssl_redirect && not (is_blank http_server)
      then route_ids_of (http_redirect_routes ing)
      else []

  routes-sync_redirects :
      (http_server : String) (ing : Ingress) (ann : IngressAnnotations) (w : net.World) (k : String)
      → AreFit net s (http_redirect_routes ing)
      → elem k (redirect_ids http_server ing ann) ≡ false
      → routes (sync_redirects net http_server ing ann w) k ≡ routes w k
  unfolding sync_redirects http_redirect_routes
  routes-sync_redirects http_server ing ann w k fits h =
      elim (Bool-cases (ann.ssl_redirect && not (is_blank http_server))) [
        | inr e ↦ rw e refl
        | inl e ↦ rw e (
            routes-upsert_routes net s http_server (http_redirect_routes ing) w k
              (redirect_routes-AreNamed ing.namespace ing.name ing.rules) fits (rw e at h))
      ]

  -- The routes of a server are reconciled with those that the conversion made: each is held, no other
  -- recorded one is, and what no part of the handler is about is as it was.
  pub record IsReconciled (old touched : List String) (made : List CaddyRoute) (w w' : net.World)
      : Type 0 where
    pub held : All (IsHeld net s w') made
    pub gone :
        (k : String) → (elem k old && not (elem k (route_ids_of made))) ≡ true → routes w' k ≡ none
    pub others :
        (k : String)
        → (elem k old || elem k (route_ids_of made) || elem k touched) ≡ false
        → routes w' k ≡ routes w k

  place_routes-IsReconciled :
      (store : RouteStore) (order : IdVisit) (ing : Ingress) (ann : IngressAnnotations)
      (made : List CaddyRoute) (a : App store) (w : net.World) (server : String)
      → IsIdVisit order
      → All (λ r. is_blank r.id ≡ false) made
      → AreFit net s made
      → AreFit net s (http_redirect_routes ing)
      → All (λ id. home id ≡ id) (ids_of (lookup (ingress_key ing) a.route_ids))
      → distinct (route_ids_of made) ≡ true
      → target_server store ing a ≡ some server
      → IsReconciled
          (ids_of (lookup (ingress_key ing) a.route_ids))
          (redirect_ids a.http_server_name ing ann)
          made
          w
          (place_routes net store order ing ann made a w).1
  unfolding place_routes place_on
  place_routes-IsReconciled store order ing ann made a w server visit named fits redirects own apart
        placed =
      let old = ids_of (lookup (ingress_key ing) a.route_ids) in
      let new = route_ids_of made in
      let w1 = sync_redirects net a.http_server_name ing ann w in
      let w2 = delete_routes net (stale_ids order old new) w1 in
      let stale_own = stale_ids-own home order visit old new own in
      let removed =
        λ (k : String). routes-delete_routes net s (stale_ids order old new) w1 k stale_own in
      rw placed (record {
        held = upsert_routes-IsHeld net s server made w2 named fits apart;
        gone = λ k h.
            routes-upsert_routes net s server made w2 k named fits (ground arith)
            ∙ (removed k ∙ rw (elem-stale_ids order visit k old new, h) refl);
        others = λ k h.
            routes-upsert_routes net s server made w2 k named fits (ground arith)
            ∙ (removed k
                ∙ ground (
                  arith,
                  elem-stale_ids order visit k old new,
                  routes-sync_redirects a.http_server_name ing ann w k redirects,
                ));
      })

  module _ (apart : IsSeparate net s) (store : RouteStore) where
    -- What the handler touches beside the routes it makes: the policy of the Ingress and its redirects.
    abbrev pub touched_ids : String → Ingress → IngressAnnotations → List String
    touched_ids http_server ing ann = home (tls_policy_id ing) ∷ redirect_ids http_server ing ann

    after-prepare :
        (old touched : List String) (made : List CaddyRoute) (ing : Ingress) (w w1 w' : net.World)
        → ((k : String) → (home (tls_policy_id ing) == k) ≡ false → routes w1 k ≡ routes w k)
        → IsReconciled old touched made w1 w'
        → IsReconciled old (home (tls_policy_id ing) ∷ touched) made w w'
    after-prepare old touched made ing w w1 w' keeps r = record {
      held = r.held;
      gone = r.gone;
      others = λ k h. r.others k (ground arith) ∙ keeps k (ground arith);
    }

    -- The same for an Ingress whose annotations name its ConfigMap.
    synced-IsReconciled :
        (visit : Visit) (order : IdVisit) (cluster : Cluster) (ing : Ingress)
        (annotations : Dict String) (ann : IngressAnnotations) (made : List CaddyRoute)
        (a : App store) (w : net.World) (server : String)
        → IsIdVisit order
        → All (λ r. is_blank r.id ≡ false) made
        → AreFit net s made
        → AreFit net s (http_redirect_routes ing)
        → All (λ id. home id ≡ id) (ids_of (lookup (ingress_key ing) a.route_ids))
        → distinct (route_ids_of made) ≡ true
        → target_server store ing a ≡ some server
        → let ing' = record ing { annotations = annotations } in
          let (a1, w1) = prepare net store visit cluster ing' ann a w in
          IsReconciled
            (ids_of (lookup (ingress_key ing) a.route_ids))
            (touched_ids a.http_server_name ing ann)
            made
            w
            (place_routes net store order ing' ann made a1 w1).1
    unfolding prepare tls_policy_id target_server http_redirect_routes
    synced-IsReconciled visit order cluster ing annotations ann made a w server order_ok named fits
          redirects own different placed =
        let ing' = record ing { annotations = annotations } in
        let (a1, w1) = prepare net store visit cluster ing' ann a w in
        after-prepare _ (redirect_ids a.http_server_name ing' ann) made ing' w w1 _
          (λ k. routes-prepare net s apart store visit cluster ing' ann a w k)
          (place_routes-IsReconciled store order ing' ann made a1 w1 server order_ok named fits
            redirects own different placed)

    module _ (kube : Kube) (parse_json : String → Option Json) where
      -- On a server that answers, for an Ingress of the class whose served hosts have distinct labels, with a
      -- server for its routes, where the made routes and the redirects with the ids nested in them keep to
      -- the routes that these belong to, and the recorded ids are not nested in a route: the handler
      -- returns, each route that the conversion makes is held, every other recorded route is gone, and all
      -- other top-level routes are as before, but for the redirects and one that the policy's id points
      -- into.
      pub handle_add-IsReconciled :
          (visit : Visit) (order : IdVisit) (ing : Ingress) (a : App store) (w : net.World)
          (o : kube.Objects) (made : List CaddyRoute) (server : String)
          → is_ours a.ingress_class ing ≡ true
          → IsIdVisit order
          → (let (ing', ann, o') = configured kube parse_json ing o in
              convert_ingress ing' a.security ann ≡ some made)
          → AreFit net s made
          → AreFit net s (http_redirect_routes ing)
          → All (λ id. home id ≡ id) (ids_of (lookup (ingress_key ing) a.route_ids))
          → distinct (labels_of (served_rules ing.rules)) ≡ true
          → target_server store ing a ≡ some server
          → let (ing', ann, o') = configured kube parse_json ing o in
            Returns
              (λ out.
                IsReconciled
                  (ids_of (lookup (ingress_key ing) a.route_ids))
                  (touched_ids a.http_server_name ing ann)
                  made
                  w
                  out.1)
              (handle_add net store kube parse_json visit order ing a w o)
      unfolding handle_add configured
      handle_add-IsReconciled visit order ing a w o made server ours order_ok converted fits
            redirects own different placed =
          let (r, o') = ensure_waf_config_map kube ing o in
          let ing' = with_config_map r ing in
          let (annotations, same) = with_config_map-cases r ing in
          let cluster = cluster_at kube o' in
          let ann = resolve_annotations parse_json cluster ing' in
          let well = resolve_annotations-IsWellFormed parse_json cluster ing' in
          let (routes, made_by, each) =
            Returns-value (convert_ingress-Each ing' a.security ann well.cors) in
          let all_made = some-injective routes made (sym made_by ∙ converted) in
          let separate =
            subst (λ i. distinct (labels_of (served_rules i.rules)) ≡ true) (sym same) different in
          let different_ids =
            subst (λ rs. distinct (route_ids_of rs) ≡ true) all_made
              (distinct-route_ids ing' a.security ann each separate) in
          let named =
            subst (All (λ r. is_blank r.id ≡ false)) all_made
              (convert_ingress-AreNamed ing' a.security ann routes each) in
          rw (ours, converted)
            (returns _ (
              subst
                (λ i.
                  IsReconciled (ids_of (lookup (ingress_key ing) a.route_ids))
                    (touched_ids a.http_server_name ing ann) made w
                    (place_routes net store order i ann made
                      (prepare net store visit cluster i ann a w).0
                      (prepare net store visit cluster i ann a w).1).1)
                (sym same)
                (synced-IsReconciled visit order cluster ing annotations ann made a w server
                  order_ok named fits redirects own different_ids placed)))
