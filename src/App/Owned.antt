-- ===== src/App/Owned.antt =====
-- The ownership of routes: what is recorded for an Ingress is on the server.
use mathlib.Core.Path.{subst}
use mathlib.Core.Option.{some-injective}
use caddy_k8s.Base.{
  String, ◌≡◌, refl, ◌∙◌, ap, sym, Bool, true, false, ◌||◌, Option, none, some, List, [], ◌∷◌, ◌==◌,
  eq_iff, if◌then◌else◌, arith, All, Returns, returns, Returns-value, Bool-cases, inl, inr,
}
use caddy_k8s.Dict.{lookup, lookup-erase}
use caddy_k8s.Json.{Json}
use caddy_k8s.Kube.{Ingress, Kube}
use caddy_k8s.Hosts.{elem, distinct}
use caddy_k8s.Routes.Model.{CaddyRoute}
use caddy_k8s.Routes.Convert.{convert_ingress, http_redirect_routes}
use caddy_k8s.Routes.Rules.{served_rules}
use caddy_k8s.Routes.Distinct.{labels_of}
use caddy_k8s.Admin.Client.{Net}
use caddy_k8s.Admin.Upsert.{RouteServer}
use caddy_k8s.AccessLog.Manager.{Visit}
use caddy_k8s.Store.Interface.{RouteStore, IsFaithful}
use caddy_k8s.Tls.Policy.{tls_policy_id}
use caddy_k8s.App.State.{App, is_ours, ingress_key}
use caddy_k8s.App.Delete.{ids_of, handle_delete}
use caddy_k8s.App.Add.{route_ids_of, IdVisit, target_server, configured, handle_add}
use caddy_k8s.App.Recorded.{is_some, handle_add-IsSynced}
use caddy_k8s.App.Apart.{IsSeparate}
use caddy_k8s.App.Placed.{IsHeld, AreFit}
use caddy_k8s.App.Removed.{handle_delete_lem}
use caddy_k8s.App.Ids.{IsIdVisit}
use caddy_k8s.App.Reconciled.{IsReconciled, touched_ids, handle_add-IsReconciled}

module _ (net : Net) (s : RouteServer net) where
  open s use {home, routes}

  held-is_some :
      (w : net.World) (made : List CaddyRoute) (id : String)
      → All (IsHeld net s w) made
      → elem id (route_ids_of made) ≡ true
      → is_some (routes w id) ≡ true
  held-is_some w [] id held e = cc
  held-is_some w (r ∷ rs) id (h, hs) e = elim (Bool-cases (r.id == id)) [
    | inl same ↦ ap is_some (ap (routes w) (sym ((eq_iff r.id id).0 same)) ∙ h.held)
    | inr other ↦ held-is_some w rs id hs (ground (arith, e, other))
  ]

  module _ (store : RouteStore) where
    -- Every id that is recorded for an Ingress is that of a route on the server.
    abbrev pub IsOwned : App store → net.World → Type 0
    IsOwned a w =
        (k id : String)
        → elem id (ids_of (lookup k a.route_ids)) ≡ true
        → is_some (routes w id) ≡ true

    -- None of the concerned ids is recorded under another key.
    abbrev pub IsUnshared : String → (String → Bool) → App store → Type 0
    IsUnshared key concerned a =
        (k id : String)
        → (key == k) ≡ false
        → elem id (ids_of (lookup k a.route_ids)) ≡ true
        → concerned id ≡ false

    reconciled-IsOwned :
        (key : String) (made : List CaddyRoute) (old touched : List String) (a a' : App store)
        (w w' : net.World)
        → ((k : String)
            → lookup k a'.route_ids
              ≡ (if key == k then some (route_ids_of made) else lookup k a.route_ids))
        → IsReconciled net s old touched made w w'
        → IsUnshared key (λ id. elem id old || elem id (route_ids_of made) || elem id touched) a
        → IsOwned a w
        → IsOwned a' w'
    reconciled-IsOwned key made old touched a a' w w' recorded r unshared owned k id e =
        elim (Bool-cases (key == k)) [
          | inl same ↦
              let now : lookup k a'.route_ids ≡ some (route_ids_of made) =
                recorded k ∙ rw same refl in
              held-is_some w' made id r.held (ap (λ o. elem id (ids_of o)) (sym now) ∙ e)
          | inr other ↦
              let kept : lookup k a'.route_ids ≡ lookup k a.route_ids =
                recorded k ∙ rw other refl in
              let before = ap (λ o. elem id (ids_of o)) (sym kept) ∙ e in
              ap is_some (r.others id (unshared k id other before)) ∙ owned k id before
        ]

    handle_delete-route_ids :
        (visit : Visit) (ing : Ingress) (a : App store) (w : net.World) (k : String)
        → lookup k (handle_delete net store visit ing a w).0.route_ids
          ≡ (if ingress_key ing == k then none else lookup k a.route_ids)
    unfolding handle_delete
    handle_delete-route_ids visit ing a w k = lookup-erase (ingress_key ing) k a.route_ids

    no_ids : (id : String) → elem id (ids_of none) ≡ true → ⊥
    no_ids id e = cc

    module _ (apart : IsSeparate net s) (view : store.State → String → Option (List String))
        (faithful : IsFaithful store view) where
      -- On a server that answers, and with a faithful store: the deletion of an Ingress, whose recorded ids
      -- are not nested in a route, keeps the ownership of the others, if they share no id with it and the
      -- id of its policy points into none of theirs.
      pub handle_delete-IsOwned :
          (visit : Visit) (ing : Ingress) (a : App store) (w : net.World)
          → All (λ id. home id ≡ id) (ids_of (lookup (ingress_key ing) a.route_ids))
          → IsUnshared
              (ingress_key ing)
              (λ id.
                elem id (ids_of (lookup (ingress_key ing) a.route_ids))
                || home (tls_policy_id ing) == id)
              a
          → IsOwned a w
          → let (a', w') = handle_delete net store visit ing a w in IsOwned a' w'
      handle_delete-IsOwned visit ing a w own unshared owned k id e =
          elim (Bool-cases (ingress_key ing == k)) [
            | inl same ↦
                let gone : lookup k (handle_delete net store visit ing a w).0.route_ids ≡ none =
                  handle_delete-route_ids visit ing a w k ∙ rw same refl in
                absurd (no_ids id (ap (λ o. elem id (ids_of o)) (sym gone) ∙ e))
            | inr other ↦
                let kept : lookup k (handle_delete net store visit ing a w).0.route_ids
                    ≡ lookup k a.route_ids =
                  handle_delete-route_ids visit ing a w k ∙ rw other refl in
                let before = ap (λ o. elem id (ids_of o)) (sym kept) ∙ e in
                let free = unshared k id other before in
                let (placed, records, stored) =
                  handle_delete_lem net s apart store view faithful visit ing a w id k own
                    (ground (arith, free)) in
                let stays : routes (handle_delete net store visit ing a w).1 id ≡ routes w id =
                  placed ∙ ground (arith, free) in
                ap is_some stays ∙ owned k id before
          ]

      module _ (kube : Kube) (parse_json : String → Option Json) where
        -- On a server that answers, and with a faithful store: handling an Ingress of the class keeps the
        -- ownership of all, and gives it that of the new ids, if its served hosts have distinct labels,
        -- there is a server for them, the made routes and the redirects with the ids nested in them keep to
        -- the routes that these belong to, its recorded ids are not nested in a route, and no id that the
        -- handler is about is recorded under another key.
        pub handle_add-IsOwned :
            (visit : Visit) (order : IdVisit) (ing : Ingress) (a : App store) (w : net.World)
            (o : kube.Objects) (made : List CaddyRoute) (server : String)
            → is_ours a.ingress_class ing ≡ true
            → IsIdVisit order
            → (let (ing', ann, o') = configured kube parse_json ing o in
                convert_ingress ing' a.security ann ≡ some made)
            → AreFit net s made
            → AreFit net s (http_redirect_routes ing)
            → All (λ id. home id ≡ id) (ids_of (lookup (ingress_key ing) a.route_ids))
            → distinct (labels_of (served_rules ing.rules)) ≡ true
            → target_server store ing a ≡ some server
            → (let (ing', ann, o') = configured kube parse_json ing o in
                IsUnshared
                  (ingress_key ing)
                  (λ id.
                    elem id (ids_of (lookup (ingress_key ing) a.route_ids))
                    || elem id (route_ids_of made)
                    || elem id (touched_ids net s apart store a.http_server_name ing ann))
                  a)
            → IsOwned a w
            → Returns
                (λ out. IsOwned out.0 out.1)
                (handle_add net store kube parse_json visit order ing a w o)
        handle_add-IsOwned visit order ing a w o made server ours order_ok converted fits redirects
              own different placed unshared owned =
            let (out, e, r) = Returns-value (
              handle_add-IsReconciled net s apart store kube parse_json visit order ing a w o made
                server ours order_ok converted fits redirects own different placed) in
            let (out', e', synced) = Returns-value (
              handle_add-IsSynced net store view faithful kube parse_json visit order ing a w o
                ours) in
            let same = some-injective out' out (sym e' ∙ e) in
            let ids =
              ap route_ids_of
                (some-injective synced.routes made (sym synced.converted ∙ converted)) in
            subst (Returns (λ out. IsOwned out.0 out.1)) (sym e) (
              returns out (
                reconciled-IsOwned (ingress_key ing) made _ _ a out.0 w out.1
                  (λ k.
                    ap (λ r. lookup k r.0.route_ids) (sym same)
                    ∙ (synced.recorded.route_ids k ∙ rw (placed, ids) refl))
                  r unshared owned))
