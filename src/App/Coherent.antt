-- ===== src/App/Coherent.antt =====
-- What every run of the events keeps: the application and the store have the same records, and a record
-- that no event is about stays.
use caddy_k8s.Base.{
  String, ◌≡◌, refl, ◌∙◌, ap, sym, Bool, false, ◌||◌, ◌&&◌, Option, none, some, List, [], ◌∷◌, ◌==◌,
  if◌then◌else◌, arith, map, Returns, returns, Returns-value, Bool-cases, inl, inr,
}
use mathlib.Core.Option.{some-injective}
use mathlib.Core.Path.{subst}
use caddy_k8s.Dict.{Dict, lookup, lookup-insert, lookup-erase}
use caddy_k8s.Json.{Json}
use caddy_k8s.Kube.{Ingress, Kube}
use caddy_k8s.Admin.Client.{Net}
use caddy_k8s.AccessLog.Manager.{Visit}
use caddy_k8s.Store.Interface.{RouteStore, IsFaithful}
use caddy_k8s.Tls.Certs.{reload_secret}
use caddy_k8s.App.State.{App, is_ours, ingress_key}
use caddy_k8s.App.Delete.{handle_delete}
use caddy_k8s.App.Add.{IdVisit, route_ids_of, target_server, handle_add}
use caddy_k8s.App.Recorded.{handle_add-IsSynced, is_some}
use caddy_k8s.App.Events.{
  insert_all, restored, restore, Event, applied, removed, secret_changed, elsewhere, Situation,
  Step, on_applied, on_removed, on_secret, on_elsewhere, Reach, here, next,
}

-- The key that an event is about.
abbrev pub is_about : String → Event → Bool
is_about k (applied ing) = ingress_key ing == k
is_about k (removed ing) = ingress_key ing == k
is_about k (secret_changed secret) = false
is_about k elsewhere = false

abbrev pub concerns : String → List Event → Bool
concerns k [] = false
concerns k (e ∷ es) = is_about k e || concerns k es

lookup-insert_all :
    (stored m : Dict (List String)) (k : String) (o : Option (List String))
    → lookup k stored ≡ o
    → lookup k m ≡ none
    → lookup k (insert_all stored m) ≡ o
unfolding insert_all lookup
lookup-insert_all [] m k o e fresh = fresh ∙ e
lookup-insert_all ((j, v) ∷ stored) m k o e fresh =
    lookup-insert j k v (insert_all stored m)
    ∙ ground (arith, lookup-insert_all stored m k (lookup k stored) refl fresh, e)

-- A visit in the order of the entries.
abbrev in_turn : Visit
in_turn m = map (λ (k, hosts). hosts) m

module _ (store : RouteStore) (view : store.State → String → Option (List String)) where
  -- The application has the records of the store.
  abbrev pub AreCoherent : App store → Type 0
  AreCoherent a = (k : String) → lookup k a.route_ids ≡ view a.stored k

  module _ (faithful : IsFaithful store view) where
    -- After the restoration into an empty map, the application has the records of the store.
    pub restore-AreCoherent : (a : App store) → a.route_ids ≡ [] → AreCoherent (restore store a)
    unfolding restore lookup
    restore-AreCoherent a fresh k =
        let (m, loaded, all) = faithful.load_all_complete a.stored in
        ap (λ o. lookup k (restored o a.route_ids)) loaded
        ∙ lookup-insert_all m a.route_ids k (view (restore store a).stored k)
            (all k ∙ sym (faithful.load_all_keeps a.stored k)) (ap (lookup k) fresh)

    -- Some records are replaced, in the application and in the store alike.
    record Overwrites (e : Event) (a a' : App store) : Type 0 where
      touched : String → Bool
      new : Option (List String)
      only : (k : String) → is_about k e ≡ false → touched k ≡ false
      route_ids :
          (k : String) → lookup k a'.route_ids ≡ (if touched k then new else lookup k a.route_ids)
      stored : (k : String) → view a'.stored k ≡ (if touched k then new else view a.stored k)

    nothing : (e : Event) (a a' : App store) → a' ≡ a → Overwrites e a a'
    nothing e a a' same = record {
      touched = λ k. false;
      new = none;
      only = λ k h. refl;
      route_ids = λ k. ap (λ b. lookup k b.route_ids) same;
      stored = λ k. ap (λ b. view b.stored k) same;
    }

    module _ (net : Net) (kube : Kube) (parse_json : String → Option Json) where
      handle_add-Overwrites :
          (visit : Visit) (order : IdVisit) (ing : Ingress) (a : App store) (w : net.World)
          (o : kube.Objects)
          → Returns
              (λ out. Overwrites (applied ing) a out.0)
              (handle_add net store kube parse_json visit order ing a w o)
      unfolding handle_add
      handle_add-Overwrites visit order ing a w o =
          elim (Bool-cases (is_ours a.ingress_class ing)) [
            | inr foreign ↦ rw foreign (returns (a, w, o) (nothing (applied ing) a a refl))
            | inl ours ↦
                let (out, made, synced) = Returns-value (
                  handle_add-IsSynced net store view faithful kube parse_json visit order ing a w o
                    ours) in
                let placed = is_some (target_server store ing a) in
                subst (Returns (λ out. Overwrites (applied ing) a out.0)) (sym made) (
                  returns out (record {
                    touched = λ k. placed && ingress_key ing == k;
                    new = some (route_ids_of synced.routes);
                    only = λ k h. ground (arith, h);
                    route_ids = synced.recorded.route_ids;
                    stored = synced.recorded.stored;
                  }))
          ]

      handle_delete-Overwrites :
          (visit : Visit) (ing : Ingress) (a : App store) (w : net.World)
          → Overwrites (removed ing) a (handle_delete net store visit ing a w).0
      unfolding handle_delete
      handle_delete-Overwrites visit ing a w = record {
        touched = λ k. ingress_key ing == k;
        new = none;
        only = λ k h. h;
        route_ids = λ k. lookup-erase (ingress_key ing) k a.route_ids;
        stored = λ k. faithful.view-remove (ingress_key ing) k a.stored;
      }

      Step-Overwrites :
          (s t : Situation net store kube parse_json) {e : Event}
          → Step net store kube parse_json s t e
          → Overwrites e s.app t.app
      Step-Overwrites s t (on_applied visit order ing handled) =
          let (out, made, r) =
            Returns-value (handle_add-Overwrites visit order ing s.app s.world s.objects) in
          subst (λ out. Overwrites (applied ing) s.app out.0)
            (some-injective out (t.app, t.world, t.objects) (sym made ∙ handled)) r
      Step-Overwrites s t (on_removed visit ing handled same) =
          subst (λ out. Overwrites (removed ing) s.app out.0) handled
            (handle_delete-Overwrites visit ing s.app s.world)
      Step-Overwrites s t (on_secret secret m handled) = record {
        touched = λ k. false;
        new = none;
        only = λ k h. refl;
        route_ids = λ k. ap (λ u. lookup k u.route_ids) handled;
        stored = λ k. ap (λ u. view u.stored k) handled;
      }
      Step-Overwrites s t (on_elsewhere same) = nothing elsewhere s.app t.app same

      -- With a store that keeps what it is given, and from a start where the application and the store
      -- have the same records, they have the same records after every run of the events.
      pub Reach-AreCoherent :
          {s t : Situation net store kube parse_json} {es : List Event}
          → AreCoherent s.app
          → Reach net store kube parse_json s es t
          → AreCoherent t.app
      Reach-AreCoherent h here = h
      Reach-AreCoherent h (next {t} {u} {e} r st) = λ k.
          let o = Step-Overwrites t u st in
          o.route_ids k
          ∙ (ap (λ b. if o.touched k then o.new else b) (Reach-AreCoherent h r k)
              ∙ sym (o.stored k))

      -- With such a store, a record that no event is about stays, also one that was restored for an Ingress that is gone.
      pub Reach-keeps :
          {s t : Situation net store kube parse_json} {es : List Event} (k : String)
          → concerns k es ≡ false
          → Reach net store kube parse_json s es t
          → lookup k t.app.route_ids ≡ lookup k s.app.route_ids
      Reach-keeps k h here = refl
      Reach-keeps k h (next {t} {u} {e} {es} r st) =
          let o = Step-Overwrites t u st in
          o.route_ids k
          ∙ (ap (λ b. if b then o.new else lookup k t.app.route_ids) (o.only k (ground (arith, h)))
              ∙ Reach-keeps k (ground (arith, h)) r)

      -- With such a store, every sequence of events can be handled: no handler panics, at any state.
      pub Reach-total :
          (s : Situation net store kube parse_json) (es : List Event)
          → (t : Situation net store kube parse_json) × Reach net store kube parse_json s es t
      Reach-total s [] = (s, here)
      Reach-total s (elsewhere ∷ es) =
          let (t, r) = Reach-total s es in (t, next r (on_elsewhere refl))
      Reach-total s (secret_changed secret ∷ es) =
          let (t, r) = Reach-total s es in
          let (m, w) = reload_secret net secret t.app.tls_manager t.world in
          (
            record t { app = record t.app { tls_manager = m }; world = w },
            next r (on_secret secret m refl),
          )
      Reach-total s (removed ing ∷ es) =
          let (t, r) = Reach-total s es in
          let (a, w) = handle_delete net store in_turn ing t.app t.world in
          (
            record { app = a; world = w; objects = t.objects },
            next r (on_removed in_turn ing refl refl),
          )
      Reach-total s (applied ing ∷ es) =
          let (t, r) = Reach-total s es in
          let ((a, w, o), made, kept) =
            Returns-value
              (handle_add-Overwrites in_turn (λ ids. ids) ing t.app t.world t.objects) in
          (
            record { app = a; world = w; objects = o },
            next r (on_applied in_turn (λ ids. ids) ing made),
          )
