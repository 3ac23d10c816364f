-- ===== src/App/Events.antt =====
-- The events of the application after its start: the informer's handlers, the watch of the secrets, and
-- what others do meanwhile. The restoration of the recorded ids comes before them.
use caddy_k8s.Base.{String, ◌≡◌, Option, none, some, List, [], ◌∷◌}
use caddy_k8s.Dict.{Dict, insert}
use caddy_k8s.Json.{Json}
use caddy_k8s.Kube.{Ingress, Secret, Kube}
use caddy_k8s.Admin.Client.{Net}
use caddy_k8s.AccessLog.Manager.{Visit}
use caddy_k8s.Store.Interface.{RouteStore}
use caddy_k8s.Tls.Certs.{TlsManager}
use caddy_k8s.App.State.{App}
use caddy_k8s.App.Delete.{handle_delete}
use caddy_k8s.App.Add.{IdVisit, handle_add}

-- Every entry is put into the map; the entries' keys are distinct, so their order is of no account.
unfoldable pub insert_all {ℓ} : {A : Type ℓ} → Dict A → Dict A → Dict A
insert_all [] m = m
insert_all ((k, v) ∷ stored) m = insert k v (insert_all stored m)

abbrev pub restored : Option (Dict (List String)) → Dict (List String) → Dict (List String)
restored none ids = ids
restored (some stored) ids = insert_all stored ids

-- The recorded ids are read from the store; if that fails, the map stays as it is.
unfoldable pub restore : (store : RouteStore) → App store → App store
restore store a =
    let (found, s) = store.load_all a.stored in
    record a { route_ids = restored found a.route_ids; stored = s }

pub data Event : Type 0 where
  applied : Ingress → Event
  removed : Ingress → Event
  secret_changed : Secret → Event
  elsewhere : Event

module _ (net : Net) (store : RouteStore) (kube : Kube) (parse_json : String → Option Json) where
  -- The application, with the world and the objects of the cluster.
  pub record Situation : Type 0 where
    pub app : App store
    pub world : net.World
    pub objects : kube.Objects

  -- An event is handled; the order of each map visit is any. The change of a secret is handled by the
  -- goroutine of the watch, which releases the manager's mutex while it pushes: what is left of the manager
  -- is any, and so are Caddy and the cluster meanwhile (`Tls/Threads` models its parts). Between the
  -- events, Caddy and the cluster may change in any way.
  pub data Step (s : Situation) (t : Situation) : Event → Type 0 where
    on_applied :
        (visit : Visit) (order : IdVisit) (ing : Ingress)
        → handle_add net store kube parse_json visit order ing s.app s.world s.objects
          ≡ some (t.app, t.world, t.objects)
        → Step s t (applied ing)
    on_removed :
        (visit : Visit) (ing : Ingress)
        → handle_delete net store visit ing s.app s.world ≡ (t.app, t.world)
        → t.objects ≡ s.objects
        → Step s t (removed ing)
    on_secret :
        (secret : Secret) (m : TlsManager)
        → t.app ≡ record s.app { tls_manager = m }
        → Step s t (secret_changed secret)
    on_elsewhere : t.app ≡ s.app → Step s t elsewhere

  pub data Reach (s : Situation) : List Event → Situation → Type 0 where
    here : Reach s [] s
    next :
        {t u : Situation} {e : Event} {es : List Event}
        → Reach s es t
        → Step t u e
        → Reach s (e ∷ es) u
