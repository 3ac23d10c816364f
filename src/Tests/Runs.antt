-- ===== src/Tests/Runs.antt =====
-- Runs of the events from a start with a store that has records.
use caddy_k8s.Base.{String, ◌≡◌, refl, false, Option, List, [], ◌∷◌}
use caddy_k8s.Dict.{lookup}
use caddy_k8s.Store.Memory.{MemoryStore, memory_store, memory_store-IsFaithful}
use caddy_k8s.App.State.{App}
use caddy_k8s.App.Events.{restore, Event, applied, removed, Situation}
use caddy_k8s.App.Coherent.{
  AreCoherent, restore-AreCoherent, concerns, Reach-AreCoherent, Reach-keeps, Reach-total,
}
use caddy_k8s.Tests.Samples.{ingress, no_json}
use caddy_k8s.Tests.AdminApi.{Server, api}
use caddy_k8s.Tests.Cluster.{kube, empty}
use caddy_k8s.Tests.Deletion.{app}

abbrev view : MemoryStore → String → Option (List String)
view s j = lookup j s.contents

abbrev fresh : App memory_store
fresh = record app {
  route_ids = [];
  stored = record { contents = ("shop/front", "r1" ∷ []) ∷ ("shop/gone", "r9" ∷ []) ∷ [] };
}

abbrev restarted : App memory_store
restarted = restore memory_store fresh

abbrev idle : Server
idle = record { routes = ("r9", "r9") ∷ []; requests = 0; writes = 0 }

abbrev started : Situation api memory_store kube no_json
started = record { app = restarted; world = idle; objects = empty }

abbrev events : List Event
events = removed ingress ∷ applied ingress ∷ []

abbrev run :
    (t : Situation api memory_store kube no_json) × caddy_k8s.App.Events.Reach api memory_store kube
      no_json started events t
run = Reach-total memory_store view memory_store-IsFaithful api kube no_json started events

abbrev coherent : AreCoherent memory_store view restarted
coherent = restore-AreCoherent memory_store view memory_store-IsFaithful fresh refl

Reach-AreCoherent_example : AreCoherent memory_store view run.0.app
Reach-AreCoherent_example =
    Reach-AreCoherent memory_store view memory_store-IsFaithful api kube no_json coherent run.1

unconcerned : concerns "shop/gone" events ≡ false
unconcerned = refl

Reach-keeps_example :
    lookup "shop/gone" run.0.app.route_ids ≡ lookup "shop/gone" restarted.route_ids
Reach-keeps_example =
    Reach-keeps memory_store view memory_store-IsFaithful api kube no_json "shop/gone" unconcerned
      run.1
