-- ===== src/Store/Memory.antt =====
-- `memoryStore`: the map itself. Its lock makes each operation one step.
use caddy_k8s.Base.{String, refl, Option, none, some, List}
use caddy_k8s.Dict.{Dict, empty, lookup, insert, erase, lookup-insert, lookup-erase}
use caddy_k8s.Store.Interface.{RouteStore, IsFaithful}

pub record MemoryStore : Type 0 where
  pub contents : Dict (List String)

unfoldable pub new_memory_store : MemoryStore
new_memory_store = record { contents = empty }

unfoldable pub save : String → List String → MemoryStore → Option String × MemoryStore
save key ids s = (none, record s { contents = insert key ids s.contents })

unfoldable pub remove : String → MemoryStore → Option String × MemoryStore
remove key s = (none, record s { contents = erase key s.contents })

-- The map is copied, so a client's changes do not reach the store.
unfoldable pub load_all : MemoryStore → Option (Dict (List String)) × MemoryStore
load_all s = (some s.contents, s)

abbrev close : MemoryStore → Option String × MemoryStore
close s = (none, s)

abbrev pub memory_store : RouteStore
memory_store = record {
  State = MemoryStore;
  save = save;
  remove = remove;
  load_all = load_all;
  close = close;
}

-- The store in memory is faithful to the map of all saves and removals.
pub memory_store-IsFaithful : IsFaithful memory_store (λ s j. lookup j s.contents)
unfolding save remove load_all
memory_store-IsFaithful = record {
  save_succeeds = λ k ids t. refl;
  view-save = λ k j ids t. lookup-insert k j ids t.contents;
  remove_succeeds = λ k t. refl;
  view-remove = λ k j t. lookup-erase k j t.contents;
  load_all_complete = λ t. (t.contents, refl, λ j. refl);
  load_all_keeps = λ t j. refl;
}
