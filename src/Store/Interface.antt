-- ===== src/Store/Interface.antt =====
-- `routeStore`: the operations of a store of route ids, and what a client relies on. Its content is a
-- map; an operation returns `none` for `nil`, or the text of an error.
use caddy_k8s.Base.{String, ◌≡◌, Option, none, some, List, ◌==◌, if◌then◌else◌}
use caddy_k8s.Dict.{Dict, lookup}

pub record RouteStore : Type 1 where
  pub State : Type 0
  pub save : String → List String → State → Option String × State
  pub remove : String → State → Option String × State
  pub load_all : State → Option (Dict (List String)) × State
  pub close : State → Option String × State

-- A store that keeps what it is given, seen through `view`.
pub record IsFaithful (s : RouteStore) (view : s.State → String → Option (List String))
    : Type 0 where
  pub save_succeeds : (k : String) (ids : List String) (t : s.State) → (s.save k ids t).0 ≡ none
  pub view-save :
      (k j : String) (ids : List String) (t : s.State)
      → view (s.save k ids t).1 j ≡ (if k == j then some ids else view t j)
  pub remove_succeeds : (k : String) (t : s.State) → (s.remove k t).0 ≡ none
  pub view-remove :
      (k j : String) (t : s.State) → view (s.remove k t).1 j ≡ (if k == j then none else view t j)
  pub load_all_complete :
      (t : s.State)
      → (m : Dict (List String)) × ((s.load_all t).0 ≡ some m)
        × ((j : String) → lookup j m ≡ view t j)
  pub load_all_keeps : (t : s.State) (j : String) → view (s.load_all t).1 j ≡ view t j
