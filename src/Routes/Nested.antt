-- ===== src/Routes/Nested.antt =====
-- The ids that a route brings to Caddy's index: its own, and those of the routes nested in it.
use caddy_k8s.Base.{String, ◌≡◌, true, List, [], ◌∷◌, ◌++◌, ◌==◌, if◌then◌else◌, All}
use caddy_k8s.Json.{Json, Items, Fields, null, bool, int, str, arr, obj, nil, cons, end, entry}
use caddy_k8s.Hosts.{distinct}
use caddy_k8s.Routes.Model.{CaddyRoute}

-- An id that a field gives to its object.
abbrev given_id : String → Json → List String
given_id k (str id) = if k == "@id" then id ∷ [] else []
given_id k _ = []

unfoldable mutual
  -- The texts under "@id" at every depth.
  pub ids_in : Json → List String
  ids_in null = []
  ids_in (bool b) = []
  ids_in (int n) = []
  ids_in (str s) = []
  ids_in (arr vs) = ids_in_items vs
  ids_in (obj m) = ids_in_fields m

  ids_in_items : Items → List String
  ids_in_items nil = []
  ids_in_items (cons v vs) = ids_in v ++ ids_in_items vs

  ids_in_fields : Fields → List String
  ids_in_fields end = []
  ids_in_fields (entry k v m) = given_id k v ++ (ids_in v ++ ids_in_fields m)

abbrev ids_in_all : List Json → List String
ids_in_all [] = []
ids_in_all (v ∷ vs) = ids_in v ++ ids_in_all vs

-- The ids of the objects in a route's handlers.
unfoldable pub inner_ids : CaddyRoute → List String
inner_ids r = ids_in_all r.handle

-- For an assignment of every id to the top-level route that it belongs to: the route has its own id, the
-- objects in it belong to it, and no id stands twice.
pub record IsFit (home : String → String) (r : CaddyRoute) : Type 0 where
  pub own : home r.id ≡ r.id
  pub inner : All (λ k. home k ≡ r.id) (inner_ids r)
  pub once : distinct (r.id ∷ inner_ids r) ≡ true
