-- ===== src/Json.antt =====
-- JSON values: what the program keeps as `interface{}` and as maps of it, and sends to Caddy.
-- A Go `nil` in an `interface{}` is `null`.
use caddy_k8s.Base.{
  ℕ, String, Bool, true, false, Option, none, some, List, [], ◌∷◌, map, ◌==◌, if◌then◌else◌, ℤ, pos,
}

mutual
  pub data Json : Type 0 where
    null : Json
    bool : Bool → Json
    int : ℤ → Json
    str : String → Json
    arr : Items → Json
    obj : Fields → Json

  pub data Items : Type 0 where
    nil : Items
    cons : Json → Items → Items

  pub data Fields : Type 0 where
    end : Fields
    entry : String → Json → Fields → Fields

abbrev items : List Json → Items
items [] = nil
items (v ∷ vs) = cons v (items vs)

abbrev fields : List (String × Json) → Fields
fields [] = end
fields ((k, v) ∷ m) = entry k v (fields m)

-- `[]interface{}{…}`
abbrev pub array : List Json → Json
array vs = arr (items vs)

-- `map[string]interface{}{…}`
abbrev pub object : List (String × Json) → Json
object m = obj (fields m)

-- `[]string{…}`
abbrev pub texts : List String → Json
texts ss = array (map str ss)

abbrev pub number : ℕ → Json
number n = int (pos n)

-- `h == nil`
abbrev pub is_null : Json → Bool
is_null null = true
is_null _ = false

find_field : String → Fields → Option Json
find_field k end = none
find_field k (entry j v m) = if j == k then some v else find_field k m

-- The value at a key of an object.
unfoldable pub field : String → Json → Option Json
unfolding find_field
field k (obj m) = find_field k m
field k null = none
field k (bool b) = none
field k (int n) = none
field k (str s) = none
field k (arr vs) = none
