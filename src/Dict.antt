-- ===== src/Dict.antt =====
-- Go's maps with string keys, as association lists. A read of a missing key is written out where the
-- program makes one; the order of entries is the order of insertion, and no result depends on it
-- unless it says so.
use mathlib.Core.List
use caddy_k8s.Base.{
  String, ◌≡◌, refl, ap, ◌∙◌, map_option, Option, none, some, List, [], ◌∷◌, ◌==◌, eq_iff, arith,
  if◌then◌else◌,
}

abbrev pub Dict {ℓ} : Type ℓ → Type ℓ
Dict V = List (String × V)

-- `m[k]` of a map of texts: the empty text where the key is missing
unfoldable pub get_text : String → Dict String → String
get_text k [] = ""
get_text k ((j, v) ∷ m) = if j == k then v else get_text k m

module _ {ℓ} {V : Type ℓ} where
  abbrev pub empty : Dict V
  empty = []

  -- `v, ok := m[k]`
  unfoldable pub lookup : String → Dict V → Option V
  lookup k [] = none
  lookup k ((j, v) ∷ m) = if j == k then some v else lookup k m

  -- `m[k] = v`
  unfoldable pub insert : String → V → Dict V → Dict V
  insert k v [] = (k, v) ∷ []
  insert k v ((j, w) ∷ m) = let rest = insert k v m in if j == k then (k, v) ∷ m else (j, w) ∷ rest

  -- `delete(m, k)`
  unfoldable pub erase : String → Dict V → Dict V
  erase k [] = []
  erase k ((j, w) ∷ m) = let rest = erase k m in if j == k then rest else (j, w) ∷ rest

  abbrev pub keys : Dict V → List String
  keys = List.map (λ (k, _). k)

  -- `for k, v := range n { m[k] = v }`
  unfoldable pub merge : Dict V → Dict V → Dict V
  merge [] m = m
  merge ((k, v) ∷ n) m = merge n (insert k v m)

  -- A key that was written reads its new value; the others are as they were.
  pub lookup-insert :
      (key read : String) (new : V) (m : Dict V)
      → lookup read (insert key new m) ≡ (if key == read then some new else lookup read m)
  unfolding lookup insert
  lookup-insert key read new [] = refl
  lookup-insert key read new ((first, old) ∷ rest) =
      ground (
        arith,
        eq_iff key read,
        eq_iff first read,
        eq_iff first key,
        lookup-insert key read new rest,
      )

  pub lookup-erase :
      (k j : String) (m : Dict V) → lookup j (erase k m) ≡ (if k == j then none else lookup j m)
  unfolding lookup erase
  lookup-erase k j [] = ground arith
  lookup-erase k j ((i, w) ∷ m) =
      ground (arith, eq_iff k j, eq_iff i k, eq_iff i j, lookup-erase k j m)

  -- No key is listed twice, as in every map of Go.
  abbrev pub NodupKeys : Dict V → Type ℓ
  NodupKeys [] = Unit
  NodupKeys ((k, _) ∷ m) = (lookup k m ≡ none) × NodupKeys m

  pub insert-NodupKeys : (k : String) (v : V) (m : Dict V) → NodupKeys m → NodupKeys (insert k v m)
  unfolding insert lookup
  insert-NodupKeys k v [] h = (refl, tt)
  insert-NodupKeys k v ((j, w) ∷ m) (fresh, h) =
      ground (arith, eq_iff j k, eq_iff k j, insert-NodupKeys k v m h, lookup-insert k j v m)

  -- The first value that is there.
  abbrev pub or_else : Option V → Option V → Option V
  or_else none o = o
  or_else (some v) o = some v

  pub lookup-merge :
      (k : String) (n m : Dict V)
      → NodupKeys n
      → lookup k (merge n m) ≡ or_else (lookup k n) (lookup k m)
  unfolding merge lookup
  lookup-merge k [] m h = refl
  lookup-merge k ((j, v) ∷ n) m (fresh, h) =
      ground (arith, eq_iff j k, lookup-merge k n (insert j v m) h, lookup-insert j k v m)

module _ {ℓ} {V W : Type ℓ} (f : V → W) where
  abbrev pub map_values : Dict V → Dict W
  map_values m = List.map (λ (k, v). (k, f v)) m

  pub lookup-map_values :
      (k : String) (m : Dict V) → lookup k (map_values m) ≡ map_option f (lookup k m)
  unfolding lookup
  lookup-map_values k [] = refl
  lookup-map_values k ((j, v) ∷ m) = ground (arith, lookup-map_values k m)

  pub map_values-NodupKeys : (m : Dict V) → NodupKeys m → NodupKeys (map_values m)
  map_values-NodupKeys [] h = tt
  map_values-NodupKeys ((j, v) ∷ m) (fresh, h) =
      (lookup-map_values j m ∙ ap (map_option f) fresh, map_values-NodupKeys m h)
