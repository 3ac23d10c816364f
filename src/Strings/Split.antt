-- ===== src/Strings/Split.antt =====
-- Laws of `split` and `join` at a separator.
use Prim.Native.String.{[], ◌∷◌}
use text.Mathlib.TextLemmas.{nil-append, cons-append}
use caddy_k8s.Base.{ℕ, Char, code, String, ◌<>◌, ◌≡◌, refl, ◌≢◌, List, [], ◌∷◌, arith, All}
use caddy_k8s.Strings.{push_head, split}

abbrev pub Lacks : ℕ → String → Type 0
Lacks sep [] = Unit
Lacks sep (c ∷ s) = (code c ≢ sep) × Lacks sep s

push_head-Lacks :
    (sep : ℕ) (c : Char) (ps : List String)
    → code c ≢ sep
    → All (Lacks sep) ps
    → All (Lacks sep) (push_head c ps)
push_head-Lacks sep c [] h k = ((h, tt), tt)
push_head-Lacks sep c (p ∷ ps) h (k, ks) = ((h, k), ks)

-- No part of a split holds the separator.
pub split-Lacks : (sep : ℕ) (s : String) → All (Lacks sep) (split sep s)
unfolding split
split-Lacks sep [] = (tt, tt)
split-Lacks sep (c ∷ s) = ground (arith, split-Lacks sep s, push_head-Lacks sep c (split sep s))

-- A text without the separator is its only part.
pub split_of_Lacks : (sep : ℕ) (s : String) → Lacks sep s → split sep s ≡ s ∷ []
unfolding split
split_of_Lacks sep [] h = refl
split_of_Lacks sep (c ∷ s) (h, k) = ground (arith, split_of_Lacks sep s k)

-- A part without the separator comes first, and what follows the separator is split on its own.
pub split-append :
    (d : Char) (p s : String)
    → Lacks (code d) p
    → split (code d) (p <> (d ∷ s)) ≡ p ∷ split (code d) s
unfolding split
split-append d [] s h = rw nil-append (ground arith)
split-append d (c ∷ p) s (h, k) = rw cons-append (ground (arith, split-append d p s k))
