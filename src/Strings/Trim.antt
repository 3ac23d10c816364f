-- ===== src/Strings/Trim.antt =====
-- Laws of `trim_space`.
use Prim.Native.String.{[], ◌∷◌}
use text.Mathlib.TextLemmas.{nil-append, cons-append}
use caddy_k8s.Base.{Char, ◌<>◌, false, code, String, ◌≡◌, refl, Bool, true, not, arith}
use caddy_k8s.Strings.{is_blank, is_space, trim_left, trim_right, trim_space}

-- The text is empty or begins with no white space.
abbrev starts_inked : String → Bool
starts_inked [] = true
starts_inked (c ∷ s) = not (is_space (code c))

starts_inked-trim_left : (s : String) → starts_inked (trim_left s) ≡ true
unfolding trim_left
starts_inked-trim_left [] = refl
starts_inked-trim_left (c ∷ s) = ground (arith, starts_inked-trim_left s)

starts_inked-trim_right : (s : String) → starts_inked s ≡ true → starts_inked (trim_right s) ≡ true
unfolding trim_right
starts_inked-trim_right [] h = refl
starts_inked-trim_right (c ∷ s) h = ground arith

trim_left_of_inked : (s : String) → starts_inked s ≡ true → trim_left s ≡ s
unfolding trim_left
trim_left_of_inked [] h = refl
trim_left_of_inked (c ∷ s) h = ground arith

trim_right_idem : (s : String) → trim_right (trim_right s) ≡ trim_right s
unfolding trim_right
trim_right_idem [] = refl
trim_right_idem (c ∷ s) = ground (arith, trim_right_idem s)

-- Trimming twice is trimming once.
pub trim_space_idem : (s : String) → trim_space (trim_space s) ≡ trim_space s
unfolding trim_space
trim_space_idem s =
    let t = trim_left s in
    let inked = starts_inked-trim_right t (starts_inked-trim_left s) in
    rw (trim_left_of_inked (trim_right t) inked) (trim_right_idem t)

-- What trimming leaves has no white space at its start.
starts_inked_of_trimmed : (s : String) → trim_space s ≡ s → starts_inked s ≡ true
unfolding trim_space
starts_inked_of_trimmed s h =
    rw h at (starts_inked-trim_right (trim_left s) (starts_inked-trim_left s))

is_blank-append : (s : String) (c : Char) → is_blank (s <> (c ∷ "")) ≡ false
is_blank-append [] c = rw nil-append
is_blank-append (d ∷ s) c = rw cons-append

trim_right-append :
    (s : String) (c : Char) → is_space (code c) ≡ false → trim_right (s <> (c ∷ "")) ≡ s <> (c ∷ "")
unfolding trim_right
trim_right-append [] c h = rw nil-append (ground arith)
trim_right-append (d ∷ s) c h = rw (cons-append, trim_right-append s c h, is_blank-append s c) refl

-- A trimmed text stays trimmed under a character that is no white space.
pub trim_space-append :
    (s : String) (c : Char)
    → trim_space s ≡ s
    → is_blank s ≡ false
    → is_space (code c) ≡ false
    → trim_space (s <> (c ∷ "")) ≡ s <> (c ∷ "")
unfolding trim_space
trim_space-append [] c h k l = cc
trim_space-append (d ∷ s) c h k l =
    let inked = starts_inked_of_trimmed (d ∷ s) h in
    rw (trim_left_of_inked ((d ∷ s) <> (c ∷ "")) (rw cons-append inked))
      (trim_right-append (d ∷ s) c l)
