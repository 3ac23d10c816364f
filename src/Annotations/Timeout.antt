-- ===== src/Annotations/Timeout.antt =====
-- `parseTimeoutSeconds`: a duration always has a unit.
use Prim.Native.String.{[], ◌∷◌, char_at}
use text.Mathlib.TextLemmas.{nil-append, cons-append}
use caddy_k8s.Base.{
  Char, String, ◌<>◌, ◌≡◌, refl, true, false, ◌==◌, eq_iff, arith, ◌||◌, some, Bool-cases, inl, inr,
}
use caddy_k8s.Strings.{is_blank, is_space, trim_space, unsnoc}
use caddy_k8s.Strings.Trim.{trim_space_idem, trim_space-append}
use caddy_k8s.Annotations.Parse.{ends_in_digit, parse_timeout_seconds}

pub unsnoc-append : (s : String) (c : Char) → unsnoc (s <> (c ∷ "")) ≡ some (s, c)
unfolding unsnoc
unsnoc-append [] c = rw nil-append
unsnoc-append (d ∷ s) c = rw (cons-append, unsnoc-append s c, unsnoc) refl

ends_in_digit_zero : ends_in_digit "0" ≡ true
unfolding ends_in_digit unsnoc
ends_in_digit_zero = refl

ends_in_digit_of_unit : (s : String) → ends_in_digit (s <> "s") ≡ false
unfolding ends_in_digit
ends_in_digit_of_unit s = rw (unsnoc-append s (char_at "s" 0), ends_in_digit) refl

ends_in_digit_empty : ends_in_digit "" ≡ false
unfolding ends_in_digit unsnoc
ends_in_digit_empty = refl

trim_space_empty : trim_space "" ≡ ""
unfolding trim_space
trim_space_empty = refl

s_inked : is_space b's' ≡ false
unfolding is_space
s_inked = refl

-- A trimmed text with a unit, or an empty one, is its own duration.
unit_kept : (s : String) → trim_space s ≡ s → ends_in_digit s ≡ false → parse_timeout_seconds s ≡ s
unfolding parse_timeout_seconds
unit_kept [] h k = rw h
unit_kept (c ∷ s) h k = rw h (ground (arith, eq_iff (c ∷ s) "0", ends_in_digit_zero))

-- The three kinds of result, at a trimmed text.
data Outcome (s : String) : Type 0 where
  nothing : parse_timeout_seconds s ≡ "" → Outcome s
  given : ends_in_digit (trim_space s) ≡ false → parse_timeout_seconds s ≡ trim_space s → Outcome s
  seconds :
      is_blank (trim_space s) ≡ false → parse_timeout_seconds s ≡ trim_space s <> "s" → Outcome s

outcome : (s : String) → Outcome s
unfolding parse_timeout_seconds
outcome s = elim (Bool-cases (is_blank (trim_space s) || trim_space s == "0")) [
  | inl e ↦ nothing (rw e)
  | inr e ↦ elim (Bool-cases (ends_in_digit (trim_space s))) [
    | inl d ↦ seconds (ground arith) (rw (e, d))
    | inr d ↦ given d (rw (e, d))
  ]
]

-- The result never ends in a digit, so it is empty or carries a unit; and a result is a duration that
-- is passed through unchanged.
pub parse_timeout_seconds_idem :
    (s : String)
    → (ends_in_digit (parse_timeout_seconds s) ≡ false)
      × (parse_timeout_seconds (parse_timeout_seconds s) ≡ parse_timeout_seconds s)
parse_timeout_seconds_idem s = go (outcome s)
  where
    go :
        Outcome s
        → (ends_in_digit (parse_timeout_seconds s) ≡ false)
          × (parse_timeout_seconds (parse_timeout_seconds s) ≡ parse_timeout_seconds s)
    go (nothing e) = rw e (ends_in_digit_empty, unit_kept "" trim_space_empty ends_in_digit_empty)
    go (given d e) = rw e (d, unit_kept (trim_space s) (trim_space_idem s) d)
    go (seconds inked e) =
        let d = ends_in_digit_of_unit (trim_space s) in
        rw e (
          d,
          unit_kept (trim_space s <> "s")
              (trim_space-append (trim_space s) (char_at "s" 0) (trim_space_idem s) inked s_inked)
              d,
        )
