-- ===== src/Annotations/BodySize.antt =====
-- `parseBodySize`: the value of a size with a unit, and the 64-bit product.
use mathlib.Core.Option
use mathlib.Core.Option.{none-ne-some, some-injective}
use mathlib.Core.Path.{subst}
use Prim.Native.String.{[], ◌∷◌, char_at}
use Prim.Native.Char.{Char}
use text.Mathlib.TextLemmas.{nil-append, cons-append}
use caddy_k8s.Base.{
  ℕ, ◌*◌, ◌%◌, ◌^◌, ◌<◌, ◌≢◌, code, String, ◌<>◌, ◌≡◌, refl, ◌∙◌, ap, false, Option, none, some,
  List, [], ◌∷◌, nat_eq, if◌then◌else◌, ◌==◌, eq_iff, arith, Bool-cases, inl, inr, ℤ, pos, IsInt64,
  wrapping_mul, wrapping_mul-IsInt64, wrapping_mul-pos, wrapping_mul-pos_mod,
}
use caddy_k8s.Strings.{is_blank, is_space, trim_space, unsnoc}
use caddy_k8s.Strings.Trim.{trim_space-append}
use caddy_k8s.Strings.Numbers.{parse_int}
use caddy_k8s.Annotations.Parse.{size_unit, size_parts, parse_body_size}
use caddy_k8s.Annotations.Timeout.{unsnoc-append}

scaled-IsInt64 :
    (o : Option ℤ) (unit : ℕ) (z : ℤ) → Option.map (λ n. wrapping_mul n unit) o ≡ some z → IsInt64 z
scaled-IsInt64 none unit z h = absurd (none-ne-some z h)
scaled-IsInt64 (some n) unit z h =
    subst IsInt64 (some-injective _ _ h) (wrapping_mul-IsInt64 n unit)

-- A size that is accepted lies in the range of `int64`, whatever the text.
pub parse_body_size-IsInt64 : (s : String) (z : ℤ) → parse_body_size s ≡ some z → IsInt64 z
unfolding parse_body_size
parse_body_size-IsInt64 s z h = elim (Bool-cases (trim_space s == "0")) [
  | inl e ↦ subst IsInt64 (some-injective _ _ (rw e at h)) (omega arith)
  | inr e ↦ elim (Bool-cases (is_blank (trim_space s))) [
    | inl b ↦ absurd (none-ne-some z (rw (e, b) at h))
    | inr b ↦ scaled-IsInt64 _ _ z (rw (e, b) at h)
  ]
]

-- A character that is a unit is no white space and no digit.
unit_inked : (c : ℕ) → size_unit c ≢ 1 → is_space c ≡ false
unfolding size_unit is_space
unit_inked c h = ground arith

size_parts-append :
    (s : String) (c : Char)
    → size_unit (code c) ≢ 1
    → size_parts (s <> (c ∷ "")) ≡ (s, size_unit (code c))
unfolding size_parts
size_parts-append s c h = rw (unsnoc-append s c, size_parts) (ground arith)

zero_char : Char
zero_char = char_at "0" 0

unsnoc_zero : unsnoc "0" ≡ some ("", zero_char)
unfolding unsnoc zero_char
unsnoc_zero = refl

size_unit_zero : size_unit (code zero_char) ≡ 1
unfolding size_unit zero_char
size_unit_zero = refl

append-ne-zero : (s : String) (c : Char) → size_unit (code c) ≢ 1 → ((s <> (c ∷ "")) == "0") ≡ false
append-ne-zero s c h =
    ground (arith, eq_iff (s <> (c ∷ "")) "0", unsnoc-append s c, unsnoc_zero, size_unit_zero)

parse_int-inked : (s : String) (z : ℤ) → parse_int s ≡ some z → is_blank s ≡ false
unfolding parse_int
parse_int-inked [] z h = absurd (none-ne-some z h)
parse_int-inked (c ∷ s) z h = refl

append-inked : (s : String) (c : Char) → is_blank (s <> (c ∷ "")) ≡ false
append-inked [] c = rw nil-append
append-inked (d ∷ s) c = rw cons-append

-- The text of a number, then the character of a unit: the number is read from the text alone, and the
-- size is the `int64` product.
pub parse_body_size_unit :
    (s : String) (c : Char) (z : ℤ)
    → trim_space s ≡ s
    → parse_int s ≡ some z
    → size_unit (code c) ≢ 1
    → parse_body_size (s <> (c ∷ "")) ≡ some (wrapping_mul z (size_unit (code c)))
unfolding parse_body_size
parse_body_size_unit s c z h k u =
    let trimmed = trim_space-append s c h (parse_int-inked s z k) (unit_inked (code c) u) in
    rw (trimmed, size_parts-append s c u, h, k, append-ne-zero s c u, append-inked s c) refl

-- The letters of the units, with the bytes of each.
abbrev pub unit_table : List (ℕ × ℕ)
unit_table =
    (b'k', 1024)
    ∷ (b'K', 1024)
    ∷ (b'm', 1048576)
    ∷ (b'M', 1048576)
    ∷ (b'g', 1073741824)
    ∷ (b'G', 1073741824)
    ∷ []

abbrev pub bytes_in : List (ℕ × ℕ) → ℕ → Option ℕ
bytes_in [] c = none
bytes_in ((letter, size) ∷ table) c =
    let rest = bytes_in table c in if nat_eq c letter then some size else rest

size_unit-table : (c size : ℕ) → bytes_in unit_table c ≡ some size → size_unit c ≡ size
unfolding size_unit
size_unit-table c size e = ground (arith, e)

size_unit-unit : (c size : ℕ) → bytes_in unit_table c ≡ some size → size_unit c ≢ 1
unfolding size_unit
size_unit-unit c size e = ground (arith, e)

-- A text that, without white space around it, ends in a letter of the table, with the text of a number n
-- before it that may have white space around it too: if n times the letter's bytes is less than 2^63,
-- that product is the size.
pub parse_body_size_fits :
    (raw text : String) (c : Char) (n size : ℕ)
    → trim_space raw ≡ text <> (c ∷ "")
    → parse_int (trim_space text) ≡ some (pos n)
    → bytes_in unit_table (code c) ≡ some size
    → n * size < 2 ^ 63
    → parse_body_size raw ≡ some (pos (n * size))
unfolding parse_body_size
parse_body_size_fits raw text c n size trimmed k known fits =
    let u = size_unit-unit (code c) size known in
    rw
      (
        trimmed,
        size_parts-append text c u,
        k,
        append-ne-zero text c u,
        append-inked text c,
        size_unit-table (code c) size known,
      )
      (ap some (wrapping_mul-pos n size fits))

-- Where the product is a multiple of 2^64, the size is 0, which lifts the limit.
pub parse_body_size_wraps :
    (s : String) (c : Char) (n : ℕ)
    → trim_space s ≡ s
    → parse_int s ≡ some (pos n)
    → size_unit (code c) ≢ 1
    → (n * size_unit (code c)) % 2 ^ 64 ≡ 0
    → parse_body_size (s <> (c ∷ "")) ≡ some (pos 0)
parse_body_size_wraps s c n h k u wraps =
    parse_body_size_unit s c (pos n) h k u ∙ ap some (wrapping_mul-pos_mod n _ wraps)
