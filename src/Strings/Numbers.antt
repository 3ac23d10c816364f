-- ===== src/Strings/Numbers.antt =====
-- `strconv`: decimal integers of 64 bits, read and printed.
use Prim.Native.String.{[], ◌∷◌, char_at}
use mathlib.Core.Option.{none-ne-some, some-injective}
use text.Mathlib.TextLemmas.{nil-append, cons-append}
use caddy_k8s.Base.{
  map_option, ◌<◌, ◌∙◌, sym, ap, ℕ, zero, suc, ◌+◌, ◌-◌, ◌*◌, ◌/◌, ◌%◌, ◌^◌, code, String, ◌<>◌,
  ◌≡◌, refl, ◌&&◌, Option, none, some, arith, ltb, leb, nat_eq, if◌then◌else◌, ℤ, pos, negsuc,
  IsInt64, Bool-cases, inl, inr,
}

-- The value of a text of digits, read after a number.
unfoldable pub digits_from : ℕ → String → Option ℕ
digits_from n [] = some n
digits_from n (c ∷ s) =
    let rest = digits_from (n * 10 + (code c - b'0')) s in
    if leb b'0' (code c) && leb (code c) b'9' then rest else none

-- At least one digit.
unfoldable pub digits : String → Option ℕ
unfolding digits_from
digits [] = none
digits (c ∷ s) = digits_from 0 (c ∷ s)

-- A magnitude with its sign, if it is in the 64-bit range.
non_negative : ℕ → Option ℤ
non_negative n = if ltb n (2 ^ 63) then some (pos n) else none

negative : ℕ → Option ℤ
negative zero = some (pos 0)
negative (suc n) = if ltb n (2 ^ 63) then some (negsuc n) else none

abbrev and_then : Option ℕ → (ℕ → Option ℤ) → Option ℤ
and_then none f = none
and_then (some n) f = f n

-- `strconv.ParseInt(s, 10, 64)` and `strconv.Atoi(s)`; `none` stands for the error.
unfoldable pub parse_int : String → Option ℤ
unfolding digits non_negative negative
parse_int [] = none
parse_int (c ∷ s) =
    if nat_eq (code c) b'-'
    then and_then (digits s) negative
    else if nat_eq (code c) b'+'
    then and_then (digits s) non_negative
    else and_then (digits (c ∷ s)) non_negative

digit : ℕ → String
digit d = char_at "0123456789" d ∷ ""

-- The digits of a number that the fuel exceeds; `print_nat` gives enough.
print_digits : ℕ → ℕ → String
print_digits zero n = ""
print_digits (suc fuel) n =
    let rest = print_digits fuel (n / 10) in if ltb n 10 then digit n else rest <> digit (n % 10)

unfoldable pub print_nat : ℕ → String
unfolding print_digits digit
print_nat n = print_digits (suc n) n

-- `strconv.Itoa` and the verb `%d`
unfoldable pub itoa : ℤ → String
unfolding print_nat
itoa (pos n) = print_nat n
itoa (negsuc n) = "-" <> print_nat (suc n)

non_negative-IsInt64 : (n : ℕ) (z : ℤ) → non_negative n ≡ some z → IsInt64 z
unfolding non_negative
non_negative-IsInt64 n (pos m) h = ground arith
non_negative-IsInt64 n (negsuc m) h = ground arith

negative-IsInt64 : (n : ℕ) (z : ℤ) → negative n ≡ some z → IsInt64 z
unfolding negative
negative-IsInt64 zero (pos m) h = ground arith
negative-IsInt64 zero (negsuc m) h = ground arith
negative-IsInt64 (suc n) (pos m) h = ground arith
negative-IsInt64 (suc n) (negsuc m) h = ground arith

and_then-IsInt64 :
    (o : Option ℕ) (f : ℕ → Option ℤ)
    → ((n : ℕ) (z : ℤ) → f n ≡ some z → IsInt64 z)
    → (z : ℤ) → and_then o f ≡ some z
    → IsInt64 z
and_then-IsInt64 none f h z e = absurd (none-ne-some z e)
and_then-IsInt64 (some n) f h z e = h n z e

-- A number that is read lies in the 64-bit range.
pub parse_int-IsInt64 : (s : String) (z : ℤ) → parse_int s ≡ some z → IsInt64 z
unfolding parse_int
parse_int-IsInt64 [] z h = absurd (none-ne-some z h)
parse_int-IsInt64 (c ∷ s) z h = elim (Bool-cases (nat_eq (code c) b'-')) [
  | inl e ↦ and_then-IsInt64 (digits s) negative negative-IsInt64 z (rw e at h)
  | inr e ↦ elim (Bool-cases (nat_eq (code c) b'+')) [
    | inl p ↦ and_then-IsInt64 (digits s) non_negative non_negative-IsInt64 z (rw (e, p) at h)
    | inr p ↦ and_then-IsInt64 (digits (c ∷ s)) non_negative non_negative-IsInt64 z (rw (e, p) at h)
  ]
]

parse_int_tests :
    (parse_int "1728000" ≡ some (pos 1728000))
    × (parse_int "-5" ≡ some (negsuc 4))
    × (parse_int "9223372036854775808" ≡ none)
    × (parse_int "" ≡ none)
    × (parse_int "4k" ≡ none)
unfolding parse_int
parse_int_tests = (refl, refl, refl, refl, refl)

itoa_tests : (itoa (pos 1728000) ≡ "1728000") × (itoa (negsuc 4) ≡ "-5") × (itoa (pos 0) ≡ "0")
unfolding itoa
itoa_tests = (refl, refl, refl)

digit_code : (d : ℕ) → d < 10 → code (char_at "0123456789" d) ≡ b'0' + d
digit_code zero h = refl
digit_code (suc zero) h = refl
digit_code (suc (suc zero)) h = refl
digit_code (suc (suc (suc zero))) h = refl
digit_code (suc (suc (suc (suc zero)))) h = refl
digit_code (suc (suc (suc (suc (suc zero))))) h = refl
digit_code (suc (suc (suc (suc (suc (suc zero)))))) h = refl
digit_code (suc (suc (suc (suc (suc (suc (suc zero))))))) h = refl
digit_code (suc (suc (suc (suc (suc (suc (suc (suc zero)))))))) h = refl
digit_code (suc (suc (suc (suc (suc (suc (suc (suc (suc zero))))))))) h = refl
digit_code (suc (suc (suc (suc (suc (suc (suc (suc (suc (suc d)))))))))) h = absurd (omega arith)

digits_from-digit : (a d : ℕ) → d < 10 → digits_from a (digit d) ≡ some (a * 10 + d)
unfolding digits_from digit
digits_from-digit a d h = ground (arith, digit_code d h)

digits_from-append :
    (a d : ℕ) (s : String)
    → d < 10
    → digits_from a (s <> digit d) ≡ map_option (λ v. v * 10 + d) (digits_from a s)
unfolding digits_from
digits_from-append a d [] h = rw nil-append (digits_from-digit a d h)
digits_from-append a d (c ∷ s) h =
    rw cons-append (ground (arith, digits_from-append (a * 10 + (code c - b'0')) d s h))

digits_from-print_digits : (fuel n : ℕ) → n < fuel → digits_from 0 (print_digits fuel n) ≡ some n
unfolding print_digits
digits_from-print_digits zero n h = absurd (omega arith)
digits_from-print_digits (suc fuel) n h = elim (Bool-cases (ltb n 10)) [
  | inl small ↦ rw small (digits_from-digit 0 n (ground arith) ∙ ap some (omega arith))
  | inr large ↦
      rw
        (
          large,
          digits_from-append 0 (n % 10) (print_digits fuel (n / 10)) (omega arith),
          digits_from-print_digits fuel (n / 10) (ground arith),
        )
        (ap some (omega arith))
]

-- Numbers that are printed alike are equal.
pub print_nat-injective : (i j : ℕ) → print_nat i ≡ print_nat j → i ≡ j
unfolding print_nat
print_nat-injective i j e = some-injective i j (
    sym (digits_from-print_digits (suc i) i (omega arith))
    ∙ (ap (digits_from 0) e ∙ digits_from-print_digits (suc j) j (omega arith)))
