-- ===== src/Base/Int.antt =====
-- Go's `int` and `int64`: integers, kept in the 64-bit range by two's complement.
use Prim.Native.Nat.{ℕ, suc, ◌-◌, ◌*◌, ◌%◌, ◌^◌, ◌<◌}
use mathlib.Core.Path.{◌≡◌}
use mathlib.Core.Bool.{Bool, true, false}
use native.Mathlib.Omega.{arith}
use caddy_k8s.Base.Tests.{ltb, leb, if◌then◌else◌}

-- `negsuc n` is -(n + 1).
pub data ℤ : Type 0 where
  pos : ℕ → ℤ
  negsuc : ℕ → ℤ

-- `0 < z`
abbrev pub is_positive : ℤ → Bool
is_positive (pos n) = ltb 0 n
is_positive (negsuc n) = false

-- `0 <= z`
abbrev pub is_nonneg : ℤ → Bool
is_nonneg (pos n) = true
is_nonneg (negsuc n) = false

-- `lo <= z && z < hi`, for bounds that are not negative
abbrev pub in_range : ℕ → ℕ → ℤ → Bool
in_range lo hi (pos n) = if leb lo n then ltb n hi else false
in_range lo hi (negsuc n) = false

-- The range of a signed 64-bit integer.
abbrev pub IsInt64 : ℤ → Type 0
IsInt64 (pos n) = n < 2 ^ 63
IsInt64 (negsuc n) = n < 2 ^ 63

-- The integer of a 64-bit pattern.
pub of_bits : ℕ → ℤ
of_bits u = if ltb u (2 ^ 63) then pos u else negsuc (2 ^ 64 - 1 - u)

-- The 64-bit pattern of an integer.
pub to_bits : ℤ → ℕ
to_bits (pos n) = n % 2 ^ 64
to_bits (negsuc n) = 2 ^ 64 - 1 - n % 2 ^ 64

-- `int64` multiplication by a constant that is not negative.
pub scale : ℤ → ℕ → ℤ
scale (pos n) m = pos (n * m)
scale (negsuc n) m = if ltb 0 m then negsuc (suc n * m - 1) else pos 0

unfoldable pub wrapping_mul : ℤ → ℕ → ℤ
unfolding of_bits to_bits scale
wrapping_mul z m = of_bits (to_bits (scale z m))

of_bits-IsInt64 : (u : ℕ) → u < 2 ^ 64 → IsInt64 (of_bits u)
unfolding of_bits
of_bits-IsInt64 u h = ground arith

to_bits-lt : (z : ℤ) → to_bits z < 2 ^ 64
unfolding to_bits
to_bits-lt (pos n) = omega arith
to_bits-lt (negsuc n) = omega arith

pub wrapping_mul-IsInt64 : (z : ℤ) (m : ℕ) → IsInt64 (wrapping_mul z m)
unfolding wrapping_mul
wrapping_mul-IsInt64 z m = of_bits-IsInt64 (to_bits (scale z m)) (to_bits-lt (scale z m))

pub wrapping_mul-pos : (n m : ℕ) → n * m < 2 ^ 63 → wrapping_mul (pos n) m ≡ pos (n * m)
unfolding wrapping_mul
wrapping_mul-pos n m h = ground arith

pub wrapping_mul-pos_mod : (n m : ℕ) → (n * m) % 2 ^ 64 ≡ 0 → wrapping_mul (pos n) m ≡ pos 0
unfolding wrapping_mul
wrapping_mul-pos_mod n m h = ground arith
