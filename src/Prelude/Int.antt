-- ===== src/Prelude/Int.antt =====
-- Go's signed integers: ℤ over the native numbers, and the conversion to int32.
use Prim.Native.Nat.{ℕ, ◌-◌, ◌%◌, ◌^◌, ◌<◌}
use mathlib.Core.Path.{◌≡◌}
use mathlib.Core.Bool.{Bool, true, false}
use native.Mathlib.Omega.{arith}
use tunneld.Prelude.Tests.{ltb, leb, eqb, if◌then◌else◌}

-- `negsuc n` is -(n + 1).
pub data ℤ : Type 0 where
  pos : ℕ → ℤ
  negsuc : ℕ → ℤ

abbrev pub eq_ℤ : ℤ → ℤ → Bool
eq_ℤ (pos a) (pos b) = eqb a b
eq_ℤ (pos a) (negsuc b) = false
eq_ℤ (negsuc a) (pos b) = false
eq_ℤ (negsuc a) (negsuc b) = eqb a b

abbrev pub ltb_ℤ : ℤ → ℤ → Bool
ltb_ℤ (pos a) (pos b) = ltb a b
ltb_ℤ (pos a) (negsuc b) = false
ltb_ℤ (negsuc a) (pos b) = true
ltb_ℤ (negsuc a) (negsuc b) = ltb b a

abbrev pub leb_ℤ : ℤ → ℤ → Bool
leb_ℤ (pos a) (pos b) = leb a b
leb_ℤ (pos a) (negsuc b) = false
leb_ℤ (negsuc a) (pos b) = true
leb_ℤ (negsuc a) (negsuc b) = leb b a

-- The value of an integer modulo 2 ^ 32.
abbrev word32 : ℤ → ℕ
word32 (pos n) = n % 2 ^ 32
word32 (negsuc n) = 2 ^ 32 - 1 - n % 2 ^ 32

-- int32(z), which wraps around.
unfoldable pub int32 : ℤ → ℤ
int32 z = if ltb (word32 z) (2 ^ 31) then pos (word32 z) else negsuc (2 ^ 32 - 1 - word32 z)

abbrev pub IsInt32 : ℤ → Type 0
IsInt32 (pos n) = n < 2 ^ 31
IsInt32 (negsuc n) = n < 2 ^ 31

-- The conversion keeps a value that an int32 can hold.
pub int32-eq : (z : ℤ) → IsInt32 z → int32 z ≡ z
unfolding int32
int32-eq (pos n) h = ground arith
int32-eq (negsuc n) h = ground arith

-- Its result is one.
pub int32-IsInt32 : (z : ℤ) → IsInt32 (int32 z)
unfolding int32
int32-IsInt32 (pos n) = ground arith
int32-IsInt32 (negsuc n) = ground arith
