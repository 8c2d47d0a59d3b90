-- ===== src/Base/Int.antt =====
-- Python integers, and the two's complement of 64 bits that `struct` and `to_bytes` write.
use Prim.Native.Nat.{ℕ, suc, ◌-◌, ◌^◌, ◌<◌, ◌≤◌}
use mathlib.Core.Path.{◌≡◌}
use mathlib.Core.Bool.{Bool, true, false}
use native.Mathlib.Omega.{arith}
use pyx.Base.Tests.{ltb, ◌==◌, if◌then◌else◌}

-- `negsuc n` is -(n + 1).
pub data ℤ : Type 0 where
  pos : ℕ → ℤ
  negsuc : ℕ → ℤ

-- `a == b`
abbrev pub int_eq : ℤ → ℤ → Bool
int_eq (pos a) (pos b) = a == b
int_eq (negsuc a) (negsuc b) = a == b
int_eq _ _ = false

-- `z < 0`
abbrev pub is_negative : ℤ → Bool
is_negative (pos n) = false
is_negative (negsuc n) = true

-- -(2 ** 63) <= z <= 2 ** 63 - 1
abbrev pub InI64 : ℤ → Type 0
InI64 (pos n) = n < 2 ^ 63
InI64 (negsuc n) = n < 2 ^ 63

abbrev pub in_i64 : ℤ → Bool
in_i64 (pos n) = ltb n (2 ^ 63)
in_i64 (negsuc n) = ltb n (2 ^ 63)

-- The 64-bit pattern of an integer, and the integer of a pattern.
unfoldable pub to_word : ℤ → ℕ
to_word (pos n) = n
to_word (negsuc n) = 2 ^ 64 - suc n

unfoldable pub of_word : ℕ → ℤ
of_word w = if ltb w (2 ^ 63) then pos w else negsuc (2 ^ 64 - suc w)

pub to_word-lt : (z : ℤ) → InI64 z → to_word z < 2 ^ 64
unfolding to_word
to_word-lt (pos n) h = omega arith
to_word-lt (negsuc n) h = omega arith

pub of_word-to_word : (z : ℤ) → InI64 z → of_word (to_word z) ≡ z
unfolding to_word of_word
of_word-to_word (pos n) h = ground arith
of_word-to_word (negsuc n) h = ground arith

pub of_word-InI64 : (w : ℕ) → w < 2 ^ 64 → InI64 (of_word w)
unfolding of_word
of_word-InI64 w h = ground arith

pub in_i64→InI64 : (z : ℤ) → in_i64 z ≡ true → InI64 z
in_i64→InI64 (pos n) h = ground arith
in_i64→InI64 (negsuc n) h = ground arith

infix 50 ◌≤ℤ◌ ◌<ℤ◌
abbrev pub ◌≤ℤ◌ : ℤ → ℤ → Type 0
pos a ≤ℤ pos b = a ≤ b
pos a ≤ℤ negsuc b = ⊥
negsuc a ≤ℤ pos b = Unit
negsuc a ≤ℤ negsuc b = b ≤ a

abbrev pub ◌<ℤ◌ : ℤ → ℤ → Type 0
pos a <ℤ pos b = a < b
pos a <ℤ negsuc b = ⊥
negsuc a <ℤ pos b = Unit
negsuc a <ℤ negsuc b = b < a
