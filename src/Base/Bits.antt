-- ===== src/Base/Bits.antt =====
-- `&` and `|` as arithmetic: a mask of seven bits, the top bit of a byte, and `|` of a number with
-- bits above all of its own.
use Prim.Native.Nat.{
  ℕ, zero, suc, ◌+◌, ◌*◌, ◌/◌, ◌%◌, ◌^◌, ◌≤◌, ◌<◌, min, max, bit_and, bit_or, digits,
  bit_and-bitwise, bit_or-bitwise,
}
use mathlib.Core.Path.{◌≡◌, refl, ap}
use native.Mathlib.Omega.{arith}
use native.Mathlib.Nat.{pow-suc}

-- Any two counts that cover the number give the same digits.
count_irrelevant :
    (z : ℕ → ℕ) (op : ℕ → ℕ → ℕ) (k l a b : ℕ)
    → a ≤ k
    → a ≤ l
    → digits z op k a b ≡ digits z op l a b
count_irrelevant z op zero zero zero b p q = refl
count_irrelevant z op zero zero (suc a) b p q = refl
count_irrelevant z op (suc k) zero zero b p q = refl
count_irrelevant z op zero (suc l) zero b p q = refl
count_irrelevant z op (suc k) (suc l) zero b p q = refl
count_irrelevant z op zero (suc l) (suc a) b p q = absurd (omega arith)
count_irrelevant z op (suc k) zero (suc a) b p q = absurd (omega arith)
count_irrelevant z op (suc k) (suc l) (suc a) b p q =
    let halves = count_irrelevant z op k l (suc a / 2) (b / 2) (omega arith) (omega arith) in
    ap (λ (t : ℕ). t * 2 + op (suc a % 2) (b % 2)) halves

and_unfold : (a b : ℕ) → bit_and a b ≡ bit_and (a / 2) (b / 2) * 2 + min (a % 2) (b % 2)
and_unfold zero b = omega (arith, bit_and-bitwise 0 b, bit_and-bitwise 0 (b / 2))
and_unfold (suc a) b = omega (
  arith,
  bit_and-bitwise (suc a) b,
  bit_and-bitwise (suc a / 2) (b / 2),
  count_irrelevant (λ x. 0) min a (suc a / 2) (suc a / 2) (b / 2) (omega arith) (omega arith),
)

or_unfold : (a b : ℕ) → bit_or a b ≡ bit_or (a / 2) (b / 2) * 2 + max (a % 2) (b % 2)
or_unfold zero b = omega (arith, bit_or-bitwise 0 b, bit_or-bitwise 0 (b / 2))
or_unfold (suc a) b = omega (
  arith,
  bit_or-bitwise (suc a) b,
  bit_or-bitwise (suc a / 2) (b / 2),
  count_irrelevant (λ x. x) max a (suc a / 2) (suc a / 2) (b / 2) (omega arith) (omega arith),
)

and_none : (n a : ℕ) → a ≤ n → bit_and a 0 ≡ 0
and_none n zero h = refl
and_none zero (suc a) h = absurd (omega arith)
and_none (suc n) (suc a) h =
    omega (arith, and_unfold (suc a) 0, and_none n (suc a / 2) (omega arith))

and_bit : (a : ℕ) → bit_and a 1 ≡ a % 2
and_bit a = omega (arith, and_unfold a 1, and_none (a / 2) (a / 2) (omega arith))

and_bits3 : (a : ℕ) → bit_and a 7 ≡ a % 8
and_bits3 a = omega (arith, and_unfold a 7, and_unfold (a / 2) 3, and_bit (a / 2 / 2))

and_bits5 : (a : ℕ) → bit_and a 31 ≡ a % 32
and_bits5 a = omega (arith, and_unfold a 31, and_unfold (a / 2) 15, and_bits3 (a / 2 / 2))

-- `n & 0x7f`
pub bit_and-low : (a : ℕ) → bit_and a 0x7f ≡ a % 128
bit_and-low a = omega (arith, and_unfold a 127, and_unfold (a / 2) 63, and_bits5 (a / 2 / 2))

top_of3 : (a : ℕ) → bit_and a 4 ≡ a / 4 % 2 * 4
top_of3 a = omega (arith, and_unfold a 4, and_unfold (a / 2) 2, and_bit (a / 2 / 2))

top_of5 : (a : ℕ) → bit_and a 16 ≡ a / 16 % 2 * 16
top_of5 a = omega (arith, and_unfold a 16, and_unfold (a / 2) 8, top_of3 (a / 2 / 2))

top_of7 : (a : ℕ) → bit_and a 64 ≡ a / 64 % 2 * 64
top_of7 a = omega (arith, and_unfold a 64, and_unfold (a / 2) 32, top_of5 (a / 2 / 2))

-- `b & 0x80`
pub bit_and-top : (a : ℕ) → bit_and a 0x80 ≡ a / 128 % 2 * 128
bit_and-top a = omega (arith, and_unfold a 128, top_of7 (a / 2))

doubled : (x s : ℕ) → x * 2 ^ suc s ≡ x * 2 ^ s * 2
doubled x s = omega (arith, ap (λ (t : ℕ). x * t) (pow-suc 2 s))

-- `v | x << s` is a sum where `v` has `s` bits.
pub bit_or-shift : (s x v : ℕ) → v < 2 ^ s → bit_or v (x * 2 ^ s) ≡ v + x * 2 ^ s
bit_or-shift zero x zero h = omega (arith, bit_or-bitwise 0 (x * 1))
bit_or-shift zero x (suc v) h = absurd (omega arith)
bit_or-shift (suc s) x v h = ground (
  arith,
  doubled x s,
  pow-suc 2 s,
  or_unfold v (x * 2 ^ suc s),
  bit_or-shift s x (v / 2) (omega (arith, pow-suc 2 s)),
)

-- `lo | 0x80`
pub bit_or-top : (v : ℕ) → v < 128 → bit_or v 0x80 ≡ v + 128
bit_or-top v h = bit_or-shift 7 1 v h
