-- ===== src/Doc/Varint/Read.antt =====
-- `_read_varint` on what `_write_varint` appended, and on any input.
use pyx.Base.{
  ℕ, zero, suc, ◌+◌, ◌*◌, ◌/◌, ◌%◌, ◌^◌, ◌≤◌, ◌<◌, ◌≡◌, refl, ap, ◌∙◌, [], ◌∷◌, ◌++◌, length, arith,
  append_assoc, length-append_bytes, bit_and, bit_or, true, false, leb, ◌==◌,
}
use pyx.Base.Bytes.{Bytes}
use pyx.Base.Bits.{bit_and-low, bit_and-top, bit_or-shift}
use pyx.Base.Reading.{At, get_elem?-At, At-cons, At-behind}
use pyx.Result.{
  ok_pair, Result, Exn, ok, raised, IsValueError, Ensures, returns, raises, Ensures-if,
  Ensures-bind,
}
use pyx.Doc.Varint.{index, read_varint_loop, read_varint, write_varint}
use pyx.Doc.Varint.Write.{Leb128, last, more, write_varint-Leb128}
use native.Mathlib.Nat.{pow-suc, one-le-pow}
use native.Mathlib.Numerals.{towards_suc}

pub index-At :
    {buf : Bytes} {pos x : ℕ} {rest : Bytes} → At buf pos (x ∷ rest) → index buf pos ≡ ok x
index-At h = rw (get_elem?-At h, index)

pub At-lt :
    {buf : Bytes} {pos x : ℕ} {rest : Bytes} → At buf pos (x ∷ rest) → leb (length buf) pos ≡ false
At-lt h = ground (arith, h.total)

module _ {buf : Bytes} {pos b : ℕ} {rest : Bytes} (here : At buf pos (b ∷ rest)) where
  -- One round on a last byte, on an inner byte, and on an inner byte in the last round.
  round_last :
      (f v shift : ℕ)
      → b < 128
      → v < 2 ^ shift
      → read_varint_loop (suc f) buf pos v shift ≡ ok (v + b * 2 ^ shift, pos + 1)
  unfolding read_varint_loop
  round_last f v shift hb hv =
      let low : bit_and b 0x7f ≡ b = omega (arith, bit_and-low b) in
      let stop : (bit_and b 0x80 == 0) ≡ true = ground (arith, bit_and-top b) in
      rw (At-lt here, index-At here, low, bit_or-shift shift b v hv, stop)

  round_more :
      (f g v shift : ℕ)
      → b ≡ g + 128
      → g < 128
      → v < 2 ^ shift
      → shift + 7 < 64
      → read_varint_loop (suc f) buf pos v shift
        ≡ read_varint_loop f buf (pos + 1) (v + g * 2 ^ shift) (shift + 7)
  unfolding read_varint_loop
  round_more f g v shift hb hg hv hs =
      let low : bit_and b 0x7f ≡ g = omega (arith, bit_and-low b) in
      let goes_on : (bit_and b 0x80 == 0) ≡ false = ground (arith, bit_and-top b) in
      let fits : leb 64 (shift + 7) ≡ false = ground arith in
      rw (At-lt here, index-At here, low, bit_or-shift shift g v hv, goes_on, fits)

  round_over :
      (f v shift : ℕ)
      → 128 ≤ b
      → b < 256
      → 64 ≤ shift + 7
      → read_varint_loop (suc f) buf pos v shift ≡ raised (Exn.value_error "varint too large")
  unfolding read_varint_loop
  round_over f v shift lo hi hs =
      let goes_on : (bit_and b 0x80 == 0) ≡ false = ground (arith, bit_and-top b) in
      let over : leb 64 (shift + 7) ≡ true = ground arith in
      rw (At-lt here, index-At here, goes_on, over)

-- `n` and its lowest group, both from bit `s` on.
regroup : (n s : ℕ) → n % 128 * 2 ^ s + n / 128 * 2 ^ (s + 7) ≡ n * 2 ^ s
regroup n s =
    let wider : 2 ^ (s + 7) ≡ 128 * 2 ^ s = simp towards_suc (omega arith) in
    let parts : n % 128 + n / 128 * 128 ≡ n = omega arith in
    omega (arith, ap (λ (t : ℕ). n / 128 * t) wider, ap (λ (t : ℕ). t * 2 ^ s) parts)

pub fits_wider : (g v s : ℕ) → g < 128 → v < 2 ^ s → v + g * 2 ^ s < 2 ^ (s + 7)
fits_wider g v s hg hv =
    let wider : 2 ^ (s + 7) ≡ 128 * 2 ^ s = simp towards_suc (omega arith) in rw wider (grind arith)

-- With `k + 1` rounds left, a number of at most `k + 1` groups is read back.
loop-Leb128 :
    (k : ℕ) {n : ℕ} {bs : Bytes} {buf : Bytes} (pos v shift : ℕ) (rest : Bytes)
    → Leb128 n bs
    → n < 128 ^ suc k
    → shift + 7 * k ≡ 63
    → v < 2 ^ shift
    → At buf pos (bs ++ rest)
    → read_varint_loop (suc k) buf pos v shift ≡ ok (v + n * 2 ^ shift, pos + length bs)
loop-Leb128 k pos v shift rest (last n h) small rounds hv here = round_last here k v shift h hv
loop-Leb128 zero pos v shift rest (more n bs h l) small rounds hv here = absurd (omega arith)
loop-Leb128 (suc k) {buf = buf} pos v shift rest (more n bs h l) small rounds hv here =
    round_more here (suc k) (n % 128) v shift refl (omega arith) hv (omega arith)
    ∙ loop-Leb128 k (pos + 1) (v + n % 128 * 2 ^ shift) (shift + 7) rest l
        (omega (arith, pow-suc 128 (suc k))) (omega arith)
        (fits_wider (n % 128) v shift (omega arith) hv) (At-cons here)
    ∙ ok_pair (omega (arith, regroup n shift)) (omega arith)

-- A number of more groups than there are rounds is refused.
loop-too_large :
    (k : ℕ) {n : ℕ} {bs : Bytes} {buf : Bytes} (pos v shift : ℕ) (rest : Bytes)
    → Leb128 n bs
    → 128 ^ suc k ≤ n
    → shift + 7 * k ≡ 63
    → v < 2 ^ shift
    → At buf pos (bs ++ rest)
    → read_varint_loop (suc k) buf pos v shift ≡ raised (Exn.value_error "varint too large")
loop-too_large k pos v shift rest (last n h) big rounds hv here =
    absurd (omega (arith, pow-suc 128 k, one-le-pow k 128))
loop-too_large zero pos v shift rest (more n bs h l) big rounds hv here =
    round_over here zero v shift (omega arith) (omega arith) (omega arith)
loop-too_large (suc k) pos v shift rest (more n bs h l) big rounds hv here =
    round_more here (suc k) (n % 128) v shift refl (omega arith) hv (omega arith)
    ∙ loop-too_large k (pos + 1) (v + n % 128 * 2 ^ shift) (shift + 7) rest l
        (omega (arith, pow-suc 128 (suc k))) (omega arith)
        (fits_wider (n % 128) v shift (omega arith) hv) (At-cons here)

-- `_read_varint` reads back what stands for `n` at `pos`, and stops behind it.
pub read_varint-Leb128 :
    {n : ℕ} {bs buf : Bytes} (pos : ℕ) (rest : Bytes)
    → Leb128 n bs
    → n < 128 ^ 10
    → At buf pos (bs ++ rest)
    → read_varint buf pos ≡ ok (n, pos + length bs)
unfolding read_varint
read_varint-Leb128 {n} pos rest l small here =
    loop-Leb128 9 pos 0 0 rest l small (omega arith) (omega arith) here ∙ ok_pair (omega arith) refl

pub read_varint_too_large :
    {n : ℕ} {bs buf : Bytes} (pos : ℕ) (rest : Bytes)
    → Leb128 n bs
    → 128 ^ 10 ≤ n
    → At buf pos (bs ++ rest)
    → read_varint buf pos ≡ raised (Exn.value_error "varint too large")
unfolding read_varint
read_varint_too_large {n} pos rest l big here =
    loop-too_large 9 pos 0 0 rest l big (omega arith) (omega arith) here

-- A call at `pos` that ends ahead of it and within the buffer, or raises a ValueError.
abbrev pub Advances {ℓ} : {A : Type ℓ} → Bytes → ℕ → Result (A × ℕ) → Type ℓ
Advances buf pos r = Ensures (λ (a, end). (pos < end) × (end ≤ length buf)) IsValueError r

pub index-Ensures :
    (buf : Bytes) (pos : ℕ)
    → pos < length buf
    → Ensures (λ b. Unit {0}) IsValueError (index buf pos)
index-Ensures [] pos h = absurd (omega arith)
index-Ensures (b ∷ buf) zero h = returns tt
index-Ensures (b ∷ buf) (suc pos) h = index-Ensures buf pos (omega arith)

loop-Advances :
    (k : ℕ) (buf : Bytes) (start pos v shift : ℕ)
    → start ≤ pos
    → shift + 7 * k ≡ 63
    → Advances buf start (read_varint_loop (suc k) buf pos v shift)
unfolding read_varint_loop
loop-Advances zero buf start pos v shift ahead rounds =
    Ensures-if (leb (length buf) pos) (λ _. raises tt)
      λ inside. Ensures-bind (index-Ensures buf pos (ground arith)) λ b _.
        Ensures-if (bit_and b 0x80 == 0) (λ _. returns (ground arith))
          λ _. Ensures-if (leb 64 (shift + 7)) (λ _. raises tt) λ below. absurd (ground arith)
loop-Advances (suc k) buf start pos v shift ahead rounds =
    Ensures-if (leb (length buf) pos) (λ _. raises tt)
      λ inside. Ensures-bind (index-Ensures buf pos (ground arith)) λ b _.
        Ensures-if (bit_and b 0x80 == 0) (λ _. returns (ground arith))
          λ _.
            Ensures-if (leb 64 (shift + 7)) (λ _. raises tt)
              λ below.
                loop-Advances k buf start (pos + 1) (bit_or v (bit_and b 0x7f * 2 ^ shift))
                  (shift + 7) (omega arith) (omega arith)

-- On any bytes and from any position the read ends: with a position ahead of its own and within the
-- buffer, or with a ValueError.
pub read_varint-Advances : (buf : Bytes) (pos : ℕ) → Advances buf pos (read_varint buf pos)
unfolding read_varint
read_varint-Advances buf pos = loop-Advances 9 buf pos pos 0 0 (omega arith) (omega arith)

-- Writing a number behind `buf` and reading at that place gives the number and the end of the
-- output, whatever follows, as long as the number has at most ten groups of seven bits.
read_varint-write_varint :
    (buf : Bytes) (n : ℕ) (rest : Bytes)
    → n < 2 ^ 70
    → read_varint (write_varint buf n ++ rest) (length buf) ≡ ok (n, length (write_varint buf n))
read_varint-write_varint buf n rest small =
    let (bs, e, l) = write_varint-Leb128 buf n in
    rw (e, append_assoc, length-append_bytes)
      (read_varint-Leb128 (length buf) rest l (omega arith) (At-behind buf (bs ++ rest)))

-- A longer number is written all the same, and reading it back raises "varint too large".
read_varint-write_varint_too_large :
    (buf : Bytes) (n : ℕ) (rest : Bytes)
    → 2 ^ 70 ≤ n
    → read_varint (write_varint buf n ++ rest) (length buf)
      ≡ raised (Exn.value_error "varint too large")
read_varint-write_varint_too_large buf n rest big =
    let (bs, e, l) = write_varint-Leb128 buf n in
    rw (e, append_assoc)
      (read_varint_too_large (length buf) rest l (omega arith) (At-behind buf (bs ++ rest)))
