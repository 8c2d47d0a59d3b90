-- ===== src/Native/Decode/Lengths.antt =====
-- Lengths and sized fields, as the extension bindings/python/pyx/_native.c reads them and as bindings/python/pyx/_doc.py does.
use Prim.Native.String.{String}
use pyx.Base.{
  ℕ, zero, suc, ◌+◌, ◌*◌, ◌%◌, ◌^◌, ◌≤◌, ◌<◌, ◌≡◌, refl, sym, ap, ◌∙◌, bit_and, false, Bool-cases,
  inl, inr, ltb, leb, ◌==◌, length, arith,
}
use pyx.Base.Bytes.{Bytes}
use pyx.Base.Bits.{bit_and-low, bit_or-shift}
use pyx.Base.Reading.{slice}
use pyx.Result.{Result, ok, ok-injective, >>=-eq-ok}
use pyx.Doc.Varint.{index, read_varint_loop, read_varint}
use pyx.Doc.Varint.Read.{fits_wider}
use pyx.Doc.Value.{Value}
use pyx.Doc.Decode.{read_sized, read_entry_key}
use pyx.Native.Decode.{Unspecified, varint_loop, varint, taken, sized, entry_key}
use pyx.Doc.Strict.Follows.{Follows, Follows-first, Follows-unless, Follows-same, Follows-after}

word_small : (x : ℕ) → x < 2 ^ 64 → x % 2 ^ 64 ≡ x
word_small x h = omega arith

-- A length that a word holds is read the same. No round makes the number smaller.
varint_loop-read :
    (k : ℕ) (buf : Bytes) (pos v shift n end : ℕ)
    → v < 2 ^ shift
    → n < 2 ^ 64
    → read_varint_loop k buf pos v shift ≡ ok (n, end)
    → (varint_loop k buf pos v shift ≡ ok (n, end)) × (v ≤ n)
unfolding read_varint_loop varint_loop
varint_loop-read zero buf pos v shift n end small word e = absurd (cc)
varint_loop-read (suc k) buf pos v shift n end small word e =
    elim (Bool-cases (leb (length buf) pos)) [
      | inl over ↦ absurd (let e' = rw over at e in cc)
      | inr inside ↦
          let (b, at_pos, e1) = >>=-eq-ok (index buf pos) _ (rw inside at e) in
          let group : ℕ = bit_and b 0x7f in
          let sum = bit_or-shift shift group v small in
          let low : group < 128 = omega (arith, bit_and-low b) in
          elim (Bool-cases (bit_and b 0x80 == 0)) [
            | inl last ↦
                let e2 = rw last at e1 in
                let total : v + group * 2 ^ shift ≡ n = sym sum ∙ ap (λ r. r.0) (ok-injective e2) in
                let fits = word_small (group * 2 ^ shift) (omega (arith, total)) in
                (rw (inside, at_pos, fits, last) e2, omega (arith, total))
            | inr inner ↦ elim (Bool-cases (leb 64 (shift + 7))) [
              | inl over ↦ absurd (let e2 = rw (inner, over) at e1 in cc)
              | inr below ↦
                  let e2 = rw (inner, below, sum) at e1 in
                  let (same, bound) =
                    varint_loop-read k buf (pos + 1) (v + group * 2 ^ shift) (shift + 7) n end
                      (fits_wider group v shift low small) word e2 in
                  let fits = word_small (group * 2 ^ shift) (omega (arith, bound)) in
                  (rw (inside, at_pos, fits, inner, below, sum) same, omega (arith, bound))
            ]
          ]
    ]

varint-read :
    (buf : Bytes) (pos n end : ℕ)
    → n < 2 ^ 64
    → read_varint buf pos ≡ ok (n, end)
    → varint buf pos ≡ ok (n, end)
unfolding read_varint varint
varint-read buf pos n end word e =
    let (same, _) = varint_loop-read 10 buf pos 0 0 n end (omega arith) word e in same

module _ (unspecified : Unspecified) (buf : Bytes) (short_buf : length buf < 2 ^ 63) where
  taken-fits :
      (what : String) (pos n end : ℕ)
      → ltb end (pos + n) ≡ false
      → end ≤ length buf
      → taken unspecified what buf pos n end ≡ ok (slice buf pos (pos + n), pos + n)
  unfolding taken
  taken-fits what pos n end fits inside =
      let small : leb (2 ^ 63) (pos + n) ≡ false = ground arith in rw (small, fits) refl

  pub sized-Follows :
      (what what' : String) (make : Bytes → Result Value) (pos : ℕ)
      → Follows (λ x. x) (read_sized what make buf pos) (sized unspecified what' make buf pos)
  unfolding read_sized sized
  sized-Follows what what' make pos = Follows-first (read_varint buf pos) λ (n, p) e.
      Follows-unless (ltb (length buf) (p + n)) _ λ fits.
        rw
          (
            varint-read buf pos n p (ground arith) e,
            taken-fits what' p n (length buf) fits (omega arith),
          )
          (Follows-same _)

  pub entry_key-Follows :
      (pos end : ℕ)
      → end ≤ length buf
      → Follows (λ x. x) (read_entry_key buf pos end) (entry_key unspecified buf pos end)
  unfolding read_entry_key entry_key
  entry_key-Follows pos end inside = Follows-after (index buf pos) λ entry_tag _.
      Follows-first (read_varint buf (pos + 1)) λ (klen, start) e.
        Follows-unless (ltb end (start + klen)) _ λ fits.
          rw
            (
              varint-read buf (pos + 1) klen start (ground arith) e,
              taken-fits "truncated object key" start klen end fits inside,
            )
            (Follows-same _)
