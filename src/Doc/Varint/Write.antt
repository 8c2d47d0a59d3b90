-- ===== src/Doc/Varint/Write.antt =====
-- What `_write_varint` appends: groups of seven bits, the lowest first.
use pyx.Base.{
  ℕ, ◌+◌, ◌/◌, ◌%◌, ◌≤◌, ◌<◌, ◌≡◌, ◌∙◌, [], ◌∷◌, ◌++◌, append_assoc, All, arith, bit_and, bit_or,
  lt_wf,
}
use pyx.Base.Bytes.{Bytes, IsByte}
use pyx.Base.Bits.{bit_and-low, bit_or-top}
use pyx.Doc.Varint.{write_varint_loop, write_varint, falls}
use mathlib.Core.Logic.{dif_pos, dif_neg}
use mathlib.Core.WellFounded.{Acc}
use native.Mathlib.Decide.{dec_lt}
use native.Mathlib.Bridge.{le_prop}

-- These bytes are the number's groups, each but the last with its top bit set.
pub data Leb128 : ℕ → Bytes → Type 0 where
  last : (n : ℕ) → n < 128 → Leb128 n (n ∷ [])
  more : (n : ℕ) (bs : Bytes) → 128 ≤ n → Leb128 (n / 128) bs → Leb128 n ((n % 128 + 128) ∷ bs)

abbrev pub Writes : ℕ → Bytes → Bytes → Type 0
Writes n buf out = (bs : Bytes) × (out ≡ buf ++ bs) × Leb128 n bs

group_more : (n : ℕ) → bit_or (bit_and n 0x7f) 0x80 ≡ n % 128 + 128
group_more n = rw bit_and-low (bit_or-top (n % 128) (omega arith))

write_varint_loop-Writes :
    (n : ℕ) (w : Acc ◌<◌ n) (buf : Bytes) → Writes n buf (write_varint_loop buf n w)
unfolding write_varint_loop
write_varint_loop-Writes n (Acc.intro _ below) buf = elim (dec_lt 0 (n / 128)) [
  | yes h ↦
      let group : Bytes = bit_or (bit_and n 0x7f) 0x80 ∷ [] in
      let (bs, e, l) =
        write_varint_loop-Writes (n / 128) (below (n / 128) (falls n h)) (buf ++ group) in
      rw (dif_pos _ le_prop h)
        ((n % 128 + 128) ∷ bs, e ∙ rw (append_assoc, group_more), more n bs (omega arith) l)
  | no h ↦ rw (dif_neg _ h) (n ∷ [], ground (arith, bit_and-low n), last n (omega arith))
]

-- `_write_varint` appends the LEB128 groups of the number and leaves what was in the buffer.
pub write_varint-Leb128 : (buf : Bytes) (n : ℕ) → Writes n buf (write_varint buf n)
unfolding write_varint
write_varint-Leb128 buf n = write_varint_loop-Writes n (lt_wf.apply n) buf

pub Leb128-IsByte : {n : ℕ} {bs : Bytes} → Leb128 n bs → All IsByte bs
Leb128-IsByte (last n h) = (omega arith, tt)
Leb128-IsByte (more n bs h l) = (omega arith, Leb128-IsByte l)
