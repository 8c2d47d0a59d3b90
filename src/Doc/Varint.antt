-- ===== src/Doc/Varint.antt =====
-- `_write_varint` and `_read_varint` of bindings/python/pyx/_doc.py: LEB128 lengths.
pub mod Write
pub mod Read
use pyx.Base.{
  ℕ, zero, suc, ◌+◌, ◌*◌, ◌/◌, ◌^◌, ◌<◌, bit_and, bit_or, List, [], ◌∷◌, ◌++◌, Option, none, some,
  leb, ◌==◌, if◌then◌else◌, length, get_elem?, lt_wf, arith,
}
use pyx.Base.Bytes.{Bytes}
use pyx.Result.{Result, Exn, ok, raised, out_of_fuel, ◌>>=◌}
use mathlib.Core.Logic.{dite}
use mathlib.Core.WellFounded.{Acc}
use native.Mathlib.Decide.{dec_lt}

pub falls : (n : ℕ) → 0 < n / 128 → n / 128 < n
falls n h = omega arith

-- `n >>= 7` is `n / 128`; the loop goes on while that is not 0.
write_varint_loop : Bytes → (n : ℕ) → Acc ◌<◌ n → Bytes
write_varint_loop buf n (Acc.intro _ below) =
    let lo = bit_and n 0x7f in
    dite (dec_lt 0 (n / 128))
      (λ h.
        write_varint_loop (buf ++ (bit_or lo 0x80 ∷ [])) (n / 128) (below (n / 128) (falls n h)))
      (λ _. buf ++ (lo ∷ []))

unfoldable pub write_varint : Bytes → ℕ → Bytes
unfolding write_varint_loop lt_wf dec_lt
write_varint buf n = write_varint_loop buf n (lt_wf.apply n)

-- `buf[pos]`
abbrev pub index : Bytes → ℕ → Result ℕ
index buf pos = elim (get_elem? buf pos) [ none ↦ raised Exn.index_error | some b ↦ ok b ]

-- One round for each unit of fuel; the shift grows by 7 and stops the loop from 64 on.
unfoldable pub read_varint_loop : ℕ → Bytes → ℕ → ℕ → ℕ → Result (ℕ × ℕ)
read_varint_loop zero buf pos v shift = out_of_fuel
read_varint_loop (suc fuel) buf pos v shift =
    if leb (length buf) pos
    then raised (Exn.value_error "truncated varint")
    else (index buf pos >>= λ b.
        let v' = bit_or v (bit_and b 0x7f * 2 ^ shift) in
        let rest = read_varint_loop fuel buf (pos + 1) v' (shift + 7) in
        if bit_and b 0x80 == 0
        then ok (v', pos + 1)
        else if leb 64 (shift + 7)
        then raised (Exn.value_error "varint too large")
        else rest)

-- Ten rounds are enough: the shift is 70 after them.
unfoldable pub read_varint : Bytes → ℕ → Result (ℕ × ℕ)
unfolding read_varint_loop
read_varint buf pos = read_varint_loop 10 buf pos 0 0
