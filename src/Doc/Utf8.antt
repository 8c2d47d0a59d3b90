-- ===== src/Doc/Utf8.antt =====
-- `str.encode("utf-8")` and `bytes.decode("utf-8")` as bindings/python/pyx/_doc.py calls them. A str is
-- the list of its code points; a lone surrogate and anything past 0x10ffff have no encoding.
pub mod RoundTrip
use pyx.Base.{
  ℕ, zero, suc, ◌+◌, ◌-◌, ◌*◌, ◌/◌, ◌%◌, ◌<◌, Bool, true, false, ◌&&◌, ◌||◌, Option, none, some,
  List, [], ◌∷◌, ◌++◌, ltb, leb, ◌==◌, if◌then◌else◌, length,
}
use pyx.Base.Bytes.{Bytes}
use pyx.Result.{Result, Exn, ok, raised, out_of_fuel, ◌>>=◌}

abbrev pub Str : Type 0
Str = List ℕ

abbrev pub is_surrogate : ℕ → Bool
is_surrogate c = leb 0xd800 c && ltb c 0xe000

-- `none` is a code point with no encoding.
unfoldable pub encode_char : ℕ → Option Bytes
encode_char c =
    if ltb c 0x80
    then some (c ∷ [])
    else if ltb c 0x800
    then some ((0xc0 + c / 64) ∷ (0x80 + c % 64) ∷ [])
    else if is_surrogate c
    then none
    else if ltb c 0x10000
    then some ((0xe0 + c / 4096) ∷ (0x80 + c / 64 % 64) ∷ (0x80 + c % 64) ∷ [])
    else if ltb c 0x110000
    then some
        ((0xf0 + c / 262144) ∷ (0x80 + c / 4096 % 64) ∷ (0x80 + c / 64 % 64) ∷ (0x80 + c % 64) ∷ [])
    else none

append_char : Option Bytes → Result Bytes → Result Bytes
append_char none rest = raised Exn.unicode_error
append_char (some b) rest = rest >>= λ bs. ok (b ++ bs)

-- s.encode("utf-8")
unfoldable pub utf8_encode : Str → Result Bytes
unfolding append_char
utf8_encode [] = ok []
utf8_encode (c ∷ s) = append_char (encode_char c) (utf8_encode s)

abbrev is_tail : ℕ → Bool
is_tail b = leb 0x80 b && ltb b 0xc0

-- A decoded code point stands only if its encoding is not overlong and it is no surrogate.
abbrev accept : Bool → ℕ → Bytes → Option (ℕ × Bytes)
accept good c rest = if good then some (c, rest) else none

decode2 : ℕ → Bytes → Option (ℕ × Bytes)
decode2 a (b ∷ rest) =
    let c = (a - 0xc0) * 64 + (b - 0x80) in accept (is_tail b && leb 0x80 c) c rest
decode2 a _ = none

decode3 : ℕ → Bytes → Option (ℕ × Bytes)
decode3 a (b ∷ d ∷ rest) =
    let c = (a - 0xe0) * 4096 + (b - 0x80) * 64 + (d - 0x80) in
    accept (is_tail b && is_tail d && leb 0x800 c && (ltb c 0xd800 || leb 0xe000 c)) c rest
decode3 a _ = none

decode4 : ℕ → Bytes → Option (ℕ × Bytes)
decode4 a (b ∷ d ∷ e ∷ rest) =
    let c = (a - 0xf0) * 262144 + (b - 0x80) * 4096 + (d - 0x80) * 64 + (e - 0x80) in
    accept (is_tail b && is_tail d && is_tail e && leb 0x10000 c && ltb c 0x110000) c rest
decode4 a _ = none

-- The first code point, by the class of its first byte, and the bytes behind it.
unfoldable pub decode_char : ℕ → Bytes → Option (ℕ × Bytes)
unfolding decode2 decode3 decode4
decode_char a rest =
    if ltb a 0x80
    then some (a, rest)
    else if ltb a 0xc0
    then none
    else if ltb a 0xe0
    then decode2 a rest
    else if ltb a 0xf0
    then decode3 a rest
    else if ltb a 0xf8
    then decode4 a rest
    else none

-- Each round takes a byte at least, so the number of bytes is enough fuel.
unfoldable pub decode_loop : ℕ → Bytes → Result Str
decode_loop fuel [] = ok []
decode_loop zero (a ∷ rest) = out_of_fuel
decode_loop (suc fuel) (a ∷ rest) = elim (decode_char a rest) [
  | none ↦ raised Exn.unicode_error
  | some (c, more) ↦ decode_loop fuel more >>= λ s. ok (c ∷ s)
]

-- b.decode("utf-8")
unfoldable pub utf8_decode : Bytes → Result Str
unfolding decode_loop
utf8_decode bs = decode_loop (length bs) bs
