-- ===== src/Doc/RoundTrip/Parts.antt =====
-- The decoder's pieces at a position where the encoder's pieces stand.
use Prim.Native.String.{String}
use pyx.Base.{
  ℕ, ◌+◌, ◌^◌, ◌≤◌, ◌<◌, ◌≡◌, sym, ap, ◌∙◌, ◌∷◌, ◌++◌, length, lengths, arith, true, leb, le→ltb,
}
use pyx.Base.Bytes.{Bytes, le_bytes, length-le_bytes, le_value-le_bytes}
use pyx.Base.Reading.{At, At-append, At-cons, slice, slice-At}
use pyx.Result.{Result, ok}
use pyx.Doc.Utf8.{Str, utf8_decode}
use pyx.Doc.Varint.Write.{Leb128}
use pyx.Doc.Varint.Read.{index-At, read_varint-Leb128}
use pyx.Doc.Value.{Value}
use pyx.Doc.Decode.{unpack_from, read_word, read_sized, read_header, read_entry_key}

-- A field of `w` bytes that stands at `pos` is inside the buffer.
unpack_from-At :
    (w n : ℕ) {input : Bytes} {pos : ℕ} (rest : Bytes)
    → n < 256 ^ w
    → At input pos (le_bytes w n ++ rest)
    → (unpack_from w input pos ≡ ok n) × (pos + w ≤ length input)
unfolding unpack_from
unpack_from-At w n {input} {pos} rest fits here =
    let inside : pos + w ≤ length input = omega (lengths, here.total, length-le_bytes w n) in
    let field : slice input pos (pos + w) ≡ le_bytes w n =
      ap (λ (k : ℕ). slice input pos (pos + k)) (sym (length-le_bytes w n))
      ∙ slice-At (le_bytes w n) rest here in
    let test : leb (pos + w) (length input) ≡ true = ground arith in
    (rw (test, field) (ap ok (le_value-le_bytes w n fits)), inside)

pub read_word-At :
    (what : String) (make : ℕ → Value) (n : ℕ) {input : Bytes} {pos : ℕ} (rest : Bytes)
    → n < 2 ^ 64
    → At input pos (le_bytes 8 n ++ rest)
    → read_word what make input pos ≡ ok (make n, pos + 8)
unfolding read_word
read_word-At what make n {input} {pos} rest fits here =
    let (e, inside) = unpack_from-At 8 n rest fits here in
    rw (le→ltb (length input) (pos + 8) inside, e)

pub read_header-At :
    (no_length no_body : String) (body : Bytes) {input : Bytes} {pos : ℕ} (rest : Bytes)
    → length body < 2 ^ 32
    → At input pos (le_bytes 4 (length body) ++ (body ++ rest))
    → read_header no_length no_body input pos ≡ ok (pos + 4, pos + 4 + length body)
unfolding read_header
read_header-At no_length no_body body {input} {pos} rest fits here =
    let (e, inside) = unpack_from-At 4 (length body) (body ++ rest) fits here in
    let whole : pos + 4 + length body ≤ length input =
      omega (lengths, here.total, length-le_bytes 4 (length body)) in
    rw (
      le→ltb (length input) (pos + 4) inside,
      e,
      le→ltb (length input) (pos + 4 + length body) whole,
    )

module _ (b : Bytes) {lb : Bytes} (l : Leb128 (length b) lb) (small : length b < 2 ^ 70)
    {input : Bytes} where
  pub read_sized-At :
      (what : String) (make : Bytes → Result Value) {v : Value} {pos : ℕ} (rest : Bytes)
      → make b ≡ ok v
      → At input pos (lb ++ (b ++ rest))
      → read_sized what make input pos ≡ ok (v, pos + length lb + length b)
  unfolding read_sized
  read_sized-At what make {v} {pos} rest made here =
      let after = At-append lb (b ++ rest) here in
      let inside : pos + length lb + length b ≤ length input = omega (lengths, after.total) in
      rw (
        read_varint-Leb128 pos (b ++ rest) l small here,
        le→ltb (length input) (pos + length lb + length b) inside,
        slice-At b rest after,
        made,
      )

  pub read_entry_key-At :
      (tag : ℕ) {key : Str} {pos : ℕ} (end : ℕ) (rest : Bytes)
      → utf8_decode b ≡ ok key
      → At input pos (tag ∷ (lb ++ (b ++ rest)))
      → pos + 1 + length lb + length b ≤ end
      → read_entry_key input pos end ≡ ok (tag, key, pos + 1 + length lb + length b)
  unfolding read_entry_key
  read_entry_key-At tag {key} {pos} end rest decoded here inside =
      let behind = At-cons here in
      let after = At-append lb (b ++ rest) behind in
      rw (
        index-At here,
        read_varint-Leb128 (pos + 1) (b ++ rest) l small behind,
        le→ltb end (pos + 1 + length lb + length b) inside,
        slice-At b rest after,
        decoded,
      )
