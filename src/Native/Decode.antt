-- ===== src/Native/Decode.antt =====
-- The decoder of bindings/python/pyx/_native.c: `read_value` and `read_payload` on a Reader, which is its buffer and its
-- position. A length is a 64-bit word that the source casts to a signed size.
pub mod Lengths
pub mod Agree
mod Tests
use Prim.Native.String.{String}
use pyx.Base.{
  ℕ, zero, suc, ◌+◌, ◌*◌, ◌^◌, ◌%◌, bit_and, bit_or, true, false, ltb, leb, ◌==◌, if◌then◌else◌,
  length,
}
use pyx.Base.Bytes.{Bytes}
use pyx.Base.Int.{ℤ, of_word}
use pyx.Base.Reading.{slice}
use pyx.Result.{Result, Exn, ok, raised, out_of_fuel, ◌>>=◌}
use pyx.Doc.Utf8.{Str, utf8_decode}
use pyx.Doc.Varint.{index}
use pyx.Doc.Value.{
  str_key, Value, Items, Fields, null, bool, int, float, sequence, list_class, dict, no_items,
  no_fields, append_item, dict_set,
}
use pyx.Doc.Decode.{read_word, read_header, make_str, make_bytes}
use pyx.Doc.Encode.{
  tag_null, tag_false, tag_true, tag_i64, tag_f64, tag_string, tag_bytes, tag_array, tag_object,
}

-- What the source does with a length for which the sum of position and length is not a signed 64-bit integer: the bytes
-- that it reads, and the position that it goes on from. The C standard or the interpreter says, if at all.
abbrev pub Unspecified : Type 0
Unspecified = Bytes → ℕ → ℕ → Result (Bytes × ℕ)

-- `for (;;)` of `read_varint`, where `v` is a 64-bit word; a round for each unit of fuel.
unfoldable pub varint_loop : ℕ → Bytes → ℕ → ℕ → ℕ → Result (ℕ × ℕ)
varint_loop zero buf pos v shift = out_of_fuel
varint_loop (suc fuel) buf pos v shift =
    if leb (length buf) pos
    then raised (Exn.value_error "truncated varint")
    else (index buf pos >>= λ b.
        let v' = bit_or v (bit_and b 0x7f * 2 ^ shift % 2 ^ 64) in
        let rest = varint_loop fuel buf (pos + 1) v' (shift + 7) in
        if bit_and b 0x80 == 0
        then ok (v', pos + 1)
        else if leb 64 (shift + 7)
        then raised (Exn.value_error "varint too large")
        else rest)

-- Ten rounds are enough, as in Doc.Varint.
unfoldable pub varint : Bytes → ℕ → Result (ℕ × ℕ)
unfolding varint_loop
varint buf pos = varint_loop 10 buf pos 0 0

module _ (unspecified : Unspecified) where
  -- The `n` bytes at `pos`, which are to end by `end`, and the position behind them.
  unfoldable pub taken : String → Bytes → ℕ → ℕ → ℕ → Result (Bytes × ℕ)
  taken what buf pos n end =
      if leb (2 ^ 63) (pos + n)
      then unspecified buf pos n
      else if ltb end (pos + n)
      then raised (Exn.value_error what)
      else ok (slice buf pos (pos + n), pos + n)

  -- The branches for a string and for bytes.
  unfoldable pub sized : String → (Bytes → Result Value) → Bytes → ℕ → Result (Value × ℕ)
  unfolding taken
  sized what make buf pos0 = do
    (n, pos) ← varint buf pos0
    (b, end) ← taken what buf pos n (length buf)
    v ← make b
    ok (v, end)

  -- The tag and the key of an object entry, and the position of its payload.
  unfoldable pub entry_key : Bytes → ℕ → ℕ → Result (ℕ × Str × ℕ)
  unfolding taken
  entry_key buf pos end = do
    entry_tag ← index buf pos
    (klen, start) ← varint buf (pos + 1)
    (b, behind) ← taken "truncated object key" buf start klen end
    key ← utf8_decode b
    ok (entry_tag, key, behind)

  -- Each call takes a unit of fuel, nested or in a loop. A container's position is where its loop ended.
  unfoldable mutual
    pub payload : ℕ → Bytes → ℕ → ℕ → Result (Value × ℕ)
    payload zero buf pos tag = out_of_fuel
    payload (suc fuel) buf pos tag =
        let array = do
          (start, end) ← read_header "truncated array length" "truncated array body" buf pos
          (items, behind) ← array_items fuel buf start end no_items
          ok (sequence list_class items, behind)
        in let object = do
          (start, end) ← read_header "truncated object length" "truncated object body" buf pos
          (fields, behind) ← object_fields fuel buf start end no_fields
          ok (dict fields, behind)
          in if tag == tag_null
            then ok (null, pos)
            else if tag == tag_false
            then ok (bool false, pos)
            else if tag == tag_true
            then ok (bool true, pos)
            else if tag == tag_i64
            then read_word "truncated i64" (λ n. int (of_word n)) buf pos
            else if tag == tag_f64
            then read_word "truncated f64" float buf pos
            else if tag == tag_string
            then sized "truncated string" make_str buf pos
            else if tag == tag_bytes
            then sized "truncated bytes" make_bytes buf pos
            else if tag == tag_array
            then array
            else if tag == tag_object
            then object
            else raised (Exn.value_error "unknown tag")

    pub value : ℕ → Bytes → ℕ → Result (Value × ℕ)
    value zero buf pos = out_of_fuel
    value (suc fuel) buf pos =
        let here = (index buf pos >>= λ tag. payload fuel buf (pos + 1) tag) in
        if leb (length buf) pos then raised (Exn.value_error "truncated value") else here

    -- `while (r->pos < end)` over the elements of an array, and over the entries of an object.
    pub array_items : ℕ → Bytes → ℕ → ℕ → Items → Result (Items × ℕ)
    array_items zero buf pos end items = out_of_fuel
    array_items (suc fuel) buf pos end items =
        let round = do
          (v, pos') ← value fuel buf pos
          array_items fuel buf pos' end (append_item items v)
        in if ltb pos end then round else ok (items, pos)

    pub object_fields : ℕ → Bytes → ℕ → ℕ → Fields → Result (Fields × ℕ)
    object_fields zero buf pos end out = out_of_fuel
    object_fields (suc fuel) buf pos end out =
        let round = do
          (entry_tag, key, start) ← entry_key buf pos end
          (v, pos') ← payload fuel buf start entry_tag
          object_fields fuel buf pos' end (dict_set out (str_key key) v)
        in if ltb pos end then round else ok (out, pos)

  -- `py_decode`, which has no test of the top-level value's class.
  unfoldable pub py_decode : Bytes → Result Value
  unfolding payload
  py_decode bs =
      if ltb (length bs) 1
      then raised (Exn.value_error "truncated document")
      else (value (2 * length bs + 2) bs 0 >>= λ (v, _). ok v)
