-- ===== src/Doc/Decode.antt =====
-- The decoder of bindings/python/pyx/_doc.py. Every function takes the whole buffer and a position in it.
use Prim.Native.String.{String}
use pyx.Base.{
  ℕ, zero, suc, ◌+◌, ◌*◌, true, false, Option, none, some, ltb, leb, ◌==◌, if◌then◌else◌, length,
}
use pyx.Base.Bytes.{Bytes, le_value}
use pyx.Base.Int.{of_word}
use pyx.Base.Reading.{slice}
use pyx.Result.{Result, Exn, ok, raised, out_of_fuel, ◌>>=◌}
use pyx.Doc.Utf8.{Str, utf8_decode}
use pyx.Doc.Varint.{index, read_varint}
use pyx.Doc.Value.{
  str_key, Value, Items, Fields, null, bool, int, float, str, bytes, bytes_class, sequence,
  list_class, dict, no_items, no_fields, append_item, dict_set,
}
use pyx.Doc.Encode.{
  tag_null, tag_false, tag_true, tag_i64, tag_f64, tag_string, tag_bytes, tag_array, tag_object,
}

-- `Struct(...).unpack_from(buf, pos)` of a little-endian field of `w` bytes; a buffer that ends
-- inside the field is a struct.error.
unfoldable pub unpack_from : ℕ → Bytes → ℕ → Result ℕ
unpack_from w buf pos =
    if leb (pos + w) (length buf)
    then ok (le_value (slice buf pos (pos + w)))
    else raised Exn.struct_error

-- The branches for a field of eight bytes, for a string or bytes, and for the head of a container.
unfoldable pub read_word : String → (ℕ → Value) → Bytes → ℕ → Result (Value × ℕ)
unfolding unpack_from
read_word what make buf pos =
    if ltb (length buf) (pos + 8)
    then raised (Exn.value_error what)
    else (unpack_from 8 buf pos >>= λ n. ok (make n, pos + 8))

unfoldable pub read_sized : String → (Bytes → Result Value) → Bytes → ℕ → Result (Value × ℕ)
read_sized what make buf pos0 = read_varint buf pos0 >>= λ (n, pos).
    if ltb (length buf) (pos + n)
    then raised (Exn.value_error what)
    else (make (slice buf pos (pos + n)) >>= λ v. ok (v, pos + n))

-- What becomes of the bytes of a string, and of a bytes value.
abbrev pub make_str : Bytes → Result Value
make_str b = utf8_decode b >>= λ s. ok (str s)

abbrev pub make_bytes : Bytes → Result Value
make_bytes b = ok (bytes bytes_class b)

-- The position of the body and its end. The object's branch reads the length by `int.from_bytes` of
-- a slice, which behind the same guard is the same number.
unfoldable pub read_header : String → String → Bytes → ℕ → Result (ℕ × ℕ)
unfolding unpack_from
read_header no_length no_body buf pos =
    if ltb (length buf) (pos + 4)
    then raised (Exn.value_error no_length)
    else (unpack_from 4 buf pos >>= λ body_len.
        if ltb (length buf) (pos + 4 + body_len)
        then raised (Exn.value_error no_body)
        else ok (pos + 4, pos + 4 + body_len))

-- The tag and the key of an object entry, and the position of its payload.
unfoldable pub read_entry_key : Bytes → ℕ → ℕ → Result (ℕ × Str × ℕ)
read_entry_key buf pos end = do
  entry_tag ← index buf pos
  (klen, start) ← read_varint buf (pos + 1)
  if ltb end (start + klen)
      then raised (Exn.value_error "truncated object key")
      else (utf8_decode (slice buf start (start + klen)) >>= λ key.
          ok (entry_tag, key, start + klen))

-- Each call takes a unit of fuel, nested or in a loop.
unfoldable mutual
  pub read_payload : ℕ → Bytes → ℕ → ℕ → Result (Value × ℕ)
  read_payload zero buf pos tag = out_of_fuel
  read_payload (suc fuel) buf pos tag =
      let array = do
        (start, end) ← read_header "truncated array length" "truncated array body" buf pos
        items ← read_items fuel buf start end no_items
        ok (sequence list_class items, end)
      in let object = do
        (start, end) ← read_header "truncated object length" "truncated object body" buf pos
        fields ← read_fields fuel buf start end no_fields
        ok (dict fields, end)
        in if tag == tag_null
          then ok (null, pos)
          else if tag == tag_false
          then ok (bool false, pos)
          else if tag == tag_true
          then ok (bool true, pos)
          else if tag == tag_i64
          then read_word "truncated i64" (λ n. int (of_word n)) buf pos
          else if tag == tag_f64
          then read_word "truncated f64" float buf pos
          else if tag == tag_string
          then read_sized "truncated string" make_str buf pos
          else if tag == tag_bytes
          then read_sized "truncated bytes" make_bytes buf pos
          else if tag == tag_array
          then array
          else if tag == tag_object
          then object
          else raised (Exn.value_error "unknown tag")

  pub read_value : ℕ → Bytes → ℕ → Result (Value × ℕ)
  read_value zero buf pos = out_of_fuel
  read_value (suc fuel) buf pos =
      let payload = (index buf pos >>= λ tag. read_payload fuel buf (pos + 1) tag) in
      if leb (length buf) pos then raised (Exn.value_error "truncated") else payload

  -- `while pos < end` over the elements of an array, and over the entries of an object.
  pub read_items : ℕ → Bytes → ℕ → ℕ → Items → Result Items
  read_items zero buf pos end items = out_of_fuel
  read_items (suc fuel) buf pos end items =
      let round = do
        (v, pos') ← read_value fuel buf pos
        read_items fuel buf pos' end (append_item items v)
      in if ltb pos end then round else ok items

  pub read_fields : ℕ → Bytes → ℕ → ℕ → Fields → Result Fields
  read_fields zero buf pos end out = out_of_fuel
  read_fields (suc fuel) buf pos end out =
      let round = do
        (entry_tag, key, start) ← read_entry_key buf pos end
        (value, pos') ← read_payload fuel buf start entry_tag
        read_fields fuel buf pos' end (dict_set out (str_key key) value)
      in if ltb pos end then round else ok out

-- `if not isinstance(val, dict)`
abbrev pub require_dict : Value → Result Value
require_dict (dict fs) = ok (dict fs)
require_dict _ = raised (Exn.value_error "top-level must be object (dict)")

-- Two units of fuel for each byte, and two more, are enough.
unfoldable pub decode_pure_python : Bytes → Result Value
unfolding read_payload
decode_pure_python bs =
    if ltb (length bs) 1
    then raised (Exn.value_error "truncated document")
    else (index bs 0 >>= λ tag.
        if tag == tag_object
        then (read_value (2 * length bs + 2) bs 0 >>= λ (val, _). require_dict val)
        else raised (Exn.value_error "top-level must be object"))

-- `decode`: `native` is the decoder of the C extension, where that was importable.
unfoldable pub decode : Option (Bytes → Result Value) → Bytes → Result Value
unfolding decode_pure_python
decode (some native) bs = native bs
decode none bs = decode_pure_python bs
