-- ===== src/Doc/Strict.antt =====
-- The documents of the format, described by a decoder: what bindings/python/pyx/_doc.py and
-- bindings/python/pyx/_native.c both read, each body to its declared end.
pub mod Follows
pub mod Python
use Prim.Native.String.{String}
use pyx.Base.{
  ℕ, zero, suc, ◌+◌, ◌*◌, true, false, Option, none, some, ltb, leb, ◌==◌, if◌then◌else◌, length,
}
use pyx.Base.Bytes.{Bytes, le_value}
use pyx.Base.Int.{of_word}
use pyx.Base.Reading.{slice}
use pyx.Result.{Result, Exn, ok, raised, out_of_fuel, ◌>>=◌}
use pyx.Doc.Utf8.{Str, utf8_decode}
use pyx.Doc.Varint.{index, read_varint}
use pyx.Doc.Value.{
  str_key, Value, Items, Fields, null, bool, int, float, str, bytes, bytes_class, sequence,
  list_class, dict, no_items, no_fields, append_item, dict_set,
}
use pyx.Doc.Encode.{
  tag_null, tag_false, tag_true, tag_i64, tag_f64, tag_string, tag_bytes, tag_array, tag_object,
}
use pyx.Doc.Decode.{
  read_word, read_sized, read_header, read_entry_key, make_str, make_bytes, require_dict,
}

abbrev pub overrun : Exn
overrun = Exn.value_error "overrun"

-- As the decoder, but a loop that ends behind the end of its body is refused.
unfoldable mutual
  pub strict_payload : ℕ → Bytes → ℕ → ℕ → Result (Value × ℕ)
  strict_payload zero buf pos tag = out_of_fuel
  strict_payload (suc fuel) buf pos tag =
      let array = do
        (start, end) ← read_header "truncated array length" "truncated array body" buf pos
        items ← strict_items fuel buf start end no_items
        ok (sequence list_class items, end)
      in let object = do
        (start, end) ← read_header "truncated object length" "truncated object body" buf pos
        fields ← strict_fields fuel buf start end no_fields
        ok (dict fields, end)
        in if tag == tag_null
          then ok (null, pos)
          else if tag == tag_false
          then ok (bool false, pos)
          else if tag == tag_true
          then ok (bool true, pos)
          else if tag == tag_i64
          then read_word "truncated i64" (λ n. int (of_word n)) buf pos
          else if tag == tag_f64
          then read_word "truncated f64" float buf pos
          else if tag == tag_string
          then read_sized "truncated string" make_str buf pos
          else if tag == tag_bytes
          then read_sized "truncated bytes" make_bytes buf pos
          else if tag == tag_array
          then array
          else if tag == tag_object
          then object
          else raised (Exn.value_error "unknown tag")

  pub strict_value : ℕ → Bytes → ℕ → Result (Value × ℕ)
  strict_value zero buf pos = out_of_fuel
  strict_value (suc fuel) buf pos =
      let payload = (index buf pos >>= λ tag. strict_payload fuel buf (pos + 1) tag) in
      if leb (length buf) pos then raised (Exn.value_error "truncated") else payload

  -- `while pos < end` over the elements of an array, and over the entries of an object.
  pub strict_items : ℕ → Bytes → ℕ → ℕ → Items → Result Items
  strict_items zero buf pos end items = out_of_fuel
  strict_items (suc fuel) buf pos end items =
      let round = do
        (v, pos') ← strict_value fuel buf pos
        strict_items fuel buf pos' end (append_item items v)
      in let ended = if pos == end then ok items else raised overrun in
        if ltb pos end then round else ended

  pub strict_fields : ℕ → Bytes → ℕ → ℕ → Fields → Result Fields
  strict_fields zero buf pos end out = out_of_fuel
  strict_fields (suc fuel) buf pos end out =
      let round = do
        (entry_tag, key, start) ← read_entry_key buf pos end
        (value, pos') ← strict_payload fuel buf start entry_tag
        strict_fields fuel buf pos' end (dict_set out (str_key key) value)
      in let ended = if pos == end then ok out else raised overrun in
        if ltb pos end then round else ended

-- A document is an object.
unfoldable pub strict_decode : Bytes → Result Value
unfolding strict_payload
strict_decode bs =
    if ltb (length bs) 1
    then raised (Exn.value_error "truncated document")
    else (index bs 0 >>= λ tag.
        if tag == tag_object
        then (strict_value (2 * length bs + 2) bs 0 >>= λ (val, _). require_dict val)
        else raised (Exn.value_error "top-level must be object"))
