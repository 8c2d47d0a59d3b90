-- ===== src/Native/Decode/Tests.antt =====
-- Documents and other bytes that the extension bindings/python/pyx/_native.c decodes.
use pyx.Base.{◌≡◌, refl, [], ◌∷◌, none}
use pyx.Base.Bytes.{Bytes, le_bytes}
use pyx.Base.Int.{pos, to_word}
use pyx.Result.{Exn, ok, raised}
use pyx.Doc.Utf8.{utf8_encode, utf8_decode, encode_char}
use pyx.Doc.Varint.{write_varint, read_varint}
use pyx.Doc.Value.{
  Value, str_key, null, int, str, sequence, tuple_class, dict, no_items, item, no_fields, field,
  plain,
}
use pyx.Doc.Encode.{
  write_object_entry, write_array_element, value_tag, write_body, to_bytes4, write_sized, encode,
}
use pyx.Doc.Decode.{decode, read_sized, make_str}
use pyx.Native.Decode.{Unspecified, varint, sized, py_decode}
use pyx.Native.Decode.Agree.{py_decode-encode}

abbrev nothing_read : Unspecified
nothing_read buf start n = ok ([], start)

-- {"a": (1,)}
abbrev doc : Value
doc =
    dict
      (field (str_key (b'a' ∷ [])) (sequence tuple_class (item (int (pos 1)) no_items)) no_fields)

abbrev doc_bytes : Bytes
doc_bytes =
    8 ∷ 16 ∷ 0 ∷ 0 ∷ 0 ∷ 7 ∷ 1 ∷ b'a' ∷ 9 ∷ 0 ∷ 0 ∷ 0 ∷ 3 ∷ 1 ∷ 0 ∷ 0 ∷ 0 ∷ 0 ∷ 0 ∷ 0 ∷ 0 ∷ []

encode-doc : encode none doc ≡ ok doc_bytes
unfolding encode write_object_entry write_array_element utf8_encode encode_char value_tag write_body
    to_bytes4 write_sized write_varint le_bytes to_word
encode-doc = refl

py_decode-encode_example :
    (py_decode nothing_read doc_bytes ≡ ok (plain doc))
    × (py_decode nothing_read doc_bytes ≡ decode none doc_bytes)
py_decode-encode_example = py_decode-encode nothing_read doc doc_bytes (tt, (tt, tt), tt) encode-doc

-- None at the top, which the decoder in Python refuses.
null_decoded : py_decode nothing_read (0 ∷ []) ≡ ok null
unfolding py_decode
null_decoded = refl

null_refused : decode none (0 ∷ []) ≡ raised (Exn.value_error "top-level must be object")
unfolding decode
null_refused = refl

-- The length 2 ^ 63, with nothing behind it.
abbrev huge : Bytes
huge = 128 ∷ 128 ∷ 128 ∷ 128 ∷ 128 ∷ 128 ∷ 128 ∷ 128 ∷ 128 ∷ 1 ∷ []

huge_passes : sized nothing_read "truncated string" make_str huge 0 ≡ ok (str [], 10)
unfolding sized varint utf8_decode
huge_passes = refl

huge_refused :
    read_sized "truncated string" make_str huge 0 ≡ raised (Exn.value_error "truncated string")
unfolding read_sized read_varint
huge_refused = refl
