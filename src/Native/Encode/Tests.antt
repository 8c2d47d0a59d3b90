-- ===== src/Native/Encode/Tests.antt =====
-- Documents that the extension bindings/python/pyx/_native.c encodes, and one that it refuses.
use pyx.Base.{◌≡◌, refl, [], ◌∷◌, none}
use pyx.Base.Bytes.{Bytes, le_bytes}
use pyx.Base.Int.{pos, to_word}
use pyx.Result.{Exn, ok, raised}
use pyx.Doc.Utf8.{utf8_encode, encode_char}
use pyx.Doc.Varint.{write_varint}
use pyx.Doc.Value.{
  Value, str_key, int, bytes, memoryview_class, sequence, tuple_class, dict, no_items, item,
  no_fields, field,
}
use pyx.Doc.Encode.{
  write_object_entry, write_array_element, value_tag, write_body, to_bytes4, write_sized, encode,
}
use pyx.Native.Encode.{enc_value, enc_tag, enc_payload_for_tag, py_encode, py_encode_many}
use pyx.Native.Encode.Agree.{py_encode-encode}
use pyx.Native.Encode.Many.{py_encode_many-encode_all}
use pyx.Collection.{encode_all, join}

-- {"a": (1,)}
abbrev doc : Value
doc =
    dict
      (field (str_key (b'a' ∷ [])) (sequence tuple_class (item (int (pos 1)) no_items)) no_fields)

abbrev doc_bytes : Bytes
doc_bytes =
    8 ∷ 16 ∷ 0 ∷ 0 ∷ 0 ∷ 7 ∷ 1 ∷ b'a' ∷ 9 ∷ 0 ∷ 0 ∷ 0 ∷ 3 ∷ 1 ∷ 0 ∷ 0 ∷ 0 ∷ 0 ∷ 0 ∷ 0 ∷ 0 ∷ []

encode-doc : encode none doc ≡ ok doc_bytes
unfolding encode write_object_entry write_array_element utf8_encode encode_char value_tag write_body
    to_bytes4 write_sized write_varint le_bytes to_word
encode-doc = refl

py_encode-encode_example : py_encode doc ≡ ok doc_bytes
py_encode-encode_example = py_encode-encode doc doc_bytes ((tt, tt), tt) encode-doc

-- The encoder in Python takes a memoryview as bytes.
abbrev view : Value
view = dict (field (str_key []) (bytes memoryview_class (7 ∷ [])) no_fields)

view_encoded : encode none view ≡ ok (8 ∷ 4 ∷ 0 ∷ 0 ∷ 0 ∷ 6 ∷ 0 ∷ 1 ∷ 7 ∷ [])
unfolding encode write_object_entry utf8_encode encode_char value_tag write_body to_bytes4
    write_sized write_varint le_bytes
view_encoded = refl

view_refused : py_encode view ≡ raised (Exn.type_error "unsupported value type")
unfolding py_encode enc_value enc_tag enc_payload_for_tag
view_refused = refl

encode_all-docs : encode_all (doc ∷ doc ∷ []) ≡ ok (doc_bytes ∷ doc_bytes ∷ [])
unfolding encode_all
encode_all-docs = rw (encode-doc) refl

py_encode_many-encode_all_example :
    py_encode_many (doc ∷ doc ∷ []) ≡ ok (join (doc_bytes ∷ doc_bytes ∷ []), 21 ∷ 21 ∷ [])
py_encode_many-encode_all_example =
    py_encode_many-encode_all (doc ∷ doc ∷ []) (doc_bytes ∷ doc_bytes ∷ [])
      (((tt, tt), tt), (((tt, tt), tt), tt)) encode_all-docs
