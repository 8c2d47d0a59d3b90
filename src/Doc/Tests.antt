-- ===== src/Doc/Tests.antt =====
-- Concrete runs of the codec of bindings/python/pyx/_doc.py.
use pyx.Base.{◌≡◌, refl, [], ◌∷◌, none, true, arith}
use pyx.Base.Bytes.{Bytes, le_bytes, le_value}
use pyx.Base.Int.{negsuc, to_word}
use pyx.Result.{ok, Ensures, IsValueError}
use pyx.Doc.Utf8.{utf8_encode, utf8_decode, encode_char, decode_char}
use pyx.Doc.Varint.{write_varint, read_varint}
use pyx.Doc.Value.{
  Value, str_key, null, bool, int, str, bytes, sequence, dict, no_items, item, no_fields, field,
  bytearray_class, list_class, tuple_class, plain, dict_set, append_item, str_eq,
}
use pyx.Doc.Value.Dict.{IsPython}
use pyx.Doc.Encode.{
  value_tag, to_bytes4, write_body, write_sized, write_array_element, write_object_entry, encode,
}
use pyx.Doc.Decode.{unpack_from, read_sized, read_header, read_entry_key, decode}
use pyx.Doc.Wire.{IsWire}
use pyx.Doc.Wire.Decoded.{decode-IsWire}
use pyx.Doc.Positions.{decode-Ensures, IsDict}
use pyx.Doc.RoundTrip.Document.{decode-encode, encode_bytes}

-- {"é": (None, -7, [True]), "b": bytearray(b"\x00")}
abbrev sample : Value
sample = dict (
    field (str_key (0xe9 ∷ []))
      (sequence tuple_class (
        item null (
          item (int (negsuc 6)) (item (sequence list_class (item (bool true) no_items)) no_items))))
      (field (str_key (b'b' ∷ [])) (bytes bytearray_class (0 ∷ [])) no_fields))

abbrev sample_bytes : Bytes
sample_bytes =
    8 ∷ 29 ∷ 0 ∷ 0 ∷ 0 ∷ 7 ∷ 2 ∷ 0xc3 ∷ 0xa9 ∷ 16 ∷ 0 ∷ 0 ∷ 0 ∷ 0 ∷ 3 ∷ 0xf9 ∷ 0xff ∷ 0xff ∷ 0xff
    ∷ 0xff ∷ 0xff ∷ 0xff ∷ 0xff ∷ 7 ∷ 1 ∷ 0 ∷ 0 ∷ 0 ∷ 2 ∷ 6 ∷ 1 ∷ b'b' ∷ 1 ∷ 0 ∷ []

encode-sample : encode none sample ≡ ok sample_bytes
unfolding encode write_body to_bytes4 write_sized write_array_element write_object_entry value_tag
    utf8_encode encode_char write_varint le_bytes to_word
encode-sample = refl

sample-IsPython : IsPython sample
unfolding str_eq
sample-IsPython = ((refl, tt), (tt, (tt, ((tt, tt), tt))), (tt, (omega arith, tt), tt))

decode-encode_example : decode none sample_bytes ≡ ok (plain sample)
decode-encode_example = decode-encode sample sample_bytes sample-IsPython encode-sample

decode-IsWire_example : IsWire (plain sample) × (plain (plain sample) ≡ plain sample)
decode-IsWire_example =
    decode-IsWire sample_bytes (encode_bytes sample sample_bytes sample-IsPython encode-sample).0
      (plain sample) (decode-encode sample sample_bytes sample-IsPython encode-sample)

decode-Ensures_example : Ensures IsDict IsValueError (decode none (8 ∷ 1 ∷ 0 ∷ 0 ∷ 0 ∷ 7 ∷ []))
decode-Ensures_example = decode-Ensures (8 ∷ 1 ∷ 0 ∷ 0 ∷ 0 ∷ 7 ∷ [])

euro : utf8_encode (0x20ac ∷ []) ≡ ok (0xe2 ∷ 0x82 ∷ 0xac ∷ [])
unfolding utf8_encode encode_char
euro = refl

-- The array's body is declared two bytes long, a string's tag and its length, and the string's one
-- byte lies behind it. The decoder reads that byte as the string, and again as the next entry's tag.
abbrev overrun : Bytes
overrun = 8 ∷ 12 ∷ 0 ∷ 0 ∷ 0 ∷ 7 ∷ 1 ∷ b'a' ∷ 2 ∷ 0 ∷ 0 ∷ 0 ∷ 5 ∷ 1 ∷ 0 ∷ 1 ∷ b'b' ∷ []

overrun_read_twice :
    decode none overrun
    ≡ ok (
        dict (
          field
            (str_key (b'a' ∷ []))
            (sequence list_class (item (str (0 ∷ [])) no_items))
            (field (str_key (b'b' ∷ [])) null no_fields)))
unfolding decode read_header read_sized read_entry_key unpack_from read_varint utf8_decode
    decode_char le_value dict_set str_eq append_item
overrun_read_twice = refl
