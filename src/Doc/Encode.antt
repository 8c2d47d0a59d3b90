-- ===== src/Doc/Encode.antt =====
-- The encoder of bindings/python/pyx/_doc.py. A function that appends to a bytearray takes its content and
-- returns the new content; what it had appended before it raised is dropped with the bytearray.
use pyx.Base.{ℕ, ◌^◌, true, false, [], ◌∷◌, ◌++◌, Option, none, some, ltb, if◌then◌else◌, length}
use pyx.Base.Bytes.{Bytes, le_bytes}
use pyx.Base.Int.{in_i64, to_word}
use pyx.Result.{Result, Exn, ok, raised, ◌>>=◌}
use pyx.Doc.Utf8.{utf8_encode}
use pyx.Doc.Varint.{write_varint}
use pyx.Doc.Value.{
  Key, str_key, other_key, Value, Items, Fields, null, bool, int, float, str, bytes, sequence, dict,
  other, no_items, item, no_fields, field,
}

abbrev pub tag_null : ℕ
tag_null = 0

abbrev pub tag_false : ℕ
tag_false = 1

abbrev pub tag_true : ℕ
tag_true = 2

abbrev pub tag_i64 : ℕ
tag_i64 = 3

abbrev pub tag_f64 : ℕ
tag_f64 = 4

abbrev pub tag_string : ℕ
tag_string = 5

abbrev pub tag_bytes : ℕ
tag_bytes = 6

abbrev pub tag_array : ℕ
tag_array = 7

abbrev pub tag_object : ℕ
tag_object = 8

unfoldable pub value_tag : Value → Result ℕ
value_tag null = ok tag_null
value_tag (bool false) = ok tag_false
value_tag (bool true) = ok tag_true
value_tag (int z) = ok tag_i64
value_tag (float f) = ok tag_f64
value_tag (str s) = ok tag_string
value_tag (bytes c b) = ok tag_bytes
value_tag (sequence c xs) = ok tag_array
value_tag (dict fs) = ok tag_object
value_tag other = raised (Exn.type_error "unsupported value type")

-- `n.to_bytes(4, "little")` raises an OverflowError where n does not fit.
unfoldable pub to_bytes4 : ℕ → Result Bytes
to_bytes4 n = if ltb n (2 ^ 32) then ok (le_bytes 4 n) else raised Exn.overflow_error

-- The length of a body, and the body.
unfoldable pub write_body : Bytes → Bytes → Result Bytes
write_body buf body = to_bytes4 (length body) >>= λ n. ok (buf ++ (n ++ body))

-- A varint length, and the bytes.
unfoldable pub write_sized : Bytes → Bytes → Bytes
write_sized buf b = write_varint buf (length b) ++ b

-- `_write_array_element`: `payload` is `_write_value_payload` at this value.
unfoldable pub write_array_element : Value → (Bytes → Result Bytes) → Bytes → Result Bytes
write_array_element v payload buf = value_tag v >>= λ tag. payload (buf ++ (tag ∷ []))

-- `_write_object_entry`, and the test of the key before it.
unfoldable pub write_object_entry : Key → Value → (Bytes → Result Bytes) → Bytes → Result Bytes
write_object_entry other_key v payload buf = raised (Exn.type_error "object keys must be strings")
write_object_entry (str_key s) v payload buf = do
  kb ← utf8_encode s
  tag ← value_tag v
  payload (write_sized (buf ++ (tag ∷ [])) kb)

-- The tag that `_write_value_payload` is given is always that of the value, so it goes by the value.
unfoldable mutual
  pub write_value_payload : Value → Bytes → Result Bytes
  write_value_payload null buf = ok buf
  write_value_payload (bool b) buf = ok buf
  write_value_payload (int z) buf =
      if in_i64 z
      then ok (buf ++ le_bytes 8 (to_word z))
      else raised (Exn.value_error "integer out of i64 range")
  write_value_payload (float f) buf = ok (buf ++ le_bytes 8 f)
  write_value_payload (str s) buf = utf8_encode s >>= λ sb. ok (write_sized buf sb)
  write_value_payload (bytes c b) buf = ok (write_sized buf b)
  write_value_payload (sequence c xs) buf = encode_array_body xs [] >>= λ body. write_body buf body
  write_value_payload (dict fs) buf = encode_object_body fs [] >>= λ body. write_body buf body
  write_value_payload other buf = raised (Exn.value_error "bad tag")

  -- `out` is what the loop has written so far.
  pub encode_array_body : Items → Bytes → Result Bytes
  encode_array_body no_items out = ok out
  encode_array_body (item v xs) out =
      write_array_element v (λ b. write_value_payload v b) out >>= λ out'. encode_array_body xs out'

  pub encode_object_body : Fields → Bytes → Result Bytes
  encode_object_body no_fields out = ok out
  encode_object_body (field k v fs) out =
      write_object_entry k v (λ b. write_value_payload v b) out >>= λ out'.
      encode_object_body fs out'

-- The pure-Python encoder.
unfoldable pub encode_pure_python : Value → Result Bytes
unfolding write_value_payload
encode_pure_python (dict fs) =
    encode_object_body fs [] >>= λ body. write_body (tag_object ∷ []) body
encode_pure_python _ = raised (Exn.type_error "top-level document must be a dict")

-- `encode`: `native` is the encoder of the C extension, where that was importable.
unfoldable pub encode : Option (Value → Result Bytes) → Value → Result Bytes
unfolding encode_pure_python
encode (some native) doc = native doc
encode none doc = encode_pure_python doc
