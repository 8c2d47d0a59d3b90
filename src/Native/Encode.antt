-- ===== src/Native/Encode.antt =====
-- The encoder of bindings/python/pyx/_native.c: `enc_value` and `enc_payload_for_tag` with one growing buffer, where the
-- length of a container is written behind its body. The buffer is its content; an allocation that fails is left out.
pub mod Agree
pub mod Many
mod Tests
use Prim.Native.String.{String}
use pyx.Base.{
  ℕ, zero, suc, ◌+◌, ◌/◌, ◌%◌, ◌-◌, ◌^◌, ◌<◌, bit_and, bit_or, List, [], ◌∷◌, ◌++◌, true, false,
  length, take, drop, if◌then◌else◌, lt_wf, arith,
}
use pyx.Base.Bytes.{Bytes, le_bytes}
use pyx.Base.Int.{in_i64, to_word}
use pyx.Result.{Result, Exn, ok, raised, ◌>>=◌}
use pyx.Doc.Utf8.{utf8_encode}
use pyx.Doc.Value.{
  Key, str_key, other_key, Value, Items, Fields, null, bool, int, float, str, bytes,
  memoryview_class, bytes_class, bytearray_class, sequence, dict, other, no_items, item, no_fields,
  field,
}
use pyx.Doc.Encode.{
  tag_null, tag_false, tag_true, tag_i64, tag_f64, tag_string, tag_bytes, tag_array, tag_object,
}
use mathlib.Core.Logic.{dite}
use mathlib.Core.WellFounded.{Acc}
use native.Mathlib.Decide.{dec_lt}

pub shrinks : (v : ℕ) → 127 < v → v / 128 < v
shrinks v h = omega arith

-- `while (v >= 0x80)`
enc_varint_loop : Bytes → (v : ℕ) → Acc ◌<◌ v → Bytes
enc_varint_loop e v (Acc.intro _ below) =
    dite (dec_lt 127 v)
      (λ h.
        enc_varint_loop (e ++ (bit_or (bit_and v 0x7f) 0x80 ∷ [])) (v / 128)
          (below (v / 128) (shrinks v h)))
      (λ _. e ++ (v ∷ []))

unfoldable pub enc_varint : Bytes → ℕ → Bytes
unfolding enc_varint_loop lt_wf dec_lt
enc_varint e v = enc_varint_loop e v (lt_wf.apply v)

-- The tests of a value's class; a memoryview is none of them.
unfoldable pub enc_tag : Value → Result ℕ
enc_tag null = ok tag_null
enc_tag (bool false) = ok tag_false
enc_tag (bool true) = ok tag_true
enc_tag (int z) = ok tag_i64
enc_tag (float f) = ok tag_f64
enc_tag (str s) = ok tag_string
enc_tag (bytes bytes_class b) = ok tag_bytes
enc_tag (bytes bytearray_class b) = ok tag_bytes
enc_tag (bytes memoryview_class b) = raised (Exn.type_error "unsupported value type")
enc_tag (sequence c xs) = ok tag_array
enc_tag (dict fs) = ok tag_object
enc_tag other = raised (Exn.type_error "unsupported value type")

-- The four bytes that are left for a length, whatever they hold, and the length that is put there, modulo 2 ^ 32.
abbrev pub gap : Bytes
gap = 0 ∷ 0 ∷ 0 ∷ 0 ∷ []

abbrev pub put_length : ℕ → Bytes → Bytes
put_length len_pos e =
    take len_pos e ++ (le_bytes 4 ((length e - (len_pos + 4)) % 2 ^ 32) ++ drop (len_pos + 4) e)

unfoldable mutual
  pub enc_payload_for_tag : Value → Bytes → Result Bytes
  enc_payload_for_tag null e = ok e
  enc_payload_for_tag (bool b) e = ok e
  enc_payload_for_tag (int z) e =
      if in_i64 z
      then ok (e ++ le_bytes 8 (to_word z))
      else raised (Exn.value_error "integer out of i64 range")
  enc_payload_for_tag (float f) e = ok (e ++ le_bytes 8 f)
  enc_payload_for_tag (str s) e = utf8_encode s >>= λ b. ok (enc_varint e (length b) ++ b)
  enc_payload_for_tag (bytes c b) e = ok (enc_varint e (length b) ++ b)
  enc_payload_for_tag (sequence c xs) e =
      enc_items xs (e ++ gap) >>= λ e'. ok (put_length (length e) e')
  enc_payload_for_tag (dict fs) e = enc_fields fs (e ++ gap) >>= λ e'. ok (put_length (length e) e')
  enc_payload_for_tag other e = raised (Exn.value_error "internal: unknown tag")

  -- `enc_value` at each element.
  pub enc_items : Items → Bytes → Result Bytes
  enc_items no_items e = ok e
  enc_items (item v xs) e =
      enc_tag v >>= λ tag. (enc_payload_for_tag v (e ++ (tag ∷ [])) >>= λ e'. enc_items xs e')

  pub enc_fields : Fields → Bytes → Result Bytes
  enc_fields no_fields e = ok e
  enc_fields (field other_key v fs) e = raised (Exn.type_error "object keys must be strings")
  enc_fields (field (str_key s) v fs) e = enc_tag v >>= λ tag.
      (utf8_encode s >>= λ kb.
      (enc_payload_for_tag v (enc_varint (e ++ (tag ∷ [])) (length kb) ++ kb) >>= λ e'.
      enc_fields fs e'))

unfoldable pub enc_value : Value → Bytes → Result Bytes
unfolding enc_payload_for_tag
enc_value v e = enc_tag v >>= λ tag. enc_payload_for_tag v (e ++ (tag ∷ []))

unfoldable pub py_encode : Value → Result Bytes
py_encode (dict fs) = enc_value (dict fs) []
py_encode _ = raised (Exn.type_error "top-level document must be a dict")

-- The loop of `py_encode_many`: the buffer, and the lengths that it has set.
unfoldable pub encode_docs : List Value → Bytes → List ℕ → Result (Bytes × List ℕ)
encode_docs [] e lens = ok (e, lens)
encode_docs (dict fs ∷ docs) e lens =
    enc_value (dict fs) e >>= λ e'. encode_docs docs e' (lens ++ ((length e' - length e) ∷ []))
encode_docs (doc ∷ docs) e lens = raised (Exn.type_error "every doc must be a dict")

unfoldable pub py_encode_many : List Value → Result (Bytes × List ℕ)
unfolding encode_docs
py_encode_many docs = encode_docs docs [] []
