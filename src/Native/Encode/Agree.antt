-- ===== src/Native/Encode/Agree.antt =====
-- The encoder of bindings/python/pyx/_native.c against the one of bindings/python/pyx/_doc.py.
use Prim.Native.Nat.{◌+◌, ◌-◌}
use pyx.Base.{
  ℕ, ◌/◌, ◌%◌, ◌^◌, ◌<◌, ◌≡◌, refl, ap, ◌∙◌, true, false, Bool-cases, inl, inr, [], ◌∷◌, ◌++◌,
  append_assoc, append-nil, length, lengths, take, drop, take-append, drop-append, bit_and, bit_or,
  lt_wf, arith, none,
}
use pyx.Base.Bytes.{Bytes, le_bytes}
use pyx.Base.Bits.{bit_and-low, bit_or-top}
use pyx.Base.Int.{in_i64}
use pyx.Result.{ok, ok-injective, >>=-eq-ok}
use pyx.Doc.Utf8.{utf8_encode}
use pyx.Doc.Varint.{write_varint}
use pyx.Doc.Varint.Write.{Leb128, last, more, Writes, write_varint-Leb128}
use pyx.Doc.Value.{
  str_key, other_key, Value, Items, Fields, null, bool, int, float, str, bytes, memoryview_class,
  bytes_class, bytearray_class, sequence, dict, other, no_items, item, no_fields, field,
}
use pyx.Doc.Encode.{
  value_tag, write_body, write_sized, write_array_element, write_object_entry, write_value_payload,
  encode_array_body, encode_object_body, encode,
}
use pyx.Doc.RoundTrip.Payload.{write_body-eq-ok}
use pyx.Native.Encode.{
  enc_varint_loop, enc_varint, shrinks, enc_tag, gap, put_length, enc_payload_for_tag, enc_items,
  enc_fields, enc_value, py_encode,
}
use mathlib.Core.Logic.{dif_pos, dif_neg}
use mathlib.Core.WellFounded.{Acc}
use native.Mathlib.Decide.{dec_lt}
use native.Mathlib.Bridge.{le_prop}

enc_group : (n : ℕ) → bit_or (bit_and n 0x7f) 0x80 ≡ n % 128 + 128
enc_group n = rw bit_and-low (bit_or-top (n % 128) (omega arith))

enc_varint_loop-Writes : (n : ℕ) (w : Acc ◌<◌ n) (e : Bytes) → Writes n e (enc_varint_loop e n w)
unfolding enc_varint_loop
enc_varint_loop-Writes n (Acc.intro _ below) e = elim (dec_lt 127 n) [
  | yes h ↦
      let group : Bytes = bit_or (bit_and n 0x7f) 0x80 ∷ [] in
      let (bs, split, l) =
        enc_varint_loop-Writes (n / 128) (below (n / 128) (shrinks n h)) (e ++ group) in
      rw (dif_pos _ le_prop h)
        ((n % 128 + 128) ∷ bs, split ∙ rw (append_assoc, enc_group), more n bs (omega arith) l)
  | no h ↦ rw (dif_neg _ h) (n ∷ [], refl, last n (omega arith))
]

pub enc_varint-Leb128 : (e : Bytes) (n : ℕ) → Writes n e (enc_varint e n)
unfolding enc_varint
enc_varint-Leb128 e n = enc_varint_loop-Writes n (lt_wf.apply n) e

-- A number has one encoding.
pub Leb128-unique : {n : ℕ} {bs bs' : Bytes} → Leb128 n bs → Leb128 n bs' → bs ≡ bs'
Leb128-unique (last n h) (last n' h') = refl
Leb128-unique (last n h) (more n' bs' h' l') = absurd (omega arith)
Leb128-unique (more n bs h l) (last n' h') = absurd (omega arith)
Leb128-unique (more n bs h l) (more n' bs' h' l') =
    ap (λ (t : Bytes). (n % 128 + 128) ∷ t) (Leb128-unique l l')

enc_varint-append :
    (pre buf : Bytes) (n : ℕ) → enc_varint (pre ++ buf) n ≡ pre ++ write_varint buf n
enc_varint-append pre buf n =
    let (bs, split, l) = enc_varint-Leb128 (pre ++ buf) n in
    let (bs', split', l') = write_varint-Leb128 buf n in
    rw (split, split', Leb128-unique l l', append_assoc) refl

enc_sized : (pre buf b : Bytes) → enc_varint (pre ++ buf) (length b) ++ b ≡ pre ++ write_sized buf b
unfolding write_sized
enc_sized pre buf b = rw (enc_varint-append pre buf (length b), append_assoc) refl

-- No memoryview is anywhere inside.
abbrev mutual
  pub NoView : Value → Type 0
  NoView (bytes memoryview_class b) = ⊥
  NoView (sequence c xs) = ItemsNoView xs
  NoView (dict fs) = FieldsNoView fs
  NoView _ = Unit

  pub ItemsNoView : Items → Type 0
  ItemsNoView no_items = Unit
  ItemsNoView (item v xs) = NoView v × ItemsNoView xs

  pub FieldsNoView : Fields → Type 0
  FieldsNoView no_fields = Unit
  FieldsNoView (field k v fs) = NoView v × FieldsNoView fs

enc_tag-value_tag : (v : Value) → NoView v → enc_tag v ≡ value_tag v
unfolding enc_tag value_tag
enc_tag-value_tag (bool true) h = refl
enc_tag-value_tag (bool false) h = refl
enc_tag-value_tag (bytes bytes_class b) h = refl
enc_tag-value_tag (bytes bytearray_class b) h = refl
enc_tag-value_tag (bytes memoryview_class b) h = absurd h
enc_tag-value_tag null h = refl
enc_tag-value_tag _ h = refl

-- The length of a body is put where the gap was left for it.
put_length-body :
    (pre body : Bytes)
    → length body < 2 ^ 32
    → put_length (length pre) ((pre ++ gap) ++ body) ≡ pre ++ (le_bytes 4 (length body) ++ body)
put_length-body pre body small =
    let whole : Bytes = (pre ++ gap) ++ body in
    let start : take (length pre) whole ≡ pre = rw append_assoc (take-append pre (gap ++ body)) in
    let behind : length pre + 4 ≡ length (pre ++ gap) = omega lengths in
    let rest : drop (length pre + 4) whole ≡ body = rw behind (drop-append (pre ++ gap) body) in
    let size : (length whole - (length pre + 4)) % 2 ^ 32 ≡ length body = omega (lengths, small) in
    rw (start, rest, size) refl

-- Both encoders have returned, with the same bytes behind their own ones.
container :
    (pre buf body out : Bytes)
    → write_body buf body ≡ ok out
    → ok (put_length (length (pre ++ buf)) (((pre ++ buf) ++ gap) ++ body)) ≡ ok (pre ++ out)
container pre buf body out e =
    let (small, written) = write_body-eq-ok buf body out e in
    ap ok (
      put_length-body (pre ++ buf) body small
      ∙ append_assoc pre buf _
      ∙ ap (λ (b : Bytes). pre ++ b) (ok-injective written))

mutual
  unfolding enc_payload_for_tag write_value_payload write_array_element write_object_entry

  pub enc_payload-agrees :
      (v : Value) (pre buf out : Bytes)
      → NoView v
      → write_value_payload v buf ≡ ok out
      → enc_payload_for_tag v (pre ++ buf) ≡ ok (pre ++ out)
  enc_payload-agrees null pre buf out h e = ap (λ (b : Bytes). ok (pre ++ b)) (ok-injective e)
  enc_payload-agrees (bool b) pre buf out h e = ap (λ (b : Bytes). ok (pre ++ b)) (ok-injective e)
  enc_payload-agrees (int z) pre buf out h e = elim (Bool-cases (in_i64 z)) [
    | inr big ↦ absurd (let never = rw big at e in cc)
    | inl fits ↦
        rw (fits, append_assoc) (ap (λ (b : Bytes). ok (pre ++ b)) (ok-injective (rw fits at e)))
  ]
  enc_payload-agrees (float n) pre buf out h e =
      rw append_assoc (ap (λ (b : Bytes). ok (pre ++ b)) (ok-injective e))
  enc_payload-agrees (str s) pre buf out h e =
      let (sb, encoded, e') = >>=-eq-ok (utf8_encode s) _ e in
      rw (encoded, enc_sized pre buf sb) (ap (λ (b : Bytes). ok (pre ++ b)) (ok-injective e'))
  enc_payload-agrees (bytes c b) pre buf out h e =
      rw (enc_sized pre buf b) (ap (λ (b : Bytes). ok (pre ++ b)) (ok-injective e))
  enc_payload-agrees (sequence c xs) pre buf out h e =
      let (body, inside, e') = >>=-eq-ok (encode_array_body xs []) _ e in
      rw (rw append-nil at (enc_items-agrees xs ((pre ++ buf) ++ gap) [] body h inside))
        (container pre buf body out e')
  enc_payload-agrees (dict fs) pre buf out h e =
      let (body, inside, e') = >>=-eq-ok (encode_object_body fs []) _ e in
      rw (rw append-nil at (enc_fields-agrees fs ((pre ++ buf) ++ gap) [] body h inside))
        (container pre buf body out e')
  enc_payload-agrees other pre buf out h e = absurd (cc)

  enc_items-agrees :
      (xs : Items) (pre buf out : Bytes)
      → ItemsNoView xs
      → encode_array_body xs buf ≡ ok out
      → enc_items xs (pre ++ buf) ≡ ok (pre ++ out)
  enc_items-agrees no_items pre buf out h e = ap (λ (b : Bytes). ok (pre ++ b)) (ok-injective e)
  enc_items-agrees (item v xs) pre buf out h e =
      let (mid, element, e') =
        >>=-eq-ok (write_array_element v (λ b. write_value_payload v b) buf) _ e in
      let (tag, tagged, e'') = >>=-eq-ok (value_tag v) _ element in
      let first = enc_payload-agrees v pre (buf ++ (tag ∷ [])) mid h.0 e'' in
      rw (enc_tag-value_tag v h.0, tagged, append_assoc, first)
        (enc_items-agrees xs pre mid out h.1 e')

  enc_fields-agrees :
      (fs : Fields) (pre buf out : Bytes)
      → FieldsNoView fs
      → encode_object_body fs buf ≡ ok out
      → enc_fields fs (pre ++ buf) ≡ ok (pre ++ out)
  enc_fields-agrees no_fields pre buf out h e = ap (λ (b : Bytes). ok (pre ++ b)) (ok-injective e)
  enc_fields-agrees (field other_key v fs) pre buf out h e = absurd (cc)
  enc_fields-agrees (field (str_key s) v fs) pre buf out h e =
      let (mid, entry, e') =
        >>=-eq-ok (write_object_entry (str_key s) v (λ b. write_value_payload v b) buf) _ e in
      let (kb, encoded, e1) = >>=-eq-ok (utf8_encode s) _ entry in
      let (tag, tagged, e2) = >>=-eq-ok (value_tag v) _ e1 in
      let key = enc_sized pre (buf ++ (tag ∷ [])) kb in
      let first = enc_payload-agrees v pre (write_sized (buf ++ (tag ∷ [])) kb) mid h.0 e2 in
      rw (enc_tag-value_tag v h.0, tagged, encoded, append_assoc, key, first)
        (enc_fields-agrees fs pre mid out h.1 e')

-- A document without a memoryview that the encoder in Python returns bytes for is encoded to the same bytes by
-- the extension.
pub py_encode-encode :
    (doc : Value) (bs : Bytes) → NoView doc → encode none doc ≡ ok bs → py_encode doc ≡ ok bs
unfolding py_encode encode enc_value enc_tag enc_payload_for_tag write_value_payload
py_encode-encode (dict fs) bs h e = enc_payload-agrees (dict fs) [] (8 ∷ []) bs h e
py_encode-encode null bs h e = absurd (cc)
py_encode-encode _ bs h e = absurd (cc)
