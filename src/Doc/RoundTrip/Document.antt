-- ===== src/Doc/RoundTrip/Document.antt =====
-- Whole documents of bindings/python/pyx/_doc.py: what `encode` returns, and what `decode` makes of it.
use pyx.Base.{
  ◌+◌, ◌*◌, ◌^◌, ◌<◌, ◌≡◌, refl, sym, ap, ◌∙◌, [], ◌∷◌, ◌++◌, append-nil, length, lengths, arith,
  All, ltb, le→ltb, false, none,
}
use pyx.Base.Bytes.{Bytes, IsByte, length-le_bytes}
use pyx.Base.Reading.{At, At-start}
use pyx.Result.{ok, ok-injective, >>=-eq-ok}
use pyx.Doc.Utf8.{utf8_encode}
use pyx.Doc.Value.{
  str_key, other_key, Value, Items, Fields, null, bool, int, float, str, bytes, sequence, dict,
  other, no_items, item, no_fields, field, plain,
}
use pyx.Doc.Value.Dict.{IsPython, ItemsArePython, FieldsArePython}
use pyx.Doc.Encode.{
  value_tag, write_sized, write_array_element, write_object_entry, write_value_payload,
  encode_array_body, encode_object_body, encode,
}
use pyx.Doc.Decode.{decode}
use pyx.Doc.Strict.{strict_decode}
use pyx.Doc.Strict.Python.{decode-strict_decode}
use pyx.Doc.RoundTrip.Payload.{
  Written, Reads, PayloadReads, ItemsRead, FieldsRead, null_payload, bool_payload, int_payload,
  float_payload, str_payload, bytes_payload, sequence_payload, dict_payload, write_body-eq-ok,
}
use pyx.Doc.RoundTrip.Loops.{
  read_value-At, no_items_read, no_fields_read, item_written, entry_written,
}

nothing_written :
    {R : Bytes → Type 0} (out out' : Bytes) → R [] → ok out ≡ ok out' → Written out out' R
nothing_written out out' r e = record {
  tail = [];
  splits = sym (ok-injective e) ∙ sym (append-nil out);
  all_bytes = tt;
  reads = λ small. r;
}

mutual
  unfolding write_value_payload value_tag write_array_element write_object_entry plain

  payload-Written :
      (v : Value) (buf out : Bytes)
      → IsPython v
      → write_value_payload v buf ≡ ok out
      → Written buf out (PayloadReads v)
  payload-Written null buf out h e = null_payload buf out e
  payload-Written (bool b) buf out h e = bool_payload b buf out e
  payload-Written (int z) buf out h e = int_payload z buf out e
  payload-Written (float n) buf out h e = float_payload n buf out h e
  payload-Written (str s) buf out h e = str_payload s buf out e
  payload-Written (bytes c b) buf out h e = bytes_payload (bytes c b) b buf out refl refl e h
  payload-Written (sequence c xs) buf out h e =
      let (body, inside, e') = >>=-eq-ok (encode_array_body xs []) _ e in
      sequence_payload (sequence c xs) xs body buf out refl refl (items-Written xs [] body h inside)
        e'
  payload-Written (dict fs) buf out h e =
      let (body, inside, e') = >>=-eq-ok (encode_object_body fs []) _ e in
      dict_payload fs body buf out (fields-Written fs [] body h inside) e'
  payload-Written other buf out h e = absurd (cc)

  items-Written :
      (xs : Items) (out out2 : Bytes)
      → ItemsArePython xs
      → encode_array_body xs out ≡ ok out2
      → Written out out2 (ItemsRead xs)
  items-Written no_items out out2 h e = nothing_written out out2 no_items_read e
  items-Written (item v xs) out out2 h e =
      let (out', element, e') =
        >>=-eq-ok (write_array_element v (λ b. write_value_payload v b) out) _ e in
      let (tag, tagged, e'') = >>=-eq-ok (value_tag v) _ element in
      item_written v xs tag out out' out2 tagged
        (payload-Written v (out ++ (tag ∷ [])) out' h.0 e'') (items-Written xs out' out2 h.1 e')

  fields-Written :
      (fs : Fields) (out out2 : Bytes)
      → FieldsArePython fs
      → encode_object_body fs out ≡ ok out2
      → Written out out2 (FieldsRead fs)
  fields-Written no_fields out out2 h e = nothing_written out out2 no_fields_read e
  fields-Written (field other_key v fs) out out2 h e = absurd (cc)
  fields-Written (field (str_key s) v fs) out out2 h e =
      let (out', entry, e') =
        >>=-eq-ok (write_object_entry (str_key s) v (λ b. write_value_payload v b) out) _ e in
      let (kb, encoded, e1) = >>=-eq-ok (utf8_encode s) _ entry in
      let (tag, tagged, e2) = >>=-eq-ok (value_tag v) _ e1 in
      entry_written s v fs tag kb out out' out2 encoded tagged h.0
        (payload-Written v (write_sized (out ++ (tag ∷ [])) kb) out' h.1 e2)
        (fields-Written fs out' out2 h.2 e')

-- The whole document: its tag, and the payload of the dict.
document_written :
    (fs : Fields) (bs : Bytes)
    → IsPython (dict fs)
    → encode none (dict fs) ≡ ok bs
    → (w : Written (8 ∷ []) bs (PayloadReads (dict fs))) × (length w.tail < 2 ^ 32 + 4)
unfolding encode
document_written fs bs h e =
    let (body, inside, e') = >>=-eq-ok (encode_object_body fs []) _ e in
    let (fits, out) = write_body-eq-ok (8 ∷ []) body bs e' in
    let w = dict_payload fs body (8 ∷ []) bs (fields-Written fs [] body h inside) e' in
    (
      w,
      omega (
        lengths,
        ap length w.splits,
        ap length (ok-injective out),
        length-le_bytes 4 (length body),
      ),
    )

decode_object :
    (fs : Fields) (tail : Bytes)
    → Reads (dict fs) 8 tail
    → strict_decode (8 ∷ tail) ≡ ok (plain (dict fs))
unfolding strict_decode plain
decode_object fs tail reads =
    let here : At (8 ∷ tail) 0 (8 ∷ (tail ++ [])) = rw append-nil (At-start (8 ∷ tail)) in
    let long : ltb (length (8 ∷ tail)) 1 ≡ false = le→ltb (length (8 ∷ tail)) 1 (omega arith) in
    rw (
      long,
      read_value-At (dict fs) 8 tail (2 * length (8 ∷ tail) + 2) (8 ∷ tail) 0 [] reads (omega arith)
          here,
    )

pub strict_decode-encode :
    (doc : Value) (bs : Bytes)
    → IsPython doc
    → encode none doc ≡ ok bs
    → strict_decode bs ≡ ok (plain doc)
strict_decode-encode (dict fs) bs h e =
    let (w, small) = document_written fs bs h e in
    rw w.splits (decode_object fs w.tail (w.reads (omega arith) 8 (unfold value_tag in refl)))
strict_decode-encode null bs h e = absurd (unfold encode in cc)
strict_decode-encode _ bs h e = absurd (unfold encode in cc)

-- Decoding what the encoder returned for a document gives the document, with tuples as lists and
-- bytearrays and memoryviews as bytes.
pub decode-encode :
    (doc : Value) (bs : Bytes)
    → IsPython doc
    → encode none doc ≡ ok bs
    → decode none bs ≡ ok (plain doc)
decode-encode doc bs h e = decode-strict_decode bs (plain doc) (strict_decode-encode doc bs h e)

-- A document's encoding is shorter than 2 ^ 33 bytes.
pub encode-small :
    (doc : Value) (bs : Bytes) → IsPython doc → encode none doc ≡ ok bs → length bs < 2 ^ 33
encode-small (dict fs) bs h e =
    let (w, small) = document_written fs bs h e in omega (lengths, small, ap length w.splits)
encode-small null bs h e = absurd (unfold encode in cc)
encode-small _ bs h e = absurd (unfold encode in cc)

-- What the encoder returns is bytes, the first of them the object's tag.
pub encode_bytes :
    (doc : Value) (bs : Bytes)
    → IsPython doc
    → encode none doc ≡ ok bs
    → All IsByte bs × ((body : Bytes) × (bs ≡ 8 ∷ body))
encode_bytes (dict fs) bs h e =
    let (w, _) = document_written fs bs h e in
    rw w.splits ((omega arith, w.all_bytes), (w.tail, refl))
encode_bytes null bs h e = absurd (unfold encode in cc)
encode_bytes _ bs h e = absurd (unfold encode in cc)
