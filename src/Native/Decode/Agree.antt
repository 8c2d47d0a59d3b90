-- ===== src/Native/Decode/Agree.antt =====
-- The decoder of the extension bindings/python/pyx/_native.c returns what the decoder of Doc.Strict returns, so that it
-- reads back what bindings/python/pyx/_doc.py encodes.
use Prim.Native.String.{String}
use pyx.Base.{
  ℕ, zero, suc, ◌+◌, ◌*◌, ◌^◌, ◌≤◌, ◌<◌, ◌≡◌, sym, ◌∙◌, none, ltb, leb, ◌==◌, length, true, arith,
}
use pyx.Base.Bytes.{Bytes}
use pyx.Result.{ok, Ensures-ok}
use pyx.Doc.Varint.{index}
use pyx.Doc.Value.{
  Value, Items, Fields, null, dict, no_items, no_fields, append_item, dict_set, str_key, plain,
}
use pyx.Doc.Value.Dict.{IsPython}
use pyx.Doc.Encode.{
  encode, tag_null, tag_false, tag_true, tag_i64, tag_f64, tag_string, tag_bytes, tag_array,
  tag_object,
}
use pyx.Doc.Decode.{read_header, require_dict, make_str, make_bytes, decode}
use pyx.Doc.Positions.{read_header-Ensures}
use pyx.Doc.Strict.{strict_payload, strict_value, strict_items, strict_fields, strict_decode}
use pyx.Doc.Strict.Follows.{
  Follows, follows, free, short, Follows-ok, Follows-if, Follows-when, Follows-first, Follows-bind,
  Follows-same, Follows-after,
}
use pyx.Doc.RoundTrip.Document.{strict_decode-encode, decode-encode, encode-small}
use pyx.Native.Decode.{Unspecified, payload, value, array_items, object_fields, py_decode}
use pyx.Native.Decode.Lengths.{sized-Follows, entry_key-Follows}

-- A loop that ended where its body ends.
module _ {A : Type 0} where
  ended :
      (pos end : ℕ) (x : A)
      → (pos == end) ≡ true
      → Follows {B = A × ℕ} (λ (y : A). (y, end)) (ok x) (ok (x, pos))
  ended pos end x e = let same : pos ≡ end = ground arith in rw same follows

module _ (unspecified : Unspecified) (buf : Bytes) (short_buf : length buf < 2 ^ 63) where
  header-inside :
      (what what' : String) (pos start end : ℕ)
      → read_header what what' buf pos ≡ ok (start, end)
      → end ≤ length buf
  header-inside what what' pos start end e =
      let (_, _, h) = Ensures-ok (read_header-Ensures what buf pos what') e in h

  mutual
    unfolding strict_payload payload

    payload-Follows :
        (f pos tag : ℕ)
        → Follows (λ x. x) (strict_payload f buf pos tag) (payload unspecified f buf pos tag)
    payload-Follows zero pos tag = short
    payload-Follows (suc f) pos tag =
        Follows-if (tag == tag_null) (λ _. follows)
          λ _.
            Follows-if (tag == tag_false) (λ _. follows)
              λ _.
                Follows-if (tag == tag_true) (λ _. follows)
                  λ _.
                    Follows-if (tag == tag_i64) (λ _. Follows-same _)
                      λ _.
                        Follows-if (tag == tag_f64) (λ _. Follows-same _)
                          λ _.
                            Follows-if (tag == tag_string)
                              (λ _. sized-Follows unspecified buf short_buf _ _ make_str pos)
                              λ _.
                                Follows-if (tag == tag_bytes)
                                  (λ _. sized-Follows unspecified buf short_buf _ _ make_bytes pos)
                                  λ _.
                                    Follows-if (tag == tag_array)
                                      (λ _.
                                        Follows-after (read_header _ _ buf pos) λ (start, end) e.
                                          Follows-bind _ (array_items-Follows f start end no_items)
                                            λ items. follows)
                                      λ _.
                                        Follows-if (tag == tag_object)
                                          (λ _.
                                            Follows-after (read_header _ _ buf pos)
                                              λ (start, end) e.
                                                Follows-bind _
                                                  (object_fields-Follows f start end no_fields
                                                    (header-inside _ _ pos start end e))
                                                  λ fields. follows)
                                          λ _. free

    value-Follows :
        (f pos : ℕ) → Follows (λ x. x) (strict_value f buf pos) (value unspecified f buf pos)
    value-Follows zero pos = short
    value-Follows (suc f) pos =
        Follows-if (leb (length buf) pos) (λ _. free)
          λ _. Follows-after (index buf pos) λ tag _. payload-Follows f (pos + 1) tag

    array_items-Follows :
        (f pos end : ℕ) (items : Items)
        → Follows {B = Items × ℕ}
            (λ xs. (xs, end))
            (strict_items f buf pos end items)
            (array_items unspecified f buf pos end items)
    array_items-Follows zero pos end items = short
    array_items-Follows (suc f) pos end items =
        Follows-if (ltb pos end)
          (λ _.
            Follows-bind _ (value-Follows f pos)
              λ (v, pos'). array_items-Follows f pos' end (append_item items v))
          λ _. Follows-when (pos == end) _ λ e. ended pos end items e

    object_fields-Follows :
        (f pos end : ℕ) (out : Fields)
        → end ≤ length buf
        → Follows {B = Fields × ℕ}
            (λ fs. (fs, end))
            (strict_fields f buf pos end out)
            (object_fields unspecified f buf pos end out)
    object_fields-Follows zero pos end out inside = short
    object_fields-Follows (suc f) pos end out inside =
        Follows-if (ltb pos end)
          (λ _.
            Follows-bind _ (entry_key-Follows unspecified buf short_buf pos end inside)
              λ (entry_tag, key, start).
                Follows-bind _ (payload-Follows f start entry_tag) λ (v, pos').
                  object_fields-Follows f pos' end (dict_set out (str_key key) v) inside)
          λ _. Follows-when (pos == end) _ λ e. ended pos end out e

  require_dict-Follows : (v : Value) → Follows (λ x. x) (require_dict v) (ok v)
  require_dict-Follows (dict fs) = follows
  require_dict-Follows null = free
  require_dict-Follows _ = free

  -- Where the strict decoder returns, the one of the extension returns the same.
  py_decode-strict_decode :
      (v : Value) → strict_decode buf ≡ ok v → py_decode unspecified buf ≡ ok v
  unfolding strict_decode py_decode
  py_decode-strict_decode v e =
      Follows-ok {h = λ x. x}
        (Follows-if (ltb (length buf) 1) (λ _. free)
          λ _. Follows-first (index buf 0) λ tag _. Follows-when (tag == tag_object) _ λ _.
            Follows-bind _ (value-Follows (2 * length buf + 2) 0) λ (v, _). require_dict-Follows v)
        e

-- For a document that bindings/python/pyx/_doc.py has encoded, the extension's decoder returns what the one in Python
-- returns: the document, with tuples as lists and bytearrays and memoryviews as bytes, whatever it does where the C
-- standard or the interpreter leaves it open.
pub py_decode-encode :
    (unspecified : Unspecified) (doc : Value) (bs : Bytes)
    → IsPython doc
    → encode none doc ≡ ok bs
    → (py_decode unspecified bs ≡ ok (plain doc)) × (py_decode unspecified bs ≡ decode none bs)
py_decode-encode unspecified doc bs h e =
    let small = encode-small doc bs h e in
    let same =
      py_decode-strict_decode unspecified bs (omega (arith, small)) (plain doc)
        (strict_decode-encode doc bs h e) in
    (same, same ∙ sym (decode-encode doc bs h e))
