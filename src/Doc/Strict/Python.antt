-- ===== src/Doc/Strict/Python.antt =====
-- The decoder of bindings/python/pyx/_doc.py returns what the decoder of Doc.Strict returns.
use pyx.Base.{ℕ, zero, suc, ◌+◌, ◌*◌, ◌≡◌, none, ltb, leb, ◌==◌, length}
use pyx.Base.Bytes.{Bytes}
use pyx.Result.{ok}
use pyx.Doc.Varint.{index}
use pyx.Doc.Value.{Value, Items, Fields, no_items, no_fields, append_item, dict_set, str_key}
use pyx.Doc.Decode.{
  read_header, read_entry_key, read_payload, read_value, read_items, read_fields, decode,
}
use pyx.Doc.Encode.{
  tag_null, tag_false, tag_true, tag_i64, tag_f64, tag_string, tag_bytes, tag_array, tag_object,
}
use pyx.Doc.Strict.{strict_payload, strict_value, strict_items, strict_fields, strict_decode}
use pyx.Doc.Strict.Follows.{
  Follows, follows, free, short, Follows-ok, Follows-if, Follows-when, Follows-bind, Follows-same,
  Follows-after,
}

mutual
  unfolding strict_payload read_payload

  read_payload-Follows :
      (f : ℕ) (buf : Bytes) (pos tag : ℕ)
      → Follows (λ x. x) (strict_payload f buf pos tag) (read_payload f buf pos tag)
  read_payload-Follows zero buf pos tag = short
  read_payload-Follows (suc f) buf pos tag =
      Follows-if (tag == tag_null) (λ _. follows)
        λ _.
          Follows-if (tag == tag_false) (λ _. follows)
            λ _.
              Follows-if (tag == tag_true) (λ _. follows)
                λ _.
                  Follows-if (tag == tag_i64) (λ _. Follows-same _)
                    λ _.
                      Follows-if (tag == tag_f64) (λ _. Follows-same _)
                        λ _.
                          Follows-if (tag == tag_string) (λ _. Follows-same _)
                            λ _.
                              Follows-if (tag == tag_bytes) (λ _. Follows-same _)
                                λ _.
                                  Follows-if (tag == tag_array)
                                    (λ _. Follows-after (read_header _ _ buf pos) λ (start, end) _.
                                      Follows-bind _ (read_items-Follows f buf start end no_items)
                                        λ items. follows)
                                    λ _.
                                      Follows-if (tag == tag_object)
                                        (λ _.
                                          Follows-after (read_header _ _ buf pos) λ (start, end) _.
                                            Follows-bind _
                                              (read_fields-Follows f buf start end no_fields)
                                              λ fields. follows)
                                        λ _. free

  read_value-Follows :
      (f : ℕ) (buf : Bytes) (pos : ℕ)
      → Follows (λ x. x) (strict_value f buf pos) (read_value f buf pos)
  read_value-Follows zero buf pos = short
  read_value-Follows (suc f) buf pos =
      Follows-if (leb (length buf) pos) (λ _. free)
        λ _. Follows-after (index buf pos) λ tag _. read_payload-Follows f buf (pos + 1) tag

  read_items-Follows :
      (f : ℕ) (buf : Bytes) (pos end : ℕ) (items : Items)
      → Follows (λ x. x) (strict_items f buf pos end items) (read_items f buf pos end items)
  read_items-Follows zero buf pos end items = short
  read_items-Follows (suc f) buf pos end items =
      Follows-if (ltb pos end)
        (λ _.
          Follows-bind _ (read_value-Follows f buf pos)
            λ (v, pos'). read_items-Follows f buf pos' end (append_item items v))
        λ _. Follows-when (pos == end) _ λ _. follows

  read_fields-Follows :
      (f : ℕ) (buf : Bytes) (pos end : ℕ) (out : Fields)
      → Follows (λ x. x) (strict_fields f buf pos end out) (read_fields f buf pos end out)
  read_fields-Follows zero buf pos end out = short
  read_fields-Follows (suc f) buf pos end out =
      Follows-if (ltb pos end)
        (λ _. Follows-after (read_entry_key buf pos end) λ (entry_tag, key, start) _.
          Follows-bind _ (read_payload-Follows f buf start entry_tag)
            λ (value, pos'). read_fields-Follows f buf pos' end (dict_set out (str_key key) value))
        λ _. Follows-when (pos == end) _ λ _. follows

-- Where the strict decoder returns, the one in Python returns the same.
pub decode-strict_decode :
    (bs : Bytes) (v : Value) → strict_decode bs ≡ ok v → decode none bs ≡ ok v
unfolding strict_decode decode
decode-strict_decode bs v e =
    Follows-ok {h = λ x. x}
      (Follows-if (ltb (length bs) 1) (λ _. free)
        λ _. Follows-after (index bs 0) λ tag _.
          Follows-if (tag == tag_object)
            (λ _.
              Follows-bind _ (read_value-Follows (2 * length bs + 2) bs 0)
                λ (val, _). Follows-same _)
            λ _. free)
      e
