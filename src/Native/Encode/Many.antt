-- ===== src/Native/Encode/Many.antt =====
-- The packed documents of `insert_many`: `py_encode_many` of bindings/python/pyx/_native.c against the lists that
-- bindings/python/pyx/__init__.py makes without it.
use Prim.Native.Nat.{◌-◌}
use pyx.Base.{
  ℕ, ◌≡◌, refl, List, [], ◌∷◌, ◌++◌, append_assoc, append-nil, length, lengths, All, none,
}
use pyx.Base.Bytes.{Bytes}
use pyx.Result.{ok, ok-injective, >>=-eq-ok}
use pyx.Doc.Value.{Value, Fields, null, dict}
use pyx.Doc.Encode.{encode, write_value_payload}
use pyx.Collection.{encode_all, join, lens_list}
use pyx.Native.Encode.{enc_tag, enc_payload_for_tag, enc_value, encode_docs, py_encode_many}
use pyx.Native.Encode.Agree.{NoView, enc_payload-agrees}

enc_value-encode :
    (fs : Fields) (e bs : Bytes)
    → NoView (dict fs)
    → encode none (dict fs) ≡ ok bs
    → enc_value (dict fs) e ≡ ok (e ++ bs)
unfolding encode enc_value enc_tag enc_payload_for_tag write_value_payload
enc_value-encode fs e bs h encoded = enc_payload-agrees (dict fs) e (8 ∷ []) bs h encoded

encode_docs-encode_all :
    (docs : List Value) (bs : List Bytes) (e : Bytes) (lens : List ℕ)
    → All NoView docs
    → encode_all docs ≡ ok bs
    → encode_docs docs e lens ≡ ok (e ++ join bs, lens ++ lens_list bs)
unfolding encode_docs encode_all
encode_docs-encode_all [] bs e lens h encoded =
    rw (← ok-injective encoded, append-nil e, append-nil lens) refl
encode_docs-encode_all (dict fs ∷ docs) bs e lens (hd, h) encoded =
    let (b, first, encoded') = >>=-eq-ok (encode none (dict fs)) _ encoded in
    let (rest, others, made) = >>=-eq-ok (encode_all docs) _ encoded' in
    let size : length (e ++ b) - length e ≡ length b = omega lengths in
    rw
      (
        enc_value-encode fs e b hd first,
        size,
        encode_docs-encode_all docs rest (e ++ b) (lens ++ (length b ∷ [])) h others,
        ← ok-injective made,
        append_assoc e b (join rest),
        append_assoc lens (length b ∷ []) (lens_list rest),
      )
      refl
encode_docs-encode_all (null ∷ docs) bs e lens h encoded = absurd (unfold encode in cc)
encode_docs-encode_all (_ ∷ docs) bs e lens h encoded = absurd (unfold encode in cc)

-- Documents without memoryviews that the encoder in Python returns bytes for are packed by the extension into
-- the same buffer and the same lengths that `insert_many` makes of those bytes.
pub py_encode_many-encode_all :
    (docs : List Value) (bs : List Bytes)
    → All NoView docs
    → encode_all docs ≡ ok bs
    → py_encode_many docs ≡ ok (join bs, lens_list bs)
unfolding py_encode_many
py_encode_many-encode_all docs bs h encoded = encode_docs-encode_all docs bs [] [] h encoded
