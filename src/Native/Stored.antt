-- ===== src/Native/Stored.antt =====
-- A document that `Collection.put` of bindings/python/pyx/__init__.py has stored, read through the C extension
-- bindings/python/pyx/_native.c.
mod Tests
use pyx.Base.{ℕ, ◌<◌, ◌≡◌, refl, sym, ap, ◌∙◌, subst, true, Option, none, some, length, arith}
use pyx.Base.Bytes.{Bytes}
use pyx.Base.Int.{ℤ}
use pyx.Result.{ok}
use pyx.Doc.Value.{Value, plain}
use pyx.Doc.Value.Dict.{IsPython}
use pyx.Doc.Encode.{encode}
use pyx.Doc.Decode.{decode}
use pyx.Doc.RoundTrip.Document.{encode_bytes}
use pyx.Collection.{Engine, c_uint64, put}
use pyx.Collection as Collection
use pyx.Collection.Laws.{KeyValue}
use pyx.Collection.Store.{put-Holds, get-put}
use pyx.Native.Decode.{Unspecified, py_decode}
use pyx.Native.Decode.Agree.{py_decode-encode}
use pyx.Native.Get.{ZeroCopy, get}
use pyx.Native.Get.Agree.{ReadsStore, get-get_bound}

-- The encoding of a document is not empty, and both decoders agree on it.
agrees :
    (unspecified : Unspecified) (doc : Value) (b : Bytes)
    → IsPython doc
    → encode none doc ≡ ok b
    → (0 < length b) × (py_decode unspecified b ≡ decode none b)
agrees unspecified doc b h e =
    let (_, (body, starts)) = encode_bytes doc b h e in
    (rw starts (omega arith), (py_decode-encode unspecified doc b h e).1)

-- `get` on an open database, with the read and the decoder of the extension, returns the document that was put under
-- the id, with tuples as lists and bytearrays and memoryviews as bytes.
pub get_bound-put :
    (engine : Engine) (kv : KeyValue engine) (handle : ℕ) (fn : ZeroCopy engine.State)
    (reads : ReadsStore engine kv handle fn) (unspecified : Unspecified) (name : Bytes) (id : ℤ)
    (doc : Value) (s : engine.State)
    → IsPython doc
    → (put engine name id doc s).0 ≡ ok tt
    → (get fn
        (py_decode unspecified)
        true
        (Collection.get engine name)
        (some handle)
        name
        id
        (put engine name id doc s).1).0
      ≡ ok (some (plain doc))
unfolding get
get_bound-put engine kv handle fn reads unspecified name id doc s h e =
    let (b, there, encoded) = put-Holds engine kv name id doc s e in
    get-get_bound engine kv handle fn (py_decode unspecified) reads name id
      (put engine name id doc s).1
      (λ b' there'.
        let same : b ≡ b' =
          ap (λ (o : Option Bytes). elim o [ none ↦ b | some x ↦ x ]) (sym there ∙ there') in
        subst (λ (x : Bytes). (0 < length x) × (py_decode unspecified x ≡ decode none x)) same
          (agrees unspecified doc b h encoded))
    ∙ get-put engine kv name id doc s h e
