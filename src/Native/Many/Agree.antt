-- ===== src/Native/Many/Agree.antt =====
-- Bulk reads through the C extension bindings/python/pyx/_native.c and without it, compared.
use pyx.Base.{
  ℕ, ◌+◌, ◌<◌, ◌≡◌, inl, inr, refl, Option, none, some, false, List, [], ◌∷◌, ◌++◌, length, lengths,
  ltb, le→ltb, ◌==◌, arith, Option-cases, append_assoc,
}
use pyx.Base.Bytes.{Bytes}
use pyx.Base.Int.{ℤ}
use pyx.Base.Reading.{At, At-append, At-start, slice-At}
use pyx.Result.{Result, ◌>>=◌}
use pyx.Doc.Value.{Value}
use pyx.Doc.Decode.{decode}
use pyx.Collection.{Engine, c_uint64, decode_loop, first_size, to_words, set_doc}
use pyx.Collection as Collection
use pyx.Collection.Laws.{KeyValue, BulkRead, value_of, packed, sizes}
use pyx.Collection.Many.{fill_loop-Filled}
use pyx.Native.Many.{decode_each, decode_many, get_many}

length-sizes :
    (stored : ℕ → Option Bytes) (ids : List ℤ) → length (sizes stored (to_words ids)) ≡ length ids
length-sizes stored [] = refl
length-sizes stored (id ∷ ids) = omega (arith, length-sizes stored ids)

module _ (native_decode : Bytes → Result Value) (stored : ℕ → Option Bytes)
    (agree : (id : ℕ) (b : Bytes)
      → stored id ≡ some b
      → (0 < length b) × (native_decode b ≡ decode none b)) where
  -- The values that lie in the buffer from `offset` on.
  decode_each-decode_loop :
      (ids : List ℤ) (buf rest : Bytes) (offset : ℕ) (result : List (ℤ × Value))
      → At buf offset (packed stored (to_words ids) ++ rest)
      → decode_each native_decode ids (sizes stored (to_words ids)) buf offset result
        ≡ decode_loop ids (sizes stored (to_words ids)) buf offset result
  unfolding decode_each decode_loop
  decode_each-decode_loop [] buf rest offset result h = refl
  decode_each-decode_loop (id ∷ ids) buf rest offset result h =
      let at : At buf offset
          (value_of (stored (c_uint64 id)) ++ (packed stored (to_words ids) ++ rest)) =
        rw append_assoc at h in
      elim (Option-cases (stored (c_uint64 id))) [
        | inl gone ↦
            let here = rw gone at at in
            rw gone (decode_each-decode_loop ids buf rest offset result here)
        | inr (b, there) ↦
            let here = rw there at at in
            let (filled, same) = agree (c_uint64 id) b there in
            let full : (length b == 0) ≡ false = ground (arith, filled) in
            let inside : ltb (length buf) (offset + length b) ≡ false =
              le→ltb (length buf) (offset + length b) (omega (lengths, here.total)) in
            let next = λ (doc : Value).
              decode_each-decode_loop ids buf rest (offset + length b) (set_doc result id doc)
                (At-append b _ here) in
            rw (there, full, inside, slice-At b (packed stored (to_words ids) ++ rest) here, same)
              (λ i. decode none b >>= λ doc. next doc i)
      ]

-- Where no stored value is empty and the extension's decoder agrees with the one in Python on each of them,
-- `get_many` returns, or raises, the same whether the extension was built or not.
pub get_many-native :
    (native_decode : Bytes → Result Value) (engine : Engine) (kv : KeyValue engine)
    (bulk : BulkRead engine kv) (name : Bytes) (ids : List ℤ) (s : engine.State)
    → ((id : ℕ) (b : Bytes)
        → kv.lookup s name id ≡ some b
        → (0 < length b) × (native_decode b ≡ decode none b))
    → (get_many native_decode engine name ids s).0 ≡ (Collection.get_many engine name ids s).0
unfolding get_many decode_many Collection.get_many
get_many-native native_decode engine kv bulk name [] s agree = refl
get_many-native native_decode engine kv bulk name (id ∷ ids) s agree =
    let all : List ℤ = id ∷ ids in
    let (reply, returned, full) =
      fill_loop-Filled engine name kv bulk 6 (to_words all) (first_size (length all)) s in
    let some_ids : (length all == 0) ≡ false = ground arith in
    let enough : ltb (length (sizes (kv.lookup s name) (to_words all))) (length all) ≡ false =
      ground (arith, length-sizes (kv.lookup s name) all) in
    rw (some_ids, returned, full.lens_are, full.buf_is, enough)
      (decode_each-decode_loop native_decode (kv.lookup s name) agree all
        (packed (kv.lookup s name) (to_words all) ++ full.rest) full.rest 0 [] (At-start _))
