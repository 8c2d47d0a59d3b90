-- ===== src/Collection/Bulk.antt =====
-- `insert_many` of bindings/python/pyx/__init__.py: the packed batch, and what is read back.
use pyx.Base.{
  ℕ, ◌%◌, ◌^◌, ◌<◌, ◌≡◌, refl, ap, ◌∙◌, subst, none, some, false, List, [], ◌∷◌, length,
  take-append, drop-append, ◌==◌, arith, All,
}
use pyx.Base.Bytes.{Bytes}
use pyx.Base.Int.{pos}
use pyx.Calls.{check, check-eq-ok, then_call-eq-ok}
use pyx.Result.{ok, >>=-eq-ok, ok-injective}
use pyx.Doc.Value.{Value, plain}
use pyx.Doc.Value.Dict.{IsPython}
use pyx.Doc.Encode.{encode}
use pyx.Query.{c_int64}
use pyx.Collection.{Engine, c_uint64, get, insert_many, encode_all, join, lens_list, c_uint32_array}
use pyx.Collection.Laws.{KeyValue, BulkWrite, cut, Stored}
use pyx.Collection.Store.{get-Holds}

-- The encodings of the documents, in their order.
abbrev pub Encodes : List Value → List Bytes → Type 0
Encodes [] [] = Unit
Encodes (doc ∷ docs) (b ∷ bs) = (encode none doc ≡ ok b) × Encodes docs bs
Encodes _ _ = ⊥

encode_all-Encodes :
    (docs : List Value) (bs : List Bytes) → encode_all docs ≡ ok bs → Encodes docs bs
unfolding encode_all
encode_all-Encodes [] bs e = rw (← ok-injective e) tt
encode_all-Encodes (doc ∷ docs) bs e =
    let (b, first, rest) = >>=-eq-ok (encode none doc) _ e in
    let (tail, others, joined) = >>=-eq-ok (encode_all docs) _ rest in
    rw (← ok-injective joined) (first, encode_all-Encodes docs tail others)

-- A Python document whose encoding has a length of 32 bits.
abbrev pub Sendable : Value → Type 0
Sendable doc = IsPython doc × ((b : Bytes) → encode none doc ≡ ok b → length b < 2 ^ 32)

-- The batch can be cut into the encodings again.
pub cut-join :
    (docs : List Value) (bs : List Bytes)
    → All Sendable docs
    → Encodes docs bs
    → cut (c_uint32_array (lens_list bs)) (join bs) ≡ bs
cut-join [] [] h e = refl
cut-join [] (b ∷ bs) h e = elim e [ ]
cut-join (doc ∷ docs) [] h e = elim e [ ]
cut-join (doc ∷ docs) (b ∷ bs) h e =
    let small : length b % 2 ^ 32 ≡ length b = omega (arith, h.0.1 b e.0) in
    rw (small, take-append b (join bs), drop-append b (join bs))
      (ap (λ (l : List Bytes). b ∷ l) (cut-join docs bs h.1 e.1))

module _ (engine : Engine) (kv : KeyValue engine) (name : Bytes) where
  open engine use {State, pyx_insert_many}
  open kv use {lookup}

  -- Each id reads as the document at its place.
  pub Reads : State → List ℕ → List Value → Type 0
  Reads s [] [] = Unit
  Reads s (id ∷ ids) (doc ∷ docs) =
      ((get engine name (pos id) s).0 ≡ ok (some (plain doc))) × Reads s ids docs
  Reads s _ _ = ⊥

  c_uint64-small : (id : ℕ) → id < 2 ^ 64 → c_uint64 (pos id) ≡ id
  unfolding c_int64
  c_uint64-small id h = omega arith

  Stored-Reads :
      (s : State) (ids : List ℕ) (docs : List Value) (bs : List Bytes)
      → All Sendable docs
      → Encodes docs bs
      → Stored (lookup s name) ids bs
      → Reads s ids docs
  unfolding Reads
  Stored-Reads s [] [] [] h e k = tt
  Stored-Reads s [] [] (b ∷ bs) h e k = elim e [ ]
  Stored-Reads s [] (doc ∷ docs) [] h e k = elim e [ ]
  Stored-Reads s [] (doc ∷ docs) (b ∷ bs) h e k = elim k [ ]
  Stored-Reads s (id ∷ ids) [] [] h e k = elim k [ ]
  Stored-Reads s (id ∷ ids) [] (b ∷ bs) h e k = elim e [ ]
  Stored-Reads s (id ∷ ids) (doc ∷ docs) [] h e k = elim e [ ]
  Stored-Reads s (id ∷ ids) (doc ∷ docs) (b ∷ bs) h e k = (
    get-Holds engine kv name (pos id) doc s h.0.0
        (b, ap (lookup s name) (c_uint64-small id k.0.0) ∙ k.0.1, e.0),
    Stored-Reads s ids docs bs h.1 e.1 k.1,
  )

  module _ (bulk : BulkWrite engine kv) where
    -- The call that follows the encoding.
    send-Reads :
        (docs : List Value) (encoded : List Bytes) (ids : List ℕ) (s : State)
        → All Sendable docs
        → Encodes docs encoded
        → (insert_many engine name docs s).0 ≡ ok ids
        → encode_all docs ≡ ok encoded
        → Reads (insert_many engine name docs s).1 ids docs
    unfolding insert_many Reads check
    send-Reads [] [] ids s h e returned all =
        let none_sent = rw (all, insert_many) at returned in
        rw (all, insert_many, ← ok-injective none_sent) tt
    send-Reads [] (b ∷ bs) ids s h e returned all = elim e [ ]
    send-Reads (doc ∷ docs) [] ids s h e returned all = elim e [ ]
    send-Reads (doc ∷ docs) (b ∷ bs) ids s h e returned all =
        let encoded : List Bytes = b ∷ bs in
        let some_docs : (length encoded == 0) ≡ false = ground arith in
        let lens : List ℕ = c_uint32_array (lens_list encoded) in
        let s' : State = (pyx_insert_many name (join encoded) lens s).2 in
        let returned' = rw (all, some_docs, insert_many) at returned in
        let (_, passed, out) =
          >>=-eq-ok (check engine.pyx_last_error (pyx_insert_many name (join encoded) lens s).0 s')
            _ returned' in
        let stored =
          subst (Stored (lookup s' name) (pyx_insert_many name (join encoded) lens s).1)
            (cut-join (doc ∷ docs) encoded h e)
            (bulk.many_stored name (join encoded) lens s
              (check-eq-ok engine.pyx_last_error _ s' passed)) in
        rw (all, some_docs, insert_many)
          (subst (λ l. Reads s' l (doc ∷ docs)) (ok-injective out)
            (Stored-Reads s' _ (doc ∷ docs) encoded h e stored))

    -- The ids that `insert_many` returned read, in their order, as the documents that were inserted.
    pub get-insert_many :
        (docs : List Value) (ids : List ℕ) (s : State)
        → All Sendable docs
        → (insert_many engine name docs s).0 ≡ ok ids
        → Reads (insert_many engine name docs s).1 ids docs
    unfolding insert_many
    get-insert_many docs ids s h e =
        let (encoded, all, _) = then_call-eq-ok (encode_all docs) _ s e in
        send-Reads docs encoded ids s h (encode_all-Encodes docs encoded all) e all
