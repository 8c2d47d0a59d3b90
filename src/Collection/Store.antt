-- ===== src/Collection/Store.antt =====
-- What `put`, `insert`, `get` and `delete` of bindings/python/pyx/__init__.py do together: documents in, documents
-- out.
use pyx.Base.{
  ℕ, suc, ◌≡◌, ◌≢◌, inl, inr, refl, ap, ◌∙◌, none, some, true, false, length, ◌==◌, arith,
  Option-cases,
}
use pyx.Base.Bytes.{Bytes}
use pyx.Base.Int.{ℤ}
use pyx.Calls.{check, check-eq-ok, then_call, then_call-eq-ok}
use pyx.Result.{Result, ok, raised, out_of_fuel, >>=-eq-ok, ok-injective}
use pyx.Doc.Value.{Value, plain}
use pyx.Doc.Value.Dict.{IsPython}
use pyx.Doc.Encode.{encode}
use pyx.Doc.RoundTrip.Document.{decode-encode, encode_bytes}
use pyx.Collection.{Engine, c_uint64, read_buf, insert, put, get, delete}
use pyx.Collection.Laws.{KeyValue}

module _ (engine : Engine) where
  open engine use {State, pyx_insert, pyx_put, pyx_get, pyx_delete}

  -- A stored encoding is read as its document.
  read_buf-encode :
      (doc : Value) (b : Bytes) (s : State)
      → IsPython doc
      → encode none doc ≡ ok b
      → (read_buf engine.pyx_buf_free b s).0 ≡ ok (plain doc)
  unfolding read_buf
  read_buf-encode doc b s h e =
      let (_, (body, split)) = encode_bytes doc b h e in
      let size : length b ≡ suc (length body) = ap (λ (l : Bytes). length l) split in
      let filled : (length b == 0) ≡ false = ground (arith, size) in
      rw (filled, read_buf) (decode-encode doc b h e)

  module _ (kv : KeyValue engine) (name : Bytes) where
    open kv use {lookup}

    -- The document under an id, as the bytes that the encoder returned for it.
    abbrev pub Holds : State → ℤ → Value → Type 0
    Holds s id doc = (b : Bytes) × (lookup s name (c_uint64 id) ≡ some b) × (encode none doc ≡ ok b)

    pub get-Holds :
        (id : ℤ) (doc : Value) (s : State)
        → IsPython doc
        → Holds s id doc
        → (get engine name id s).0 ≡ ok (some (plain doc))
    unfolding get check
    get-Holds id doc s h (b, there, e) =
        let (rc, buf) = kv.get_stored name (c_uint64 id) b s there in
        rw (rc, buf, get, read_buf-encode doc b (pyx_get name (c_uint64 id) s).2 h e)

    pub get-missing :
        (id : ℤ) (s : State)
        → lookup s name (c_uint64 id) ≡ none
        → (get engine name id s).0 ≡ ok none
    unfolding get
    get-missing id s gone = rw (kv.get_missing name (c_uint64 id) s gone, get)

    pub put-Holds :
        (id : ℤ) (doc : Value) (s : State)
        → (put engine name id doc s).0 ≡ ok tt
        → Holds (put engine name id doc s).1 id doc
    unfolding put
    put-Holds id doc s e =
        let (b, encoded, returned) = then_call-eq-ok (encode none doc) _ s e in
        (b, rw encoded (kv.put_same name (c_uint64 id) b s (check-eq-ok _ _ _ returned)), encoded)

    put_lookup :
        (id other : ℤ) (s : State)
        → c_uint64 id ≢ c_uint64 other
        → (r : Result Bytes)
        → lookup
            (then_call {B = Unit {0}} r
              (λ b t. (
                check engine.pyx_last_error
                    (pyx_put name (c_uint64 id) b t).0
                    (pyx_put name (c_uint64 id) b t).1,
                (pyx_put name (c_uint64 id) b t).1,
              ))
              s).1
            name
            (c_uint64 other)
          ≡ lookup s name (c_uint64 other)
    put_lookup id other s apart (ok b) = kv.put_other name (c_uint64 id) (c_uint64 other) b s apart
    put_lookup id other s apart (raised x) = refl
    put_lookup id other s apart out_of_fuel = refl

    put-keeps :
        (id other : ℤ) (doc doc' : Value) (s : State)
        → c_uint64 id ≢ c_uint64 other
        → Holds s other doc'
        → Holds (put engine name id doc s).1 other doc'
    unfolding put
    put-keeps id other doc doc' s apart (b, there, e) =
        (b, put_lookup id other s apart (encode none doc) ∙ there, e)

    -- A document that was put under an id is what `get` returns for it.
    pub get-put :
        (id : ℤ) (doc : Value) (s : State)
        → IsPython doc
        → (put engine name id doc s).0 ≡ ok tt
        → (get engine name id (put engine name id doc s).1).0 ≡ ok (some (plain doc))
    get-put id doc s h e = get-Holds id doc (put engine name id doc s).1 h (put-Holds id doc s e)

    -- A put leaves the other ids alone, as 64-bit numbers.
    get-put_other :
        (id other : ℤ) (doc doc' : Value) (s : State)
        → c_uint64 id ≢ c_uint64 other
        → IsPython doc'
        → Holds s other doc'
        → (get engine name other (put engine name id doc s).1).0 ≡ ok (some (plain doc'))
    get-put_other id other doc doc' s apart h held =
        get-Holds other doc' (put engine name id doc s).1 h
          (put-keeps id other doc doc' s apart held)

    insert-Holds :
        (id : ℤ) (n : ℕ) (doc : Value) (s : State)
        → c_uint64 id ≡ n
        → (insert engine name doc s).0 ≡ ok n
        → Holds (insert engine name doc s).1 id doc × (lookup s name n ≡ none)
    unfolding insert check
    insert-Holds id n doc s same e =
        let (b, encoded, returned) = then_call-eq-ok (encode none doc) _ s e in
        let (x, passed, out) =
          >>=-eq-ok (check engine.pyx_last_error (pyx_insert name b s).0 (pyx_insert name b s).2) _
            returned in
        let (free, there) =
          kv.insert_fresh name b s
            (check-eq-ok engine.pyx_last_error _ (pyx_insert name b s).2 passed) in
        let out' : (pyx_insert name b s).1 ≡ n = ok-injective out in
        ((b, rw (encoded, same, ← out') there, encoded), rw (← out') free)

    -- A document that was inserted is what `get` returns for the id that `insert` returned, under which
    -- there was none before.
    pub get-insert :
        (id : ℤ) (n : ℕ) (doc : Value) (s : State)
        → c_uint64 id ≡ n
        → IsPython doc
        → (insert engine name doc s).0 ≡ ok n
        → ((get engine name id s).0 ≡ ok none)
          × ((get engine name id (insert engine name doc s).1).0 ≡ ok (some (plain doc)))
    get-insert id n doc s same h e =
        let (held, free) = insert-Holds id n doc s same e in
        (
          get-missing id s (ap (lookup s name) same ∙ free),
          get-Holds id doc (insert engine name doc s).1 h held,
        )

    -- `delete` says whether there was a document, and `get` finds none afterwards.
    pub get-delete :
        (id : ℤ) (s : State)
        → ((delete engine name id s).0
            ≡ elim (lookup s name (c_uint64 id)) [ none ↦ ok false | some b ↦ ok true ])
          × ((get engine name id (delete engine name id s).1).0 ≡ ok none)
    unfolding delete check
    get-delete id s = elim (Option-cases (lookup s name (c_uint64 id))) [
      | inl gone ↦
          let (rc, after) = kv.delete_missing name (c_uint64 id) s gone in
          (
            rw (rc, gone, delete),
            get-missing id (delete engine name id s).1 (rw (rc, delete) after),
          )
      | inr (b, there) ↦
          let (rc, after) = kv.delete_stored name (c_uint64 id) b s there in
          (
            rw (rc, there, delete),
            get-missing id (delete engine name id s).1 (rw (rc, delete) after),
          )
    ]
