-- ===== src/Collection/Many.antt =====
-- `get_many` of bindings/python/pyx/__init__.py against one `get` after another.
use pyx.Base.{
  ℕ, suc, ◌+◌, ◌*◌, ◌<◌, ◌≤◌, ◌≡◌, inl, inr, refl, subst, Option, none, some, false, List, [], ◌∷◌,
  ◌++◌, length, ltb, ◌==◌, arith, Bool-cases, Option-cases, append_assoc,
}
use pyx.Base.Bytes.{Bytes}
use pyx.Base.Int.{ℤ}
use pyx.Base.Reading.{At, At-append, At-start, slice-At}
use pyx.Calls.{check}
use pyx.Result.{Result, ok, raised, out_of_fuel, ◌>>=◌}
use pyx.Doc.Value.{Value}
use pyx.Doc.Decode.{decode}
use pyx.Collection.{
  Engine, Reply, c_uint64, read_buf, get, get_many, fill_loop, decode_loop, first_size, to_words,
  set_doc, max,
}
use pyx.Collection.Laws.{KeyValue, BulkRead, value_of, packed, sizes}
use pyx.Collection.Store.{get-missing}

-- The reply of a read that fitted.
pub record Filled (stored : ℕ → Option Bytes) (ids : List ℕ) (reply : Reply) : Type 0 where
  pub lens_are : reply.out_lens ≡ sizes stored ids
  pub rest : Bytes
  pub buf_is : reply.out_buf ≡ packed stored ids ++ rest

-- What `get` found is put into the result.
abbrev pub add_found : Option Value → ℤ → List (ℤ × Value) → List (ℤ × Value)
add_found none id result = result
add_found (some doc) id result = set_doc result id doc

regroup {ℓ κ} :
    {A : Type ℓ} {B : Type κ} (r : Result A) (next : Option A → Result B)
    → ◌>>=◌ {A = Option A} (r >>= λ a. ok (some a)) next ≡ r >>= λ a. next (some a)
regroup (ok a) next = refl
regroup (raised x) next = refl
regroup out_of_fuel next = refl

module _ (engine : Engine) (name : Bytes) where
  open engine use {State, pyx_get, pyx_get_many}

  -- One `get` after another, all at the state `s`.
  unfoldable pub get_each : List ℤ → List (ℤ × Value) → State → Result (List (ℤ × Value))
  get_each [] result s = ok result
  get_each (id ∷ ids) result s =
      (get engine name id s).0 >>= λ found. get_each ids (add_found found id result) s

  module _ (kv : KeyValue engine) (bulk : BulkRead engine kv) where
    open kv use {lookup}

    reply-Filled :
        (ids : List ℕ) (cap : ℕ) (s : State)
        → length (packed (lookup s name) ids) ≤ cap
        → Filled (lookup s name) ids (pyx_get_many name ids cap s).0
    reply-Filled ids cap s room =
        let (_, lens, (rest, buf)) = bulk.fits name ids cap s room in
        record { lens_are = lens; rest = rest; buf_is = buf }

    fill_loop-room :
        (left : ℕ) (ids : List ℕ) (cap : ℕ) (s : State)
        → length (packed (lookup s name) ids) ≤ cap
        → (fill_loop engine name (suc left) ids cap s).0 ≡ ok (pyx_get_many name ids cap s).0
    unfolding fill_loop
    fill_loop-room left ids cap s room = rw ((bulk.fits name ids cap s room).0, fill_loop)

    -- Two rounds are enough: the first tells the room that the second needs.
    pub fill_loop-Filled :
        (left : ℕ) (ids : List ℕ) (cap : ℕ) (s : State)
        → (reply : Reply) × ((fill_loop engine name (suc (suc left)) ids cap s).0 ≡ ok reply)
          × Filled (lookup s name) ids reply
    unfolding fill_loop
    fill_loop-Filled left ids cap s =
        elim (Bool-cases (ltb cap (length (packed (lookup s name) ids)))) [
          | inr fits ↦
              let room : length (packed (lookup s name) ids) ≤ cap = ground arith in
              (
                (pyx_get_many name ids cap s).0,
                fill_loop-room (suc left) ids cap s room,
                reply-Filled ids cap s room,
              )
          | inl short ↦
              let s' : State = (pyx_get_many name ids cap s).1 in
              let same : lookup s' name ≡ lookup s name =
                λ i id. bulk.reads_only name name ids cap id s i in
              let used = bulk.used_is name ids cap s in
              let cap' : ℕ = max (pyx_get_many name ids cap s).0.used (cap * 2) in
              let room : length (packed (lookup s' name) ids) ≤ cap' =
                rw same (ground (arith, used)) in
              (
                (pyx_get_many name ids cap' s').0,
                rw (bulk.too_small name ids cap s (ground arith), fill_loop)
                    (fill_loop-room left ids cap' s' room),
                subst (λ stored. Filled stored ids (pyx_get_many name ids cap' s').0) same
                    (reply-Filled ids cap' s' room),
              )
        ]

    get-stored :
        (id : ℤ) (b : Bytes) (s : State)
        → lookup s name (c_uint64 id) ≡ some b
        → 0 < length b
        → (get engine name id s).0 ≡ (decode none b >>= λ doc. ok (some doc))
    unfolding get check read_buf
    get-stored id b s there filled =
        let (rc, buf) = kv.get_stored name (c_uint64 id) b s there in
        let full : (length b == 0) ≡ false = ground arith in rw (rc, buf, full, get)

    -- The values that lie in the buffer from `offset` on are decoded as `get` decodes them.
    decode_loop-get_each :
        (ids : List ℤ) (buf rest : Bytes) (offset : ℕ) (result : List (ℤ × Value)) (s : State)
        → ((id : ℕ) (b : Bytes) → lookup s name id ≡ some b → 0 < length b)
        → At buf offset (packed (lookup s name) (to_words ids) ++ rest)
        → decode_loop ids (sizes (lookup s name) (to_words ids)) buf offset result
          ≡ get_each ids result s
    unfolding decode_loop get_each
    decode_loop-get_each [] buf rest offset result s filled h = refl
    decode_loop-get_each (id ∷ ids) buf rest offset result s filled h =
        let at : At buf offset (
            value_of (lookup s name (c_uint64 id))
            ++ (packed (lookup s name) (to_words ids) ++ rest)) =
          rw append_assoc at h in
        elim (Option-cases (lookup s name (c_uint64 id))) [
          | inl gone ↦
              let here = rw gone at at in
              rw (get-missing engine kv name id s gone, gone)
                (decode_loop-get_each ids buf rest offset result s filled here)
          | inr (b, there) ↦
              let here = rw there at at in
              let full : (length b == 0) ≡ false = ground (arith, filled (c_uint64 id) b there) in
              let next = λ (doc : Value).
                decode_loop-get_each ids buf rest (offset + length b) (set_doc result id doc) s
                  filled (At-append b _ here) in
              rw
                (
                  get-stored id b s there (filled (c_uint64 id) b there),
                  there,
                  full,
                  slice-At b (packed (lookup s name) (to_words ids) ++ rest) here,
                  regroup (decode none b) (λ found. get_each ids (add_found found id result) s),
                )
                (λ i. decode none b >>= λ doc. next doc i)
        ]

    -- Where no stored value is empty, `get_many` returns, or raises, what one `get` after another does.
    pub get_many-get_each :
        (ids : List ℤ) (s : State)
        → ((id : ℕ) (b : Bytes) → lookup s name id ≡ some b → 0 < length b)
        → (get_many engine name ids s).0 ≡ get_each ids [] s
    unfolding get_many get_each
    get_many-get_each [] s filled = refl
    get_many-get_each (id ∷ ids) s filled =
        let all : List ℤ = id ∷ ids in
        let (reply, returned, full) =
          fill_loop-Filled 6 (to_words all) (first_size (length all)) s in
        let some_ids : (length all == 0) ≡ false = ground arith in
        rw (some_ids, returned, get_many, full.lens_are, full.buf_is)
          (decode_loop-get_each all (packed (lookup s name) (to_words all) ++ full.rest) full.rest 0
            [] s filled (At-start _))
