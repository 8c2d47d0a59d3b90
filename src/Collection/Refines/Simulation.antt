-- ===== src/Collection/Refines/Simulation.antt =====
-- Every call of `put`, `insert`, `get` and `delete` of `Collection` in bindings/python/pyx/__init__.py answers what a
-- map answers.
use pyx.Base.{
  ℕ, ◌≡◌, ◌≢◌, inl, inr, refl, sym, ap, ◌∙◌, true, false, Bool-cases, Option, none, some, List, [],
  ◌∷◌, All, ◌==◌, length, arith,
}
use pyx.Base.Bytes.{Bytes}
use pyx.Base.Int.{ℤ, is_negative, int_eq}
use pyx.Errors.{pyx_not_found}
use pyx.Calls.{check, then_call-keeps, if-keeps}
use pyx.Result.{Result, ok, raised, out_of_fuel, ◌>>=◌}
use pyx.Doc.Value.{Value, plain}
use pyx.Doc.Value.Dict.{IsPython}
use pyx.Doc.Encode.{encode}
use pyx.Doc.Decode.{decode}
use pyx.Collection.{Engine, c_uint64, read_buf, insert, put, get, delete}
use pyx.Collection.Laws.{KeyValue}
use pyx.Collection.Store.{get-Holds, get-missing, get-delete}
use pyx.Collection.Refines.{
  Op, store, add, fetch, remove, HasPython, Docs, assign, is_there, Step, store_ok, store_failed,
  add_ok, add_failed, fetch_ok, remove_ok, Steps, done, next, Encodes, Transactional, Represents,
  perform, perform_all,
}

Encodes-none : (v : Option Value) → Encodes none v → v ≡ none
Encodes-none none h = refl
Encodes-none (some v) h = absurd h

Encodes-is_there :
    (x : Option Bytes) (v : Option Value)
    → Encodes x v
    → elim x [ none ↦ ok false | some b ↦ ok true ] ≡ ok (is_there v)
Encodes-is_there none none h = refl
Encodes-is_there (some b) (some v) h = refl
Encodes-is_there none (some v) h = absurd h
Encodes-is_there (some b) none h = absurd h

module _ (engine : Engine) (kv : KeyValue engine) (name : Bytes)
    (law : Transactional engine kv name) where
  open engine use {State, pyx_insert, pyx_put, pyx_get, pyx_delete, pyx_buf_free, pyx_last_error}
  open kv use {lookup}

  -- A change at one id.
  Represents-assign :
      (s s' : State) (docs : Docs) (id : ℕ) (v : Option Value)
      → Represents engine kv name s docs
      → Encodes (lookup s' name id) v
      → ((other : ℕ) → other ≢ id → lookup s' name other ≡ lookup s name other)
      → Represents engine kv name s' (assign id v docs)
  Represents-assign s s' docs id v rep here others other = elim (Bool-cases (other == id)) [
    | inl same ↦ let e : other ≡ id = ground arith in rw (same, e) here
    | inr apart ↦ rw (apart, others other (ground arith)) (rep other)
  ]

  get-lookup :
      (id : ℤ) (other : ℕ) (s : State)
      → lookup (get engine name id s).1 name other ≡ lookup s name other
  unfolding get read_buf
  get-lookup id other s =
      let reply = pyx_get name (c_uint64 id) s in
      let same = law.get_keeps (c_uint64 id) other s in
      let P : State → Type 0 = λ t. lookup t name other ≡ lookup s name other in
      if-keeps P (int_eq reply.0 pyx_not_found) _ _ same (
        then_call-keeps P (check pyx_last_error reply.0 reply.2) _ reply.2 same (λ _.
          if-keeps P (length reply.1 == 0) (ok _, reply.2)
            (decode none reply.1, pyx_buf_free reply.1 reply.2) same
            (law.free_keeps reply.1 other reply.2 ∙ same)))

  fetch-Encodes :
      (id : ℤ) (s : State) (x : Option Bytes) (v : Option Value)
      → lookup s name (c_uint64 id) ≡ x
      → Encodes x v
      → (get engine name id s).0 ≡ ok v
  fetch-Encodes id s none none e h = get-missing engine kv name id s e
  fetch-Encodes id s (some b) (some v) e (doc, python, encoded, same) =
      get-Holds engine kv name id doc s python (b, e, encoded)
      ∙ ap (λ (w : Value). ok (some w)) same
  fetch-Encodes id s none (some v) e h = absurd h
  fetch-Encodes id s (some b) none e h = absurd h

  fetch-Step :
      (id : ℤ) (s : State) (docs : Docs)
      → Represents engine kv name s docs
      → Step docs (fetch id) (perform engine kv name (fetch id) s).0 docs
        × Represents engine kv name (perform engine kv name (fetch id) s).1 docs
  unfolding perform
  fetch-Step id s docs rep = (
    rw
        (fetch-Encodes id s (lookup s name (c_uint64 id)) (docs (c_uint64 id)) refl
          (rep (c_uint64 id)))
        fetch_ok,
    λ other. rw (get-lookup id other s) (rep other),
  )

  put-Step :
      (id : ℤ) (doc : Value) (s : State) (docs : Docs)
      → IsPython doc
      → Represents engine kv name s docs
      → (r : Result Bytes) → encode none doc ≡ r
      → (docs' : Docs) × Step docs (store id doc) (perform engine kv name (store id doc) s).0 docs'
        × Represents engine kv name (perform engine kv name (store id doc) s).1 docs'
  unfolding perform put check
  put-Step id doc s docs python rep (raised x) e =
      (docs, rw (e, perform) (store_failed (λ never. cc)), rw (e, perform) rep)
  put-Step id doc s docs python rep out_of_fuel e =
      (docs, rw (e, perform) (store_failed (λ never. cc)), rw (e, perform) rep)
  put-Step id doc s docs python rep (ok b) e =
      let reply = pyx_put name (c_uint64 id) b s in
      elim (Bool-cases (is_negative reply.0)) [
        | inl failed ↦ (
          docs,
          rw (e, failed, perform) (store_failed (λ never. cc)),
          rw (e, perform) (λ other. rw (law.put_failed (c_uint64 id) other b s failed) (rep other)),
        )
        | inr fine ↦ (
          assign (c_uint64 id) (some (plain doc)) docs,
          rw (e, fine, perform) store_ok,
          rw (e, perform)
              (Represents-assign s reply.1 docs (c_uint64 id) (some (plain doc)) rep
                (rw (kv.put_same name (c_uint64 id) b s fine) (doc, python, e, refl))
                (λ other apart.
                  kv.put_other name (c_uint64 id) other b s (λ same. apart (sym same)))),
        )
      ]

  insert-Step :
      (doc : Value) (s : State) (docs : Docs)
      → IsPython doc
      → Represents engine kv name s docs
      → (r : Result Bytes) → encode none doc ≡ r
      → (docs' : Docs) × Step docs (add doc) (perform engine kv name (add doc) s).0 docs'
        × Represents engine kv name (perform engine kv name (add doc) s).1 docs'
  unfolding perform insert check
  insert-Step doc s docs python rep (raised x) e =
      (docs, rw (e, perform) (add_failed (λ n never. cc)), rw (e, perform) rep)
  insert-Step doc s docs python rep out_of_fuel e =
      (docs, rw (e, perform) (add_failed (λ n never. cc)), rw (e, perform) rep)
  insert-Step doc s docs python rep (ok b) e =
      let reply = pyx_insert name b s in
      elim (Bool-cases (is_negative reply.0)) [
        | inl failed ↦ (
          docs,
          rw (e, failed, perform) (add_failed (λ n never. cc)),
          rw (e, perform) (λ other. rw (law.insert_failed other b s failed) (rep other)),
        )
        | inr fine ↦
            let (free, there) = kv.insert_fresh name b s fine in
            (
              assign reply.1 (some (plain doc)) docs,
              rw (e, fine, perform)
                  (add_ok (Encodes-none (docs reply.1) (rw free at (rep reply.1)))),
              rw (e, perform)
                  (Represents-assign s reply.2 docs reply.1 (some (plain doc)) rep
                    (rw there (doc, python, e, refl))
                    (λ other apart. law.insert_other other b s fine apart)),
            )
      ]

  remove_here :
      (id : ℕ) (s : State) (x : Option Bytes)
      → lookup s name id ≡ x
      → lookup (pyx_delete name id s).1 name id ≡ none
  remove_here id s none e = (kv.delete_missing name id s e).1
  remove_here id s (some b) e = (kv.delete_stored name id b s e).1

  delete-lookup :
      (id : ℤ) (other : ℕ) (s : State)
      → lookup (delete engine name id s).1 name other
        ≡ lookup (pyx_delete name (c_uint64 id) s).1 name other
  unfolding delete
  delete-lookup id other s =
      let reply = pyx_delete name (c_uint64 id) s in
      if-keeps (λ (t : State). lookup t name other ≡ lookup reply.1 name other)
        (int_eq reply.0 pyx_not_found) (ok false, reply.1)
        (check pyx_last_error reply.0 reply.1 >>= λ _. ok true, reply.1) refl refl

  remove-Step :
      (id : ℤ) (s : State) (docs : Docs)
      → Represents engine kv name s docs
      → Step docs
          (remove id)
          (perform engine kv name (remove id) s).0
          (assign (c_uint64 id) none docs)
        × Represents engine kv name
            (perform engine kv name (remove id) s).1
            (assign (c_uint64 id) none docs)
  unfolding perform
  remove-Step id s docs rep =
      let word = c_uint64 id in
      let (answer, _) = get-delete engine kv name id s in
      let told = answer ∙ Encodes-is_there (lookup s name word) (docs word) (rep word) in
      (
        rw told remove_ok,
        Represents-assign s (delete engine name id s).1 docs word none rep
            (rw (delete-lookup id word s, remove_here word s (lookup s name word) refl) tt)
            (λ other apart. delete-lookup id other s ∙ law.delete_other word other s apart),
      )

  perform-Step :
      (op : Op) (s : State) (docs : Docs)
      → HasPython op
      → Represents engine kv name s docs
      → (docs' : Docs) × Step docs op (perform engine kv name op s).0 docs'
        × Represents engine kv name (perform engine kv name op s).1 docs'
  perform-Step (store id doc) s docs python rep =
      put-Step id doc s docs python rep (encode none doc) refl
  perform-Step (add doc) s docs python rep =
      insert-Step doc s docs python rep (encode none doc) refl
  perform-Step (fetch id) s docs python rep =
      let (step, rep') = fetch-Step id s docs rep in (docs, step, rep')
  perform-Step (remove id) s docs python rep =
      let (step, rep') = remove-Step id s docs rep in (assign (c_uint64 id) none docs, step, rep')

  -- Whatever sequence of `put`, `insert`, `get` and `delete` is run, with Python documents, each call answers what
  -- a map from 64-bit ids to documents answers, and the store that is left represents the map that is.
  pub perform_all-Steps :
      (ops : List Op) (s : State) (docs : Docs)
      → All HasPython ops
      → Represents engine kv name s docs
      → (docs' : Docs) × Steps docs ops (perform_all engine kv name ops s).0 docs'
        × Represents engine kv name (perform_all engine kv name ops s).1 docs'
  unfolding perform_all
  perform_all-Steps [] s docs python rep = (docs, done, rep)
  perform_all-Steps (op ∷ ops) s docs (python, pythons) rep =
      let (docs', step, rep') = perform-Step op s docs python rep in
      let (docs'', steps, rep'') =
        perform_all-Steps ops (perform engine kv name op s).1 docs' pythons rep' in
      (docs'', next step steps, rep'')
