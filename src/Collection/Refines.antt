-- ===== src/Collection/Refines.antt =====
-- `put`, `insert`, `get` and `delete` of `Collection` in bindings/python/pyx/__init__.py, one after another, against
-- a map from ids to documents.
pub mod Simulation
mod Tests
use pyx.Base.{
  ℕ, ◌≡◌, ◌≢◌, inl, inr, refl, sym, ap, ◌∙◌, Bool, true, false, Bool-cases, Option, none, some,
  List, [], ◌∷◌, All, ◌==◌, if◌then◌else◌, length, arith,
}
use pyx.Base.Bytes.{Bytes}
use pyx.Base.Int.{ℤ, is_negative, int_eq}
use pyx.Errors.{pyx_not_found}
use pyx.Calls.{check, then_call, then_call-keeps, if-keeps}
use pyx.Result.{Result, ok, raised, out_of_fuel, ◌>>=◌}
use pyx.Doc.Value.{Value, plain}
use pyx.Doc.Value.Dict.{IsPython}
use pyx.Doc.Encode.{encode}
use pyx.Doc.Decode.{decode}
use pyx.Collection.{Engine, c_uint64, found_doc, read_buf, insert, put, get, delete}
use pyx.Collection.Laws.{KeyValue}
use pyx.Collection.Store.{get-Holds, get-missing, get-delete}

-- A call of a method, and what it returned or raised.
pub data Op : Type 0 where
  store : ℤ → Value → Op
  add : Value → Op
  fetch remove : ℤ → Op

pub data Answer : Type 0 where
  stored : Result (Unit {0}) → Answer
  added : Result ℕ → Answer
  fetched : Result (Option Value) → Answer
  removed : Result Bool → Answer

abbrev pub HasPython : Op → Type 0
HasPython (store id doc) = IsPython doc
HasPython (add doc) = IsPython doc
HasPython _ = Unit

-- The documents, as they are read, under their 64-bit ids.
abbrev pub Docs : Type 0
Docs = ℕ → Option Value

abbrev pub assign : ℕ → Option Value → Docs → Docs
assign id v docs other = if other == id then v else docs other

abbrev pub is_there : Option Value → Bool
is_there none = false
is_there (some v) = true

-- What a map from ids to documents answers. A call that raises has changed nothing.
pub data Step (docs : Docs) : Op → Answer → Docs → Type 0 where
  store_ok :
      {id : ℤ} {doc : Value}
      → Step docs (store id doc) (stored (ok tt)) (assign (c_uint64 id) (some (plain doc)) docs)
  store_failed :
      {id : ℤ} {doc : Value} {r : Result (Unit {0})}
      → r ≢ ok tt
      → Step docs (store id doc) (stored r) docs
  add_ok :
      {doc : Value} {n : ℕ}
      → docs n ≡ none
      → Step docs (add doc) (added (ok n)) (assign n (some (plain doc)) docs)
  add_failed :
      {doc : Value} {r : Result ℕ} → ((n : ℕ) → r ≢ ok n) → Step docs (add doc) (added r) docs
  fetch_ok : {id : ℤ} → Step docs (fetch id) (fetched (ok (docs (c_uint64 id)))) docs
  remove_ok :
      {id : ℤ}
      → Step docs
          (remove id)
          (removed (ok (is_there (docs (c_uint64 id)))))
          (assign (c_uint64 id) none docs)

pub data Steps : Docs → List Op → List Answer → Docs → Type 0 where
  done : {docs : Docs} → Steps docs [] [] docs
  next :
      {docs docs' docs'' : Docs} {op : Op} {answer : Answer} {ops : List Op} {answers : List Answer}
      → Step docs op answer docs'
      → Steps docs' ops answers docs''
      → Steps docs (op ∷ ops) (answer ∷ answers) docs''

-- The bytes are those that the encoder returned for the document.
abbrev pub Encodes : Option Bytes → Option Value → Type 0
Encodes none none = Unit
Encodes (some b) (some v) =
    (doc : Value) × IsPython doc × (encode none doc ≡ ok b) × (plain doc ≡ v)
Encodes _ _ = ⊥

module _ (engine : Engine) (kv : KeyValue engine) (name : Bytes) where
  open engine use {State, pyx_insert, pyx_put, pyx_get, pyx_delete, pyx_buf_free, pyx_last_error}
  open kv use {lookup}

  -- A write that returns an error changes nothing, one that does not changes its own id only; a read, and the
  -- release of a buffer, change nothing.
  pub record Transactional : Type 0 where
    pub put_failed :
        (id other : ℕ) (b : Bytes) (s : State)
        → is_negative (pyx_put name id b s).0 ≡ true
        → lookup (pyx_put name id b s).1 name other ≡ lookup s name other
    pub insert_failed :
        (other : ℕ) (b : Bytes) (s : State)
        → is_negative (pyx_insert name b s).0 ≡ true
        → lookup (pyx_insert name b s).2 name other ≡ lookup s name other
    pub insert_other :
        (other : ℕ) (b : Bytes) (s : State)
        → is_negative (pyx_insert name b s).0 ≡ false
        → other ≢ (pyx_insert name b s).1
        → lookup (pyx_insert name b s).2 name other ≡ lookup s name other
    pub get_keeps :
        (id other : ℕ) (s : State) → lookup (pyx_get name id s).2 name other ≡ lookup s name other
    pub free_keeps :
        (b : Bytes) (other : ℕ) (s : State)
        → lookup (pyx_buf_free b s) name other ≡ lookup s name other
    pub delete_other :
        (id other : ℕ) (s : State)
        → other ≢ id
        → lookup (pyx_delete name id s).1 name other ≡ lookup s name other

  abbrev pub Represents : State → Docs → Type 0
  Represents s docs = (id : ℕ) → Encodes (lookup s name id) (docs id)

  unfoldable pub perform : Op → State → Answer × State
  perform (store id doc) s = let (r, s') = put engine name id doc s in (stored r, s')
  perform (add doc) s = let (r, s') = insert engine name doc s in (added r, s')
  perform (fetch id) s = let (r, s') = get engine name id s in (fetched r, s')
  perform (remove id) s = let (r, s') = delete engine name id s in (removed r, s')

  unfoldable pub perform_all : List Op → State → List Answer × State
  perform_all [] s = ([], s)
  perform_all (op ∷ ops) s =
      let (answer, s') = perform op s in
      let (answers, s'') = perform_all ops s' in (answer ∷ answers, s'')
