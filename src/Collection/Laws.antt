-- ===== src/Collection/Laws.antt =====
-- What a collection of bindings/python/pyx/__init__.py relies on of libpyx: a map from names and ids to bytes.
use pyx.Base.{
  ℕ, ◌<◌, ◌≤◌, ◌≡◌, ◌≢◌, Option, none, some, false, List, [], ◌∷◌, ◌++◌, length, take, drop, ◌^◌,
}
use pyx.Base.Bytes.{Bytes}
use pyx.Base.Int.{is_negative}
use pyx.Errors.{pyx_ok, pyx_not_found, pyx_buffer_too_small}
use pyx.Collection.{Engine}

-- The values that are there, one after another, and what `out_lens` says of each id.
abbrev pub value_of : Option Bytes → Bytes
value_of none = []
value_of (some b) = b

module _ (stored : ℕ → Option Bytes) where
  abbrev pub packed : List ℕ → Bytes
  packed [] = []
  packed (id ∷ ids) = value_of (stored id) ++ packed ids

  abbrev pub sizes : List ℕ → List ℕ
  sizes [] = []
  sizes (id ∷ ids) = length (value_of (stored id)) ∷ sizes ids

-- The values that the lengths cut a buffer into.
abbrev pub cut : List ℕ → Bytes → List Bytes
cut [] buf = []
cut (n ∷ ns) buf = take n buf ∷ cut ns (drop n buf)

-- Each id, a 64-bit number, holds the value that stands at its place.
abbrev pub Stored : (ℕ → Option Bytes) → List ℕ → List Bytes → Type 0
Stored stored [] [] = Unit
Stored stored (id ∷ ids) (b ∷ bs) = ((id < 2 ^ 64) × (stored id ≡ some b)) × Stored stored ids bs
Stored stored _ _ = ⊥

module _ (engine : Engine) where
  open engine use {
    State, pyx_insert, pyx_insert_many, pyx_put, pyx_get, pyx_get_many, pyx_delete, pyx_buf_free,
  }

  -- `lookup s name id` is the stored value. A write that returns no error takes effect on its own id only;
  -- a read finds what is stored. `pyx_get_many` tells the room that it needs.
  pub record KeyValue : Type 0 where
    pub lookup : State → Bytes → ℕ → Option Bytes
    pub put_same :
        (name : Bytes) (id : ℕ) (b : Bytes) (s : State)
        → is_negative (pyx_put name id b s).0 ≡ false
        → lookup (pyx_put name id b s).1 name id ≡ some b
    pub put_other :
        (name : Bytes) (id other : ℕ) (b : Bytes) (s : State)
        → id ≢ other
        → lookup (pyx_put name id b s).1 name other ≡ lookup s name other
    pub insert_fresh :
        (name b : Bytes) (s : State)
        → is_negative (pyx_insert name b s).0 ≡ false
        → (lookup s name (pyx_insert name b s).1 ≡ none)
          × (lookup (pyx_insert name b s).2 name (pyx_insert name b s).1 ≡ some b)
    pub get_stored :
        (name : Bytes) (id : ℕ) (b : Bytes) (s : State)
        → lookup s name id ≡ some b
        → ((pyx_get name id s).0 ≡ pyx_ok) × ((pyx_get name id s).1 ≡ b)
    pub get_missing :
        (name : Bytes) (id : ℕ) (s : State)
        → lookup s name id ≡ none
        → (pyx_get name id s).0 ≡ pyx_not_found
    pub delete_stored :
        (name : Bytes) (id : ℕ) (b : Bytes) (s : State)
        → lookup s name id ≡ some b
        → ((pyx_delete name id s).0 ≡ pyx_ok) × (lookup (pyx_delete name id s).1 name id ≡ none)
    pub delete_missing :
        (name : Bytes) (id : ℕ) (s : State)
        → lookup s name id ≡ none
        → ((pyx_delete name id s).0 ≡ pyx_not_found)
          × (lookup (pyx_delete name id s).1 name id ≡ none)

  -- `pyx_get_many` answers from what is stored, and writes into the buffer if the values fit.
  pub record BulkRead (kv : KeyValue) : Type 0 where
    pub used_is :
        (name : Bytes) (ids : List ℕ) (cap : ℕ) (s : State)
        → (pyx_get_many name ids cap s).0.used ≡ length (packed (kv.lookup s name) ids)
    pub fits :
        (name : Bytes) (ids : List ℕ) (cap : ℕ) (s : State)
        → length (packed (kv.lookup s name) ids) ≤ cap
        → ((pyx_get_many name ids cap s).0.rc ≡ pyx_ok)
          × ((pyx_get_many name ids cap s).0.out_lens ≡ sizes (kv.lookup s name) ids)
          × ((rest : Bytes) × ((pyx_get_many name ids cap s).0.out_buf
                ≡ packed (kv.lookup s name) ids ++ rest))
    pub too_small :
        (name : Bytes) (ids : List ℕ) (cap : ℕ) (s : State)
        → cap < length (packed (kv.lookup s name) ids)
        → (pyx_get_many name ids cap s).0.rc ≡ pyx_buffer_too_small
    pub reads_only :
        (name other : Bytes) (ids : List ℕ) (cap id : ℕ) (s : State)
        → kv.lookup (pyx_get_many name ids cap s).1 other id ≡ kv.lookup s other id

  -- `pyx_insert_many` stores the values that the lengths cut the buffer into, under the ids that it
  -- returns.
  pub record BulkWrite (kv : KeyValue) : Type 0 where
    pub many_stored :
        (name buf : Bytes) (lens : List ℕ) (s : State)
        → is_negative (pyx_insert_many name buf lens s).0 ≡ false
        → Stored
            (kv.lookup (pyx_insert_many name buf lens s).2 name)
            (pyx_insert_many name buf lens s).1
            (cut lens buf)
