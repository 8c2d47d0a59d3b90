-- ===== src/Collection/Tests/Table.antt =====
-- A small store of one collection, which `Collection` of bindings/python/pyx/__init__.py is run against.
use pyx.Base.{
  ℕ, zero, suc, ◌+◌, ◌-◌, ◌<◌, ◌≤◌, ◌^◌, ◌≡◌, ◌≢◌, refl, sym, Bool, true, false, ◌&&◌, Option, none,
  some, List, [], ◌∷◌, length, get_elem?, ltb, leb, ◌==◌, if◌then◌else◌, arith, Bool-cases, inl,
  inr, append-nil,
}
use pyx.Base.Bytes.{Bytes}
use pyx.Base.Int.{ℤ, negsuc, is_negative}
use pyx.Errors.{pyx_ok, pyx_not_found, pyx_buffer_too_small}
use pyx.Collection.{Engine, Reply}
use pyx.Collection.Laws.{KeyValue, BulkRead, BulkWrite, packed, sizes, cut, Stored}

-- The values by their ids, and the id of the next insert.
pub record Rows : Type 0 where
  pub row : ℕ → Option Bytes
  pub next : ℕ

abbrev pub rows_put : ℕ → Option Bytes → Rows → Rows
rows_put id b s = record { row = λ i. if i == id then b else s.row i; next = s.next }

-- An id that is taken, or too large, is an error.
abbrev pub rows_insert : Bytes → Option Bytes → Rows → ℤ × ℕ × Rows
rows_insert b none s = (
  pyx_ok,
  s.next,
  record { row = λ i. if i == s.next then some b else s.row i; next = suc s.next },
)
rows_insert b (some _) s = (negsuc 3, 0, s)

abbrev rows_get : Option Bytes → ℤ × Bytes
rows_get none = (pyx_not_found, [])
rows_get (some b) = (pyx_ok, b)

abbrev pub rows_delete : ℕ → Option Bytes → Rows → ℤ × Rows
rows_delete id none s = (pyx_not_found, s)
rows_delete id (some b) s = (pyx_ok, rows_put id none s)

abbrev rows_get_many : List ℕ → ℕ → Rows → Reply
rows_get_many ids cap s = record {
  rc = if ltb cap (length (packed s.row ids)) then pyx_buffer_too_small else pyx_ok;
  out_lens = sizes s.row ids;
  out_buf = packed s.row ids;
  used = length (packed s.row ids);
}

abbrev count : ℕ → ℕ → List ℕ
count start zero = []
count start (suc n) = start ∷ count (suc start) n

abbrev in_batch : ℕ → ℕ → ℕ → Bool
in_batch start n i = leb start i && ltb i (start + n)

-- The batch goes to the ids from `next` on; ids that are too large are an error.
abbrev rows_insert_many : List Bytes → Rows → ℤ × List ℕ × Rows
rows_insert_many bs s =
    let full : ℤ × List ℕ × Rows = (negsuc 3, [], s) in
    let done : ℤ × List ℕ × Rows = (
      pyx_ok,
      count s.next (length bs),
      record {
        row = λ i. if in_batch s.next (length bs) i then get_elem? bs (i - s.next) else s.row i;
        next = s.next + length bs;
      },
    ) in
    if ltb (s.next + length bs) (2 ^ 64) then done else full

abbrev pub rows : Engine
rows = record {
  State = Rows;
  pyx_insert = λ name b s. rows_insert b (s.row s.next) s;
  pyx_insert_many = λ name buf lens s. rows_insert_many (cut lens buf) s;
  pyx_put = λ name id b s. (pyx_ok, rows_put id (some b) s);
  pyx_get = λ name id s. ((rows_get (s.row id)).0, (rows_get (s.row id)).1, s);
  pyx_get_many = λ name ids cap s. (rows_get_many ids cap s, s);
  pyx_delete = λ name id s. rows_delete id (s.row id) s;
  pyx_buf_free = λ b s. s;
  pyx_last_error = λ s. "full";
}

abbrev pub empty_rows : Rows
empty_rows = record { row = λ i. none; next = 1 }

pub insert_fresh :
    (b : Bytes) (at : Option Bytes) (s : Rows)
    → s.row s.next ≡ at
    → is_negative (rows_insert b at s).0 ≡ false
    → (s.row (rows_insert b at s).1 ≡ none)
      × ((rows_insert b at s).2.row (rows_insert b at s).1 ≡ some b)
insert_fresh b none s e h = (e, ground arith)
insert_fresh b (some x) s e h = absurd (cc)

pub put_same : (id : ℕ) (b : Option Bytes) (s : Rows) → (rows_put id b s).row id ≡ b
put_same id b s = ground arith

pub put_other :
    (id other : ℕ) (b : Option Bytes) (s : Rows)
    → id ≢ other
    → (rows_put id b s).row other ≡ s.row other
put_other id other b s h = ground (arith, h)

pub delete_stored :
    (id : ℕ) (b : Bytes) (s : Rows)
    → s.row id ≡ some b
    → ((rows_delete id (s.row id) s).0 ≡ pyx_ok) × ((rows_delete id (s.row id) s).1.row id ≡ none)
delete_stored id b s e = rw e (refl, ground arith)

pub delete_missing :
    (id : ℕ) (s : Rows)
    → s.row id ≡ none
    → ((rows_delete id (s.row id) s).0 ≡ pyx_not_found)
      × ((rows_delete id (s.row id) s).1.row id ≡ none)
delete_missing id s e = rw e (refl, e)

abbrev pub rows-KeyValue : KeyValue rows
rows-KeyValue = record {
  lookup = λ s name id. s.row id;
  put_same = λ name id b s h. put_same id (some b) s;
  put_other = λ name id other b s h. put_other id other (some b) s h;
  insert_fresh = λ name b s h. insert_fresh b (s.row s.next) s refl h;
  get_stored = λ name id b s e. rw e (refl, refl);
  get_missing = λ name id s e. rw e;
  delete_stored = λ name id b s e. delete_stored id b s e;
  delete_missing = λ name id s e. delete_missing id s e;
}

pub rows_fit :
    (ids : List ℕ) (cap : ℕ) (s : Rows)
    → length (packed s.row ids) ≤ cap
    → (rows_get_many ids cap s).rc ≡ pyx_ok
rows_fit ids cap s h = ground arith

pub rows_short :
    (ids : List ℕ) (cap : ℕ) (s : Rows)
    → cap < length (packed s.row ids)
    → (rows_get_many ids cap s).rc ≡ pyx_buffer_too_small
rows_short ids cap s h = ground arith

abbrev pub rows-BulkRead : BulkRead rows rows-KeyValue
rows-BulkRead = record {
  used_is = λ name ids cap s. refl;
  fits = λ name ids cap s h. (rows_fit ids cap s h, refl, ([], sym (append-nil _)));
  too_small = λ name ids cap s h. rows_short ids cap s h;
  reads_only = λ name other ids cap id s. refl;
}

-- Consecutive places of a list, at consecutive ids.
count-Stored :
    (bs : List Bytes) (start : ℕ) (stored : ℕ → Option Bytes)
    → start + length bs < 2 ^ 64
    → ((k : ℕ) → k < length bs → stored (start + k) ≡ get_elem? bs k)
    → Stored stored (count start (length bs)) bs
count-Stored [] start stored small h = tt
count-Stored (b ∷ bs) start stored small h =
    let first : start + 0 ≡ start = omega arith in
    (
      (omega arith, rw first at (h 0 (omega arith))),
      count-Stored bs (suc start) stored (omega arith) (λ k below.
          let place : start + suc k ≡ suc start + k = omega arith in
          rw place at (h (suc k) (omega arith))),
    )

in_batch-inside : (start n k : ℕ) → k < n → in_batch start n (start + k) ≡ true
in_batch-inside start n k h = ground arith

pub rows_many-Stored :
    (bs : List Bytes) (s : Rows)
    → is_negative (rows_insert_many bs s).0 ≡ false
    → Stored (rows_insert_many bs s).2.row (rows_insert_many bs s).1 bs
rows_many-Stored bs s h = elim (Bool-cases (ltb (s.next + length bs) (2 ^ 64))) [
  | inl small ↦ rw small (
      count-Stored bs s.next _ (ground arith) (λ k below.
        let place : s.next + k - s.next ≡ k = omega arith in
        rw (in_batch-inside s.next (length bs) k below, place) refl))
  | inr large ↦ absurd (let h' = rw large at h in cc)
]

abbrev pub rows-BulkWrite : BulkWrite rows rows-KeyValue
rows-BulkWrite = record { many_stored = λ name buf lens s h. rows_many-Stored (cut lens buf) s h }
