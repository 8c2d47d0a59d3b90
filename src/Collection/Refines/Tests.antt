-- ===== src/Collection/Refines/Tests.antt =====
-- A run of `Collection` of bindings/python/pyx/__init__.py against a map.
use pyx.Base.{ℕ, ◌≡◌, ◌≢◌, refl, true, Option, none, some, List, [], ◌∷◌, arith}
use pyx.Base.Bytes.{Bytes}
use pyx.Base.Int.{pos, is_negative}
use pyx.Doc.Value.{Value, str_key, int, dict, field, no_fields}
use pyx.Collection.Tests.Table.{Rows, rows, empty_rows, rows-KeyValue, rows_insert, rows_delete}
use pyx.Collection.Refines.{
  Op, store, add, fetch, remove, Docs, Steps, Transactional, Represents, perform_all,
}
use pyx.Collection.Refines.Simulation.{perform_all-Steps}

insert_failed :
    (b : Bytes) (at : Option Bytes) (s : Rows) (other : ℕ)
    → is_negative (rows_insert b at s).0 ≡ true
    → (rows_insert b at s).2.row other ≡ s.row other
insert_failed b none s other h = absurd (cc)
insert_failed b (some x) s other h = refl

insert_other :
    (b : Bytes) (at : Option Bytes) (s : Rows) (other : ℕ)
    → other ≢ (rows_insert b at s).1
    → (rows_insert b at s).2.row other ≡ s.row other
insert_other b none s other apart = ground arith
insert_other b (some x) s other apart = refl

delete_other :
    (id other : ℕ) (at : Option Bytes) (s : Rows)
    → other ≢ id
    → (rows_delete id at s).1.row other ≡ s.row other
delete_other id other none s apart = refl
delete_other id other (some b) s apart = ground arith

rows-Transactional : Transactional rows rows-KeyValue []
rows-Transactional = record {
  put_failed = λ id other b s h. absurd (cc);
  insert_failed = λ other b s h. insert_failed b (s.row s.next) s other h;
  insert_other = λ other b s h apart. insert_other b (s.row s.next) s other apart;
  get_keeps = λ id other s. refl;
  free_keeps = λ b other s. refl;
  delete_other = λ id other s apart. delete_other id other (s.row id) s apart;
}

abbrev no_docs : Docs
no_docs id = none

-- {"a": 1}
abbrev doc : Value
doc = dict (field (str_key (b'a' ∷ [])) (int (pos 1)) no_fields)

abbrev calls : List Op
calls =
    add doc
    ∷ store (pos 7) doc
    ∷ fetch (pos 1)
    ∷ remove (pos 7)
    ∷ remove (pos 7)
    ∷ fetch (pos 7)
    ∷ []

perform_all-Steps_example :
    (docs : Docs) × Steps no_docs calls (perform_all rows rows-KeyValue [] calls empty_rows).0 docs
    × Represents rows rows-KeyValue [] (perform_all rows rows-KeyValue [] calls empty_rows).1 docs
perform_all-Steps_example =
    perform_all-Steps rows rows-KeyValue [] rows-Transactional calls empty_rows no_docs
      ((tt, tt, tt), ((tt, tt, tt), (tt, (tt, (tt, (tt, tt)))))) (λ id. tt)
