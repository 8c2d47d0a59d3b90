-- ===== src/Db.antt =====
-- The life of a `Db` and of a `Snapshot` of bindings/python/pyx/__init__.py, and the reads of a
-- `SnapshotCollection`. libpyx is a parameter.
pub mod Release
pub mod Views
mod Tests
use Prim.Native.String.{String}
use pyx.Base.{ℕ, Bool, true, false, Option, none, some, if◌then◌else◌, ◌==◌, List, [], ◌∷◌, length}
use pyx.Base.Bytes.{Bytes}
use pyx.Base.Int.{ℤ, int_eq}
use pyx.Errors.{pyx_not_found}
use pyx.Calls.{check, then_call, found}
use pyx.Result.{Result, ok, raised, out_of_fuel, ◌>>=◌}
use pyx.Doc.Utf8.{Str, utf8_encode}
use pyx.Doc.Value.{Value, dict, no_fields}
use pyx.Doc.Decode.{decode}
use pyx.Query.{PyxValue, BoundArg, to_pyx_value}
use pyx.Collection.{c_uint64, found_doc}
use pyx.Iter.{Cursors, iter}
use pyx.Scan.{Lookups, find_range}

-- The functions of the C ABI that are called here. A handle is `none` where it is a null pointer.
pub record Databases : Type 1 where
  pub State : Type 0
  pub pyx_open : Bytes → State → ℤ × ℕ × State
  pub pyx_close : ℕ → State → State
  pub pyx_set_sync_mode : Option ℕ → ℕ → State → State
  pub pyx_checkpoint : Option ℕ → State → ℤ × State
  pub pyx_create_collection : Option ℕ → Bytes → State → ℤ × ℕ × State
  pub pyx_snapshot_open : Option ℕ → State → ℤ × ℕ × State
  pub pyx_snapshot_close : ℕ → State → State
  pub pyx_snapshot_get : Option ℕ → Bytes → ℕ → State → ℤ × Bytes × State
  pub pyx_snapshot_find_one : Option ℕ → Bytes → Bytes → PyxValue → State → ℤ × ℕ × State
  pub pyx_buf_free : Bytes → State → State
  pub pyx_last_error : State → String

-- `_handle` of a Db; `none` is None, and a null pointer, which is as false.
pub record Db : Type 0 where
  pub handle : Option ℕ

-- `_handle` of a Snapshot.
pub record Snapshot : Type 0 where
  pub handle : Option ℕ

abbrev pub pyx_sync_full : ℕ
pyx_sync_full = 0

abbrev pub pyx_sync_normal : ℕ
pyx_sync_normal = 1

-- A `c_void_p` that an open wrote, as Python sees it.
abbrev pub handle_of : ℕ → Option ℕ
handle_of out = if out == 0 then none else some out

module _ (databases : Databases) where
  open databases use {
    State, pyx_open, pyx_close, pyx_set_sync_mode, pyx_checkpoint, pyx_create_collection,
    pyx_snapshot_open, pyx_snapshot_close, pyx_snapshot_get, pyx_snapshot_find_one, pyx_buf_free,
    pyx_last_error,
  }

  -- `Db.open`, where the path's encoding came to this end.
  unfoldable pub open_encoded : Result Bytes → State → Result Db × State
  open_encoded path s =
      then_call path
        (λ b t.
          let (rc, out, s') = pyx_open b t in
          (check pyx_last_error rc s' >>= λ _. ok (record { handle = handle_of out }), s'))
        s

  -- `Db.open`
  unfoldable pub open_db : Str → State → Result Db × State
  open_db path s = open_encoded (utf8_encode path) s

  -- `Db.close`
  unfoldable pub close : Db → State → Db × State
  close db s = elim db.handle [
    | none ↦ (db, s)
    | some h ↦ (record { handle = none }, pyx_close h s)
  ]

  unfoldable pub set_sync_mode : Bool → Db → State → State
  set_sync_mode normal db s =
      pyx_set_sync_mode db.handle (if normal then pyx_sync_normal else pyx_sync_full) s

  unfoldable pub checkpoint : Db → State → Result (Unit {0}) × State
  checkpoint db s = let (rc, s') = pyx_checkpoint db.handle s in (check pyx_last_error rc s', s')

  unfoldable pub create_collection : Str → Db → State → Result ℕ × State
  create_collection name db s =
      then_call (utf8_encode name)
        (λ nb t.
          let (rc, out, s') = pyx_create_collection db.handle nb t in
          (check pyx_last_error rc s' >>= λ _. ok out, s'))
        s

  -- `Db.snapshot`
  unfoldable pub snapshot : Db → State → Result Snapshot × State
  snapshot db s =
      let (rc, out, s') = pyx_snapshot_open db.handle s in
      (check pyx_last_error rc s' >>= λ _. ok (record { handle = handle_of out }), s')

  -- `Snapshot.close`
  unfoldable pub close_snapshot : Snapshot → State → Snapshot × State
  close_snapshot snap s = elim snap.handle [
    | none ↦ (snap, s)
    | some h ↦ (record { handle = none }, pyx_snapshot_close h s)
  ]

  -- `SnapshotCollection.get`
  unfoldable pub get : Snapshot → Bytes → ℤ → State → Result (Option Value) × State
  get snap name doc_id s =
      found_doc pyx_last_error pyx_buf_free (pyx_snapshot_get snap.handle name (c_uint64 doc_id) s)

  -- `SnapshotCollection.find_one`
  unfoldable pub find_one : Snapshot → Bytes → Str → Value → State → Result (Option ℕ) × State
  find_one snap name field value s =
      then_call (to_pyx_value value)
        (λ v t.
          then_call (utf8_encode field)
            (λ cb t'. found pyx_last_error (pyx_snapshot_find_one snap.handle name cb v t')) t)
        s

-- `SnapshotCollection.__iter__`: the snapshot's handle goes to the generator, for which None is the live
-- database.
unfoldable pub iter_view :
    (cursors : Cursors)
    → ℕ
    → Bytes
    → Snapshot
    → ℕ
    → cursors.State
    → Result (List (ℕ × Value)) × cursors.State
iter_view cursors fuel name snap wanted s = iter cursors fuel name snap.handle wanted s

-- `SnapshotCollection.find_range`, as `Collection.find_range` but for the handle.
unfoldable pub find_range_view :
    (lookups : Lookups)
    → ℕ
    → Bytes
    → Str
    → BoundArg
    → BoundArg
    → Value
    → Value
    → Value
    → Value
    → Snapshot
    → ℕ
    → lookups.State
    → Result (List ℕ) × lookups.State
find_range_view lookups fuel name field lo hi gte gt lte lt snap wanted s =
    find_range lookups fuel name field lo hi gte gt lte lt snap.handle wanted s
