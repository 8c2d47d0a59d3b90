-- ===== src/Db/Views.antt =====
-- What a `SnapshotCollection` of bindings/python/pyx/__init__.py reads once its snapshot is closed.
use pyx.Base.{ℕ, ◌≡◌, refl, ap, Option, none, some}
use pyx.Base.Bytes.{Bytes}
use pyx.Doc.Utf8.{Str}
use pyx.Doc.Value.{Value}
use pyx.Query.{BoundArg}
use pyx.Iter.{Cursors, iter}
use pyx.Scan.{Lookups, find_range}
use pyx.Db.{Databases, Snapshot, close_snapshot, iter_view, find_range_view}

module _ (databases : Databases) where
  open databases use {State}

  close_snapshot-handle :
      (h : Option ℕ) (s : State)
      → (close_snapshot databases (record { handle = h }) s).0 ≡ record { handle = none }
  unfolding close_snapshot
  close_snapshot-handle none s = refl
  close_snapshot-handle (some h) s = refl

  -- After `Snapshot.close` its collections still iterate and still scan ranges: they do so over the live
  -- database, and yield what a `Collection` of that name yields.
  pub closed_view-is_live :
      (cursors : Cursors) (lookups : Lookups) (fuel : ℕ) (name : Bytes) (field : Str)
      (lo hi : BoundArg) (gte gt lte lt : Value) (snap : Snapshot) (wanted : ℕ) (s : State)
      (t : cursors.State) (u : lookups.State)
      → (iter_view cursors fuel name (close_snapshot databases snap s).0 wanted t
          ≡ iter cursors fuel name none wanted t)
        × (find_range_view lookups fuel name field lo hi gte gt lte lt
              (close_snapshot databases snap s).0
              wanted
              u
            ≡ find_range lookups fuel name field lo hi gte gt lte lt none wanted u)
  unfolding iter_view find_range_view
  closed_view-is_live cursors lookups fuel name field lo hi gte gt lte lt snap wanted s t u =
      let closed = ap (λ (x : Snapshot). x.handle) (close_snapshot-handle snap.handle s) in
      (
        ap (λ (h : Option ℕ). iter cursors fuel name h wanted t) closed,
        ap (λ (h : Option ℕ). find_range lookups fuel name field lo hi gte gt lte lt h wanted u)
            closed,
      )
