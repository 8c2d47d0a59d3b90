-- ===== src/Txn/Ended.antt =====
-- `__exit__` and then `__del__` of `OptimisticTxn` in bindings/python/pyx/__init__.py.
use pyx.Base.{◌≡◌, refl, Bool, Bool-cases, Option-cases, inl, inr, none}
use pyx.Txn.{Libpyx, OptimisticTxn, commit, abort, exit, del_txn}

module _ (lib : Libpyx) (txn : OptimisticTxn) (s : lib.State) where
  abort-handle : (abort lib txn s).0.handle ≡ none
  unfolding abort
  abort-handle = elim (Option-cases txn.handle) [
    | inl ended ↦ rw (ended, abort) ended
    | inr (h, active) ↦ rw (active, abort) refl
  ]

  commit-handle : (commit lib txn s).1.handle ≡ none
  unfolding commit
  commit-handle = elim (Option-cases txn.handle) [
    | inl ended ↦ rw (ended, commit) ended
    | inr (h, active) ↦ rw (active, commit) refl
  ]

  exit-handle : (failed : Bool) → (exit lib failed txn s).1.handle ≡ none
  unfolding exit
  exit-handle failed = elim (Option-cases txn.handle) [
    | inl ended ↦ rw (ended, exit) ended
    | inr (h, active) ↦ elim (Bool-cases failed) [
      | inl aborted ↦ rw (active, aborted, exit) abort-handle
      | inr fine ↦ rw (active, fine, exit) commit-handle
    ]
  ]

  -- A transaction that `__exit__` has ended is not touched again by `__del__`.
  del_txn-exit :
      (failed : Bool)
      → (del_txn lib (exit lib failed txn s).1 (exit lib failed txn s).2).1
        ≡ (exit lib failed txn s).2
  unfolding del_txn
  del_txn-exit failed = rw (exit-handle failed, del_txn)
