-- ===== src/Txn/Laws.antt =====
-- What `run_optimistic` of bindings/python/pyx/__init__.py relies on of libpyx (include/pyx.h): which
-- transactions are open, and which commits have taken effect.
use pyx.Base.{ℕ, suc, ◌<◌, ◌≡◌, true, false, if◌then◌else◌}
use pyx.Base.Int.{is_negative}
use pyx.Txn.{Libpyx, OptimisticTxn, Callback}

module _ (lib : Libpyx) where
  open lib use {
    State, pyx_begin_optimistic, pyx_optimistic_commit, pyx_optimistic_abort, pyx_last_error,
    randrange, sleep,
  }

  -- `open_txns` counts the transactions that were begun and not destroyed, `commits` those whose writes
  -- took effect. A begin that returns no error gives a handle that is not null; a commit destroys its
  -- handle on every outcome, and takes effect exactly if it returns no error.
  pub record Accounting : Type 0 where
    pub open_txns : State → ℕ
    pub commits : State → ℕ
    pub begin_ok :
        (s : State)
        → is_negative (pyx_begin_optimistic s).0 ≡ false
        → (0 < (pyx_begin_optimistic s).1)
          × (open_txns (pyx_begin_optimistic s).2 ≡ suc (open_txns s))
    pub begin_failed :
        (s : State)
        → is_negative (pyx_begin_optimistic s).0 ≡ true
        → open_txns (pyx_begin_optimistic s).2 ≡ open_txns s
    pub begin_commits : (s : State) → commits (pyx_begin_optimistic s).2 ≡ commits s
    pub commit_open :
        (h : ℕ) (s : State)
        → 0 < open_txns s
        → suc (open_txns (pyx_optimistic_commit h s).1) ≡ open_txns s
    pub commit_commits :
        (h : ℕ) (s : State)
        → commits (pyx_optimistic_commit h s).1
          ≡ (if is_negative (pyx_optimistic_commit h s).0 then commits s else suc (commits s))
    pub abort_open :
        (h : ℕ) (s : State)
        → 0 < open_txns s
        → suc (open_txns (pyx_optimistic_abort h s)) ≡ open_txns s
    pub abort_commits : (h : ℕ) (s : State) → commits (pyx_optimistic_abort h s) ≡ commits s
    pub randrange_open : (n : ℕ) (s : State) → open_txns (randrange n s).1 ≡ open_txns s
    pub randrange_commits : (n : ℕ) (s : State) → commits (randrange n s).1 ≡ commits s
    pub sleep_open : (n : ℕ) (s : State) → open_txns (sleep n s) ≡ open_txns s
    pub sleep_commits : (n : ℕ) (s : State) → commits (sleep n s) ≡ commits s

  -- The callback reads and buffers writes: it leaves the transaction to `run_optimistic`, and commits
  -- nothing of its own.
  pub record LeavesOpen (a : Accounting) (fn : Callback lib) : Type 0 where
    pub keeps_handle : (t : OptimisticTxn) (s : State) → (fn t s).1 ≡ t
    pub keeps_open : (t : OptimisticTxn) (s : State) → a.open_txns (fn t s).2 ≡ a.open_txns s
    pub keeps_commits : (t : OptimisticTxn) (s : State) → a.commits (fn t s).2 ≡ a.commits s
