-- ===== src/Txn/Tests.antt =====
-- Runs of the transactions of bindings/python/pyx/__init__.py against a small database that refuses a given
-- number of commits.
use pyx.Base.{
  ℕ, zero, suc, ◌+◌, ◌-◌, ◌<◌, ◌≡◌, ◌↔◌, ◌⊎◌, inl, inr, refl, arith, if◌then◌else◌, Bool, true,
  false,
}
use pyx.Base.Int.{ℤ, negsuc, is_negative}
use pyx.Errors.{pyx_ok, pyx_write_conflict}
use pyx.Calls.{check}
use pyx.Result.{Result, Exn, ok, raised}
use pyx.Txn.{
  Libpyx, Callback, budget_error, run_optimistic, run_loop, transaction, with_optimistic, attempt,
  run_callback, begin_optimistic, settle, try_commit, back_off,
}
use pyx.Txn.Laws.{Accounting, LeavesOpen}
use pyx.Txn.Retry.{effects, run_optimistic-Balanced, with_optimistic-Balanced}
use pyx.Txn.Progress.{Contention, Hopeless, run_optimistic-returns, run_loop-exhausted}
use pyx.Txn.Context.{DataLock, Interrupted, transaction-released, transaction-held}

-- `refusals` is how many commits are still to be refused, `slept` the nanoseconds waited.
record Db : Type 0 where
  refusals : ℕ
  open_txns : ℕ
  commits : ℕ
  slept : ℕ
  locked : Bool

abbrev db_begin : Db → ℤ × ℕ × Db
db_begin d = (
  pyx_ok,
  suc d.commits,
  record {
    refusals = d.refusals;
    open_txns = suc d.open_txns;
    commits = d.commits;
    slept = d.slept;
    locked = d.locked;
  },
)

abbrev db_commit_at : ℕ → Db → ℤ × Db
db_commit_at zero d = (
  pyx_ok,
  record {
    refusals = zero;
    open_txns = d.open_txns - 1;
    commits = suc d.commits;
    slept = d.slept;
    locked = d.locked;
  },
)
db_commit_at (suc n) d = (
  pyx_write_conflict,
  record {
    refusals = n;
    open_txns = d.open_txns - 1;
    commits = d.commits;
    slept = d.slept;
    locked = d.locked;
  },
)

abbrev db_abort : Db → Db
db_abort d = record {
  refusals = d.refusals;
  open_txns = d.open_txns - 1;
  commits = d.commits;
  slept = d.slept;
  locked = d.locked;
}

abbrev db_sleep : ℕ → Db → Db
db_sleep n d = record {
  refusals = d.refusals;
  open_txns = d.open_txns;
  commits = d.commits;
  slept = d.slept + n;
  locked = d.locked;
}

abbrev set_locked : Bool → Db → Db
set_locked b d = record {
  refusals = d.refusals;
  open_txns = d.open_txns;
  commits = d.commits;
  slept = d.slept;
  locked = b;
}

-- A second `pyx_begin` is refused while the lock is held.
abbrev lock_at : Bool → Db → ℤ × Db
lock_at true d = (negsuc 7, d)
lock_at false d = (pyx_ok, set_locked true d)

abbrev small : Libpyx
small = record {
  State = Db;
  pyx_begin_optimistic = db_begin;
  pyx_optimistic_commit = λ h d. db_commit_at d.refusals d;
  pyx_optimistic_abort = λ h d. db_abort d;
  pyx_begin = λ d. lock_at d.locked d;
  pyx_commit = λ d. (pyx_ok, set_locked false d);
  pyx_abort = λ d. set_locked false d;
  pyx_last_error = λ d. "locked";
  randrange = λ n d. (n - 1, d);
  sleep = db_sleep;
}

abbrev contended : ℕ → Db
contended n = record { refusals = n; open_txns = 0; commits = 4; slept = 0; locked = false }

-- A callback that returns, and one that raises.
abbrev returning : Callback small
returning t d = (ok tt, t, d)

abbrev raising : Callback small
raising t d = (raised Exn.index_error, t, d)

-- Two conflicts: the third attempt returns, after waits of 99,999 and 199,999 nanoseconds.
two_conflicts :
    run_optimistic small returning 8 (contended 2)
    ≡ (ok tt, record { refusals = 0; open_txns = 0; commits = 5; slept = 299_998; locked = false })
unfolding run_optimistic run_loop attempt run_callback begin_optimistic check settle try_commit
    back_off
two_conflicts = refl

commit_at_open :
    (n : ℕ) (d : Db) → 0 < d.open_txns → suc ((db_commit_at n d).1.open_txns) ≡ d.open_txns
commit_at_open zero d h = omega arith
commit_at_open (suc n) d h = omega arith

commit_at_commits :
    (n : ℕ) (d : Db)
    → (db_commit_at n d).1.commits
      ≡ (if is_negative (db_commit_at n d).0 then d.commits else suc d.commits)
commit_at_commits zero d = refl
commit_at_commits (suc n) d = refl

begin_not_refused :
    (d : Db) → is_negative (db_begin d).0 ≡ true → (db_begin d).2.open_txns ≡ d.open_txns
begin_not_refused d h = absurd (cc)

abbrev small-Accounting : Accounting small
small-Accounting = record {
  open_txns = λ d. d.open_txns;
  commits = λ d. d.commits;
  begin_ok = λ s h. (omega arith, refl);
  begin_failed = λ s h. begin_not_refused s h;
  begin_commits = λ s. refl;
  commit_open = λ h s o. commit_at_open s.refusals s o;
  commit_commits = λ h s. commit_at_commits s.refusals s;
  abort_open = λ h s o. omega arith;
  abort_commits = λ h s. refl;
  randrange_open = λ n s. refl;
  randrange_commits = λ n s. refl;
  sleep_open = λ n s. refl;
  sleep_commits = λ n s. refl;
}

raising-LeavesOpen : LeavesOpen small small-Accounting raising
raising-LeavesOpen = record {
  keeps_handle = λ t s. refl;
  keeps_open = λ t s. refl;
  keeps_commits = λ t s. refl;
}

returning-LeavesOpen : LeavesOpen small small-Accounting returning
returning-LeavesOpen = record {
  keeps_handle = λ t s. refl;
  keeps_open = λ t s. refl;
  keeps_commits = λ t s. refl;
}

run_optimistic-Balanced_example :
    ((run_optimistic small returning 8 (contended 2)).1.open_txns ≡ 0)
    × ((run_optimistic small returning 8 (contended 2)).1.commits
        ≡ effects (run_optimistic small returning 8 (contended 2)).0 + 4)
run_optimistic-Balanced_example =
    run_optimistic-Balanced small small-Accounting returning returning-LeavesOpen 8 (contended 2)

with_optimistic-Balanced_example :
    ((with_optimistic small raising (contended 2)).1.open_txns ≡ 0)
    × ((with_optimistic small raising (contended 2)).1.commits
        ≡ effects (with_optimistic small raising (contended 2)).0 + 4)
with_optimistic-Balanced_example =
    with_optimistic-Balanced small small-Accounting raising raising-LeavesOpen (contended 2)

commit_at_decides :
    (n : ℕ) (d : Db)
    → n ≡ d.refusals
    → ((db_commit_at n d).0 ≡ pyx_ok)
      ⊎ (((db_commit_at n d).0 ≡ pyx_write_conflict) × ((db_commit_at n d).1.refusals < d.refusals))
commit_at_decides zero d e = inl refl
commit_at_decides (suc n) d e = inr (refl, omega arith)

abbrev returning-Contention : Contention small returning
returning-Contention = record {
  pressure = λ d. d.refusals;
  begin_accepted = λ s. (refl, omega arith, omega arith);
  callback_returns = λ t s. (refl, refl, omega arith);
  commit_decides = λ h s. commit_at_decides s.refusals s refl;
  randrange_pressure = λ n s. omega arith;
  sleep_pressure = λ n s. omega arith;
}

run_optimistic-returns_example : (run_optimistic small returning 8 (contended 7)).0 ≡ ok tt
run_optimistic-returns_example =
    run_optimistic-returns small returning returning-Contention 8 (contended 7) (omega arith)

-- The same database, where every commit is refused.
abbrev refusing : Libpyx
refusing = record {
  State = Db;
  pyx_begin_optimistic = db_begin;
  pyx_optimistic_commit = λ h d. (pyx_write_conflict, db_abort d);
  pyx_optimistic_abort = λ h d. db_abort d;
  pyx_begin = λ d. lock_at d.locked d;
  pyx_commit = λ d. (pyx_ok, set_locked false d);
  pyx_abort = λ d. set_locked false d;
  pyx_last_error = λ d. "locked";
  randrange = λ n d. (n - 1, d);
  sleep = db_sleep;
}

abbrev patient : Callback refusing
patient t d = (ok tt, t, d)

patient-Hopeless : Hopeless refusing patient
patient-Hopeless = record {
  begin_accepted = λ s. (refl, omega arith);
  callback_returns = λ t s. (refl, refl);
  commit_refused = λ h s. refl;
}

run_loop-exhausted_example :
    (run_loop refusing patient 8 100_000 (contended 0)).0 ≡ raised budget_error
run_loop-exhausted_example =
    run_loop-exhausted refusing patient patient-Hopeless 8 100_000 (contended 0)

lock_taken :
    (b : Bool) (d : Db) → is_negative (lock_at b d).0 ≡ false → (lock_at b d).1.locked ≡ true
lock_taken true d h = absurd (cc)
lock_taken false d h = refl

lock_refused :
    (b : Bool) (d : Db) → is_negative (lock_at b d).0 ≡ true → (lock_at b d).1.locked ≡ d.locked
lock_refused true d h = refl
lock_refused false d h = absurd (cc)

abbrev small-DataLock : DataLock small
small-DataLock = record {
  held = λ d. d.locked;
  begin_taken = λ s h. lock_taken s.locked s h;
  begin_refused = λ s h. lock_refused s.locked s h;
  commit_released = λ s. refl;
  abort_released = λ s. refl;
}

-- A block that raises an exception, and one that is interrupted.
abbrev failing : Db → Result (Unit {0}) × Db
failing d = (raised Exn.index_error, d)

abbrev interrupted : Db → Result (Unit {0}) × Db
interrupted d = (raised Exn.keyboard_interrupt, d)

transaction-released_example : (transaction small failing (contended 0)).1.locked ≡ false
transaction-released_example =
    transaction-released small small-DataLock failing (contended 0) refl (λ t. cc)

transaction-held_example : ((transaction small interrupted (contended 0)).1.locked ≡ true) ↔ (
    (is_negative (lock_at false (contended 0)).0 ≡ false)
    × Interrupted small (interrupted (lock_at false (contended 0)).1).0)
transaction-held_example =
    transaction-held small small-DataLock interrupted (contended 0) refl (λ t h. h)
