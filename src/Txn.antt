-- ===== src/Txn.antt =====
-- Transactions of bindings/python/pyx/__init__.py: `OptimisticTxn`, `Db.run_optimistic` with its retries, and
-- the context manager `Db.transaction`; `TxnCollection` is a child. libpyx, the random numbers and the clock are a parameter.
pub mod Laws
pub mod Ops
pub mod Serial
pub mod Ended
pub mod Retry
pub mod Progress
pub mod Context
mod Tests
use Prim.Native.String.{String}
use pyx.Base.{
  ℕ, zero, suc, ◌+◌, ◌*◌, Bool, true, false, Option, none, some, if◌then◌else◌, ltb, ◌==◌, List, [],
  ◌∷◌,
}
use pyx.Base.Int.{ℤ, is_negative, int_eq}
use pyx.Errors.{
  PyxClass, PyxError, write_conflict, retry_budget_exhausted, from_status, pyx_write_conflict,
  pyx_retry_budget_exhausted,
}
use pyx.Calls.{check, then_call}
use pyx.Result.{Result, Exn, ok, raised, out_of_fuel, is_exception, ◌>>=◌}

-- The functions of the C ABI that are called here, on a state that holds the database, the threads
-- beside this one, the random generator and the clock. A call returns its status code first.
pub record Libpyx : Type 1 where
  pub State : Type 0
  pub pyx_begin_optimistic : State → ℤ × ℕ × State
  pub pyx_optimistic_commit : ℕ → State → ℤ × State
  pub pyx_optimistic_abort : ℕ → State → State
  pub pyx_begin : State → ℤ × State
  pub pyx_commit : State → ℤ × State
  pub pyx_abort : State → State
  pub pyx_last_error : State → String
  pub randrange : ℕ → State → ℕ × State
  pub sleep : ℕ → State → State

-- `_handle` of an OptimisticTxn; `none` is None, and a null pointer, which is as false.
pub record OptimisticTxn : Type 0 where
  pub handle : Option ℕ

-- One round of the loop ends it, or goes on to the next.
pub data Round : Type 0 where
  ends : Result (Unit {0}) → Round
  conflicts : Round

abbrev pub is_conflict_class : PyxClass → Bool
is_conflict_class write_conflict = true
is_conflict_class _ = false

-- `except WriteConflict` catches it.
abbrev pub is_write_conflict : Exn → Bool
is_write_conflict (Exn.raised_pyx e) = is_conflict_class e.cls
is_write_conflict _ = false

abbrev pub conflict_error : ℤ → Exn
conflict_error rc =
    Exn.raised_pyx
      (record { cls = write_conflict; status = rc; message = "OCC write conflict — retry" })

abbrev pub budget_error : Exn
budget_error = Exn.raised_pyx (record {
  cls = retry_budget_exhausted;
  status = pyx_retry_budget_exhausted;
  message = "OCC retry budget exhausted";
})

-- `cap_ns` at the first round, and its limit.
abbrev pub first_cap : ℕ
first_cap = 100_000

abbrev pub max_ns : ℕ
max_ns = 10_000_000

-- `min(cap_ns * 2, max_ns)`
abbrev pub next_cap : ℕ → ℕ
next_cap cap = if ltb max_ns (cap * 2) then max_ns else cap * 2

-- The transaction object, where the check passed.
unfoldable pub opened : Result (Unit {0}) → ℕ → Result OptimisticTxn
opened (ok _) out = ok (record { handle = if out == 0 then none else some out })
opened (raised e) out = raised e
opened out_of_fuel out = out_of_fuel

-- The round, where the callback returned and `txn.commit()` came to this end.
abbrev pub after_commit : Result (Unit {0}) → Round
after_commit (ok _) = ends (ok tt)
after_commit (raised e) = if is_write_conflict e then conflicts else ends (raised e)
after_commit out_of_fuel = ends out_of_fuel

module _ (lib : Libpyx) where
  open lib use {
    State, pyx_begin_optimistic, pyx_optimistic_commit, pyx_optimistic_abort, pyx_begin, pyx_commit,
    pyx_abort, pyx_last_error, randrange, sleep,
  }

  unfoldable pub begin_optimistic : State → Result OptimisticTxn × State
  unfolding opened
  begin_optimistic s =
      let (rc, out, s') = pyx_begin_optimistic s in (opened (check pyx_last_error rc s') out, s')

  -- The handle is given up on every outcome.
  unfoldable pub commit : OptimisticTxn → State → Result (Unit {0}) × OptimisticTxn × State
  commit txn s = elim txn.handle [
    | none ↦ (ok tt, txn, s)
    | some h ↦
        let (rc, s') = pyx_optimistic_commit h s in
        (
          if int_eq rc pyx_write_conflict
              then raised (conflict_error rc)
              else check pyx_last_error rc s',
          record { handle = none },
          s',
        )
  ]

  unfoldable pub abort : OptimisticTxn → State → OptimisticTxn × State
  abort txn s = elim txn.handle [
    | none ↦ (txn, s)
    | some h ↦ (record { handle = none }, pyx_optimistic_abort h s)
  ]

  -- `OptimisticTxn.__del__`, which raises nothing.
  unfoldable pub del_txn : OptimisticTxn → State → OptimisticTxn × State
  del_txn txn s = elim txn.handle [
    | none ↦ (txn, s)
    | some h ↦ (record { handle = none }, pyx_optimistic_abort h s)
  ]

  -- What the caller hands over: it may use the transaction, end it, or raise.
  abbrev pub Callback : Type 0
  Callback = OptimisticTxn → State → Result (Unit {0}) × OptimisticTxn × State

  -- `txn.commit()` under `try`, and the two ways out of it.
  unfoldable pub try_commit : OptimisticTxn → State → Round × State
  unfolding commit
  try_commit txn s = let (r, txn', s') = commit txn s in (after_commit r, s')

  -- The two ways out of `fn(txn)`; the abort is for every exception.
  unfoldable pub settle : Result (Unit {0}) → OptimisticTxn → State → Round × State
  settle (ok _) txn s = try_commit txn s
  settle (raised e) txn s = (ends (raised e), (abort txn s).1)
  settle out_of_fuel txn s = (ends out_of_fuel, (abort txn s).1)

  -- `fn(txn)`, where the transaction could be begun.
  unfoldable pub run_callback : Callback → Result OptimisticTxn → State → Round × State
  run_callback fn (ok txn) s = let (r, txn', s') = fn txn s in settle r txn' s'
  run_callback fn (raised e) s = (ends (raised e), s)
  run_callback fn out_of_fuel s = (ends out_of_fuel, s)

  -- One round of the loop, up to the wait.
  unfoldable pub attempt : Callback → State → Round × State
  attempt fn s = let (r, s') = begin_optimistic s in run_callback fn r s'

  -- The wait after a conflict, of less than `cap` nanoseconds.
  unfoldable pub back_off : ℕ → State → State
  back_off cap s =
      let drawn = if ltb 0 cap then randrange cap s else (0, s) in
      if ltb 0 drawn.0 then sleep drawn.0 drawn.1 else drawn.1

  -- `for _ in range(max_attempts)`
  unfoldable pub run_loop : Callback → ℕ → ℕ → State → Result (Unit {0}) × State
  run_loop fn zero cap s = (raised budget_error, s)
  run_loop fn (suc left) cap s = elim (attempt fn s).0 [
    | ends r ↦ (r, (attempt fn s).1)
    | conflicts ↦ run_loop fn left (next_cap cap) (back_off cap (attempt fn s).1)
  ]

  unfoldable pub run_optimistic : Callback → ℕ → State → Result (Unit {0}) × State
  run_optimistic fn max_attempts s = run_loop fn max_attempts first_cap s

  -- The end of `with db.transaction()`. Only an Exception is caught; a KeyboardInterrupt passes by
  -- both branches.
  unfoldable pub leave : Result (Unit {0}) → State → Result (Unit {0}) × State
  leave (ok _) s = let (rc, s') = pyx_commit s in (check pyx_last_error rc s', s')
  leave (raised e) s = if is_exception e then (raised e, pyx_abort s) else (raised e, s)
  leave out_of_fuel s = (out_of_fuel, s)

  -- The block, where the begin came to this end.
  unfoldable pub enter :
      Result (Unit {0}) → (State → Result (Unit {0}) × State) → State → Result (Unit {0}) × State
  enter (ok _) body s = let (r, s') = body s in leave r s'
  enter (raised e) body s = (raised e, s)
  enter out_of_fuel body s = (out_of_fuel, s)

  -- `with db.transaction(): body`
  unfoldable pub transaction :
      (State → Result (Unit {0}) × State) → State → Result (Unit {0}) × State
  transaction body s = let (rc, s') = pyx_begin s in enter (check pyx_last_error rc s') body s'

  -- `OptimisticTxn.__exit__`: `exc_type is not None` is the first argument.
  unfoldable pub exit : Bool → OptimisticTxn → State → Result (Unit {0}) × OptimisticTxn × State
  exit failed txn s = elim txn.handle [
    | none ↦ (ok tt, txn, s)
    | some h ↦ if failed then (let (txn', s') = abort txn s in (ok tt, txn', s')) else commit txn s
  ]

  unfoldable pub close_txn : Result (Unit {0}) → OptimisticTxn → State → Result (Unit {0}) × State
  close_txn (ok _) txn s = let (r, txn', s') = exit false txn s in (r, s')
  close_txn (raised e) txn s = let (r, txn', s') = exit true txn s in (r >>= λ _. raised e, s')
  close_txn out_of_fuel txn s = let (r, txn', s') = exit true txn s in (out_of_fuel, s')

  unfoldable pub with_txn : Callback → Result OptimisticTxn → State → Result (Unit {0}) × State
  with_txn body (ok txn) s = let (r, txn', s') = body txn s in close_txn r txn' s'
  with_txn body (raised e) s = (raised e, s)
  with_txn body out_of_fuel s = (out_of_fuel, s)

  -- `with db.begin_optimistic() as txn: body`
  unfoldable pub with_optimistic : Callback → State → Result (Unit {0}) × State
  with_optimistic body s = let (r, s') = begin_optimistic s in with_txn body r s'
