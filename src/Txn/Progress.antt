-- ===== src/Txn/Progress.antt =====
-- `run_optimistic` of bindings/python/pyx/__init__.py under contention that passes: it returns before its
-- attempts run out.
use pyx.Base.{ℕ, zero, suc, ◌≤◌, ◌<◌, ◌≡◌, ◌⊎◌, inl, inr, refl, false, some, arith, ◌==◌}
use pyx.Errors.{pyx_ok, pyx_write_conflict}
use pyx.Calls.{check}
use pyx.Result.{ok, raised}
use pyx.Txn.{
  Libpyx, OptimisticTxn, Callback, Round, ends, conflicts, begin_optimistic, try_commit, settle,
  run_callback, attempt, back_off, run_loop, run_optimistic, next_cap, first_cap, budget_error,
}

module _ (lib : Libpyx) (fn : Callback lib) where
  open lib use {State, pyx_begin_optimistic, pyx_optimistic_commit, randrange, sleep}

  -- `pressure` bounds the conflicts that are still to come. A transaction can be begun, the callback
  -- returns and leaves its transaction open, and a commit is accepted or meets one of those conflicts.
  pub record Contention : Type 0 where
    pub pressure : State → ℕ
    pub begin_accepted :
        (s : State)
        → ((pyx_begin_optimistic s).0 ≡ pyx_ok)
          × (0 < (pyx_begin_optimistic s).1)
          × (pressure (pyx_begin_optimistic s).2 ≤ pressure s)
    pub callback_returns :
        (t : OptimisticTxn) (s : State)
        → ((fn t s).0 ≡ ok tt) × ((fn t s).1 ≡ t) × (pressure (fn t s).2 ≤ pressure s)
    pub commit_decides :
        (h : ℕ) (s : State)
        → ((pyx_optimistic_commit h s).0 ≡ pyx_ok)
          ⊎ (((pyx_optimistic_commit h s).0 ≡ pyx_write_conflict)
              × (pressure (pyx_optimistic_commit h s).1 < pressure s))
    pub randrange_pressure : (n : ℕ) (s : State) → pressure (randrange n s).1 ≤ pressure s
    pub sleep_pressure : (n : ℕ) (s : State) → pressure (sleep n s) ≤ pressure s

  module _ (c : Contention) where
    open c use {pressure}

    -- A round that returns, or a conflict that takes from the pressure.
    abbrev Advances : State → Round × State → Type 0
    Advances s (r, t) = (r ≡ ends (ok tt)) ⊎ ((r ≡ conflicts) × (pressure t < pressure s))

    try_commit-Advances :
        (h : ℕ) (s : State) → Advances s (try_commit lib (record { handle = some h }) s)
    unfolding try_commit check
    try_commit-Advances h s = elim (c.commit_decides h s) [
      | inl accepted ↦ rw (accepted, try_commit) (inl refl)
      | inr (refused, less) ↦ rw (refused, try_commit) (inr (refl, less))
    ]

    callback-Advances :
        (h : ℕ) (s : State) → Advances s (run_callback lib fn (ok (record { handle = some h })) s)
    unfolding run_callback settle
    callback-Advances h s =
        let t : OptimisticTxn = record { handle = some h } in
        let (returns, kept, less) = c.callback_returns t s in
        elim (try_commit-Advances h (fn t s).2) [
          | inl done ↦ rw (returns, kept) (inl done)
          | inr (again, fell) ↦ rw (returns, kept) (inr (again, omega arith))
        ]

    attempt-Advances : (s : State) → Advances s (attempt lib fn s)
    unfolding attempt begin_optimistic check
    attempt-Advances s =
        let (accepted, real, less) = c.begin_accepted s in
        let handle : ((pyx_begin_optimistic s).1 == 0) ≡ false = ground arith in
        elim (callback-Advances (pyx_begin_optimistic s).1 (pyx_begin_optimistic s).2) [
          | inl done ↦ rw (accepted, handle, attempt) (inl done)
          | inr (again, fell) ↦ rw (accepted, handle, attempt) (inr (again, omega arith))
        ]

    back_off_pressure : (cap : ℕ) (s : State) → pressure (back_off lib cap s) ≤ pressure s
    unfolding back_off
    back_off_pressure cap s = ground (
      arith,
      c.randrange_pressure cap s,
      c.sleep_pressure (randrange cap s).0 (randrange cap s).1,
      c.sleep_pressure 0 s,
    )

    run_loop-returns :
        (left cap : ℕ) (s : State) → pressure s < left → (run_loop lib fn left cap s).0 ≡ ok tt
    unfolding run_loop
    run_loop-returns zero cap s h = absurd (omega arith)
    run_loop-returns (suc left) cap s h = elim (attempt-Advances s) [
      | inl done ↦ rw (done, run_loop)
      | inr (again, fell) ↦
          rw (again, run_loop)
            (run_loop-returns left (next_cap cap) (back_off lib cap (attempt lib fn s).1)
              (omega (arith, back_off_pressure cap (attempt lib fn s).1)))
    ]

    -- With more attempts than conflicts to come, `run_optimistic` returns.
    pub run_optimistic-returns :
        (max_attempts : ℕ) (s : State)
        → pressure s < max_attempts
        → (run_optimistic lib fn max_attempts s).0 ≡ ok tt
    unfolding run_optimistic
    run_optimistic-returns max_attempts s h = run_loop-returns max_attempts first_cap s h

  -- Commits that all conflict, of a callback that returns.
  pub record Hopeless : Type 0 where
    pub begin_accepted :
        (s : State) → ((pyx_begin_optimistic s).0 ≡ pyx_ok) × (0 < (pyx_begin_optimistic s).1)
    pub callback_returns : (t : OptimisticTxn) (s : State) → ((fn t s).0 ≡ ok tt) × ((fn t s).1 ≡ t)
    pub commit_refused : (h : ℕ) (s : State) → (pyx_optimistic_commit h s).0 ≡ pyx_write_conflict

  module _ (c : Hopeless) where
    attempt-conflicts : (s : State) → (attempt lib fn s).0 ≡ conflicts
    unfolding attempt begin_optimistic check run_callback settle try_commit
    attempt-conflicts s =
        let (accepted, real) = c.begin_accepted s in
        let handle : ((pyx_begin_optimistic s).1 == 0) ≡ false = ground arith in
        let t : OptimisticTxn = record { handle = some (pyx_begin_optimistic s).1 } in
        let (returns, kept) = c.callback_returns t (pyx_begin_optimistic s).2 in
        rw
          (
            accepted,
            handle,
            returns,
            kept,
            c.commit_refused (pyx_begin_optimistic s).1 (fn t (pyx_begin_optimistic s).2).2,
            attempt,
          )
          refl

    -- Then every number of attempts is used up, and RetryBudgetExhausted is raised.
    pub run_loop-exhausted :
        (left cap : ℕ) (s : State) → (run_loop lib fn left cap s).0 ≡ raised budget_error
    unfolding run_loop
    run_loop-exhausted zero cap s = refl
    run_loop-exhausted (suc left) cap s =
        rw (attempt-conflicts s, run_loop)
          (run_loop-exhausted left (next_cap cap) (back_off lib cap (attempt lib fn s).1))
