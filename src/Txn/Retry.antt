-- ===== src/Txn/Retry.antt =====
-- `run_optimistic` of bindings/python/pyx/__init__.py: every transaction that it begins is ended, and exactly
-- one commit takes effect if it returns, none if it raises.
use pyx.Base.{
  ℕ, zero, suc, ◌+◌, ◌≡◌, ◌⊎◌, inl, inr, refl, ◌∙◌, false, some, arith, ◌==◌, Bool-cases,
}
use pyx.Base.Int.{is_negative}
use pyx.Calls.{check}
use pyx.Result.{Result, ok, raised, out_of_fuel}
use pyx.Txn.{
  settle, Libpyx, close_txn, exit, with_txn, with_optimistic, OptimisticTxn, Callback, Round, ends,
  conflicts, begin_optimistic, commit, abort, try_commit, run_callback, attempt, back_off, run_loop,
  run_optimistic, next_cap, first_cap,
}
use pyx.Txn.Laws.{Accounting, LeavesOpen}

abbrev pub effects {ℓ} : {A : Type ℓ} → Result A → ℕ
effects (ok _) = 1
effects _ = 0

abbrev round_effects : Round → ℕ
round_effects (ends r) = effects r
round_effects conflicts = 0

pub Round-cases : (r : Round) → ((out : Result (Unit {0})) × (r ≡ ends out)) ⊎ (r ≡ conflicts)
Round-cases (ends out) = inl (out, refl)
Round-cases conflicts = inr refl

module _ (lib : Libpyx) (a : Accounting lib) where
  open lib use {State, pyx_begin_optimistic, pyx_optimistic_commit, randrange, sleep}
  open a use {open_txns, commits}

  -- A round that began with `n` open transactions and `c` commits ends with as many open, and with the
  -- commits that its outcome stands for.
  abbrev Balanced : ℕ → ℕ → Round × State → Type 0
  Balanced n c (r, s) = (open_txns s ≡ n) × (commits s ≡ round_effects r + c)

  try_commit-Balanced :
      (h n : ℕ) (s : State)
      → open_txns s ≡ suc n
      → Balanced n (commits s) (try_commit lib (record { handle = some h }) s)
  unfolding try_commit check
  try_commit-Balanced h n s o = ground (arith, a.commit_open h s, a.commit_commits h s)

  abort-Balanced :
      (h n : ℕ) (s : State)
      → open_txns s ≡ suc n
      → (open_txns (abort lib (record { handle = some h }) s).1 ≡ n)
        × (commits (abort lib (record { handle = some h }) s).1 ≡ 0 + commits s)
  unfolding abort
  abort-Balanced h n s o = (omega (arith, a.abort_open h s), omega (arith, a.abort_commits h s))

  settle-Balanced :
      (r : Result (Unit {0})) (h n : ℕ) (s : State)
      → open_txns s ≡ suc n
      → Balanced n (commits s) (settle lib r (record { handle = some h }) s)
  unfolding settle
  settle-Balanced (ok _) h n s o = try_commit-Balanced h n s o
  settle-Balanced (raised e) h n s o = abort-Balanced h n s o
  settle-Balanced out_of_fuel h n s o = abort-Balanced h n s o

  module _ (fn : Callback lib) (law : LeavesOpen lib a fn) where
    run_callback-Balanced :
        (h n : ℕ) (s : State)
        → open_txns s ≡ suc n
        → Balanced n (commits s) (run_callback lib fn (ok (record { handle = some h })) s)
    unfolding run_callback
    run_callback-Balanced h n s o =
        let t : OptimisticTxn = record { handle = some h } in
        rw (law.keeps_handle t s, ← law.keeps_commits t s)
          (settle-Balanced (fn t s).0 h n (fn t s).2 (law.keeps_open t s ∙ o))

    attempt-Balanced : (s : State) → Balanced (open_txns s) (commits s) (attempt lib fn s)
    unfolding attempt begin_optimistic check run_callback
    attempt-Balanced s = elim (Bool-cases (is_negative (pyx_begin_optimistic s).0)) [
      | inl failed ↦ rw failed (a.begin_failed s failed, omega (arith, a.begin_commits s))
      | inr begun ↦
          let s' : State = (pyx_begin_optimistic s).2 in
          let real : ((pyx_begin_optimistic s).1 == 0) ≡ false =
            ground (arith, a.begin_ok s begun) in
          rw (begun, real, ← a.begin_commits s)
            (run_callback-Balanced (pyx_begin_optimistic s).1 (open_txns s) s'
              (a.begin_ok s begun).1)
    ]

    back_off-open : (cap : ℕ) (s : State) → open_txns (back_off lib cap s) ≡ open_txns s
    unfolding back_off
    back_off-open cap s =
        ground (arith, a.randrange_open cap s, a.sleep_open (randrange cap s).0 (randrange cap s).1)

    back_off-commits : (cap : ℕ) (s : State) → commits (back_off lib cap s) ≡ commits s
    unfolding back_off
    back_off-commits cap s =
        ground (
          arith,
          a.randrange_commits cap s,
          a.sleep_commits (randrange cap s).0 (randrange cap s).1,
        )

    run_loop-Balanced :
        (left cap : ℕ) (s : State)
        → (open_txns (run_loop lib fn left cap s).1 ≡ open_txns s)
          × (commits (run_loop lib fn left cap s).1
              ≡ effects (run_loop lib fn left cap s).0 + commits s)
    unfolding run_loop
    run_loop-Balanced zero cap s = (refl, omega arith)
    run_loop-Balanced (suc left) cap s =
        let (o, c) = attempt-Balanced s in
        elim (Round-cases (attempt lib fn s).0) [
          | inl (r, e) ↦ rw (e, run_loop) (o, rw e at c)
          | inr e ↦
              let c' : commits (attempt lib fn s).1 ≡ commits s = omega (arith, rw e at c) in
              let waited = back_off lib cap (attempt lib fn s).1 in
              let (o2, c2) = run_loop-Balanced left (next_cap cap) waited in
              rw (e, run_loop)
                (
                  o2 ∙ back_off-open cap (attempt lib fn s).1 ∙ o,
                  omega (arith, c2, back_off-commits cap (attempt lib fn s).1, c'),
                )
        ]

    -- However the attempts turn out, `run_optimistic` leaves no transaction open; exactly one commit
    -- has taken effect if it returns, and none if it raises.
    pub run_optimistic-Balanced :
        (max_attempts : ℕ) (s : State)
        → (open_txns (run_optimistic lib fn max_attempts s).1 ≡ open_txns s)
          × (commits (run_optimistic lib fn max_attempts s).1
              ≡ effects (run_optimistic lib fn max_attempts s).0 + commits s)
    unfolding run_optimistic
    run_optimistic-Balanced max_attempts s = run_loop-Balanced max_attempts first_cap s

    -- `with db.begin_optimistic() as txn: body`
    close_txn-Balanced :
        (r : Result (Unit {0})) (h n : ℕ) (s : State)
        → open_txns s ≡ suc n
        → (open_txns (close_txn lib r (record { handle = some h }) s).1 ≡ n)
          × (commits (close_txn lib r (record { handle = some h }) s).1
              ≡ effects (close_txn lib r (record { handle = some h }) s).0 + commits s)
    unfolding close_txn exit commit abort check
    close_txn-Balanced (ok _) h n s o = ground (arith, a.commit_open h s, a.commit_commits h s)
    close_txn-Balanced (raised e) h n s o =
        (omega (arith, a.abort_open h s), omega (arith, a.abort_commits h s))
    close_txn-Balanced out_of_fuel h n s o =
        (omega (arith, a.abort_open h s), omega (arith, a.abort_commits h s))

    with_txn-Balanced :
        (h n : ℕ) (s : State)
        → open_txns s ≡ suc n
        → (open_txns (with_txn lib fn (ok (record { handle = some h })) s).1 ≡ n)
          × (commits (with_txn lib fn (ok (record { handle = some h })) s).1
              ≡ effects (with_txn lib fn (ok (record { handle = some h })) s).0 + commits s)
    unfolding with_txn
    with_txn-Balanced h n s o =
        let t : OptimisticTxn = record { handle = some h } in
        rw (law.keeps_handle t s, ← law.keeps_commits t s)
          (close_txn-Balanced (fn t s).0 h n (fn t s).2 (law.keeps_open t s ∙ o))

    -- `with db.begin_optimistic()` ends its transaction too: by a commit where the block returns, and by
    -- an abort where it raises.
    pub with_optimistic-Balanced :
        (s : State)
        → (open_txns (with_optimistic lib fn s).1 ≡ open_txns s)
          × (commits (with_optimistic lib fn s).1
              ≡ effects (with_optimistic lib fn s).0 + commits s)
    unfolding with_optimistic begin_optimistic check with_txn
    with_optimistic-Balanced s = elim (Bool-cases (is_negative (pyx_begin_optimistic s).0)) [
      | inl failed ↦
          rw (failed, with_optimistic) (a.begin_failed s failed, omega (arith, a.begin_commits s))
      | inr begun ↦
          let s' : State = (pyx_begin_optimistic s).2 in
          let real : ((pyx_begin_optimistic s).1 == 0) ≡ false =
            ground (arith, a.begin_ok s begun) in
          rw (begun, real, with_optimistic, ← a.begin_commits s)
            (with_txn-Balanced (pyx_begin_optimistic s).1 (open_txns s) s' (a.begin_ok s begun).1)
    ]
