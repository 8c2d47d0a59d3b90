-- ===== src/Txn/Context.antt =====
-- `Db.transaction` of bindings/python/pyx/__init__.py: who holds the data lock after the block.
use pyx.Base.{◌≡◌, ◌↔◌, refl, ◌∙◌, Bool, true, false, Bool-cases, inl, inr}
use pyx.Base.Int.{is_negative}
use pyx.Calls.{check}
use pyx.Result.{Result, ok, raised, out_of_fuel, is_exception}
use pyx.Txn.{Libpyx, leave, enter, transaction}

module _ (lib : Libpyx) where
  open lib use {State, pyx_begin, pyx_commit, pyx_abort}

  -- The data lock of `pyx_begin`: taken where it returns no error, given back by a commit on every
  -- outcome and by an abort.
  pub record DataLock : Type 0 where
    pub held : State → Bool
    pub begin_taken :
        (s : State) → is_negative (pyx_begin s).0 ≡ false → held (pyx_begin s).1 ≡ true
    pub begin_refused :
        (s : State) → is_negative (pyx_begin s).0 ≡ true → held (pyx_begin s).1 ≡ held s
    pub commit_released : (s : State) → held (pyx_commit s).1 ≡ false
    pub abort_released : (s : State) → held (pyx_abort s) ≡ false

  abbrev pub Interrupted : Result (Unit {0}) → Type 0
  Interrupted (raised e) = is_exception e ≡ false
  Interrupted (ok _) = ⊥
  Interrupted out_of_fuel = Unit

  module _ (lock : DataLock) (body : State → Result (Unit {0}) × State) where
    open lock use {held}

    -- The end of the block: the lock is free afterwards, unless it was interrupted.
    leave-released :
        (r : Result (Unit {0})) (s : State) → ¬ Interrupted r → held (leave lib r s).1 ≡ false
    unfolding leave
    leave-released (ok _) s calm = lock.commit_released s
    leave-released (raised e) s calm = elim (Bool-cases (is_exception e)) [
      | inl caught ↦ rw caught (lock.abort_released s)
      | inr missed ↦ absurd (calm missed)
    ]
    leave-released out_of_fuel s calm = absurd (calm tt)

    -- A block that was not interrupted leaves the lock free, whether it returned or raised, and
    -- whether the commit succeeded.
    pub transaction-released :
        (s : State)
        → held s ≡ false
        → ((t : State) → ¬ Interrupted (body t).0)
        → held (transaction lib body s).1 ≡ false
    unfolding transaction check enter
    transaction-released s free calm = elim (Bool-cases (is_negative (pyx_begin s).0)) [
      | inl refused ↦ rw (refused, transaction) (lock.begin_refused s refused ∙ free)
      | inr begun ↦
          rw (begun, transaction)
            (leave-released (body (pyx_begin s).1).0 (body (pyx_begin s).1).1
              (calm (pyx_begin s).1))
    ]

    -- The end of a block in which the lock is held.
    leave-held :
        (r : Result (Unit {0})) (s : State)
        → held s ≡ true
        → (held (leave lib r s).1 ≡ true) ↔ Interrupted r
    unfolding leave
    leave-held (ok _) s kept = let free = lock.commit_released s in ((λ h. cc), λ h. absurd h)
    leave-held (raised e) s kept = elim (Bool-cases (is_exception e)) [
      | inl caught ↦ let free = lock.abort_released s in rw caught ((λ h. cc), λ h. cc)
      | inr missed ↦ rw missed ((λ h. refl), λ h. kept)
    ]
    leave-held out_of_fuel s kept = ((λ h. tt), λ h. kept)

    -- Where the data lock is free before, a begin that is accepted takes it, a commit and an abort give it back, and
    -- the block keeps the lock: after `Db.transaction` the lock is held exactly if the begin was accepted and the
    -- block was interrupted by an exception outside Exception or did not end.
    pub transaction-held :
        (s : State)
        → held s ≡ false
        → ((t : State) → held t ≡ true → held (body t).1 ≡ true)
        → (held (transaction lib body s).1 ≡ true)
          ↔ ((is_negative (pyx_begin s).0 ≡ false) × Interrupted (body (pyx_begin s).1).0)
    unfolding transaction check enter
    transaction-held s free keeps = elim (Bool-cases (is_negative (pyx_begin s).0)) [
      | inl refused ↦
          let still = lock.begin_refused s refused ∙ free in
          rw (refused, transaction) ((λ h. cc), λ h. absurd (let never = h.0 in cc))
      | inr begun ↦
          let t : State = (pyx_begin s).1 in
          let (left, back) =
            leave-held (body t).0 (body t).1 (keeps t (lock.begin_taken s begun)) in
          rw (begun, transaction) ((λ h. (refl, left h)), λ h. back h.1)
    ]
