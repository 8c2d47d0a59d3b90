-- ===== src/Txn/Serial.antt =====
-- A read and a write of one document in `run_optimistic` of bindings/python/pyx/__init__.py take effect together.
use pyx.Base.{
  ℕ, zero, suc, ◌<◌, ◌≡◌, ◌≢◌, ◌⊎◌, inl, inr, refl, false, Bool-cases, Option, none, some, arith,
  ◌==◌, if◌then◌else◌,
}
use pyx.Base.Bytes.{Bytes}
use pyx.Base.Int.{is_negative, int_eq}
use pyx.Errors.{pyx_not_found}
use pyx.Calls.{check}
use pyx.Result.{Result, ok, raised, out_of_fuel}
use pyx.Txn.{
  Libpyx, OptimisticTxn, Callback, ends, conflicts, begin_optimistic, try_commit, settle,
  run_callback, attempt, back_off, run_loop, run_optimistic, next_cap, first_cap,
}
use pyx.Txn.Ops.{Operations}
use pyx.Txn.Retry.{Round-cases}

-- What a name and an id hold.
abbrev pub Store : Type 0
Store = Bytes → ℕ → Option Bytes

module _ (lib : Libpyx) (operations : Operations lib) where
  open lib use {State, pyx_begin_optimistic, pyx_optimistic_commit}
  open operations use {pyx_optimistic_get, pyx_optimistic_put, pyx_buf_free}

  -- `committed` is what is durable, whoever wrote it; every call may come after writes of other threads.
  -- `reached h s` is the state that a commit called at `s` finds when it takes effect.
  -- `Seen h s name id v` says that the transaction has read `v`, and `written h s` is its only buffered write,
  -- if there is one. A commit that returns no error found a store in which everything that the transaction
  -- has read still holds, and left that store with the write in it.
  pub record Validating : Type 1 where
    pub committed : State → Store
    pub reached : ℕ → State → State
    pub Seen : ℕ → State → Bytes → ℕ → Option Bytes → Type 0
    pub written : ℕ → State → Option (Bytes × ℕ × Bytes)
    pub begin_real :
        (s : State)
        → is_negative (pyx_begin_optimistic s).0 ≡ false
        → 0 < (pyx_begin_optimistic s).1
    pub begin_empty :
        (s : State)
        → is_negative (pyx_begin_optimistic s).0 ≡ false
        → written (pyx_begin_optimistic s).1 (pyx_begin_optimistic s).2 ≡ none
    pub get_seen :
        (h : ℕ) (name : Bytes) (id : ℕ) (s : State)
        → written h s ≡ none
        → is_negative (pyx_optimistic_get (some h) name id s).0 ≡ false
        → Seen h (pyx_optimistic_get (some h) name id s).2 name id (
            if int_eq (pyx_optimistic_get (some h) name id s).0 pyx_not_found
            then none
            else some (pyx_optimistic_get (some h) name id s).1)
    pub get_writes :
        (h : ℕ) (name : Bytes) (id : ℕ) (s : State)
        → written h (pyx_optimistic_get (some h) name id s).2 ≡ written h s
    pub free_keeps :
        (h : ℕ) (b name : Bytes) (id : ℕ) (v : Option Bytes) (s : State)
        → Seen h s name id v
        → Seen h (pyx_buf_free b s) name id v × (written h (pyx_buf_free b s) ≡ written h s)
    pub put_written :
        (h : ℕ) (name : Bytes) (id : ℕ) (b : Bytes) (s : State)
        → is_negative (pyx_optimistic_put (some h) name id b s).0 ≡ false
        → written h s ≡ none
        → written h (pyx_optimistic_put (some h) name id b s).1 ≡ some (name, id, b)
    pub put_keeps :
        (h : ℕ) (name : Bytes) (id : ℕ) (b : Bytes) (v : Option Bytes) (s : State)
        → Seen h s name id v
        → Seen h (pyx_optimistic_put (some h) name id b s).1 name id v
    pub commit_valid :
        (h : ℕ) (name : Bytes) (id : ℕ) (v : Option Bytes) (s : State)
        → is_negative (pyx_optimistic_commit h s).0 ≡ false
        → Seen h s name id v
        → committed (reached h s) name id ≡ v
    pub commit_writes :
        (h : ℕ) (name : Bytes) (id : ℕ) (b : Bytes) (s : State)
        → is_negative (pyx_optimistic_commit h s).0 ≡ false
        → written h s ≡ some (name, id, b)
        → committed (pyx_optimistic_commit h s).1 name id ≡ some b
    pub commit_others :
        (h : ℕ) (name other : Bytes) (id k : ℕ) (b : Bytes) (s : State)
        → is_negative (pyx_optimistic_commit h s).0 ≡ false
        → written h s ≡ some (name, id, b)
        → ((other ≢ name) ⊎ (k ≢ id))
        → committed (pyx_optimistic_commit h s).1 other k ≡ committed (reached h s) other k

  -- The transaction that a round begins, and the state in which the callback has left it.
  abbrev pub begun_handle : State → ℕ
  begun_handle s = (pyx_begin_optimistic s).1

  abbrev pub handed : Callback lib → State → State
  handed fn s = (fn (record { handle = some (begun_handle s) }) (pyx_begin_optimistic s).2).2

  -- Rounds of the loop that ended in a conflict, each with the wait behind it.
  pub data Retries (fn : Callback lib) (start : State) : State → Type 0 where
    first : Retries fn start start
    again :
        {s : State} (cap : ℕ)
        → Retries fn start s
        → (attempt lib fn s).0 ≡ conflicts
        → Retries fn start (back_off lib cap (attempt lib fn s).1)

  module _ (law : Validating) (name : Bytes) (id : ℕ) (F : Option Bytes → Bytes → Type 0) where
    open law use {committed, reached, Seen, written}

    -- The transaction has read `v` and has written `b`, which the edit makes of it.
    pub record Edit (h : ℕ) (s : State) : Type 0 where
      pub v : Option Bytes
      pub b : Bytes
      pub read : Seen h s name id v
      pub made : F v b
      pub wrote : written h s ≡ some (name, id, b)

    -- Where the callback returns, it has read the document and written the edited one, and has left its
    -- transaction open.
    abbrev pub Edits : Callback lib → Type 0
    Edits fn =
        (h : ℕ) (s : State)
        → written h s ≡ none
        → (fn (record { handle = some h }) s).0 ≡ ok tt
        → ((fn (record { handle = some h }) s).1 ≡ record { handle = some h })
          × Edit h (fn (record { handle = some h }) s).2

    -- `after` is `before` with the edit made of what is there, all else being the same.
    pub record Replaced (before after : Store) : Type 0 where
      pub b : Bytes
      pub made : F (before name id) b
      pub here : after name id ≡ some b
      pub others :
          (other : Bytes) (k : ℕ) → ((other ≢ name) ⊎ (k ≢ id)) → after other k ≡ before other k

    -- A run from `start` has left `s` by the commit of one of its transactions, which was begun behind so many
    -- conflicts, and was accepted; what this commit found was replaced by its edit.
    pub record Atomic (fn : Callback lib) (start s : State) : Type 0 where
      pub begun : State
      pub retried : Retries fn start begun
      pub accepted :
          is_negative (pyx_optimistic_commit (begun_handle begun) (handed fn begun)).0 ≡ false
      pub left : (pyx_optimistic_commit (begun_handle begun) (handed fn begun)).1 ≡ s
      pub replaced :
          Replaced (committed (reached (begun_handle begun) (handed fn begun))) (committed s)

    commit-Replaced :
        (h : ℕ) (s : State)
        → Edit h s
        → is_negative (pyx_optimistic_commit h s).0 ≡ false
        → Replaced (committed (reached h s)) (committed (pyx_optimistic_commit h s).1)
    commit-Replaced h s e accepted = record {
      b = e.b;
      made = rw (law.commit_valid h name id e.v s accepted e.read) e.made;
      here = law.commit_writes h name id e.b s accepted e.wrote;
      others = λ other k apart. law.commit_others h name other id k e.b s accepted e.wrote apart;
    }

    -- What `try_commit` returned as committed was accepted by libpyx.
    try_commit-accepted :
        (h : ℕ) (s : State)
        → (try_commit lib (record { handle = some h }) s).0 ≡ ends (ok tt)
        → (is_negative (pyx_optimistic_commit h s).0 ≡ false)
          × ((pyx_optimistic_commit h s).1 ≡ (try_commit lib (record { handle = some h }) s).1)
    unfolding try_commit check
    try_commit-accepted h s done = elim (Bool-cases (is_negative (pyx_optimistic_commit h s).0)) [
      | inr accepted ↦ (accepted, refl)
      | inl refused ↦ absurd (let never = rw refused at done in ground arith)
    ]

    module _ (fn : Callback lib) (edits : Edits fn) where
      -- The commit behind a callback that returned, and the edit that it had been handed.
      settle-accepted :
          (r : Result (Unit {0})) (t : OptimisticTxn) (h : ℕ) (s : State)
          → (r ≡ ok tt → (t ≡ record { handle = some h }) × Edit h s)
          → (settle lib r t s).0 ≡ ends (ok tt)
          → Edit h s
            × (is_negative (pyx_optimistic_commit h s).0 ≡ false)
            × ((pyx_optimistic_commit h s).1 ≡ (settle lib r t s).1)
      unfolding settle
      settle-accepted (ok _) t h s edit done =
          let (same, e) = edit refl in
          let (accepted, left) = try_commit-accepted h s (rw same at done) in
          rw same (e, accepted, left)
      settle-accepted (raised x) t h s edit done = absurd (cc)
      settle-accepted out_of_fuel t h s edit done = absurd (cc)

      attempt-Atomic :
          (start s : State)
          → Retries fn start s
          → (attempt lib fn s).0 ≡ ends (ok tt)
          → Atomic fn start (attempt lib fn s).1
      unfolding attempt begin_optimistic check run_callback
      attempt-Atomic start s retried done =
          elim (Bool-cases (is_negative (pyx_begin_optimistic s).0)) [
            | inl failed ↦ absurd (let never = rw failed at done in cc)
            | inr begun ↦
                let h : ℕ = (pyx_begin_optimistic s).1 in
                let s' : State = (pyx_begin_optimistic s).2 in
                let real : (h == 0) ≡ false = ground (arith, law.begin_real s begun) in
                let t : OptimisticTxn = record { handle = some h } in
                let done' = rw (begun, real, attempt) at done in
                let (e, accepted, left) =
                  settle-accepted (fn t s').0 (fn t s').1 h (fn t s').2
                    (λ returned. edits h s' (law.begin_empty s begun) returned) done' in
                rw (begun, real, attempt)
                  record {
                    begun = s;
                    retried = retried;
                    accepted = accepted;
                    left = left;
                    replaced = rw (← left) (commit-Replaced h (fn t s').2 e accepted);
                  }
          ]

      run_loop-Atomic :
          (left cap : ℕ) (start s : State)
          → Retries fn start s
          → (run_loop lib fn left cap s).0 ≡ ok tt
          → Atomic fn start (run_loop lib fn left cap s).1
      unfolding run_loop
      run_loop-Atomic zero cap start s retried done = absurd (cc)
      run_loop-Atomic (suc left) cap start s retried done =
          elim (Round-cases (attempt lib fn s).0) [
            | inl (r, e) ↦
                let returned : r ≡ ok tt = rw (e, run_loop) at done in
                rw (e, run_loop) (attempt-Atomic start s retried (rw returned at e))
            | inr e ↦
                rw (e, run_loop)
                  (run_loop-Atomic left (next_cap cap) start (back_off lib cap (attempt lib fn s).1)
                    (again cap retried e) (rw (e, run_loop) at done))
          ]

      -- Where a commit that libpyx accepts found a store in which everything that its transaction had read
      -- still held, and left that store with the transaction's write in it, and a callback that returns has
      -- read one document and written an edit of it as its only write: if `run_optimistic` returns, then it
      -- has gone through some rounds that ended in a conflict, the commit of the next transaction was
      -- accepted, and the store that this commit has left, the one that `run_optimistic` leaves, is the store
      -- that the commit found with that document replaced by its edit, and nothing else changed.
      pub run_optimistic-Atomic :
          (max_attempts : ℕ) (s : State)
          → (run_optimistic lib fn max_attempts s).0 ≡ ok tt
          → Atomic fn s (run_optimistic lib fn max_attempts s).1
      unfolding run_optimistic
      run_optimistic-Atomic max_attempts s done =
          run_loop-Atomic max_attempts first_cap s s first done
