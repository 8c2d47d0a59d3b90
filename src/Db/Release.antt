-- ===== src/Db/Release.antt =====
-- How a `Db` and a `Snapshot` of bindings/python/pyx/__init__.py give up their handles.
use pyx.Base.{
  ℕ, suc, ◌+◌, ◌<◌, ◌≡◌, refl, inl, inr, true, false, Bool-cases, Option, none, some, List, [], ◌∷◌,
  arith, ◌==◌,
}
use pyx.Base.Bytes.{Bytes}
use pyx.Base.Int.{is_negative}
use pyx.Calls.{check}
use pyx.Result.{Result, ok, raised, out_of_fuel}
use pyx.Doc.Utf8.{Str, utf8_encode}
use pyx.Db.{Databases, Db, Snapshot, open_encoded, open_db, close, close_snapshot}

-- The methods that give up the handle: `close`, `__exit__` and `__del__`, which call the first.
pub data Method : Type 0 where
  close_method exit_method del_method : Method

module _ (databases : Databases) where
  open databases use {State, pyx_open, pyx_close, pyx_snapshot_close}

  unfoldable pub call : Method → Db → State → Db × State
  call close_method db s = close databases db s
  call exit_method db s = close databases db s
  call del_method db s = close databases db s

  unfoldable pub calls : List Method → Db → State → Db × State
  calls [] db s = (db, s)
  calls (m ∷ methods) db s = let (db', s') = call m db s in calls methods db' s'

  unfoldable pub snapshot_call : Method → Snapshot → State → Snapshot × State
  snapshot_call close_method snap s = close_snapshot databases snap s
  snapshot_call exit_method snap s = close_snapshot databases snap s
  snapshot_call del_method snap s = close_snapshot databases snap s

  unfoldable pub snapshot_calls : List Method → Snapshot → State → Snapshot × State
  snapshot_calls [] snap s = (snap, s)
  snapshot_calls (m ∷ methods) snap s =
      let (snap', s') = snapshot_call m snap s in snapshot_calls methods snap' s'

  closed_calls :
      (methods : List Method) (s : State)
      → (calls methods (record { handle = none }) s ≡ (record { handle = none }, s))
        × (snapshot_calls methods (record { handle = none }) s ≡ (record { handle = none }, s))
  unfolding calls call close snapshot_calls snapshot_call close_snapshot
  closed_calls [] s = (refl, refl)
  closed_calls (close_method ∷ methods) s = closed_calls methods s
  closed_calls (exit_method ∷ methods) s = closed_calls methods s
  closed_calls (del_method ∷ methods) s = closed_calls methods s

  -- However often and by whichever methods an open object is released, the engine is told to close its
  -- handle exactly once, by the first of them.
  pub calls-close_once :
      (m : Method) (methods : List Method) (h : ℕ) (s : State)
      → (calls (m ∷ methods) (record { handle = some h }) s
          ≡ (record { handle = none }, pyx_close h s))
        × (snapshot_calls (m ∷ methods) (record { handle = some h }) s
            ≡ (record { handle = none }, pyx_snapshot_close h s))
  unfolding calls call close snapshot_calls snapshot_call close_snapshot
  calls-close_once close_method methods h s =
      ((closed_calls methods (pyx_close h s)).0, (closed_calls methods (pyx_snapshot_close h s)).1)
  calls-close_once exit_method methods h s =
      ((closed_calls methods (pyx_close h s)).0, (closed_calls methods (pyx_snapshot_close h s)).1)
  calls-close_once del_method methods h s =
      ((closed_calls methods (pyx_close h s)).0, (closed_calls methods (pyx_snapshot_close h s)).1)

  -- What follows the open in `with Db.open(path) as db`.
  unfoldable pub enter {ℓ} :
      {A : Type ℓ} → (Db → State → Result A × Db × State) → Result Db → State → Result A × State
  enter body (ok db) s = let (r, db', s') = body db s in (r, (call exit_method db' s').1)
  enter body (raised e) s = (raised e, s)
  enter body out_of_fuel s = (out_of_fuel, s)

  unfoldable pub enter_opened {ℓ} :
      {A : Type ℓ} → (Db → State → Result A × Db × State) → Result Db × State → Result A × State
  enter_opened body (r, s) = enter body r s

  -- `with Db.open(path) as db: body`
  unfoldable pub with_db {ℓ} :
      {A : Type ℓ} → Str → (Db → State → Result A × Db × State) → State → Result A × State
  with_db path body s = enter_opened body (open_db databases path s)

  -- `open_dbs` counts the databases that are open. An open that returns no error opens one, and its
  -- handle is not null.
  pub record Counted : Type 0 where
    pub open_dbs : State → ℕ
    pub open_ok :
        (path : Bytes) (s : State)
        → is_negative (pyx_open path s).0 ≡ false
        → (0 < (pyx_open path s).1) × (open_dbs (pyx_open path s).2 ≡ suc (open_dbs s))
    pub open_failed :
        (path : Bytes) (s : State)
        → is_negative (pyx_open path s).0 ≡ true
        → open_dbs (pyx_open path s).2 ≡ open_dbs s
    pub close_one :
        (h : ℕ) (s : State) → 0 < open_dbs s → suc (open_dbs (pyx_close h s)) ≡ open_dbs s

  abbrev pub live : Db → ℕ
  live db = elim db.handle [ none ↦ 0 | some h ↦ 1 ]

  module _ (c : Counted) where
    open c use {open_dbs}

    exit-closes :
        (n : ℕ) (h : Option ℕ) (s : State)
        → open_dbs s ≡ n + live (record { handle = h })
        → open_dbs (call exit_method (record { handle = h }) s).1 ≡ n
    unfolding call close
    exit-closes n none s e = omega (arith, e)
    exit-closes n (some k) s e = omega (arith, e, c.close_one k s)

    module _ {ℓ} {A : Type ℓ} (body : Db → State → Result A × Db × State)
        (keeps : (db : Db) (t : State)
          → open_dbs (body db t).2 + live db ≡ open_dbs t + live (body db t).1) where
      enter-closes :
          (h n : ℕ) (s : State)
          → open_dbs s ≡ suc n
          → open_dbs (enter body (ok (record { handle = some h })) s).1 ≡ n
      unfolding enter
      enter-closes h n s e =
          let db : Db = record { handle = some h } in
          exit-closes n (body db s).1.handle (body db s).2 (omega (arith, keeps db s, e))

      opened-closes :
          (r : Result Bytes) (s : State)
          → open_dbs (enter_opened body (open_encoded databases r s)).1 ≡ open_dbs s
      unfolding open_encoded enter_opened check enter
      opened-closes (raised e) s = refl
      opened-closes out_of_fuel s = refl
      opened-closes (ok b) s = elim (Bool-cases (is_negative (pyx_open b s).0)) [
        | inl failed ↦ rw (failed, open_encoded) (c.open_failed b s failed)
        | inr done ↦
            let (real, one) = c.open_ok b s done in
            let shown : ((pyx_open b s).1 == 0) ≡ false = ground arith in
            rw (done, shown, open_encoded)
              (enter-closes (pyx_open b s).1 (open_dbs s) (pyx_open b s).2 one)
      ]

      -- Where the block leaves the count of open databases as it found it, its own Db counted while that
      -- is not closed, there are as many open after `with Db.open(path)` as before: whether the open
      -- failed, and whether the block returned, raised or closed its Db itself.
      pub with_db-closes : (path : Str) (s : State) → open_dbs (with_db path body s).1 ≡ open_dbs s
      unfolding with_db open_db
      with_db-closes path s = opened-closes (utf8_encode path) s
