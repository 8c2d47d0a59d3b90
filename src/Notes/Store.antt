-- ===== src/Notes/Store.antt =====
-- realworldexamples/django/notes/pyx_store.py: `get_db` and `close_db` as any number of threads run them, one
-- shared access at a time. Each `if _db is not None` and the use of `_db` behind it are two reads.
pub mod Inv
mod Tests
use pyx.Base.{ℕ, suc, ◌-◌, ◌≡◌, Option, none, some, if◌then◌else◌, ◌==◌, List, [], ◌∷◌}

-- `_db` and `_lock` of the module, by the handle of the Db and the thread that holds the lock. `open_dbs`
-- counts the databases that are open, `closes` those that `close_db` closed. `failing` is the threads in which
-- `create_index` has raised, while the traceback still keeps the frame of `get_db` with its open `db`.
pub record Shared : Type 0 where
  pub db : Option ℕ
  pub lock : Option ℕ
  pub open_dbs : ℕ
  pub closes : ℕ
  pub failing : List ℕ

-- Where a thread stands.
pub data Pc : Type 0 where
  idle : Pc  -- between calls
  found : Pc  -- `get_db`, between the first test of `_db` and `return _db`
  wants : Pc  -- `get_db`, before `with _lock`
  inside : Pc  -- `get_db`, at the second test of `_db`
  found_inside : Pc  -- between this test and `return _db`
  opening : Pc  -- before `pyx.Db.open`
  set_up : (db indexed : ℕ) → Pc  -- behind `set_sync_mode`, that many indexes created
  leaving : (result : Option ℕ) → Pc  -- before the end of `with _lock`, with the result
  returned : (result : Option ℕ) → Pc  -- `get_db` has returned a Db or None
  unwinding : (db : ℕ) → Pc  -- `get_db` has raised, and its frame is not freed yet
  wants_close : Pc  -- `close_db`, before `with _lock`
  closing : Pc  -- `close_db`, at the test of `_db`
  found_closing : Pc  -- between this test and `_db.close()`
  resetting : Pc  -- between `_db.close()` and `_db = None`
  left : Pc  -- `close_db`, before the end of `with _lock`

-- `l` without the first `i`.
unfoldable pub remove : ℕ → List ℕ → List ℕ
remove i [] = []
remove i (j ∷ l) = if i == j then l else j ∷ remove i l

-- One step of thread `i`. `Db.open` and `create_index` may raise, and then the lock is released. A database that
-- was opened before stays open until the exception is dropped with the frame that refers to it; `__del__` closes it
-- then.
pub data Move (i : ℕ) (m : Shared) : Pc → Shared → Pc → Type 0 where
  call : m.db ≡ none → Move i m idle m wants
  seen : {h : ℕ} → m.db ≡ some h → Move i m idle m found
  read : Move i m found m (returned m.db)
  lock_get : m.lock ≡ none → Move i m wants (record m { lock = some i }) inside
  seen_inside : {h : ℕ} → m.db ≡ some h → Move i m inside m found_inside
  read_inside : Move i m found_inside m (leaving m.db)
  missing : m.db ≡ none → Move i m inside m opening
  open_ok : (h : ℕ) → Move i m opening (record m { open_dbs = suc m.open_dbs }) (set_up h 0)
  open_failed : Move i m opening (record m { lock = none }) idle
  create_index : {h k : ℕ} → Move i m (set_up h k) m (set_up h (suc k))
  index_failed :
      {h k : ℕ}
      → Move i m (set_up h k) (record m { lock = none; failing = i ∷ m.failing }) (unwinding h)
  drop_frame :
      {h : ℕ}
      → Move i m
          (unwinding h)
          (record m { open_dbs = m.open_dbs - 1; failing = remove i m.failing })
          idle
  publish : {h : ℕ} → Move i m (set_up h 3) (record m { db = some h }) (leaving (some h))
  unlock_get : {r : Option ℕ} → Move i m (leaving r) (record m { lock = none }) (returned r)
  again : {r : Option ℕ} → Move i m (returned r) m idle
  call_close : Move i m idle m wants_close
  lock_close : m.lock ≡ none → Move i m wants_close (record m { lock = some i }) closing
  nothing : m.db ≡ none → Move i m closing m left
  seen_closing : {h : ℕ} → m.db ≡ some h → Move i m closing m found_closing
  close :
      {h : ℕ}
      → m.db ≡ some h
      → Move i m found_closing
          (record m { open_dbs = m.open_dbs - 1; closes = suc m.closes })
          resetting
  no_close : m.db ≡ none → Move i m found_closing (record m { lock = none }) idle  -- AttributeError
  reset : Move i m resetting (record m { db = none }) left
  unlock_close : Move i m left (record m { lock = none }) idle

abbrev pub set_at : (ℕ → Pc) → ℕ → Pc → ℕ → Pc
set_at f i p j = if i == j then p else f j

pub record Process : Type 0 where
  pub mem : Shared
  pub pc : ℕ → Pc

pub data Step (s : Process) : Process → Type 0 where
  pick :
      (i : ℕ) {m : Shared} {p : Pc}
      → Move i s.mem (s.pc i) m p
      → Step s (record { mem = m; pc = set_at s.pc i p })

-- The module has just been imported.
abbrev pub start_process : Process
start_process = record {
  mem = record { db = none; lock = none; open_dbs = 0; closes = 0; failing = [] };
  pc = λ i. Pc.idle;
}

pub data Reach : Process → Type 0 where
  start : Reach start_process
  later : {s t : Process} → Reach s → Step s t → Reach t
