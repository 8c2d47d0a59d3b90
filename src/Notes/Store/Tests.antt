-- ===== src/Notes/Store/Tests.antt =====
-- Runs of realworldexamples/django/notes/pyx_store.py with two threads.
use pyx.Base.{ℕ, ◌+◌, ◌≤◌, ◌≡◌, Option, none, some, length, refl}
use pyx.Notes.Store.{
  returned, unwinding, call, seen, read, lock_get, missing, open_ok, create_index, index_failed,
  publish, unlock_get, again, call_close, lock_close, seen_closing, close, reset, unlock_close,
  Process, pick, Reach, start, later,
}
use pyx.Notes.Store.Inv.{count, known, unwinds, get_db-once}

-- In thread 0 an index of database 7 cannot be created; thread 1 opens the file again as 8 before the exception of
-- thread 0 is dropped.
abbrev raised : (s : Process) × Reach s
raised = (
  _,
  later
      (later
        (later
          (later
            (later
              (later
                (later
                  (later
                    (later
                      (later
                        (later
                          (later
                            (later
                              (later (later start (pick 0 (call refl))) (pick 0 (lock_get refl)))
                              (pick 0 (missing refl)))
                            (pick 0 (open_ok 7)))
                          (pick 0 create_index))
                        (pick 0 index_failed))
                      (pick 1 (call refl)))
                    (pick 1 (lock_get refl)))
                  (pick 1 (missing refl)))
                (pick 1 (open_ok 8)))
              (pick 1 create_index))
            (pick 1 create_index))
          (pick 1 create_index))
        (pick 1 publish))
      (pick 1 unlock_get),
)

both_open :
    (raised.0.mem.open_dbs ≡ 2)
    × (raised.0.pc 0 ≡ unwinding 7)
    × (raised.0.pc 1 ≡ returned (some 8))
both_open = (refl, refl, refl)

get_db-once_example :
    (raised.0.mem.open_dbs ≤ 1 + length raised.0.mem.failing)
    × ((i : ℕ) → count i raised.0.mem.failing ≡ unwinds (raised.0.pc i))
    × ((i : ℕ) (r : Option ℕ)
        → raised.0.mem.closes ≡ 0
        → raised.0.pc i ≡ returned r
        → (r ≡ raised.0.mem.db) × (known raised.0.mem.db ≡ 1))
get_db-once_example = get_db-once raised.1

-- Thread 1 has seen a Db when thread 0 closes it; its `get_db` returns None.
abbrev too_late : (s : Process) × Reach s
too_late = (
  _,
  later
      (later
        (later
          (later
            (later
              (later
                (later
                  (later
                    (later
                      (later
                        (later
                          (later
                            (later
                              (later
                                (later
                                  (later
                                    (later (later start (pick 0 (call refl)))
                                      (pick 0 (lock_get refl)))
                                    (pick 0 (missing refl)))
                                  (pick 0 (open_ok 7)))
                                (pick 0 create_index))
                              (pick 0 create_index))
                            (pick 0 create_index))
                          (pick 0 publish))
                        (pick 0 unlock_get))
                      (pick 1 (seen refl)))
                    (pick 0 again))
                  (pick 0 call_close))
                (pick 0 (lock_close refl)))
              (pick 0 (seen_closing refl)))
            (pick 0 (close refl)))
          (pick 0 reset))
        (pick 0 unlock_close))
      (pick 1 read),
)

returned_none : too_late.0.pc 1 ≡ returned none
returned_none = refl
