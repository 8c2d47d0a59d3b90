-- ===== src/Db/Tests.antt =====
-- Runs of `Db` and `Snapshot` of bindings/python/pyx/__init__.py.
use pyx.Base.{ℕ, suc, ◌+◌, ◌-◌, ◌≡◌, refl, none, some, arith, [], ◌∷◌}
use pyx.Base.Int.{pos, negsuc}
use pyx.Errors.{pyx_ok}
use pyx.Result.{Result, raised, Exn}
use pyx.Doc.Value.{null, int}
use pyx.Query.{scalar}
use pyx.Iter.{Cursors, iter}
use pyx.Scan.{Lookups, find_range}
use pyx.Db.{Databases, Db, close_snapshot, iter_view, find_range_view}
use pyx.Db.Release.{
  close_method, exit_method, del_method, calls, snapshot_calls, calls-close_once, with_db,
  with_db-closes, Counted,
}
use pyx.Db.Views.{closed_view-is_live}

-- The state is the number of open databases and the number of calls that closed one.
abbrev counting : Databases
counting = record {
  State = ℕ × ℕ;
  pyx_open = λ path s. (pyx_ok, 3, (suc s.0, s.1));
  pyx_close = λ h s. (s.0 - 1, s.1 + 1);
  pyx_set_sync_mode = λ h mode s. s;
  pyx_checkpoint = λ h s. (pyx_ok, s);
  pyx_create_collection = λ h name s. (pyx_ok, 1, s);
  pyx_snapshot_open = λ h s. (pyx_ok, 4, s);
  pyx_snapshot_close = λ h s. (s.0, s.1 + 1);
  pyx_snapshot_get = λ h name id s. (pos 1, [], s);
  pyx_snapshot_find_one = λ h name field v s. (pos 1, 0, s);
  pyx_buf_free = λ b s. s;
  pyx_last_error = λ s. "";
}

calls-close_once_example :
    (calls counting
        (exit_method ∷ close_method ∷ del_method ∷ [])
        (record { handle = some 3 })
        (1, 0)
      ≡ (record { handle = none }, (0, 1)))
    × (snapshot_calls counting
          (exit_method ∷ close_method ∷ del_method ∷ [])
          (record { handle = some 3 })
          (1, 0)
        ≡ (record { handle = none }, (1, 1)))
calls-close_once_example =
    calls-close_once counting exit_method (close_method ∷ del_method ∷ []) 3 (1, 0)

counting-Counted : Counted counting
counting-Counted = record {
  open_dbs = λ s. s.0;
  open_ok = λ path s h. (omega arith, refl);
  open_failed = λ path s h. absurd (cc);
  close_one = λ h s some_open. omega arith;
}

-- A block that raises.
abbrev failing : Db → ℕ × ℕ → Result ℕ × Db × (ℕ × ℕ)
failing db s = (raised Exn.index_error, db, s)

with_db-closes_example : (with_db counting (b'p' ∷ []) failing (0, 0)).1.0 ≡ 0
unfolding counting-Counted
with_db-closes_example =
    with_db-closes counting counting-Counted failing (λ db t. refl) (b'p' ∷ []) (0, 0)

-- An engine without documents.
abbrev no_documents : Cursors
no_documents = record {
  State = ℕ;
  pyx_iter_open = λ name s. (pyx_ok, 1, s);
  pyx_snapshot_iter_open = λ h name s. (negsuc 0, 0, s);
  pyx_iter_next = λ h s. (pos 2, 0, [], s);
  pyx_iter_close = λ h s. s;
  pyx_last_error = λ s. "";
}

abbrev no_index : Lookups
no_index = record {
  State = ℕ;
  pyx_find_range = λ name field lo hi s. (pyx_ok, 1, s);
  pyx_snapshot_find_range = λ h name field lo hi s. (negsuc 0, 0, s);
  pyx_lookup_next = λ h s. (pos 2, 0, s);
  pyx_lookup_close = λ h s. s;
  pyx_last_error = λ s. "";
}

closed_view-is_live_example :
    (iter_view no_documents 9 [] (close_snapshot counting (record { handle = some 4 }) (1, 0)).0 5 0
      ≡ iter no_documents 9 [] none 5 0)
    × (find_range_view no_index 9 []
          (b'a' ∷ [])
          (scalar null)
          (scalar (int (pos 5)))
          null
          null
          null
          null
          (close_snapshot counting (record { handle = some 4 }) (1, 0)).0
          5
          0
        ≡ find_range no_index 9 []
            (b'a' ∷ [])
            (scalar null)
            (scalar (int (pos 5)))
            null
            null
            null
            null
            none
            5
            0)
closed_view-is_live_example =
    closed_view-is_live counting no_documents no_index 9 [] (b'a' ∷ []) (scalar null)
      (scalar (int (pos 5))) null null null null (record { handle = some 4 }) 5 (1, 0) 0 0
