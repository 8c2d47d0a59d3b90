-- ===== src/Bench/Sqlite.antt =====
-- The workloads of bench/python/bench_pyx_vs_sqlite.py over sqlite3.
use pyx.Base.{ℕ, ltb, if◌then◌else◌, List, [], ◌∷◌, ◌++◌, length}
use pyx.Base.Int.{ℤ, pos}
use pyx.Result.{Result, Exn, ok, raised, ◌>>=◌}
use pyx.Doc.Utf8.{Str}
use pyx.Doc.Value.{Value, int, str}
use pyx.Bench.{
  Act, Sql, Run, sql, sql_with, sql_in, connect, close_conn, execute, insert_rows, select,
  for_range, draws, chunks, table_name, note_title, lorem_ipsum, cleanup,
}
use pyx.Bench.Pyx.{pool}
use mathlib.Core.List.{map}

abbrev pub open_sqlite : Str → List Act
open_sqlite path =
    connect path
    ∷ execute (sql "PRAGMA journal_mode=WAL")
    ∷ execute (sql "PRAGMA synchronous=FULL")
    ∷ []

abbrev pub create_notes : Act
create_notes =
    execute (sql "CREATE TABLE notes (id INTEGER PRIMARY KEY, i INTEGER, title TEXT, body TEXT)")

abbrev pub insert_note : Sql
insert_note = sql "INSERT INTO notes (i, title, body) VALUES (?, ?, ?)"

abbrev pub row : ℕ → List Value
row i = int (pos i) ∷ str (note_title i) ∷ str lorem_ipsum ∷ []

abbrev pub w1_sqlite : Str → ℕ → Run
w1_sqlite path n = record {
  before = cleanup path ++ (open_sqlite path ++ (create_notes ∷ []));
  timed = for_range n λ i. insert_rows insert_note (row i ∷ []) ∷ [];
  workers = [];
  after = close_conn ∷ cleanup path;
}

abbrev pub w1b_sqlite : Str → ℕ → Run
w1b_sqlite path n = record {
  before = cleanup path ++ (open_sqlite path ++ (create_notes ∷ []));
  timed =
      execute (sql "BEGIN")
      ∷ insert_rows insert_note (for_range n λ i. row i ∷ [])
      ∷ execute (sql "COMMIT")
      ∷ [];
  workers = [];
  after = close_conn ∷ cleanup path;
}

-- `randint k n` is draw number `k` of `random.Random(42)` between 1 and `n`.
module _ (randint : ℕ → ℕ → ℕ) where
  abbrev pub targets : ℕ → ℕ → Result (List ℤ)
  targets n_seed n_reads = draws n_reads λ k.
      if ltb n_seed 1
      then raised (Exn.value_error "empty range for randrange()")
      else ok (pos (randint k n_seed))

  abbrev pub seed : Str → ℕ → List Act
  seed path n_seed =
      cleanup path
      ++ (open_sqlite path
          ++ (execute (sql "CREATE TABLE notes (id INTEGER PRIMARY KEY, i INTEGER, title TEXT)")
              ∷ for_range n_seed λ i.
                insert_rows (sql "INSERT INTO notes (i, title) VALUES (?, ?)")
                  ((int (pos i) ∷ str (note_title i) ∷ []) ∷ [])
                ∷ []))

  unfoldable pub w2_sqlite : Str → ℕ → ℕ → Result Run
  w2_sqlite path n_seed n_reads = targets n_seed n_reads >>= λ ids. ok (record {
    before = seed path n_seed;
    timed = map (λ id. select (sql "SELECT i, title FROM notes WHERE id = ?") (id ∷ [])) ids;
    workers = [];
    after = close_conn ∷ cleanup path;
  })

  unfoldable pub w2_sqlite_batched : Str → ℕ → ℕ → ℕ → Result Run
  w2_sqlite_batched path n_seed n_reads batch = do
    ids ← targets n_seed n_reads
    batches ← chunks ids n_reads batch
    ok (record {
      before = seed path n_seed;
      timed =
          map
            (λ chunk.
              select (sql_in "SELECT id, i, title FROM notes WHERE id IN (" (length chunk) ")")
                chunk)
            batches;
      workers = [];
      after = close_conn ∷ cleanup path;
    })

abbrev pub insert_from : Str → ℕ → Act
insert_from table i =
    insert_rows (sql_with "INSERT INTO " table " (i, name) VALUES (?, ?)")
      ((int (pos i) ∷ str table ∷ []) ∷ [])

abbrev pub w3_sqlite_worker : Str → Str → ℕ → List Act
w3_sqlite_worker path table n =
    open_sqlite path ++ ((for_range n λ i. insert_from table i ∷ []) ++ (close_conn ∷ []))

unfoldable pub w3_sqlite : Str → ℕ → ℕ → Result Run
w3_sqlite path n_procs n_per = pool n_procs (record {
  before =
      cleanup path
      ++ (open_sqlite path
          ++ ((for_range n_procs λ k.
                execute (
                  sql_with "CREATE TABLE " (table_name k)
                    " (id INTEGER PRIMARY KEY, i INTEGER, name TEXT)")
                ∷ [])
              ++ (close_conn ∷ [])));
  timed = [];
  workers = for_range n_procs λ k. w3_sqlite_worker path (table_name k) n_per ∷ [];
  after = cleanup path;
})

abbrev pub insert_shared : ℕ → Act
insert_shared i = insert_rows (sql "INSERT INTO shared (i) VALUES (?)") ((int (pos i) ∷ []) ∷ [])

abbrev pub w4_sqlite_worker : Str → ℕ → List Act
w4_sqlite_worker path n =
    open_sqlite path ++ ((for_range n λ i. insert_shared i ∷ []) ++ (close_conn ∷ []))

unfoldable pub w4_sqlite : Str → ℕ → ℕ → Result Run
w4_sqlite path n_procs n_per = pool n_procs (record {
  before =
      cleanup path
      ++ (open_sqlite path
          ++ (execute (sql "CREATE TABLE shared (id INTEGER PRIMARY KEY, i INTEGER)")
              ∷ execute (sql "PRAGMA busy_timeout=30000")
              ∷ close_conn
              ∷ []));
  timed = [];
  workers = for_range n_procs λ k. w4_sqlite_worker path n_per ∷ [];
  after = cleanup path;
})
