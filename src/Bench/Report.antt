-- ===== src/Bench/Report.antt =====
-- The results that `main` of bench/python/bench_pyx_vs_sqlite.py collects.
use pyx.Base.{ℕ, ◌*◌, Bool, true, false, List, [], ◌∷◌, ◌++◌}
use pyx.Base.Int.{ℤ}
use pyx.Result.{Result, ok, ◌>>=◌}
use pyx.Doc.Utf8.{Str}
use pyx.Bench.{Run}
use pyx.Bench.Pyx.{w1_pyx, w1b_pyx, w2_pyx, w2_pyx_batched, w3_pyx, w4_pyx}
use pyx.Bench.Sqlite.{w1_sqlite, w1b_sqlite, w2_sqlite, w2_sqlite_batched, w3_sqlite, w4_sqlite}

-- A `Result` of the script, with the runs in place of their times; its name is left out.
pub record Entry : Type 0 where
  pub pyx_s : Run
  pub sqlite_s : Run
  pub pyx_ops : ℕ
  pub sqlite_ops : ℕ

pub record Args : Type 0 where
  pub n_inserts : ℕ
  pub n_reads : ℕ
  pub n_procs : ℕ
  pub n_per : ℕ
  pub batch_size : ℕ
  pub skip_w4 : Bool

-- Both runs are credited with as many operations.
abbrev pub entry : Run → Run → ℕ → Entry
entry p q ops = record { pyx_s = p; sqlite_s = q; pyx_ops = ops; sqlite_ops = ops }

-- `if not args.skip_w4`
unfoldable pub w4_entry : Bool → Str → Str → Args → Result (List Entry)
w4_entry true pyx_path sql_path args = ok []
w4_entry false pyx_path sql_path args = do
  w4 ← w4_pyx pyx_path args.n_procs args.n_per
  s4 ← w4_sqlite sql_path args.n_procs args.n_per
  ok (entry w4 s4 (args.n_procs * args.n_per) ∷ [])

-- The files in the directory `tmp`, which is given as far as the separator.
abbrev pub pyx_file : Str → Str
pyx_file tmp = tmp ++ (b'b' ∷ b'e' ∷ b'n' ∷ b'c' ∷ b'h' ∷ b'.' ∷ b'p' ∷ b'y' ∷ b'x' ∷ [])

abbrev pub sql_file : Str → Str
sql_file tmp = tmp ++ (b'b' ∷ b'e' ∷ b'n' ∷ b'c' ∷ b'h' ∷ b'.' ∷ b'd' ∷ b'b' ∷ [])

-- Ids and draws are as in Bench.Pyx and Bench.Sqlite.
module _ (new_id : ℕ → ℤ) (choice randint : ℕ → ℕ → ℕ) where
  unfoldable pub main : Str → Args → Result (List Entry)
  main tmp args = do
    let pyx_path : Str = pyx_file tmp
    let sql_path : Str = sql_file tmp
    let total : ℕ = args.n_procs * args.n_per
    w2 ← w2_pyx new_id choice pyx_path args.n_inserts args.n_reads
    s2 ← w2_sqlite randint sql_path args.n_inserts args.n_reads
    w2b ← w2_pyx_batched new_id choice pyx_path args.n_inserts args.n_reads args.batch_size
    s2b ← w2_sqlite_batched randint sql_path args.n_inserts args.n_reads args.batch_size
    w3 ← w3_pyx pyx_path args.n_procs args.n_per
    s3 ← w3_sqlite sql_path args.n_procs args.n_per
    w4 ← w4_entry args.skip_w4 pyx_path sql_path args
    ok (
        entry (w1_pyx pyx_path args.n_inserts) (w1_sqlite sql_path args.n_inserts) args.n_inserts
        ∷ entry (w1b_pyx pyx_path args.n_inserts) (w1b_sqlite sql_path args.n_inserts)
            args.n_inserts
        ∷ entry w2 s2 args.n_reads
        ∷ entry w2b s2b args.n_reads
        ∷ entry w3 s3 total
        ∷ w4)
