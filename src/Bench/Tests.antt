-- ===== src/Bench/Tests.antt =====
-- A small benchmark of bench/python/bench_pyx_vs_sqlite.py.
use pyx.Base.{ℕ, suc, ◌≡◌, refl, true, List, [], ◌∷◌}
use pyx.Base.Int.{ℤ, pos}
use pyx.Result.{Result, Exn, ok, raised, out_of_fuel}
use pyx.Bench.{draws, chunks, decimal}
use pyx.Bench.Pyx.{w2_pyx, w2_pyx_batched}
use pyx.Bench.Sqlite.{w2_sqlite}
use pyx.Bench.Report.{Entry, Args, main}

-- Ids from 1 on; every draw takes the first id.
abbrev new_id : ℕ → ℤ
new_id i = pos (suc i)

abbrev first_place : ℕ → ℕ → ℕ
first_place k n = 0

abbrev first_id : ℕ → ℕ → ℕ
first_id k n = 1

abbrev small : Args
small = record {
  n_inserts = 1;
  n_reads = 3;
  n_procs = 2;
  n_per = 1;
  batch_size = 2;
  skip_w4 = true;
}

abbrev entries_of : Result (List Entry) → List Entry
entries_of (ok entries) = entries
entries_of (raised e) = []
entries_of out_of_fuel = []

abbrev results : List Entry
results = entries_of (main new_id first_place first_id [] small)

-- A batch of 0 ends the benchmark with the ValueError of range().
abbrev no_batch : Args
no_batch = record {
  n_inserts = 1;
  n_reads = 3;
  n_procs = 2;
  n_per = 1;
  batch_size = 0;
  skip_w4 = true;
}

no_batch_raises :
    main new_id first_place first_id [] no_batch
    ≡ raised (Exn.value_error "range() arg 3 must not be zero")
unfolding main w2_pyx w2_sqlite w2_pyx_batched draws chunks
no_batch_raises = refl

title_42 : decimal 42 ≡ b'4' ∷ b'2' ∷ []
unfolding decimal
title_42 = refl
