-- ===== src/Bench/Credits.antt =====
-- The operations that bench/python/bench_pyx_vs_sqlite.py divides by a time, against those that it makes in that time.
use pyx.Base.{List}
use pyx.Bench.Pyx as Pyx
use pyx.Bench.Sqlite as Sqlite
