-- ===== src/Bench/Pyx.antt =====
-- The workloads of bench/python/bench_pyx_vs_sqlite.py over pyx.
use pyx.Base.{ℕ, ◌==◌, if◌then◌else◌, List, [], ◌∷◌, ◌++◌}
use pyx.Base.Int.{ℤ, pos}
use pyx.Result.{Result, Exn, ok, raised, ◌>>=◌}
use pyx.Doc.Utf8.{Str}
use pyx.Doc.Value.{str_key, int, str, dict, field, no_fields}
use pyx.Bench.{
  Act, Run, open_db, create_collection, close_db, insert, insert_many, get, get_many, for_range,
  draws, chunks, key_i, notes, shared, table_name, cleanup, titled, note_doc,
}
use mathlib.Core.List.{map}

abbrev pub w1_pyx : Str → ℕ → Run
w1_pyx path n = record {
  before = cleanup path ++ (open_db path ∷ []);
  timed = for_range n λ i. insert notes (note_doc i) ∷ [];
  workers = [];
  after = close_db ∷ cleanup path;
}

abbrev pub w1b_pyx : Str → ℕ → Run
w1b_pyx path n = record {
  before = cleanup path ++ (open_db path ∷ []);
  timed = insert_many notes (for_range n λ i. note_doc i ∷ []) ∷ [];
  workers = [];
  after = close_db ∷ cleanup path;
}

-- `new_id i` is what the insert number `i` returned, and `choice k n` the place that draw number `k` of
-- `random.Random(42)` takes in a list of `n` elements.
module _ (new_id : ℕ → ℤ) (choice : ℕ → ℕ → ℕ) where
  abbrev pub targets : ℕ → ℕ → Result (List ℤ)
  targets n_seed n_reads =
      draws n_reads
        λ k. if n_seed == 0 then raised Exn.index_error else ok (new_id (choice k n_seed))

  abbrev pub seed : Str → ℕ → List Act
  seed path n_seed =
      cleanup path ++ (open_db path ∷ for_range n_seed λ i. insert notes (titled i) ∷ [])

  unfoldable pub w2_pyx : Str → ℕ → ℕ → Result Run
  w2_pyx path n_seed n_reads = targets n_seed n_reads >>= λ ids. ok (record {
    before = seed path n_seed;
    timed = map (λ id. get notes id) ids;
    workers = [];
    after = close_db ∷ cleanup path;
  })

  unfoldable pub w2_pyx_batched : Str → ℕ → ℕ → ℕ → Result Run
  w2_pyx_batched path n_seed n_reads batch = do
    ids ← targets n_seed n_reads
    batches ← chunks ids n_reads batch
    ok (record {
      before = seed path n_seed;
      timed = map (λ ids. get_many notes ids) batches;
      workers = [];
      after = close_db ∷ cleanup path;
    })

-- `mp.Pool(processes=n_procs)`
abbrev pub pool : ℕ → Run → Result Run
pool n_procs run =
    if n_procs == 0
    then raised (Exn.value_error "Number of processes must be at least 1")
    else ok run

-- `c.insert({"i": i, "from": name})`
abbrev pub insert_from : Str → ℕ → Act
insert_from name i = insert name (
    dict (
      field (str_key key_i) (int (pos i))
        (field (str_key (b'f' ∷ b'r' ∷ b'o' ∷ b'm' ∷ [])) (str name) no_fields)))

abbrev pub w3_pyx_worker : Str → Str → ℕ → List Act
w3_pyx_worker path name n =
    open_db path ∷ ((for_range n λ i. insert_from name i ∷ []) ++ (close_db ∷ []))

unfoldable pub w3_pyx : Str → ℕ → ℕ → Result Run
w3_pyx path n_procs n_per = pool n_procs (record {
  before =
      cleanup path
      ++ (open_db path ∷ (for_range n_procs λ k. create_collection (table_name k) ∷ [])
          ++ (close_db ∷ []));
  timed = [];
  workers = for_range n_procs λ k. w3_pyx_worker path (table_name k) n_per ∷ [];
  after = cleanup path;
})

-- `c.insert({"i": i})`
abbrev pub insert_shared : ℕ → Act
insert_shared i = insert shared (dict (field (str_key key_i) (int (pos i)) no_fields))

abbrev pub w4_pyx_worker : Str → ℕ → List Act
w4_pyx_worker path n = open_db path ∷ ((for_range n λ i. insert_shared i ∷ []) ++ (close_db ∷ []))

unfoldable pub w4_pyx : Str → ℕ → ℕ → Result Run
w4_pyx path n_procs n_per = pool n_procs (record {
  before = cleanup path ++ (open_db path ∷ close_db ∷ []);
  timed = [];
  workers = for_range n_procs λ k. w4_pyx_worker path n_per ∷ [];
  after = cleanup path;
})
