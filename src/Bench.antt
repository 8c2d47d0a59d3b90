-- ===== src/Bench.antt =====
-- bench/python/bench_pyx_vs_sqlite.py: the workloads that it times, as the calls that they make one after another where none
-- of them raises. What is printed, and the time itself, is left out.
pub mod Pyx
pub mod Sqlite
pub mod Report
pub mod Counts
pub mod Credits
mod Tests
use Prim.Native.String.{String}
use pyx.Base.{
  ℕ, zero, suc, ◌+◌, ◌/◌, ◌%◌, ◌==◌, ltb, true, false, if◌then◌else◌, List, [], ◌∷◌, ◌++◌, length,
  take, drop, ◌-◌,
}
use pyx.Base.Int.{ℤ, pos}
use pyx.Result.{Result, Exn, ok, raised, ◌>>=◌}
use pyx.Doc.Utf8.{Str}
use pyx.Doc.Value.{Value, str_key, int, str, dict, field, no_fields}

-- A statement of SQL: a text, one with a table's name in it, or one with that many placeholders.
pub data Sql : Type 0 where
  sql : String → Sql
  sql_with : String → Str → String → Sql
  sql_in : String → ℕ → String → Sql

-- A call: of the file system, of the pyx package, or of sqlite3. `execute` is that of a statement without rows,
-- `insert_rows` that of an INSERT with its rows, `select` that of a SELECT with the ids that it asks for.
pub data Act : Type 0 where
  unlink : Str → Act
  open_db create_collection : Str → Act
  close_db close_conn : Act
  insert : Str → Value → Act
  insert_many : Str → List Value → Act
  get : Str → ℤ → Act
  get_many : Str → List ℤ → Act
  connect : Str → Act
  execute : Sql → Act
  insert_rows : Sql → List (List Value) → Act
  select : Sql → List ℤ → Act

-- What a workload does before it reads the clock, between its two readings, by itself and in the processes of a pool, and
-- afterwards.
pub record Run : Type 0 where
  pub before : List Act
  pub timed : List Act
  pub workers : List (List Act)
  pub after : List Act

-- `for i in range(n)`
unfoldable pub for_range {ℓ} : {A : Type ℓ} → ℕ → (ℕ → List A) → List A
for_range zero body = []
for_range (suc n) body = for_range n body ++ body n

-- `[draw() for _ in range(n)]`
unfoldable pub draws : ℕ → (ℕ → Result ℤ) → Result (List ℤ)
draws zero draw = ok []
draws (suc n) draw = draws n draw >>= λ ids. (draw n >>= λ id. ok (ids ++ (id ∷ [])))

-- `targets[start:start + batch] for start in range(start, n_reads, batch)`; a step of 0 is refused before.
unfoldable pub chunks_from : ℕ → List ℤ → ℕ → ℕ → ℕ → List (List ℤ)
chunks_from zero targets start n_reads batch = []
chunks_from (suc fuel) targets start n_reads batch =
    let rest = chunks_from fuel targets (start + batch) n_reads batch in
    if ltb start n_reads then take batch (drop start targets) ∷ rest else []

-- Each round passes a target.
unfoldable pub chunks : List ℤ → ℕ → ℕ → Result (List (List ℤ))
unfolding chunks_from
chunks targets n_reads batch =
    if batch == 0
    then raised (Exn.value_error "range() arg 3 must not be zero")
    else ok (chunks_from (suc n_reads) targets 0 n_reads batch)

-- `str(n)`, by its last digits first.
digits_from : ℕ → ℕ → Str → Str
digits_from zero n acc = acc
digits_from (suc fuel) n acc =
    let here = (b'0' + n % 10) ∷ acc in
    let rest = digits_from fuel (n / 10) here in if n / 10 == 0 then here else rest

unfoldable pub decimal : ℕ → Str
unfolding digits_from
decimal n = digits_from (suc n) n []

abbrev pub key_i : Str
key_i = b'i' ∷ []

abbrev pub notes : Str
notes = b'n' ∷ b'o' ∷ b't' ∷ b'e' ∷ b's' ∷ []

abbrev pub shared : Str
shared = b's' ∷ b'h' ∷ b'a' ∷ b'r' ∷ b'e' ∷ b'd' ∷ []

-- `f"note-{i}"` and `f"c{k}"`
abbrev pub note_title : ℕ → Str
note_title i = (b'n' ∷ b'o' ∷ b't' ∷ b'e' ∷ b'-' ∷ []) ++ decimal i

abbrev pub table_name : ℕ → Str
table_name k = b'c' ∷ decimal k

abbrev pub lorem_ipsum : Str
lorem_ipsum = b'l' ∷ b'o' ∷ b'r' ∷ b'e' ∷ b'm' ∷ b' ' ∷ b'i' ∷ b'p' ∷ b's' ∷ b'u' ∷ b'm' ∷ []

-- `cleanup`; a file that is not there is passed over.
abbrev pub cleanup : Str → List Act
cleanup path =
    unlink path
    ∷ unlink (path ++ (b'.' ∷ b'w' ∷ b'a' ∷ b'l' ∷ []))
    ∷ unlink (path ++ (b'-' ∷ b's' ∷ b'h' ∷ b'm' ∷ []))
    ∷ unlink (path ++ (b'-' ∷ b'j' ∷ b'o' ∷ b'u' ∷ b'r' ∷ b'n' ∷ b'a' ∷ b'l' ∷ []))
    ∷ []

-- The documents of W1 and of W2.
abbrev pub titled : ℕ → Value
titled i = dict (
    field (str_key key_i) (int (pos i))
      (field (str_key (b't' ∷ b'i' ∷ b't' ∷ b'l' ∷ b'e' ∷ [])) (str (note_title i)) no_fields))

abbrev pub note_doc : ℕ → Value
note_doc i = dict (
    field (str_key key_i) (int (pos i)) (
      field (str_key (b't' ∷ b'i' ∷ b't' ∷ b'l' ∷ b'e' ∷ [])) (str (note_title i))
        (field (str_key (b'b' ∷ b'o' ∷ b'd' ∷ b'y' ∷ [])) (str lorem_ipsum) no_fields)))
