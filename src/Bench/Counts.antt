-- ===== src/Bench/Counts.antt =====
-- The operations that the workloads of bench/python/bench_pyx_vs_sqlite.py make while they are timed.
use pyx.Base.{
  ℕ, zero, suc, ◌+◌, ◌*◌, ◌<◌, ◌≤◌, ◌≡◌, refl, sym, ap, ◌∙◌, Bool-cases, inl, inr, ltb, ◌==◌, List,
  [], ◌∷◌, ◌++◌, length, length-append, take, drop, arith,
}
use pyx.Base.Int.{ℤ}
use pyx.Base.Reading.{drop-drop}
use pyx.Result.{Result, ok, ok-injective, >>=-eq-ok}
use pyx.Bench.{
  Act, Run, insert, insert_many, get, get_many, insert_rows, select, for_range, draws, chunks_from,
  chunks,
}
use pyx.Bench.Report.{Entry}
use mathlib.Core.List.{map}

-- The documents that a call stores, and those that it asks for.
unfoldable pub ops : Act → ℕ
ops (insert name doc) = 1
ops (insert_many name docs) = length docs
ops (get name id) = 1
ops (get_many name ids) = length ids
ops (insert_rows statement rows) = length rows
ops (select statement ids) = length ids
ops _ = 0

unfoldable pub total : List Act → ℕ
unfolding ops
total [] = 0
total (act ∷ acts) = ops act + total acts

unfoldable pub total_of : List (List Act) → ℕ
unfolding total
total_of [] = 0
total_of (acts ∷ rest) = total acts + total_of rest

-- What a run does between its readings of the clock.
abbrev pub timed_ops : Run → ℕ
timed_ops run = total run.timed + total_of run.workers

abbrev pub Credited : Entry → Type 0
Credited e = (timed_ops e.pyx_s ≡ e.pyx_ops) × (timed_ops e.sqlite_s ≡ e.sqlite_ops)

pub total-append : (xs ys : List Act) → total (xs ++ ys) ≡ total xs + total ys
unfolding total
total-append [] ys = omega arith
total-append (x ∷ xs) ys = omega (arith, total-append xs ys)

pub total_of-append : (xs ys : List (List Act)) → total_of (xs ++ ys) ≡ total_of xs + total_of ys
unfolding total_of
total_of-append [] ys = omega arith
total_of-append (x ∷ xs) ys = omega (arith, total_of-append xs ys)

-- A loop over range(n) that makes `k` operations in each round.
pub total-for_range :
    (n k : ℕ) (body : ℕ → List Act)
    → ((i : ℕ) → total (body i) ≡ k)
    → total (for_range n body) ≡ n * k
unfolding for_range total
total-for_range zero k body each = omega arith
total-for_range (suc n) k body each =
    omega (arith, total-append (for_range n body) (body n), each n, total-for_range n k body each)

-- A loop of single calls that store one document, and a worker that has a file open around it.
pub total-each :
    (n : ℕ) (call : ℕ → Act)
    → ((i : ℕ) → ops (call i) ≡ 1)
    → total (for_range n λ i. call i ∷ []) ≡ n
unfolding total
total-each n call one =
    total-for_range n 1 (λ i. call i ∷ []) (λ i. omega (arith, one i)) ∙ omega arith

pub total-enclosed :
    (n : ℕ) (call : ℕ → Act) (close : Act)
    → ((i : ℕ) → ops (call i) ≡ 1)
    → ops close ≡ 0
    → total ((for_range n λ i. call i ∷ []) ++ (close ∷ [])) ≡ n
unfolding total
total-enclosed n call close one none_more =
    total-append (for_range n λ i. call i ∷ []) (close ∷ [])
    ∙ omega (arith, total-each n call one, none_more)

pub total_of-for_range :
    (n k : ℕ) (body : ℕ → List Act)
    → ((i : ℕ) → total (body i) ≡ k)
    → total_of (for_range n λ i. body i ∷ []) ≡ n * k
unfolding for_range total_of
total_of-for_range zero k body each = omega arith
total_of-for_range (suc n) k body each = omega (
  arith,
  total_of-append (for_range n λ i. body i ∷ []) (body n ∷ []),
  each n,
  total_of-for_range n k body each,
)

pub length-for_range {ℓ} : {A : Type ℓ} (n : ℕ) (f : ℕ → A) → length (for_range n λ i. f i ∷ []) ≡ n
unfolding for_range
length-for_range zero f = refl
length-for_range (suc n) f =
    omega (arith, length-append (for_range n λ i. f i ∷ []) (f n ∷ []), length-for_range n f)

pub length-draws :
    (n : ℕ) (draw : ℕ → Result ℤ) (ids : List ℤ) → draws n draw ≡ ok ids → length ids ≡ n
unfolding draws
length-draws zero draw ids e = ap length (sym (ok-injective e))
length-draws (suc n) draw ids e =
    let (before, e0, e1) = >>=-eq-ok (draws n draw) _ e in
    let (id, _, e2) = >>=-eq-ok (draw n) _ e1 in
    ap length (sym (ok-injective e2))
    ∙ omega (arith, length-append before (id ∷ []), length-draws n draw before e0)

-- The chunks have all the targets from `start` on.
abbrev pub lengths_of : List (List ℤ) → ℕ
lengths_of [] = 0
lengths_of (ids ∷ rest) = length ids + lengths_of rest

abbrev pub joined : List (List ℤ) → List ℤ
joined [] = []
joined (ids ∷ rest) = ids ++ joined rest

take-drop : (k : ℕ) (ids : List ℤ) → take k ids ++ drop k ids ≡ ids
take-drop zero ids = refl
take-drop (suc k) [] = refl
take-drop (suc k) (x ∷ ids) = ap (λ (l : List ℤ). x ∷ l) (take-drop k ids)

drop-all : (n : ℕ) (ids : List ℤ) → length ids ≤ n → drop n ids ≡ []
drop-all zero [] h = refl
drop-all zero (x ∷ ids) h = absurd (omega arith)
drop-all (suc n) [] h = refl
drop-all (suc n) (x ∷ ids) h = drop-all n ids (omega arith)

joined-chunks_from :
    (fuel : ℕ) (targets : List ℤ) (start n batch : ℕ)
    → length targets ≡ n
    → 0 < batch
    → n < fuel + start
    → joined (chunks_from fuel targets start n batch) ≡ drop start targets
unfolding chunks_from
joined-chunks_from zero targets start n batch size moves enough =
    sym (drop-all start targets (omega (arith, size)))
joined-chunks_from (suc fuel) targets start n batch size moves enough =
    elim (Bool-cases (ltb start n)) [
      | inl more ↦
          rw
            (
              more,
              joined-chunks_from fuel targets (start + batch) n batch size moves (omega arith),
              ← drop-drop batch start targets,
            )
            (take-drop batch (drop start targets))
      | inr done ↦ rw done (sym (drop-all start targets (ground (arith, size))))
    ]

-- The chunks, one after another, are the targets.
pub joined-chunks :
    (targets : List ℤ) (n batch : ℕ) (batches : List (List ℤ))
    → length targets ≡ n
    → chunks targets n batch ≡ ok batches
    → joined batches ≡ targets
unfolding chunks
joined-chunks targets n batch batches size e = elim (Bool-cases (batch == 0)) [
  | inl none_left ↦ absurd (let e' = rw none_left at e in cc)
  | inr moves ↦
      let e' = rw moves at e in
      ap joined (sym (ok-injective e'))
      ∙ joined-chunks_from (suc n) targets 0 n batch size (ground arith) (omega arith)
]

pub length-joined : (batches : List (List ℤ)) → length (joined batches) ≡ lengths_of batches
length-joined [] = refl
length-joined (ids ∷ rest) = length-append ids (joined rest) ∙ omega (arith, length-joined rest)

pub total-map_each :
    (ids : List ℤ) (call : ℤ → Act)
    → ((id : ℤ) → ops (call id) ≡ 1)
    → total (map call ids) ≡ length ids
unfolding total
total-map_each [] call one = refl
total-map_each (id ∷ ids) call one = omega (arith, one id, total-map_each ids call one)

pub total-map_batches :
    (batches : List (List ℤ)) (call : List ℤ → Act)
    → ((ids : List ℤ) → ops (call ids) ≡ length ids)
    → total (map call batches) ≡ lengths_of batches
unfolding total
total-map_batches [] call all = refl
total-map_batches (ids ∷ rest) call all = omega (arith, all ids, total-map_batches rest call all)
