-- ===== src/Notes/Store/Inv.antt =====
-- What `get_db` and `close_db` of realworldexamples/django/notes/pyx_store.py keep true together.
use pyx.Base.{
  ℕ, ◌+◌, ◌-◌, ◌<◌, ◌≤◌, ◌≡◌, refl, Bool, true, false, Option, none, some, List, [], ◌∷◌, length,
  ◌==◌, if◌then◌else◌, arith,
}
use pyx.Notes.Store.{
  Shared, Pc, found, inside, found_inside, opening, set_up, leaving, returned, unwinding, closing,
  found_closing, resetting, left, Move, call, seen, lock_get, seen_inside, missing, drop_frame,
  lock_close, nothing, seen_closing, close, no_close, set_at, remove, Process, pick, start_process,
  Reach, start, later,
}

-- Inside `with _lock`.
abbrev pub critical : Pc → Bool
critical inside = true
critical found_inside = true
critical opening = true
critical (set_up h k) = true
critical (leaving r) = true
critical closing = true
critical found_closing = true
critical resetting = true
critical left = true
critical _ = false

-- A database that is open and not in `_db` yet, and one that is in `_db` and closed.
abbrev pub fresh : Pc → ℕ
fresh (set_up h k) = 1
fresh _ = 0

abbrev pub stale : Pc → ℕ
stale resetting = 1
stale _ = 0

-- Whether the thread keeps a database of a call that raised.
abbrev pub unwinds : Pc → ℕ
unwinds (unwinding h) = 1
unwinds _ = 0

abbrev pub known : Option ℕ → ℕ
known none = 0
known (some h) = 1

-- What a thread knows about `_db` while it holds the lock.
abbrev pub Knows : Pc → Shared → Type 0
Knows opening m = m.db ≡ none
Knows (set_up h k) m = m.db ≡ none
Knows found_inside m = known m.db ≡ 1
Knows found_closing m = known m.db ≡ 1
Knows resetting m = (known m.db ≡ 1) × (0 < m.closes)
Knows _ m = Unit

-- What `get_db` has seen, is about to return or has returned is the Db in `_db`.
abbrev pub Sees : Pc → Shared → Type 0
Sees found m = known m.db ≡ 1
Sees (leaving r) m = (r ≡ m.db) × (known m.db ≡ 1)
Sees (returned r) m = (r ≡ m.db) × (known m.db ≡ 1)
Sees _ m = Unit

abbrev pub at_lock : (Pc → ℕ) → (ℕ → Pc) → Option ℕ → ℕ
at_lock weight pc none = 0
at_lock weight pc (some i) = weight (pc i)

unfoldable pub count : ℕ → List ℕ → ℕ
count i [] = 0
count i (j ∷ l) = (if i == j then 1 else 0) + count i l

count-remove :
    (i j : ℕ) (l : List ℕ) → count j (remove i l) ≡ (if i == j then count j l - 1 else count j l)
unfolding count remove
count-remove i j [] = ground arith
count-remove i j (k ∷ l) = ground (arith, count-remove i j l)

length-remove : (i : ℕ) (l : List ℕ) → count i l ≡ 1 → length (remove i l) + 1 ≡ length l
unfolding count remove
length-remove i [] h = absurd (omega arith)
length-remove i (k ∷ l) h = ground (arith, length-remove i l)

pub record Inv (m : Shared) (pc : ℕ → Pc) : Type 0 where
  pub owner : (i : ℕ) → critical (pc i) ≡ true → m.lock ≡ some i
  pub knows : (i : ℕ) → Knows (pc i) m
  pub counted :
      m.open_dbs + at_lock stale pc m.lock ≡ known m.db + at_lock fresh pc m.lock + length m.failing
  pub held : (i : ℕ) → count i m.failing ≡ unwinds (pc i)
  pub sees : (i : ℕ) → m.closes ≡ 0 → Sees (pc i) m

-- A closed database that is in `_db` still.
stale-le : (p : Pc) (m : Shared) → Knows p m → stale p ≤ known m.db
stale-le resetting m e = omega arith
stale-le p m e = omega arith

at_lock-stale :
    (m : Shared) (pc : ℕ → Pc) (lock : Option ℕ)
    → ((i : ℕ) → Knows (pc i) m)
    → at_lock stale pc lock ≤ known m.db
at_lock-stale m pc none knows = omega arith
at_lock-stale m pc (some i) knows = stale-le (pc i) m (knows i)

-- The premise of a move, for a clause that covers several.
abbrev Guard : {i : ℕ} {m m' : Shared} {p p' : Pc} → Move i m p m' p' → Type 0
Guard {m} (call _) = m.db ≡ none
Guard {m} (seen {h} _) = m.db ≡ some h
Guard {m} (lock_get _) = m.lock ≡ none
Guard {m} (seen_inside {h} _) = m.db ≡ some h
Guard {m} (missing _) = m.db ≡ none
Guard {m} (lock_close _) = m.lock ≡ none
Guard {m} (nothing _) = m.db ≡ none
Guard {m} (seen_closing {h} _) = m.db ≡ some h
Guard {m} (close {h} _) = m.db ≡ some h
Guard {m} (no_close _) = m.db ≡ none
Guard _ = Unit

guard : {i : ℕ} {m m' : Shared} {p p' : Pc} (mv : Move i m p m' p') → Guard mv
guard (call g) = g
guard (seen g) = g
guard (lock_get g) = g
guard (seen_inside g) = g
guard (missing g) = g
guard (lock_close g) = g
guard (nothing g) = g
guard (seen_closing g) = g
guard (close g) = g
guard (no_close g) = g
guard _ = tt

module _ {m : Shared} {pc : ℕ → Pc} (inv : Inv m pc) (i : ℕ) where
  open inv use {owner, knows, counted, held, sees}

  Move-owner :
      {p p' : Pc} {m' : Shared}
      → Move i m p m' p'
      → pc i ≡ p
      → (j : ℕ) → critical (set_at pc i p' j) ≡ true
      → m'.lock ≡ some j
  Move-owner (call g) e j h = ground (arith, owner j, owner i)
  Move-owner mv e j h = ground (arith, guard mv, owner j, owner i)

  Move-Knows :
      {p p' : Pc} {m' : Shared}
      → Move i m p m' p'
      → pc i ≡ p
      → (j : ℕ) → Knows (set_at pc i p' j) m'
  Move-Knows (call g) e j = ground (arith, knows j)
  Move-Knows mv e j = ground (arith, guard mv, owner j, owner i, knows j, knows i)

  Move-counted :
      {p p' : Pc} {m' : Shared}
      → Move i m p m' p'
      → pc i ≡ p
      → m'.open_dbs + at_lock stale (set_at pc i p') m'.lock
        ≡ known m'.db + at_lock fresh (set_at pc i p') m'.lock + length m'.failing
  Move-counted (call g) e = ground (arith, counted)
  Move-counted drop_frame e =
      ground (
        arith,
        owner i,
        counted,
        held i,
        length-remove i m.failing,
        at_lock-stale m pc m.lock knows,
      )
  Move-counted mv e = ground (arith, guard mv, owner i, knows i, counted)

  Move-held :
      {p p' : Pc} {m' : Shared}
      → Move i m p m' p'
      → pc i ≡ p
      → (j : ℕ) → count j m'.failing ≡ unwinds (set_at pc i p' j)
  unfolding count
  Move-held (call g) e j = ground (arith, held j, held i)
  Move-held drop_frame e j = ground (arith, held j, held i, count-remove i j m.failing)
  Move-held mv e j = ground (arith, held j, held i)

  Move-Sees :
      {p p' : Pc} {m' : Shared}
      → Move i m p m' p'
      → pc i ≡ p
      → (j : ℕ) → m'.closes ≡ 0
      → Sees (set_at pc i p' j) m'
  Move-Sees (call g) e j quiet = ground (arith, sees j quiet)
  Move-Sees (close g) e j quiet = absurd (omega arith)
  Move-Sees mv e j quiet =
      ground (arith, guard mv, owner j, owner i, knows i, sees j quiet, sees i quiet)

  Move-Inv : {p' : Pc} {m' : Shared} → Move i m (pc i) m' p' → Inv m' (set_at pc i p')
  Move-Inv mv = record {
    owner = Move-owner mv refl;
    knows = Move-Knows mv refl;
    counted = Move-counted mv refl;
    held = Move-held mv refl;
    sees = Move-Sees mv refl;
  }

Inv-start : Inv start_process.mem start_process.pc
unfolding count
Inv-start = record {
  owner = λ i h. absurd (cc);
  knows = λ i. tt;
  counted = refl;
  held = λ i. refl;
  sees = λ i quiet. tt;
}

Reach-Inv : {s : Process} → Reach s → Inv s.mem s.pc
Reach-Inv start = Inv-start
Reach-Inv (later r (pick i mv)) = Move-Inv (Reach-Inv r) i mv

-- The lock is held by at most one thread, which is the only one inside.
pub Reach-exclusive :
    {s : Process}
    → Reach s
    → (i j : ℕ) → critical (s.pc i) ≡ true
    → critical (s.pc j) ≡ true
    → i ≡ j
Reach-exclusive r i j p q = let inv = Reach-Inv r in ground (arith, inv.owner i p, inv.owner j q)

fresh-le : (p : Pc) (m : Shared) → Knows p m → known m.db + fresh p ≤ 1
fresh-le (set_up h k) m e = ground arith
fresh-le p m e = ground arith

at_lock-le :
    (m : Shared) (pc : ℕ → Pc) (lock : Option ℕ)
    → ((i : ℕ) → Knows (pc i) m)
    → known m.db + at_lock fresh pc lock ≤ 1
at_lock-le m pc none knows = ground arith
at_lock-le m pc (some i) knows = fresh-le (pc i) m (knows i)

open_dbs-le : {m : Shared} {pc : ℕ → Pc} → Inv m pc → m.open_dbs ≤ 1 + length m.failing
open_dbs-le {m} {pc} inv = omega (arith, inv.counted, at_lock-le m pc m.lock inv.knows)

returned-Sees :
    (p : Pc) (r : Option ℕ) (m : Shared) → p ≡ returned r → Sees p m → Sees (returned r) m
returned-Sees p r m e h = rw e at h

-- In every interleaving of threads that call `get_db` and `close_db`, also where opening or indexing raises: the
-- open databases are at most one more than the calls in which indexing raised and whose frame is not freed yet, each
-- of these threads being counted once; and while `close_db` has closed no database, every call of `get_db` that has
-- returned has returned the one in `_db`, and there is one.
pub get_db-once :
    {s : Process}
    → Reach s
    → (s.mem.open_dbs ≤ 1 + length s.mem.failing)
      × ((i : ℕ) → count i s.mem.failing ≡ unwinds (s.pc i))
      × ((i : ℕ) (r : Option ℕ)
          → s.mem.closes ≡ 0
          → s.pc i ≡ returned r
          → (r ≡ s.mem.db) × (known s.mem.db ≡ 1))
get_db-once {s} r =
    let inv = Reach-Inv r in
    (
      open_dbs-le inv,
      inv.held,
      (λ i res quiet e. returned-Sees (s.pc i) res s.mem e (inv.sees i quiet)),
    )
