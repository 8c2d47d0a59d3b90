-- ===== src/Iter/Laws.antt =====
-- What the iteration of bindings/python/pyx/__init__.py relies on of libpyx: the iterators that are open, and what
-- each has still to give.
use pyx.Base.{ℕ, suc, ◌<◌, ◌≡◌, Option, List, [], ◌∷◌, true, false}
use pyx.Base.Bytes.{Bytes}
use pyx.Base.Int.{is_negative}
use pyx.Errors.{pyx_ok, pyx_end}
use pyx.Iter.{Cursors, open_iter}

module _ (cursors : Cursors) where
  open cursors use {State, pyx_iter_next, pyx_iter_close}

  -- An open that returns no error opens one iterator; a step opens and closes none.
  pub record Counted : Type 0 where
    pub open_iters : State → ℕ
    pub open_ok :
        (name : Bytes) (snapshot : Option ℕ) (s : State)
        → is_negative (open_iter cursors name snapshot s).0 ≡ false
        → open_iters (open_iter cursors name snapshot s).2 ≡ suc (open_iters s)
    pub open_failed :
        (name : Bytes) (snapshot : Option ℕ) (s : State)
        → is_negative (open_iter cursors name snapshot s).0 ≡ true
        → open_iters (open_iter cursors name snapshot s).2 ≡ open_iters s
    pub next_keeps : (h : ℕ) (s : State) → open_iters (pyx_iter_next h s).3 ≡ open_iters s
    pub close_one :
        (h : ℕ) (s : State)
        → 0 < open_iters s
        → suc (open_iters (pyx_iter_close h s)) ≡ open_iters s

  -- `entries s h` is what the iterator `h` has still to give: a step gives the first, or the end.
  pub record Ordered : Type 0 where
    pub entries : State → ℕ → List (ℕ × Bytes)
    pub next_entry :
        (h id : ℕ) (b : Bytes) (rest : List (ℕ × Bytes)) (s : State)
        → entries s h ≡ (id, b) ∷ rest
        → ((pyx_iter_next h s).0 ≡ pyx_ok)
          × ((pyx_iter_next h s).1 ≡ id)
          × ((pyx_iter_next h s).2 ≡ b)
          × (entries (pyx_iter_next h s).3 h ≡ rest)
    pub next_end : (h : ℕ) (s : State) → entries s h ≡ [] → (pyx_iter_next h s).0 ≡ pyx_end
