-- ===== src/Iter/Tests.antt =====
-- Runs of the generator of bindings/python/pyx/__init__.py over a short collection.
use pyx.Base.{ℕ, suc, ◌-◌, ◌≡◌, refl, none, some, Option, List, [], ◌∷◌, arith, false}
use pyx.Base.Bytes.{Bytes}
use pyx.Base.Int.{ℤ, is_negative}
use pyx.Errors.{pyx_ok, pyx_end}
use pyx.Iter.{Cursors, open_iter, iter}
use pyx.Iter.Laws.{Counted, Ordered}
use pyx.Iter.Handles.{iter-decode_entries, decode_entries}

-- The iterators that are open, and what the last of them has still to give.
record Cursor : Type 0 where
  open_iters : ℕ
  left : List (ℕ × Bytes)

-- {} under 1, no value under 2, and a broken document under 4.
abbrev three_rows : List (ℕ × Bytes)
three_rows = (1, 8 ∷ 0 ∷ 0 ∷ 0 ∷ 0 ∷ []) ∷ (2, []) ∷ (4, 8 ∷ 9 ∷ []) ∷ []

abbrev opened : Cursor → ℤ × ℕ × Cursor
opened s = (pyx_ok, 1, record { open_iters = suc s.open_iters; left = three_rows })

abbrev next_at : List (ℕ × Bytes) → Cursor → ℤ × ℕ × Bytes × Cursor
next_at [] s = (pyx_end, 0, [], s)
next_at (entry ∷ rest) s =
    (pyx_ok, entry.0, entry.1, record { open_iters = s.open_iters; left = rest })

abbrev one_cursor : Cursors
one_cursor = record {
  State = Cursor;
  pyx_iter_open = λ name s. opened s;
  pyx_snapshot_iter_open = λ snapshot name s. opened s;
  pyx_iter_next = λ h s. next_at s.left s;
  pyx_iter_close = λ h s. record { open_iters = s.open_iters - 1; left = [] };
  pyx_last_error = λ s. "";
}

abbrev closed : Cursor
closed = record { open_iters = 0; left = [] }

open_counts :
    (name : Bytes) (snapshot : Option ℕ) (s : Cursor)
    → (open_iter one_cursor name snapshot s).2.open_iters ≡ suc s.open_iters
unfolding open_iter
open_counts name none s = refl
open_counts name (some snapshot) s = refl

open_accepted :
    (name : Bytes) (snapshot : Option ℕ) (s : Cursor)
    → is_negative (open_iter one_cursor name snapshot s).0 ≡ false
unfolding open_iter
open_accepted name none s = refl
open_accepted name (some snapshot) s = refl

next_keeps : (es : List (ℕ × Bytes)) (s : Cursor) → (next_at es s).3.open_iters ≡ s.open_iters
next_keeps [] s = refl
next_keeps (entry ∷ rest) s = refl

one_cursor-Counted : Counted one_cursor
one_cursor-Counted = record {
  open_iters = λ s. s.open_iters;
  open_ok = λ name snapshot s h. open_counts name snapshot s;
  open_failed = λ name snapshot s h. absurd (let never = open_accepted name snapshot s in cc);
  next_keeps = λ h s. next_keeps s.left s;
  close_one = λ h s some_open. omega arith;
}

one_cursor-Ordered : Ordered one_cursor
one_cursor-Ordered = record {
  entries = λ s h. s.left;
  next_entry = λ h id b rest s e. rw e (refl, refl, refl, refl);
  next_end = λ h s e. rw e;
}

iter-decode_entries_example : (iter one_cursor 9 [] none 1 closed).0 ≡ decode_entries 1 three_rows
unfolding one_cursor-Ordered open_iter
iter-decode_entries_example =
    iter-decode_entries one_cursor one_cursor-Ordered 9 [] none 1 closed refl (omega arith)
