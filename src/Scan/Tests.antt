-- ===== src/Scan/Tests.antt =====
-- Runs of `find_range` of bindings/python/pyx/__init__.py over a small index.
use pyx.Base.{
  ℕ, suc, ◌-◌, ◌≡◌, refl, Option, none, some, List, [], ◌∷◌, Bool, false, ◌&&◌, arith, take,
}
use pyx.Base.Bytes.{Bytes}
use pyx.Base.Int.{ℤ, pos, negsuc, is_negative}
use pyx.Errors.{pyx_ok, pyx_end}
use pyx.Result.{ok}
use pyx.Doc.Utf8.{utf8_encode, encode_char}
use pyx.Doc.Value.{null, int, str}
use pyx.Query.{PyxValue, PyxBound, scalar}
use pyx.Scan.{Lookups, open_range, find_range}
use pyx.Scan.Laws.{Counted, Indexed, lets, select, int_le, int_lt, int_ge, int_gt}
use pyx.Scan.Handles.{find_range-closes}
use pyx.Scan.Selects.{find_range-select, in_range}

-- The lookups that are open, and what the last of them has still to give.
record Cursor : Type 0 where
  open_lookups : ℕ
  left : List ℕ

-- The ages -3, 17, 18, 30 of the documents 4, 2, 1, 7.
abbrev ages : List (ℤ × ℕ)
ages = (negsuc 2, 4) ∷ (pos 17, 2) ∷ (pos 18, 1) ∷ (pos 30, 7) ∷ []

abbrev no_other : ℕ → PyxValue → ℤ → Bool
no_other kind value key = false

abbrev opened : Option PyxBound → Option PyxBound → Cursor → ℤ × ℕ × Cursor
opened lo hi s = (
  pyx_ok,
  1,
  record {
    open_lookups = suc s.open_lookups;
    left =
        select (λ key. lets int_le int_lt no_other lo key && lets int_ge int_gt no_other hi key)
          ages;
  },
)

abbrev next_at : List ℕ → Cursor → ℤ × ℕ × Cursor
next_at [] s = (pyx_end, 0, s)
next_at (id ∷ rest) s = (pyx_ok, id, record { open_lookups = s.open_lookups; left = rest })

abbrev small : Lookups
small = record {
  State = Cursor;
  pyx_find_range = λ name field lo hi s. opened lo hi s;
  pyx_snapshot_find_range = λ snapshot name field lo hi s. opened lo hi s;
  pyx_lookup_next = λ h s. next_at s.left s;
  pyx_lookup_close = λ h s. record { open_lookups = s.open_lookups - 1; left = [] };
  pyx_last_error = λ s. "";
}

abbrev closed : Cursor
closed = record { open_lookups = 0; left = [] }

open_is :
    (name field : Bytes) (lo hi : Option PyxBound) (snapshot : Option ℕ) (s : Cursor)
    → open_range small name field lo hi snapshot s ≡ opened lo hi s
unfolding open_range
open_is name field lo hi none s = refl
open_is name field lo hi (some snapshot) s = refl

accepted :
    (name field : Bytes) (lo hi : Option PyxBound) (snapshot : Option ℕ) (s : Cursor)
    → is_negative (open_range small name field lo hi snapshot s).0 ≡ false
accepted name field lo hi snapshot s = rw (open_is name field lo hi snapshot s)

next_keeps : (ids : List ℕ) (s : Cursor) → (next_at ids s).2.open_lookups ≡ s.open_lookups
next_keeps [] s = refl
next_keeps (id ∷ rest) s = refl

small-Counted : Counted small
small-Counted = record {
  open_lookups = λ s. s.open_lookups;
  open_ok = λ name field lo hi snapshot s h. rw (open_is name field lo hi snapshot s);
  open_failed = λ name field lo hi snapshot s h.
      absurd (let never = accepted name field lo hi snapshot s in cc);
  next_keeps = λ h s. next_keeps s.left s;
  close_one = λ h s some_open. omega arith;
}

find_range-closes_example :
    (find_range small 9 []
      (b'a' ∷ [])
      (scalar (str []))
      (scalar null)
      null
      (int (pos 3))
      null
      null
      (some 5)
      1
      closed).1.open_lookups
    ≡ 0
unfolding small-Counted
find_range-closes_example =
    find_range-closes small small-Counted 9 [] (b'a' ∷ []) (scalar (str [])) (scalar null) null
      (int (pos 3)) null null (some 5) 1 closed

small-Indexed : Indexed small
small-Indexed = record {
  index = λ s snapshot name field. ages;
  ids = λ s h. s.left;
  other_low = no_other;
  other_high = no_other;
  open_selects = λ name field lo hi snapshot s h. rw (open_is name field lo hi snapshot s);
  next_id = λ h id rest s e. rw e (refl, refl, refl);
  next_end = λ h s e. rw e;
}

encode-a : utf8_encode (b'a' ∷ []) ≡ ok (b'a' ∷ [])
unfolding utf8_encode encode_char
encode-a = refl

adults : select (in_range none (some (pos 17)) (some (pos 30)) none) ages ≡ 1 ∷ 7 ∷ []
unfolding select
adults = refl

-- find_range("a", gt=17, lte=30)
find_range-select_example :
    (find_range small 9 []
      (b'a' ∷ [])
      (scalar null)
      (scalar null)
      null
      (int (pos 17))
      (int (pos 30))
      null
      none
      5
      closed).0
    ≡ ok (take 5 (select (in_range none (some (pos 17)) (some (pos 30)) none) ages))
unfolding small-Indexed
find_range-select_example =
    find_range-select small small-Indexed [] (b'a' ∷ []) none closed
      (λ lo hi. accepted [] (b'a' ∷ []) lo hi none closed) 9 5 (b'a' ∷ []) none (some (pos 17))
      (some (pos 30)) none encode-a tt tt tt (omega arith) (omega arith) tt (omega arith)
