-- ===== src/Scan/Handles.antt =====
-- `find_range` of bindings/python/pyx/__init__.py closes its lookup on every path.
use pyx.Base.{ℕ, zero, suc, ◌≡◌, ◌∙◌, refl, inl, inr, Bool-cases, Option, arith}
use pyx.Base.Bytes.{Bytes}
use pyx.Base.Int.{is_negative, int_eq}
use pyx.Errors.{pyx_end}
use pyx.Calls.{check, then_call-keeps, if-keeps}
use pyx.Doc.Utf8.{Str, utf8_encode}
use pyx.Doc.Value.{Value}
use pyx.Query.{PyxBound, BoundArg, to_bound, find_range_args}
use pyx.Scan.{Lookups, open_range, range_loop, scan, range, find_range}
use pyx.Scan.Laws.{Counted}

module _ (lookups : Lookups) (c : Counted lookups) where
  open lookups use {State, pyx_lookup_next, pyx_lookup_close}
  open c use {open_lookups}

  range_loop-keeps :
      (fuel wanted h : ℕ) (s : State)
      → open_lookups (range_loop lookups fuel wanted h s).1 ≡ open_lookups s
  unfolding range_loop
  range_loop-keeps fuel zero h s = refl
  range_loop-keeps zero (suc wanted) h s = refl
  range_loop-keeps (suc fuel) (suc wanted) h s =
      let s' : State = (pyx_lookup_next h s).2 in
      let Same : State → Type 0 = λ t. open_lookups t ≡ open_lookups s in
      let kept : Same s' = c.next_keeps h s in
      if-keeps Same (int_eq (pyx_lookup_next h s).0 pyx_end) _ _ kept (
        then_call-keeps Same (check lookups.pyx_last_error (pyx_lookup_next h s).0 s') _ s' kept
          (λ _. range_loop-keeps fuel wanted h s' ∙ kept))

  scan-keeps :
      (fuel : ℕ) (name field : Bytes) (lo hi : Option PyxBound) (snapshot : Option ℕ) (wanted : ℕ)
      (s : State)
      → open_lookups (scan lookups fuel name field lo hi snapshot wanted s).1 ≡ open_lookups s
  unfolding scan check
  scan-keeps fuel name field lo hi snapshot wanted s =
      let opening = open_range lookups name field lo hi snapshot s in
      elim (Bool-cases (is_negative opening.0)) [
        | inl failed ↦ rw (failed, scan) (c.open_failed name field lo hi snapshot s failed)
        | inr opened ↦
            rw (opened, scan)
              (omega (
                arith,
                c.open_ok name field lo hi snapshot s opened,
                range_loop-keeps fuel wanted opening.1 opening.2,
                c.close_one opening.1 (range_loop lookups fuel wanted opening.1 opening.2).1,
              ))
      ]

  range-keeps :
      (fuel : ℕ) (name : Bytes) (field : Str) (lo hi : BoundArg) (snapshot : Option ℕ) (wanted : ℕ)
      (s : State)
      → open_lookups (range lookups fuel name field lo hi snapshot wanted s).1 ≡ open_lookups s
  unfolding range
  range-keeps fuel name field lo hi snapshot zero s = refl
  range-keeps fuel name field lo hi snapshot (suc wanted) s =
      let Same : State → Type 0 = λ t. open_lookups t ≡ open_lookups s in
      then_call-keeps Same (utf8_encode field) _ s refl (λ cb.
        then_call-keeps Same (to_bound lo) _ s refl (λ lo_b.
          then_call-keeps Same (to_bound hi) _ s refl
            (λ hi_b. scan-keeps fuel name cb lo_b hi_b snapshot (suc wanted) s)))

  -- Whatever its arguments, and whether it ends, raises or is stopped by its consumer, a range scan
  -- leaves as many lookups open as there were.
  pub find_range-closes :
      (fuel : ℕ) (name : Bytes) (field : Str) (lo hi : BoundArg) (gte gt lte lt : Value)
      (snapshot : Option ℕ) (wanted : ℕ) (s : State)
      → open_lookups (find_range lookups fuel name field lo hi gte gt lte lt snapshot wanted s).1
        ≡ open_lookups s
  unfolding find_range
  find_range-closes fuel name field lo hi gte gt lte lt snapshot wanted s =
      let Same : State → Type 0 = λ t. open_lookups t ≡ open_lookups s in
      then_call-keeps Same (find_range_args lo hi gte gt lte lt) _ s refl
        (λ (lo', hi'). range-keeps fuel name field lo' hi' snapshot wanted s)
