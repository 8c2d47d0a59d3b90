-- ===== src/Iter/Handles.antt =====
-- `Collection._iter` of bindings/python/pyx/__init__.py: its iterator is closed on every path, and its documents are
-- those of the engine's entries.
use pyx.Base.{
  ℕ, zero, suc, ◌<◌, ◌≡◌, ◌∙◌, refl, inl, inr, false, Bool-cases, Option, none, List, [], ◌∷◌,
  length, ◌==◌, if◌then◌else◌, arith,
}
use pyx.Base.Bytes.{Bytes}
use pyx.Base.Int.{is_negative, int_eq}
use pyx.Errors.{pyx_end}
use pyx.Calls.{check, then_call-keeps, then_call-value, if-keeps}
use pyx.Result.{Result, ok, ◌>>=◌}
use pyx.Doc.Value.{Value}
use pyx.Doc.Decode.{decode}
use pyx.Iter.{Cursors, open_iter, iter_loop, iter}
use pyx.Iter.Laws.{Counted, Ordered}

-- The documents of the entries in their order, as many as are wanted; an entry without bytes is none.
unfoldable pub decode_entries : ℕ → List (ℕ × Bytes) → Result (List (ℕ × Value))
decode_entries zero entries = ok []
decode_entries (suc wanted) [] = ok []
decode_entries (suc wanted) (entry ∷ entries) =
    let skipped = decode_entries (suc wanted) entries in
    let later = decode_entries wanted entries in
    if length entry.1 == 0
    then skipped
    else (decode none entry.1 >>= λ doc. (later >>= λ docs. ok ((entry.0, doc) ∷ docs)))

module _ (cursors : Cursors) where
  open cursors use {State, pyx_iter_next, pyx_iter_close}

  module _ (c : Counted cursors) where
    open c use {open_iters}

    iter_loop-keeps :
        (fuel wanted h : ℕ) (s : State)
        → open_iters (iter_loop cursors fuel wanted h s).1 ≡ open_iters s
    unfolding iter_loop
    iter_loop-keeps fuel zero h s = refl
    iter_loop-keeps zero (suc wanted) h s = refl
    iter_loop-keeps (suc fuel) (suc wanted) h s =
        let s' : State = (pyx_iter_next h s).3 in
        let Same : State → Type 0 = λ t. open_iters t ≡ open_iters s in
        let kept : Same s' = c.next_keeps h s in
        if-keeps Same (int_eq (pyx_iter_next h s).0 pyx_end) _ _ kept (
          then_call-keeps Same (check cursors.pyx_last_error (pyx_iter_next h s).0 s') _ s' kept
            (λ _.
              if-keeps Same (length (pyx_iter_next h s).2 == 0) _ _
                (iter_loop-keeps fuel (suc wanted) h s' ∙ kept)
                (then_call-keeps Same (decode none (pyx_iter_next h s).2) _ s' kept
                  (λ _. iter_loop-keeps fuel wanted h s' ∙ kept))))

    -- However many documents the consumer takes, and whether the loop ends, raises or is stopped, there
    -- are as many open iterators after it as before.
    iter-closes :
        (fuel : ℕ) (name : Bytes) (snapshot : Option ℕ) (wanted : ℕ) (s : State)
        → open_iters (iter cursors fuel name snapshot wanted s).1 ≡ open_iters s
    unfolding iter check
    iter-closes fuel name snapshot zero s = refl
    iter-closes fuel name snapshot (suc wanted) s =
        elim (Bool-cases (is_negative (open_iter cursors name snapshot s).0)) [
          | inl failed ↦ rw (failed, iter) (c.open_failed name snapshot s failed)
          | inr opened ↦
              let s' : State = (open_iter cursors name snapshot s).2 in
              let h : ℕ = (open_iter cursors name snapshot s).1 in
              rw (opened, iter)
                (omega (
                  arith,
                  c.open_ok name snapshot s opened,
                  iter_loop-keeps fuel (suc wanted) h s',
                  c.close_one h (iter_loop cursors fuel (suc wanted) h s').1,
                ))
        ]

  module _ (o : Ordered cursors) where
    open o use {entries}

    -- With a round for each entry and one more, the consumer gets the documents of the entries.
    pub iter_loop-decode_entries :
        (fuel wanted h : ℕ) (es : List (ℕ × Bytes)) (s : State)
        → entries s h ≡ es
        → length es < fuel
        → (iter_loop cursors fuel wanted h s).0 ≡ decode_entries wanted es
    unfolding iter_loop decode_entries check
    iter_loop-decode_entries zero wanted h es s e more = absurd (omega arith)
    iter_loop-decode_entries (suc fuel) zero h es s e more = refl
    iter_loop-decode_entries (suc fuel) (suc wanted) h [] s e more =
        rw (o.next_end h s e, iter_loop)
    iter_loop-decode_entries (suc fuel) (suc wanted) h ((id, b) ∷ es) s e more =
        let (rc, same_id, same_b, after) = o.next_entry h id b es s e in
        let s' : State = (pyx_iter_next h s).3 in
        let skipped = iter_loop-decode_entries fuel (suc wanted) h es s' after (omega arith) in
        let later = iter_loop-decode_entries fuel wanted h es s' after (omega arith) in
        elim (Bool-cases (length b == 0)) [
          | inl empty ↦ rw (rc, same_b, empty, iter_loop) skipped
          | inr full ↦
              rw (rc, same_id, same_b, full, iter_loop, ← later)
                (then_call-value (decode none b)
                  (λ doc. (iter_loop cursors fuel wanted h s').0 >>= λ docs. ok ((id, doc) ∷ docs))
                  s' _)
        ]

    -- Where the open succeeds, and with a round for each entry and one more, the generator yields the
    -- documents of the entries in their order, as many as are wanted, or raises what decoding them raises.
    pub iter-decode_entries :
        (fuel : ℕ) (name : Bytes) (snapshot : Option ℕ) (wanted : ℕ) (s : State)
        → is_negative (open_iter cursors name snapshot s).0 ≡ false
        → length
            (entries (open_iter cursors name snapshot s).2 (open_iter cursors name snapshot s).1)
          < fuel
        → (iter cursors fuel name snapshot wanted s).0
          ≡ decode_entries wanted
              (entries (open_iter cursors name snapshot s).2 (open_iter cursors name snapshot s).1)
    unfolding iter check decode_entries
    iter-decode_entries fuel name snapshot zero s opened more = refl
    iter-decode_entries fuel name snapshot (suc wanted) s opened more =
        rw (opened, iter)
          (iter_loop-decode_entries fuel (suc wanted) (open_iter cursors name snapshot s).1 _
            (open_iter cursors name snapshot s).2 refl more)
