-- ===== src/Iter.antt =====
-- `Collection._iter` of bindings/python/pyx/__init__.py, the generator behind iteration over a collection and over
-- a snapshot of it. libpyx is a parameter.
pub mod Laws
pub mod Handles
mod Tests
use Prim.Native.String.{String}
use pyx.Base.{ℕ, zero, suc, Option, none, some, if◌then◌else◌, ◌==◌, List, [], ◌∷◌, length}
use pyx.Base.Bytes.{Bytes}
use pyx.Base.Int.{ℤ, is_negative, int_eq}
use pyx.Errors.{from_status, pyx_end}
use pyx.Calls.{check, then_call}
use pyx.Result.{Result, Exn, ok, raised, out_of_fuel, ◌>>=◌}
use pyx.Doc.Value.{Value}
use pyx.Doc.Decode.{decode}

-- The functions of the C ABI that an iteration calls, on a state that holds the database and the
-- iterators. `pyx_iter_next` returns the status, the id and the borrowed bytes.
pub record Cursors : Type 1 where
  pub State : Type 0
  pub pyx_iter_open : Bytes → State → ℤ × ℕ × State
  pub pyx_snapshot_iter_open : ℕ → Bytes → State → ℤ × ℕ × State
  pub pyx_iter_next : ℕ → State → ℤ × ℕ × Bytes × State
  pub pyx_iter_close : ℕ → State → State
  pub pyx_last_error : State → String

module _ (cursors : Cursors) where
  open cursors use {
    State, pyx_iter_open, pyx_snapshot_iter_open, pyx_iter_next, pyx_iter_close, pyx_last_error,
  }

  -- The handle that the generator works on.
  unfoldable pub open_iter : Bytes → Option ℕ → State → ℤ × ℕ × State
  open_iter name none s = pyx_iter_open name s
  open_iter name (some snapshot) s = pyx_snapshot_iter_open snapshot name s

  -- `while True`, for a consumer that takes at most `wanted` documents, and what it has taken. A value
  -- without bytes is passed over. Each round takes a unit of fuel.
  unfoldable pub iter_loop : ℕ → ℕ → ℕ → State → Result (List (ℕ × Value)) × State
  iter_loop fuel zero h s = (ok [], s)
  iter_loop zero (suc wanted) h s = (out_of_fuel, s)
  iter_loop (suc fuel) (suc wanted) h s =
      let (rc, doc_id, buf, s') = pyx_iter_next h s in
      let skipped = iter_loop fuel (suc wanted) h s' in
      let (later, s2) = iter_loop fuel wanted h s' in
      let found : Result (List (ℕ × Value)) × State =
        then_call (decode none buf) (λ doc t. (later >>= λ docs. ok ((doc_id, doc) ∷ docs), s2))
          s' in
      let ended : Result (List (ℕ × Value)) × State = (ok [], s') in
      if int_eq rc pyx_end
      then ended
      else then_call (check pyx_last_error rc s')
          (λ _ t. if length buf == 0 then skipped else found) s'

  -- The `finally` closes the iterator, however the loop ended; a consumer that stops early closes the
  -- generator. One that takes nothing does not start it.
  unfoldable pub iter : ℕ → Bytes → Option ℕ → ℕ → State → Result (List (ℕ × Value)) × State
  iter fuel name snapshot zero s = (ok [], s)
  iter fuel name snapshot (suc wanted) s =
      let (rc, h, s') = open_iter name snapshot s in
      then_call (check pyx_last_error rc s')
        (λ _ t. let (r, t') = iter_loop fuel (suc wanted) h t in (r, pyx_iter_close h t')) s'
