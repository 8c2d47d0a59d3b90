-- ===== src/Scan.antt =====
-- `Collection.find_range` of bindings/python/pyx/__init__.py with its generator `_range`, over the live database
-- or a snapshot. libpyx is a parameter.
pub mod Laws
pub mod Handles
pub mod Selects
mod Tests
use Prim.Native.String.{String}
use pyx.Base.{ℕ, zero, suc, Option, none, some, if◌then◌else◌, List, [], ◌∷◌}
use pyx.Base.Bytes.{Bytes}
use pyx.Base.Int.{ℤ, int_eq}
use pyx.Errors.{pyx_end}
use pyx.Calls.{check, then_call}
use pyx.Result.{Result, ok, raised, out_of_fuel, ◌>>=◌}
use pyx.Doc.Utf8.{Str, utf8_encode}
use pyx.Doc.Value.{Value}
use pyx.Query.{PyxBound, BoundArg, to_bound, find_range_args}

-- The functions of the C ABI that a range scan calls. The arguments are the collection's name, the field
-- and the two bounds, a null pointer for no bound; `pyx_lookup_next` returns the status and an id.
pub record Lookups : Type 1 where
  pub State : Type 0
  pub pyx_find_range : Bytes → Bytes → Option PyxBound → Option PyxBound → State → ℤ × ℕ × State
  pub pyx_snapshot_find_range :
      ℕ → Bytes → Bytes → Option PyxBound → Option PyxBound → State → ℤ × ℕ × State
  pub pyx_lookup_next : ℕ → State → ℤ × ℕ × State
  pub pyx_lookup_close : ℕ → State → State
  pub pyx_last_error : State → String

module _ (lookups : Lookups) where
  open lookups use {
    State, pyx_find_range, pyx_snapshot_find_range, pyx_lookup_next, pyx_lookup_close,
    pyx_last_error,
  }

  unfoldable pub open_range :
      Bytes → Bytes → Option PyxBound → Option PyxBound → Option ℕ → State → ℤ × ℕ × State
  open_range name field lo hi none s = pyx_find_range name field lo hi s
  open_range name field lo hi (some snapshot) s =
      pyx_snapshot_find_range snapshot name field lo hi s

  -- `while True`, for a consumer that takes at most `wanted` ids, and what it has taken. Each round
  -- takes a unit of fuel.
  unfoldable pub range_loop : ℕ → ℕ → ℕ → State → Result (List ℕ) × State
  range_loop fuel zero h s = (ok [], s)
  range_loop zero (suc wanted) h s = (out_of_fuel, s)
  range_loop (suc fuel) (suc wanted) h s =
      let (rc, out, s') = pyx_lookup_next h s in
      let (later, s2) = range_loop fuel wanted h s' in
      let ended : Result (List ℕ) × State = (ok [], s') in
      if int_eq rc pyx_end
      then ended
      else then_call (check pyx_last_error rc s') (λ _ t. (later >>= λ ids. ok (out ∷ ids), s2)) s'

  -- The part of `_range` behind the conversions; the `finally` closes the lookup, however the loop
  -- ended.
  unfoldable pub scan :
      ℕ
      → Bytes
      → Bytes
      → Option PyxBound
      → Option PyxBound
      → Option ℕ
      → ℕ
      → State
      → Result (List ℕ) × State
  scan fuel name field lo hi snapshot wanted s =
      let (rc, h, s') = open_range name field lo hi snapshot s in
      then_call (check pyx_last_error rc s')
        (λ _ t. let (r, t') = range_loop fuel wanted h t in (r, pyx_lookup_close h t')) s'

  -- `_range`, a generator: a consumer that takes nothing does not start it.
  unfoldable pub range :
      ℕ → Bytes → Str → BoundArg → BoundArg → Option ℕ → ℕ → State → Result (List ℕ) × State
  range fuel name field lo hi snapshot zero s = (ok [], s)
  range fuel name field lo hi snapshot (suc wanted) s =
      then_call (utf8_encode field)
        (λ cb t.
          then_call (to_bound lo)
            (λ lo_b t'.
              then_call (to_bound hi)
                (λ hi_b t2. scan fuel name cb lo_b hi_b snapshot (suc wanted) t2) t')
            t)
        s

  -- `find_range`, with the keywords in the order gte, gt, lte, lt, and its consumer.
  unfoldable pub find_range :
      ℕ
      → Bytes
      → Str
      → BoundArg
      → BoundArg
      → Value
      → Value
      → Value
      → Value
      → Option ℕ
      → ℕ
      → State
      → Result (List ℕ) × State
  find_range fuel name field lo hi gte gt lte lt snapshot wanted s =
      then_call (find_range_args lo hi gte gt lte lt)
        (λ (lo', hi') t. range fuel name field lo' hi' snapshot wanted t) s
