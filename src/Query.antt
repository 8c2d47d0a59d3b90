-- ===== src/Query.antt =====
-- The index queries of bindings/python/pyx/__init__.py: scalars and bounds as they cross the C ABI, and the
-- calling styles of `find_range` and `find_one`.
pub mod Scalars
pub mod Ranges
mod Tests
use Prim.Native.String.{String}
use pyx.Base.{
  ℕ, suc, ◌+◌, ◌-◌, ◌%◌, ◌^◌, Bool, true, false, ◌&&◌, ◌||◌, not, List, [], ◌∷◌, Option, none, some,
  if◌then◌else◌, ltb, leb,
}
use pyx.Base.Bytes.{Bytes}
use pyx.Base.Int.{ℤ, pos, negsuc}
use pyx.Result.{Result, Exn, ok, raised, out_of_fuel, ◌>>=◌}
use pyx.Doc.Utf8.{Str, utf8_encode}
use pyx.Doc.Value.{Value, null, bool, int, float, str, bytes, sequence, dict, other}

-- A `pyx_value`: the type code with the member of the union that goes with it. An integer is a 64-bit
-- word and a string its UTF-8 bytes; `val_null` is also what a zeroed struct holds.
pub data PyxValue : Type 0 where
  val_null : PyxValue
  val_bool : ℕ → PyxValue
  val_i64 : ℕ → PyxValue
  val_f64 : ℕ → PyxValue
  val_string : Bytes → PyxValue

-- Assigning to a `c_int64` checks no range: the integer is taken modulo 2 ^ 64.
unfoldable pub c_int64 : ℤ → ℕ
c_int64 (pos n) = n % 2 ^ 64
c_int64 (negsuc n) = 2 ^ 64 - suc (n % 2 ^ 64)

unfoldable pub to_pyx_value : Value → Result PyxValue
unfolding c_int64
to_pyx_value null = ok val_null
to_pyx_value (bool true) = ok (val_bool 1)
to_pyx_value (bool false) = ok (val_bool 0)
to_pyx_value (int z) = ok (val_i64 (c_int64 z))
to_pyx_value (float f) = ok (val_f64 f)
to_pyx_value (str s) = utf8_encode s >>= λ b. ok (val_string b)
to_pyx_value _ = raised (Exn.type_error "unsupported indexed value type")

abbrev pub pyx_bound_inclusive : ℕ
pyx_bound_inclusive = 1

abbrev pub pyx_bound_exclusive : ℕ
pyx_bound_exclusive = 2

-- `Bound._kind` and `Bound._value`; a value of None is `null`.
pub record Bound : Type 0 where
  pub kind : ℕ
  pub value : Value

abbrev pub inclusive : Value → Bound
inclusive v = record { kind = pyx_bound_inclusive; value = v }

abbrev pub exclusive : Value → Bound
exclusive v = record { kind = pyx_bound_exclusive; value = v }

pub record PyxBound : Type 0 where
  pub kind : ℕ
  pub value : PyxValue

-- What a caller may pass for a bound: a `Bound`, or a scalar; None is the scalar `null`.
pub data BoundArg : Type 0 where
  scalar : Value → BoundArg
  bound : Bound → BoundArg

abbrev pub is_none : Value → Bool
is_none null = true
is_none _ = false

-- A value of None leaves the struct's value zeroed.
pyx_bound : Bound → Result PyxBound
unfolding to_pyx_value
pyx_bound b =
    if is_none b.value
    then ok (record { kind = b.kind; value = val_null })
    else (to_pyx_value b.value >>= λ v. ok (record { kind = b.kind; value = v }))

unfoldable pub to_bound : BoundArg → Result (Option PyxBound)
unfolding pyx_bound
to_bound (scalar v) = if is_none v then ok none else (pyx_bound (inclusive v) >>= λ b. ok (some b))
to_bound (bound b) = pyx_bound b >>= λ b'. ok (some b')

-- One side: at most one of the two keywords may be given.
unfoldable pub one_side : String → Value → Value → Result BoundArg
one_side both ge gt =
    if not (is_none ge) && not (is_none gt)
    then raised (Exn.type_error both)
    else if not (is_none ge)
    then ok (bound (inclusive ge))
    else if not (is_none gt)
    then ok (bound (exclusive gt))
    else ok (scalar null)

unfoldable pub bounds_from_kwargs : Value → Value → Value → Value → Result (BoundArg × BoundArg)
unfolding one_side
bounds_from_kwargs gte gt lte lt = do
  lo ← one_side "pass either gte= or gt=, not both" gte gt
  hi ← one_side "pass either lte= or lt=, not both" lte lt
  ok (lo, hi)

abbrev pub is_none_arg : BoundArg → Bool
is_none_arg (scalar v) = is_none v
is_none_arg (bound b) = false

-- `any(v is not None for v in (gte, gt, lte, lt))`
abbrev pub any_given : Value → Value → Value → Value → Bool
any_given gte gt lte lt =
    not (is_none gte) || not (is_none gt) || not (is_none lte) || not (is_none lt)

-- `find_range` up to its call of `_range`: the two bounds.
unfoldable pub find_range_args :
    BoundArg → BoundArg → Value → Value → Value → Value → Result (BoundArg × BoundArg)
unfolding bounds_from_kwargs
find_range_args lo hi gte gt lte lt =
    if any_given gte gt lte lt
    then if not (is_none_arg lo) || not (is_none_arg hi)
      then raised (Exn.type_error "mix of positional bounds and gte/gt/lte/lt kwargs")
      else bounds_from_kwargs gte gt lte lt
    else ok (lo, hi)

-- `find_range` and the head of `_range`: the bounds that `pyx_find_range` is given, a null pointer
-- for no bound.
unfoldable pub range_bounds :
    BoundArg → BoundArg → Value → Value → Value → Value → Result (Option PyxBound × Option PyxBound)
unfolding find_range_args to_bound
range_bounds lo hi gte gt lte lt = find_range_args lo hi gte gt lte lt >>= λ (lo', hi').
    (to_bound lo' >>= λ l. (to_bound hi' >>= λ h. ok (l, h)))
