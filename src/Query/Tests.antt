-- ===== src/Query/Tests.antt =====
-- Concrete queries for the conversions of bindings/python/pyx/__init__.py.
use pyx.Base.{◌-◌, ◌+◌, ◌^◌, ◌≡◌, ◌≢◌, ◌↔◌, refl, none, some, arith}
use pyx.Base.Bytes.{Bytes}
use pyx.Base.Int.{ℤ, pos, negsuc, InI64, ◌≤ℤ◌, ◌<ℤ◌}
use pyx.Result.{Exn, ok, raised}
use pyx.Doc.Value.{null, int}
use pyx.Doc.Encode.{write_value_payload}
use pyx.Query.{
  PyxBound, scalar, bound, exclusive, val_i64, to_pyx_value, c_int64, to_bound, range_bounds,
  find_range_args,
}
use pyx.Query.Scalars.{meaning, meaning-to_pyx_value, out_of_range_lookup}
use pyx.Query.Ranges.{range_bounds-Lets, Lets, Obeys, ◌≥ℤ◌, ◌>ℤ◌}

minus_seven : to_pyx_value (int (negsuc 6)) ≡ ok (val_i64 (2 ^ 64 - 7))
unfolding to_pyx_value c_int64
minus_seven = refl

meaning-to_pyx_value_example : meaning (val_i64 (2 ^ 64 - 7)) ≡ ok (int (negsuc 6))
meaning-to_pyx_value_example =
    meaning-to_pyx_value (int (negsuc 6)) (val_i64 (2 ^ 64 - 7)) (omega arith) minus_seven

-- 2 ** 64 + 5 is looked up as 5.
wrapped : to_pyx_value (int (pos (2 ^ 64 + 5))) ≡ to_pyx_value (int (pos 5))
unfolding to_pyx_value c_int64
wrapped = refl

out_of_range_lookup_example :
    ((y : ℤ) × InI64 y
      × (y ≢ pos (2 ^ 64 + 5))
      × (to_pyx_value (int (pos (2 ^ 64 + 5))) ≡ to_pyx_value (int y)))
    × ((buf : Bytes)
        → write_value_payload (int (pos (2 ^ 64 + 5))) buf
          ≡ raised (Exn.value_error "integer out of i64 range"))
out_of_range_lookup_example = out_of_range_lookup (pos (2 ^ 64 + 5)) (λ h. omega arith)

abbrev above_ten : PyxBound
above_ten = record { kind = 2; value = val_i64 10 }

abbrev to_twenty : PyxBound
to_twenty = record { kind = 1; value = val_i64 20 }

-- find_range("age", gt=10, lte=20)
ten_to_twenty :
    range_bounds (scalar null) (scalar null) null (int (pos 10)) (int (pos 20)) null
    ≡ ok (some above_ten, some to_twenty)
unfolding range_bounds find_range_args to_bound to_pyx_value c_int64
ten_to_twenty = refl

range_bounds-Lets_example :
    (Lets ◌≤ℤ◌ ◌<ℤ◌ (some above_ten) (pos 15) × Lets ◌≥ℤ◌ ◌>ℤ◌ (some to_twenty) (pos 15)) ↔ (
      (Obeys ◌≤ℤ◌ none (pos 15) × Obeys ◌<ℤ◌ (some (pos 10)) (pos 15))
      × (Obeys ◌≥ℤ◌ (some (pos 20)) (pos 15) × Obeys ◌>ℤ◌ none (pos 15)))
range_bounds-Lets_example =
    range_bounds-Lets none (some (pos 10)) (some (pos 20)) none (some above_ten) (some to_twenty) tt
      (omega arith) (omega arith) tt ten_to_twenty (pos 15)

both_lower :
    range_bounds (scalar null) (scalar null) (int (pos 1)) (int (pos 2)) null null
    ≡ raised (Exn.type_error "pass either gte= or gt=, not both")
unfolding range_bounds find_range_args
both_lower = refl

mixed :
    range_bounds (bound (exclusive (int (pos 1)))) (scalar null) null null (int (pos 9)) null
    ≡ raised (Exn.type_error "mix of positional bounds and gte/gt/lte/lt kwargs")
unfolding range_bounds find_range_args
mixed = refl
