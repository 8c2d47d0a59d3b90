-- ===== src/Find.antt =====
-- `Collection.find_one` of bindings/python/pyx/__init__.py with its two calling styles, and `Db.create_index` and
-- `Db.drop_index`. libpyx is a parameter.
pub mod Styles
mod Tests
use Prim.Native.String.{String}
use pyx.Base.{ℕ, Option, none, some, if◌then◌else◌, List, [], ◌∷◌}
use pyx.Base.Bytes.{Bytes}
use pyx.Base.Int.{ℤ, negsuc, is_negative, int_eq}
use pyx.Errors.{from_status, pyx_not_found}
use pyx.Calls.{check, then_call, found}
use pyx.Result.{Result, Exn, ok, raised, out_of_fuel, ◌>>=◌}
use pyx.Doc.Utf8.{Str, utf8_encode}
use pyx.Doc.Value.{Value}
use pyx.Query.{PyxValue, to_pyx_value}

-- The functions of the C ABI that are called here. A list stands for an array with its length.
pub record Indexes : Type 1 where
  pub State : Type 0
  pub pyx_find_one : Bytes → Bytes → PyxValue → State → ℤ × ℕ × State
  pub pyx_compound_find_one : Bytes → List Bytes → List PyxValue → State → ℤ × ℕ × State
  pub pyx_create_index : Bytes → Bytes → State → ℤ × State
  pub pyx_create_compound_index : Bytes → List Bytes → State → ℤ × State
  pub pyx_drop_index : Bytes → Bytes → State → ℤ × State
  pub pyx_drop_compound_index : Bytes → List Bytes → State → ℤ × State
  pub pyx_last_error : State → String

abbrev pub pyx_no_such_index : ℤ
pyx_no_such_index = negsuc 9

-- `_build_field_arrays`
unfoldable pub build_field_arrays : List Str → Result (List Bytes)
build_field_arrays [] = ok []
build_field_arrays (f ∷ fields) =
    utf8_encode f >>= λ b. (build_field_arrays fields >>= λ bs. ok (b ∷ bs))

-- `for i, v in enumerate(values)`
unfoldable pub to_pyx_values : List Value → Result (List PyxValue)
to_pyx_values [] = ok []
to_pyx_values (v ∷ values) = to_pyx_value v >>= λ x. (to_pyx_values values >>= λ xs. ok (x ∷ xs))

-- The keywords' names, and their values, in their order.
abbrev pub keys : List (Str × Value) → List Str
keys [] = []
keys (kwarg ∷ kwargs) = kwarg.0 ∷ keys kwargs

abbrev pub values : List (Str × Value) → List Value
values [] = []
values (kwarg ∷ kwargs) = kwarg.1 ∷ values kwargs

module _ (indexes : Indexes) where
  open indexes use {
    State, pyx_find_one, pyx_compound_find_one, pyx_create_index, pyx_create_compound_index,
    pyx_drop_index, pyx_drop_compound_index, pyx_last_error,
  }

  unfoldable pub find_one_single : Bytes → Str → Value → State → Result (Option ℕ) × State
  find_one_single name field value s =
      then_call (to_pyx_value value)
        (λ v t.
          then_call (utf8_encode field) (λ cb t'. found pyx_last_error (pyx_find_one name cb v t'))
            t)
        s

  unfoldable pub find_one_compound :
      Bytes → List Str → List Value → State → Result (Option ℕ) × State
  find_one_compound name [] values s =
      (raised (Exn.type_error "find_one needs at least one field"), s)
  find_one_compound name (f ∷ fields) values s =
      then_call (build_field_arrays (f ∷ fields))
        (λ ptrs t.
          then_call (to_pyx_values values)
            (λ val_arr t'. found pyx_last_error (pyx_compound_find_one name ptrs val_arr t')) t)
        s

  -- A `field` of None is `none`.
  unfoldable pub find_one :
      Bytes → Option Str → Value → List (Str × Value) → State → Result (Option ℕ) × State
  find_one name (some field) value (kwarg ∷ kwargs) s =
      (raised (Exn.type_error "find_one: pass either (field, value) or **kwargs, not both"), s)
  find_one name (some field) value [] s = find_one_single name field value s
  find_one name none value (kwarg ∷ kwargs) s =
      find_one_compound name (keys (kwarg ∷ kwargs)) (values (kwarg ∷ kwargs)) s
  find_one name none value [] s =
      (raised (Exn.type_error "find_one needs (field, value) or **kwargs"), s)

  -- The end of a call that returns only a status.
  abbrev checked : ℤ × State → Result (Unit {0}) × State
  checked (rc, s) = (check pyx_last_error rc s, s)

  unfoldable pub create_index : Str → List Str → State → Result (Unit {0}) × State
  create_index collection [] s =
      (raised (Exn.type_error "create_index needs at least one field name"), s)
  create_index collection (f ∷ []) s =
      then_call (utf8_encode collection)
        (λ cb t. then_call (utf8_encode f) (λ fb t'. checked (pyx_create_index cb fb t')) t) s
  create_index collection (f ∷ g ∷ fields) s =
      then_call (utf8_encode collection)
        (λ cb t.
          then_call (build_field_arrays (f ∷ g ∷ fields))
            (λ ptrs t'. checked (pyx_create_compound_index cb ptrs t')) t)
        s

  unfoldable pub drop_index : Str → List Str → State → Result (Unit {0}) × State
  drop_index collection [] s =
      (raised (Exn.type_error "drop_index needs at least one field name"), s)
  drop_index collection (f ∷ []) s =
      then_call (utf8_encode collection)
        (λ cb t. then_call (utf8_encode f) (λ fb t'. checked (pyx_drop_index cb fb t')) t) s
  drop_index collection (f ∷ g ∷ fields) s =
      then_call (utf8_encode collection)
        (λ cb t.
          then_call (build_field_arrays (f ∷ g ∷ fields))
            (λ ptrs t'. checked (pyx_drop_compound_index cb ptrs t')) t)
        s
