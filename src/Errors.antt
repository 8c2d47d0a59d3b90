-- ===== src/Errors.antt =====
-- bindings/python/pyx/errors.py: the exception classes, and the table from status codes to classes.
-- The status codes are those of bindings/python/pyx/_ffi.py.
pub mod Laws
mod Tests
use Prim.Native.String.{String}
use pyx.Base.{ℕ, suc, ◌==◌, Bool, true, false, Option, none, some, List, [], ◌∷◌, if◌then◌else◌}
use pyx.Base.Int.{ℤ, pos, negsuc, int_eq}

-- Status codes; `negsuc n` is -(n + 1).
abbrev pub pyx_ok : ℤ
pyx_ok = pos 0

abbrev pub pyx_not_found : ℤ
pyx_not_found = pos 1

abbrev pub pyx_end : ℤ
pyx_end = pos 2

abbrev pub pyx_invalid_arg : ℤ
pyx_invalid_arg = negsuc 0

abbrev pub pyx_write_conflict : ℤ
pyx_write_conflict = negsuc 11

abbrev pub pyx_retry_budget_exhausted : ℤ
pyx_retry_budget_exhausted = negsuc 12

abbrev pub pyx_buffer_too_small : ℤ
pyx_buffer_too_small = negsuc 13

-- `pyx_error` is the base class, the others are its subclasses.
pub data PyxClass : Type 0 where
  pyx_error corrupt_db txn_already_active no_active_txn key_too_large value_too_large : PyxClass
  collection_name_invalid no_such_index unsupported_field_type write_conflict : PyxClass
  retry_budget_exhausted : PyxClass

pub record PyxError : Type 0 where
  pub cls : PyxClass
  pub status : ℤ
  pub message : String

abbrev pub status_to_class : List (ℤ × PyxClass)
status_to_class =
    (negsuc 3, corrupt_db)
    ∷ (negsuc 4, txn_already_active)
    ∷ (negsuc 5, no_active_txn)
    ∷ (negsuc 6, key_too_large)
    ∷ (negsuc 7, value_too_large)
    ∷ (negsuc 8, collection_name_invalid)
    ∷ (negsuc 9, no_such_index)
    ∷ (negsuc 10, unsupported_field_type)
    ∷ (negsuc 11, write_conflict)
    ∷ (negsuc 12, retry_budget_exhausted)
    ∷ []

-- `d.get(status, default)`
pub get_or : ℤ → PyxClass → List (ℤ × PyxClass) → PyxClass
get_or s default [] = default
get_or s default ((t, c) ∷ rest) = if int_eq t s then c else get_or s default rest

unfoldable pub from_status : ℤ → String → PyxError
unfolding get_or
from_status status message = record {
  cls = get_or status pyx_error status_to_class;
  status = status;
  message = message;
}
