-- ===== src/Ffi.antt =====
-- bindings/python/pyx/_ffi.py: the types and functions of libpyx as ctypes is told about them. How the library is found is
-- in Loader.
pub mod Signatures
pub mod Header
pub mod Imports
pub mod Exports
pub mod Missing
pub mod Names
pub mod Agree
mod Tests
use Prim.Native.String.{String}
use pyx.Base.{List, [], ◌∷◌}

-- The names that the package looks up in the library.
pub data Symbol : Type 0 where
  pyx_version pyx_version_string pyx_format_version pyx_status_string : Symbol
  pyx_last_error pyx_open pyx_close pyx_set_sync_mode : Symbol
  pyx_checkpoint pyx_begin pyx_commit pyx_abort : Symbol
  pyx_buf_free pyx_insert pyx_put pyx_get : Symbol
  pyx_get_zero_copy pyx_snapshot_get_zero_copy pyx_delete pyx_insert_many : Symbol
  pyx_get_many pyx_iter_open pyx_iter_next pyx_iter_close : Symbol
  pyx_create_collection pyx_create_index pyx_drop_index pyx_find_one : Symbol
  pyx_find_range pyx_lookup_next pyx_lookup_close pyx_snapshot_open : Symbol
  pyx_snapshot_close pyx_snapshot_get pyx_snapshot_iter_open pyx_snapshot_find_one : Symbol
  pyx_snapshot_find_range pyx_begin_optimistic pyx_optimistic_commit pyx_optimistic_abort : Symbol
  pyx_optimistic_insert pyx_optimistic_put pyx_optimistic_delete pyx_optimistic_get : Symbol
  pyx_optimistic_find_one pyx_create_compound_index pyx_drop_compound_index pyx_compound_find_one :
      Symbol

-- The types of ctypes that the file uses, a class of its own being what its `_fields_` say. `nothing` is None.
mutual
  pub data CType : Type 0 where
    nothing c_int c_uint8 c_uint32 c_uint64 c_int64 c_size_t c_double c_char_p c_void_p : CType
    pointer : CType → CType
    structure union_of : Members → CType

  pub data Members : Type 0 where
    no_members : Members
    member : String → CType → Members → Members

abbrev pub pyx_buf : CType
pyx_buf = structure (member "data" (pointer c_uint8) (member "len" c_size_t no_members))

abbrev pub val_str : CType
val_str = structure (member "ptr" (pointer c_uint8) (member "len" c_size_t no_members))

abbrev pub val_as : CType
val_as = union_of (
    member "i64_v" c_int64
      (member "f64_v" c_double (member "boolean" c_uint8 (member "string" val_str no_members))))

abbrev pub pyx_value : CType
pyx_value = structure (member "type" c_int (member "as_" val_as no_members))

abbrev pub pyx_bound : CType
pyx_bound = structure (member "kind" c_int (member "value" pyx_value no_members))

-- What `_bind` sets: the type of the result, and those of the arguments.
pub data Signature : Type 0 where
  signature : Symbol → CType → List CType → Signature

abbrev pub name_of : Signature → Symbol
name_of (signature name restype argtypes) = name
