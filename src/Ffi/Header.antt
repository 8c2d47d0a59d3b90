-- ===== src/Ffi/Header.antt =====
-- The functions that include/pyx.h declares, and those of libpyx that it does not.
use pyx.Base.{List, [], ◌∷◌, Option, some, none}
use Prim.Native.String.{String}
use pyx.Ffi.{
  Symbol, pyx_version, pyx_version_string, pyx_format_version, pyx_status_string, pyx_last_error,
  pyx_buf_free, pyx_open, pyx_close, pyx_set_sync_mode, pyx_checkpoint, pyx_begin, pyx_commit,
  pyx_abort, pyx_insert, pyx_put, pyx_get, pyx_delete, pyx_iter_open, pyx_iter_next, pyx_iter_close,
  pyx_create_index, pyx_drop_index, pyx_find_one, pyx_find_range, pyx_lookup_next, pyx_lookup_close,
  pyx_snapshot_open, pyx_snapshot_close, pyx_snapshot_get, pyx_snapshot_iter_open,
  pyx_snapshot_find_one, pyx_snapshot_find_range, pyx_create_compound_index,
  pyx_drop_compound_index, pyx_compound_find_one, pyx_begin_optimistic, pyx_optimistic_commit,
  pyx_optimistic_abort, pyx_optimistic_insert, pyx_optimistic_put, pyx_optimistic_delete,
  pyx_optimistic_get, pyx_optimistic_find_one, pyx_insert_many, pyx_get_zero_copy,
  pyx_snapshot_get_zero_copy, pyx_get_many, pyx_create_collection,
}

-- The types of the header. `opaque` is a struct without a definition, `enum` any enumeration, and a const is left out.
mutual
  pub data Decl : Type 0 where
    void enum char uint8_t uint32_t uint64_t int64_t double size_t opaque : Decl
    ptr : Decl → Decl
    struct union : DeclFields → Decl

  pub data DeclFields : Type 0 where
    no_fields : DeclFields
    field : String → Decl → DeclFields → DeclFields

abbrev pub struct_buf : Decl
struct_buf = struct (field "data" (ptr uint8_t) (field "len" size_t no_fields))

abbrev pub struct_string : Decl
struct_string = struct (field "ptr" (ptr char) (field "len" size_t no_fields))

abbrev pub struct_value : Decl
struct_value = struct (
    field "type" enum (
      field "as"
        (union (
          field "i64" int64_t (
            field "f64" double (field "boolean" uint8_t (field "string" struct_string no_fields)))))
        no_fields))

abbrev pub struct_bound : Decl
struct_bound = struct (field "kind" enum (field "value" struct_value no_fields))

-- The result and the parameters of a function, if the header declares it.
unfoldable pub prototype : Symbol → Option (Decl × List Decl)
prototype pyx_version = some (uint32_t, [])
prototype pyx_version_string = some (ptr char, [])
prototype pyx_format_version = some (uint32_t, [])
prototype pyx_status_string = some (ptr char, enum ∷ [])
prototype pyx_last_error = some (ptr char, [])
prototype pyx_buf_free = some (void, (ptr struct_buf) ∷ [])
prototype pyx_open = some (enum, (ptr char) ∷ (ptr (ptr opaque)) ∷ [])
prototype pyx_close = some (void, (ptr opaque) ∷ [])
prototype pyx_set_sync_mode = some (void, (ptr opaque) ∷ enum ∷ [])
prototype pyx_checkpoint = some (enum, (ptr opaque) ∷ [])
prototype pyx_begin = some (enum, (ptr opaque) ∷ [])
prototype pyx_commit = some (enum, (ptr opaque) ∷ [])
prototype pyx_abort = some (void, (ptr opaque) ∷ [])
prototype pyx_insert =
    some (enum, (ptr opaque) ∷ (ptr char) ∷ size_t ∷ (ptr uint8_t) ∷ size_t ∷ (ptr uint64_t) ∷ [])
prototype pyx_put =
    some (enum, (ptr opaque) ∷ (ptr char) ∷ size_t ∷ uint64_t ∷ (ptr uint8_t) ∷ size_t ∷ [])
prototype pyx_get =
    some (enum, (ptr opaque) ∷ (ptr char) ∷ size_t ∷ uint64_t ∷ (ptr struct_buf) ∷ [])
prototype pyx_delete = some (enum, (ptr opaque) ∷ (ptr char) ∷ size_t ∷ uint64_t ∷ [])
prototype pyx_iter_open = some (enum, (ptr opaque) ∷ (ptr char) ∷ size_t ∷ (ptr (ptr opaque)) ∷ [])
prototype pyx_iter_next = some (enum, (ptr opaque) ∷ (ptr uint64_t) ∷ (ptr struct_buf) ∷ [])
prototype pyx_iter_close = some (void, (ptr opaque) ∷ [])
prototype pyx_create_index =
    some (enum, (ptr opaque) ∷ (ptr char) ∷ size_t ∷ (ptr char) ∷ size_t ∷ [])
prototype pyx_drop_index =
    some (enum, (ptr opaque) ∷ (ptr char) ∷ size_t ∷ (ptr char) ∷ size_t ∷ [])
prototype pyx_find_one = some (
  enum,
  (ptr opaque)
      ∷ (ptr char)
      ∷ size_t
      ∷ (ptr char)
      ∷ size_t
      ∷ (ptr struct_value)
      ∷ (ptr uint64_t)
      ∷ [],
)
prototype pyx_find_range = some (
  enum,
  (ptr opaque)
      ∷ (ptr char)
      ∷ size_t
      ∷ (ptr char)
      ∷ size_t
      ∷ (ptr struct_bound)
      ∷ (ptr struct_bound)
      ∷ (ptr (ptr opaque))
      ∷ [],
)
prototype pyx_lookup_next = some (enum, (ptr opaque) ∷ (ptr uint64_t) ∷ [])
prototype pyx_lookup_close = some (void, (ptr opaque) ∷ [])
prototype pyx_snapshot_open = some (enum, (ptr opaque) ∷ (ptr (ptr opaque)) ∷ [])
prototype pyx_snapshot_close = some (void, (ptr opaque) ∷ [])
prototype pyx_snapshot_get =
    some (enum, (ptr opaque) ∷ (ptr char) ∷ size_t ∷ uint64_t ∷ (ptr struct_buf) ∷ [])
prototype pyx_snapshot_iter_open =
    some (enum, (ptr opaque) ∷ (ptr char) ∷ size_t ∷ (ptr (ptr opaque)) ∷ [])
prototype pyx_snapshot_find_one = some (
  enum,
  (ptr opaque)
      ∷ (ptr char)
      ∷ size_t
      ∷ (ptr char)
      ∷ size_t
      ∷ (ptr struct_value)
      ∷ (ptr uint64_t)
      ∷ [],
)
prototype pyx_snapshot_find_range = some (
  enum,
  (ptr opaque)
      ∷ (ptr char)
      ∷ size_t
      ∷ (ptr char)
      ∷ size_t
      ∷ (ptr struct_bound)
      ∷ (ptr struct_bound)
      ∷ (ptr (ptr opaque))
      ∷ [],
)
prototype pyx_create_compound_index =
    some (enum, (ptr opaque) ∷ (ptr char) ∷ size_t ∷ (ptr (ptr char)) ∷ (ptr size_t) ∷ size_t ∷ [])
prototype pyx_drop_compound_index =
    some (enum, (ptr opaque) ∷ (ptr char) ∷ size_t ∷ (ptr (ptr char)) ∷ (ptr size_t) ∷ size_t ∷ [])
prototype pyx_compound_find_one = some (
  enum,
  (ptr opaque)
      ∷ (ptr char)
      ∷ size_t
      ∷ (ptr (ptr char))
      ∷ (ptr size_t)
      ∷ size_t
      ∷ (ptr struct_value)
      ∷ (ptr uint64_t)
      ∷ [],
)
prototype pyx_begin_optimistic = some (enum, (ptr opaque) ∷ (ptr (ptr opaque)) ∷ [])
prototype pyx_optimistic_commit = some (enum, (ptr opaque) ∷ [])
prototype pyx_optimistic_abort = some (void, (ptr opaque) ∷ [])
prototype pyx_optimistic_insert =
    some (enum, (ptr opaque) ∷ (ptr char) ∷ size_t ∷ (ptr uint8_t) ∷ size_t ∷ (ptr uint64_t) ∷ [])
prototype pyx_optimistic_put =
    some (enum, (ptr opaque) ∷ (ptr char) ∷ size_t ∷ uint64_t ∷ (ptr uint8_t) ∷ size_t ∷ [])
prototype pyx_optimistic_delete = some (enum, (ptr opaque) ∷ (ptr char) ∷ size_t ∷ uint64_t ∷ [])
prototype pyx_optimistic_get =
    some (enum, (ptr opaque) ∷ (ptr char) ∷ size_t ∷ uint64_t ∷ (ptr struct_buf) ∷ [])
prototype pyx_optimistic_find_one = some (
  enum,
  (ptr opaque)
      ∷ (ptr char)
      ∷ size_t
      ∷ (ptr char)
      ∷ size_t
      ∷ (ptr struct_value)
      ∷ (ptr uint64_t)
      ∷ [],
)
prototype _ = none

-- The exports of src/c_api.zig that the header lacks.
unfoldable pub engine_only : Symbol → Option (Decl × List Decl)
engine_only pyx_insert_many = some (
  enum,
  ptr opaque ∷ ptr char ∷ size_t ∷ ptr uint8_t ∷ size_t ∷ ptr uint32_t ∷ size_t ∷ ptr uint64_t ∷ [],
)
engine_only pyx_get_zero_copy =
    some (enum, ptr opaque ∷ ptr char ∷ size_t ∷ uint64_t ∷ ptr uint8_t ∷ size_t ∷ ptr size_t ∷ [])
engine_only pyx_snapshot_get_zero_copy =
    some (enum, ptr opaque ∷ ptr char ∷ size_t ∷ uint64_t ∷ ptr uint8_t ∷ size_t ∷ ptr size_t ∷ [])
engine_only pyx_get_many = some (
  enum,
  ptr opaque
      ∷ ptr char
      ∷ size_t
      ∷ ptr uint64_t
      ∷ size_t
      ∷ ptr uint32_t
      ∷ ptr uint8_t
      ∷ size_t
      ∷ ptr size_t
      ∷ [],
)
engine_only pyx_create_collection = some (enum, ptr opaque ∷ ptr char ∷ size_t ∷ ptr uint32_t ∷ [])
engine_only _ = none
