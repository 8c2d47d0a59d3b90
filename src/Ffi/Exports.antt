-- ===== src/Ffi/Exports.antt =====
-- A library that exports what bindings/python/pyx/_ffi.py binds exports each name that the package looks up.
use pyx.Base.{◌≡◌, Bool, true, All}
use pyx.Ffi.{
  Symbol, Signature, name_of, pyx_version, pyx_version_string, pyx_format_version,
  pyx_status_string, pyx_last_error, pyx_open, pyx_close, pyx_set_sync_mode, pyx_checkpoint,
  pyx_begin, pyx_commit, pyx_abort, pyx_buf_free, pyx_insert, pyx_put, pyx_get, pyx_get_zero_copy,
  pyx_snapshot_get_zero_copy, pyx_delete, pyx_insert_many, pyx_get_many, pyx_iter_open,
  pyx_iter_next, pyx_iter_close, pyx_create_collection, pyx_create_index, pyx_drop_index,
  pyx_find_one, pyx_find_range, pyx_lookup_next, pyx_lookup_close, pyx_snapshot_open,
  pyx_snapshot_close, pyx_snapshot_get, pyx_snapshot_iter_open, pyx_snapshot_find_one,
  pyx_snapshot_find_range, pyx_begin_optimistic, pyx_optimistic_commit, pyx_optimistic_abort,
  pyx_optimistic_insert, pyx_optimistic_put, pyx_optimistic_delete, pyx_optimistic_get,
  pyx_optimistic_find_one, pyx_create_compound_index, pyx_drop_compound_index,
  pyx_compound_find_one,
}
use pyx.Ffi.Signatures.{signatures}

abbrev pub Exported : (Symbol → Bool) → Signature → Type 0
Exported exports fn = exports (name_of fn) ≡ true

pub Exported-name_of :
    (exports : Symbol → Bool)
    → All (Exported exports) signatures
    → (name : Symbol) → exports name ≡ true
Exported-name_of exports h pyx_version = h.0
Exported-name_of exports h pyx_version_string = h.1.0
Exported-name_of exports h pyx_format_version = h.1.1.0
Exported-name_of exports h pyx_status_string = h.1.1.1.0
Exported-name_of exports h pyx_last_error = h.1.1.1.1.0
Exported-name_of exports h pyx_open = h.1.1.1.1.1.0
Exported-name_of exports h pyx_close = h.1.1.1.1.1.1.0
Exported-name_of exports h pyx_set_sync_mode = h.1.1.1.1.1.1.1.0
Exported-name_of exports h pyx_checkpoint = h.1.1.1.1.1.1.1.1.0
Exported-name_of exports h pyx_begin = h.1.1.1.1.1.1.1.1.1.0
Exported-name_of exports h pyx_commit = h.1.1.1.1.1.1.1.1.1.1.0
Exported-name_of exports h pyx_abort = h.1.1.1.1.1.1.1.1.1.1.1.0
Exported-name_of exports h pyx_buf_free = h.1.1.1.1.1.1.1.1.1.1.1.1.0
Exported-name_of exports h pyx_insert = h.1.1.1.1.1.1.1.1.1.1.1.1.1.0
Exported-name_of exports h pyx_put = h.1.1.1.1.1.1.1.1.1.1.1.1.1.1.0
Exported-name_of exports h pyx_get = h.1.1.1.1.1.1.1.1.1.1.1.1.1.1.1.0
Exported-name_of exports h pyx_get_zero_copy = h.1.1.1.1.1.1.1.1.1.1.1.1.1.1.1.1.0
Exported-name_of exports h pyx_snapshot_get_zero_copy = h.1.1.1.1.1.1.1.1.1.1.1.1.1.1.1.1.1.0
Exported-name_of exports h pyx_delete = h.1.1.1.1.1.1.1.1.1.1.1.1.1.1.1.1.1.1.0
Exported-name_of exports h pyx_insert_many = h.1.1.1.1.1.1.1.1.1.1.1.1.1.1.1.1.1.1.1.0
Exported-name_of exports h pyx_get_many = h.1.1.1.1.1.1.1.1.1.1.1.1.1.1.1.1.1.1.1.1.0
Exported-name_of exports h pyx_iter_open = h.1.1.1.1.1.1.1.1.1.1.1.1.1.1.1.1.1.1.1.1.1.0
Exported-name_of exports h pyx_iter_next = h.1.1.1.1.1.1.1.1.1.1.1.1.1.1.1.1.1.1.1.1.1.1.0
Exported-name_of exports h pyx_iter_close = h.1.1.1.1.1.1.1.1.1.1.1.1.1.1.1.1.1.1.1.1.1.1.1.0
Exported-name_of exports h pyx_create_collection =
    h.1.1.1.1.1.1.1.1.1.1.1.1.1.1.1.1.1.1.1.1.1.1.1.1.0
Exported-name_of exports h pyx_create_index = h.1.1.1.1.1.1.1.1.1.1.1.1.1.1.1.1.1.1.1.1.1.1.1.1.1.0
Exported-name_of exports h pyx_drop_index = h.1.1.1.1.1.1.1.1.1.1.1.1.1.1.1.1.1.1.1.1.1.1.1.1.1.1.0
Exported-name_of exports h pyx_find_one = h.1.1.1.1.1.1.1.1.1.1.1.1.1.1.1.1.1.1.1.1.1.1.1.1.1.1.1.0
Exported-name_of exports h pyx_find_range =
    h.1.1.1.1.1.1.1.1.1.1.1.1.1.1.1.1.1.1.1.1.1.1.1.1.1.1.1.1.0
Exported-name_of exports h pyx_lookup_next =
    h.1.1.1.1.1.1.1.1.1.1.1.1.1.1.1.1.1.1.1.1.1.1.1.1.1.1.1.1.1.0
Exported-name_of exports h pyx_lookup_close =
    h.1.1.1.1.1.1.1.1.1.1.1.1.1.1.1.1.1.1.1.1.1.1.1.1.1.1.1.1.1.1.0
Exported-name_of exports h pyx_snapshot_open =
    h.1.1.1.1.1.1.1.1.1.1.1.1.1.1.1.1.1.1.1.1.1.1.1.1.1.1.1.1.1.1.1.0
Exported-name_of exports h pyx_snapshot_close =
    h.1.1.1.1.1.1.1.1.1.1.1.1.1.1.1.1.1.1.1.1.1.1.1.1.1.1.1.1.1.1.1.1.0
Exported-name_of exports h pyx_snapshot_get =
    h.1.1.1.1.1.1.1.1.1.1.1.1.1.1.1.1.1.1.1.1.1.1.1.1.1.1.1.1.1.1.1.1.1.0
Exported-name_of exports h pyx_snapshot_iter_open =
    h.1.1.1.1.1.1.1.1.1.1.1.1.1.1.1.1.1.1.1.1.1.1.1.1.1.1.1.1.1.1.1.1.1.1.0
Exported-name_of exports h pyx_snapshot_find_one =
    h.1.1.1.1.1.1.1.1.1.1.1.1.1.1.1.1.1.1.1.1.1.1.1.1.1.1.1.1.1.1.1.1.1.1.1.0
Exported-name_of exports h pyx_snapshot_find_range =
    h.1.1.1.1.1.1.1.1.1.1.1.1.1.1.1.1.1.1.1.1.1.1.1.1.1.1.1.1.1.1.1.1.1.1.1.1.0
Exported-name_of exports h pyx_begin_optimistic =
    h.1.1.1.1.1.1.1.1.1.1.1.1.1.1.1.1.1.1.1.1.1.1.1.1.1.1.1.1.1.1.1.1.1.1.1.1.1.0
Exported-name_of exports h pyx_optimistic_commit =
    h.1.1.1.1.1.1.1.1.1.1.1.1.1.1.1.1.1.1.1.1.1.1.1.1.1.1.1.1.1.1.1.1.1.1.1.1.1.1.0
Exported-name_of exports h pyx_optimistic_abort =
    h.1.1.1.1.1.1.1.1.1.1.1.1.1.1.1.1.1.1.1.1.1.1.1.1.1.1.1.1.1.1.1.1.1.1.1.1.1.1.1.0
Exported-name_of exports h pyx_optimistic_insert =
    h.1.1.1.1.1.1.1.1.1.1.1.1.1.1.1.1.1.1.1.1.1.1.1.1.1.1.1.1.1.1.1.1.1.1.1.1.1.1.1.1.0
Exported-name_of exports h pyx_optimistic_put =
    h.1.1.1.1.1.1.1.1.1.1.1.1.1.1.1.1.1.1.1.1.1.1.1.1.1.1.1.1.1.1.1.1.1.1.1.1.1.1.1.1.1.0
Exported-name_of exports h pyx_optimistic_delete =
    h.1.1.1.1.1.1.1.1.1.1.1.1.1.1.1.1.1.1.1.1.1.1.1.1.1.1.1.1.1.1.1.1.1.1.1.1.1.1.1.1.1.1.0
Exported-name_of exports h pyx_optimistic_get =
    h.1.1.1.1.1.1.1.1.1.1.1.1.1.1.1.1.1.1.1.1.1.1.1.1.1.1.1.1.1.1.1.1.1.1.1.1.1.1.1.1.1.1.1.0
Exported-name_of exports h pyx_optimistic_find_one =
    h.1.1.1.1.1.1.1.1.1.1.1.1.1.1.1.1.1.1.1.1.1.1.1.1.1.1.1.1.1.1.1.1.1.1.1.1.1.1.1.1.1.1.1.1.0
Exported-name_of exports h pyx_create_compound_index =
    h.1.1.1.1.1.1.1.1.1.1.1.1.1.1.1.1.1.1.1.1.1.1.1.1.1.1.1.1.1.1.1.1.1.1.1.1.1.1.1.1.1.1.1.1.1.0
Exported-name_of exports h pyx_drop_compound_index =
    h.1.1.1.1.1.1.1.1.1.1.1.1.1.1.1.1.1.1.1.1.1.1.1.1.1.1.1.1.1.1.1.1.1.1.1.1.1.1.1.1.1.1.1.1.1.1.0
Exported-name_of exports h pyx_compound_find_one =
    h.1.1.1.1.1.1.1.1.1.1.1.1.1.1.1.1.1.1.1.1.1.1.1.1.1.1.1.1.1.1.1.1.1.1.1.1.1.1.1.1.1.1.1.1.1.1.1.0
