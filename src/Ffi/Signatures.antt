-- ===== src/Ffi/Signatures.antt =====
-- The calls of `_bind` in bindings/python/pyx/_ffi.py, in their order.
use pyx.Base.{List, [], ◌∷◌, ◌++◌}
use pyx.Ffi.{
  Signature, signature, nothing, c_int, c_uint8, c_uint32, c_uint64, c_size_t, c_char_p, c_void_p,
  pointer, pyx_buf, pyx_value, pyx_bound, pyx_version, pyx_version_string, pyx_format_version,
  pyx_status_string, pyx_last_error, pyx_open, pyx_close, pyx_set_sync_mode, pyx_checkpoint,
  pyx_begin, pyx_commit, pyx_abort, pyx_buf_free, pyx_insert, pyx_put, pyx_get, pyx_get_zero_copy,
  pyx_snapshot_get_zero_copy, pyx_delete, pyx_insert_many, pyx_get_many, pyx_iter_open,
  pyx_iter_next, pyx_iter_close, pyx_create_collection, pyx_create_index, pyx_drop_index,
  pyx_find_one, pyx_find_range, pyx_lookup_next, pyx_lookup_close, pyx_snapshot_open,
  pyx_snapshot_close, pyx_snapshot_get, pyx_snapshot_iter_open, pyx_snapshot_find_one,
  pyx_snapshot_find_range, pyx_begin_optimistic, pyx_optimistic_commit, pyx_optimistic_abort,
  pyx_optimistic_insert, pyx_optimistic_put, pyx_optimistic_delete, pyx_optimistic_get,
  pyx_optimistic_find_one, pyx_create_compound_index, pyx_drop_compound_index,
  pyx_compound_find_one,
}

-- Versions and errors.
abbrev pub versioning : List Signature
versioning =
    signature pyx_version c_uint32 []
    ∷ signature pyx_version_string c_char_p []
    ∷ signature pyx_format_version c_uint32 []
    ∷ signature pyx_status_string c_char_p (c_int ∷ [])
    ∷ signature pyx_last_error c_char_p []
    ∷ []

-- The life of a database.
abbrev pub lifecycle : List Signature
lifecycle =
    signature pyx_open c_int (c_char_p ∷ (pointer c_void_p) ∷ [])
    ∷ signature pyx_close nothing (c_void_p ∷ [])
    ∷ signature pyx_set_sync_mode nothing (c_void_p ∷ c_int ∷ [])
    ∷ signature pyx_checkpoint c_int (c_void_p ∷ [])
    ∷ []

-- Transactions.
abbrev pub transactions : List Signature
transactions =
    signature pyx_begin c_int (c_void_p ∷ [])
    ∷ signature pyx_commit c_int (c_void_p ∷ [])
    ∷ signature pyx_abort nothing (c_void_p ∷ [])
    ∷ []

-- Buffers.
abbrev pub buffer : List Signature
buffer = signature pyx_buf_free nothing ((pointer pyx_buf) ∷ []) ∷ []

-- Single documents.
abbrev pub doc_ops : List Signature
doc_ops =
    signature pyx_insert c_int
      (c_void_p ∷ c_char_p ∷ c_size_t ∷ (pointer c_uint8) ∷ c_size_t ∷ (pointer c_uint64) ∷ [])
    ∷ signature pyx_put c_int
        (c_void_p ∷ c_char_p ∷ c_size_t ∷ c_uint64 ∷ (pointer c_uint8) ∷ c_size_t ∷ [])
    ∷ signature pyx_get c_int (c_void_p ∷ c_char_p ∷ c_size_t ∷ c_uint64 ∷ (pointer pyx_buf) ∷ [])
    ∷ signature pyx_get_zero_copy c_int (
        c_void_p
        ∷ c_char_p
        ∷ c_size_t
        ∷ c_uint64
        ∷ (pointer c_uint8)
        ∷ c_size_t
        ∷ (pointer c_size_t)
        ∷ [])
    ∷ signature pyx_snapshot_get_zero_copy c_int (
        c_void_p
        ∷ c_char_p
        ∷ c_size_t
        ∷ c_uint64
        ∷ (pointer c_uint8)
        ∷ c_size_t
        ∷ (pointer c_size_t)
        ∷ [])
    ∷ signature pyx_delete c_int (c_void_p ∷ c_char_p ∷ c_size_t ∷ c_uint64 ∷ [])
    ∷ []

-- Many documents.
abbrev pub batched : List Signature
batched =
    signature pyx_insert_many c_int (
      c_void_p
      ∷ c_char_p
      ∷ c_size_t
      ∷ (pointer c_uint8)
      ∷ c_size_t
      ∷ (pointer c_uint32)
      ∷ c_size_t
      ∷ (pointer c_uint64)
      ∷ [])
    ∷ signature pyx_get_many c_int (
        c_void_p
        ∷ c_char_p
        ∷ c_size_t
        ∷ (pointer c_uint64)
        ∷ c_size_t
        ∷ (pointer c_uint32)
        ∷ (pointer c_uint8)
        ∷ c_size_t
        ∷ (pointer c_size_t)
        ∷ [])
    ∷ []

-- Iterators.
abbrev pub iteration : List Signature
iteration =
    signature pyx_iter_open c_int (c_void_p ∷ c_char_p ∷ c_size_t ∷ (pointer c_void_p) ∷ [])
    ∷ signature pyx_iter_next c_int (c_void_p ∷ (pointer c_uint64) ∷ (pointer pyx_buf) ∷ [])
    ∷ signature pyx_iter_close nothing (c_void_p ∷ [])
    ∷ []

-- Collections.
abbrev pub collections : List Signature
collections =
    signature pyx_create_collection c_int (c_void_p ∷ c_char_p ∷ c_size_t ∷ (pointer c_uint32) ∷ [])
    ∷ []

-- Indexes of one field.
abbrev pub indexes : List Signature
indexes =
    signature pyx_create_index c_int (c_void_p ∷ c_char_p ∷ c_size_t ∷ c_char_p ∷ c_size_t ∷ [])
    ∷ signature pyx_drop_index c_int (c_void_p ∷ c_char_p ∷ c_size_t ∷ c_char_p ∷ c_size_t ∷ [])
    ∷ signature pyx_find_one c_int (
        c_void_p
        ∷ c_char_p
        ∷ c_size_t
        ∷ c_char_p
        ∷ c_size_t
        ∷ (pointer pyx_value)
        ∷ (pointer c_uint64)
        ∷ [])
    ∷ signature pyx_find_range c_int (
        c_void_p
        ∷ c_char_p
        ∷ c_size_t
        ∷ c_char_p
        ∷ c_size_t
        ∷ (pointer pyx_bound)
        ∷ (pointer pyx_bound)
        ∷ (pointer c_void_p)
        ∷ [])
    ∷ signature pyx_lookup_next c_int (c_void_p ∷ (pointer c_uint64) ∷ [])
    ∷ signature pyx_lookup_close nothing (c_void_p ∷ [])
    ∷ []

-- Snapshots.
abbrev pub snapshots : List Signature
snapshots =
    signature pyx_snapshot_open c_int (c_void_p ∷ (pointer c_void_p) ∷ [])
    ∷ signature pyx_snapshot_close nothing (c_void_p ∷ [])
    ∷ signature pyx_snapshot_get c_int
        (c_void_p ∷ c_char_p ∷ c_size_t ∷ c_uint64 ∷ (pointer pyx_buf) ∷ [])
    ∷ signature pyx_snapshot_iter_open c_int
        (c_void_p ∷ c_char_p ∷ c_size_t ∷ (pointer c_void_p) ∷ [])
    ∷ signature pyx_snapshot_find_one c_int (
        c_void_p
        ∷ c_char_p
        ∷ c_size_t
        ∷ c_char_p
        ∷ c_size_t
        ∷ (pointer pyx_value)
        ∷ (pointer c_uint64)
        ∷ [])
    ∷ signature pyx_snapshot_find_range c_int (
        c_void_p
        ∷ c_char_p
        ∷ c_size_t
        ∷ c_char_p
        ∷ c_size_t
        ∷ (pointer pyx_bound)
        ∷ (pointer pyx_bound)
        ∷ (pointer c_void_p)
        ∷ [])
    ∷ []

-- Optimistic transactions.
abbrev pub optimistic : List Signature
optimistic =
    signature pyx_begin_optimistic c_int (c_void_p ∷ (pointer c_void_p) ∷ [])
    ∷ signature pyx_optimistic_commit c_int (c_void_p ∷ [])
    ∷ signature pyx_optimistic_abort nothing (c_void_p ∷ [])
    ∷ signature pyx_optimistic_insert c_int
        (c_void_p ∷ c_char_p ∷ c_size_t ∷ (pointer c_uint8) ∷ c_size_t ∷ (pointer c_uint64) ∷ [])
    ∷ signature pyx_optimistic_put c_int
        (c_void_p ∷ c_char_p ∷ c_size_t ∷ c_uint64 ∷ (pointer c_uint8) ∷ c_size_t ∷ [])
    ∷ signature pyx_optimistic_delete c_int (c_void_p ∷ c_char_p ∷ c_size_t ∷ c_uint64 ∷ [])
    ∷ signature pyx_optimistic_get c_int
        (c_void_p ∷ c_char_p ∷ c_size_t ∷ c_uint64 ∷ (pointer pyx_buf) ∷ [])
    ∷ signature pyx_optimistic_find_one c_int (
        c_void_p
        ∷ c_char_p
        ∷ c_size_t
        ∷ c_char_p
        ∷ c_size_t
        ∷ (pointer pyx_value)
        ∷ (pointer c_uint64)
        ∷ [])
    ∷ []

-- Compound indexes.
abbrev pub compound : List Signature
compound =
    signature pyx_create_compound_index c_int
      (c_void_p ∷ c_char_p ∷ c_size_t ∷ (pointer c_char_p) ∷ (pointer c_size_t) ∷ c_size_t ∷ [])
    ∷ signature pyx_drop_compound_index c_int
        (c_void_p ∷ c_char_p ∷ c_size_t ∷ (pointer c_char_p) ∷ (pointer c_size_t) ∷ c_size_t ∷ [])
    ∷ signature pyx_compound_find_one c_int (
        c_void_p
        ∷ c_char_p
        ∷ c_size_t
        ∷ (pointer c_char_p)
        ∷ (pointer c_size_t)
        ∷ c_size_t
        ∷ (pointer pyx_value)
        ∷ (pointer c_uint64)
        ∷ [])
    ∷ []

-- All of them.
abbrev pub sections : List (List Signature)
sections =
    versioning ∷ lifecycle ∷ transactions ∷ buffer ∷ doc_ops ∷ batched ∷ iteration ∷ collections
    ∷ indexes ∷ snapshots ∷ optimistic ∷ compound ∷ []

abbrev pub joined : List (List Signature) → List Signature
joined [] = []
joined (fns ∷ rest) = fns ++ joined rest

abbrev pub signatures : List Signature
signatures = joined sections
