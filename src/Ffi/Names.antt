-- ===== src/Ffi/Names.antt =====
-- The names that bindings/python/pyx/_ffi.py looks up, each of them once.
use pyx.Base.{ℕ, ◌+◌, ◌==◌, ◌≡◌, refl, List, [], ◌∷◌, if◌then◌else◌}
use pyx.Ffi.{
  Symbol, Signature, name_of, pyx_version, pyx_version_string, pyx_format_version,
  pyx_status_string, pyx_last_error, pyx_open, pyx_close, pyx_set_sync_mode, pyx_checkpoint,
  pyx_begin, pyx_commit, pyx_abort, pyx_buf_free, pyx_insert, pyx_put, pyx_get, pyx_get_zero_copy,
  pyx_snapshot_get_zero_copy, pyx_delete, pyx_insert_many, pyx_get_many, pyx_iter_open,
  pyx_iter_next, pyx_iter_close, pyx_create_collection, pyx_create_index, pyx_drop_index,
  pyx_find_one, pyx_find_range, pyx_lookup_next, pyx_lookup_close, pyx_snapshot_open,
  pyx_snapshot_close, pyx_snapshot_get, pyx_snapshot_iter_open, pyx_snapshot_find_one,
  pyx_snapshot_find_range, pyx_begin_optimistic, pyx_optimistic_commit, pyx_optimistic_abort,
  pyx_optimistic_insert, pyx_optimistic_put, pyx_optimistic_delete, pyx_optimistic_get,
  pyx_optimistic_find_one, pyx_create_compound_index, pyx_drop_compound_index,
  pyx_compound_find_one,
}
use pyx.Ffi.Signatures.{signatures}

unfoldable code : Symbol → ℕ
code pyx_version = 0
code pyx_version_string = 1
code pyx_format_version = 2
code pyx_status_string = 3
code pyx_last_error = 4
code pyx_open = 5
code pyx_close = 6
code pyx_set_sync_mode = 7
code pyx_checkpoint = 8
code pyx_begin = 9
code pyx_commit = 10
code pyx_abort = 11
code pyx_buf_free = 12
code pyx_insert = 13
code pyx_put = 14
code pyx_get = 15
code pyx_get_zero_copy = 16
code pyx_snapshot_get_zero_copy = 17
code pyx_delete = 18
code pyx_insert_many = 19
code pyx_get_many = 20
code pyx_iter_open = 21
code pyx_iter_next = 22
code pyx_iter_close = 23
code pyx_create_collection = 24
code pyx_create_index = 25
code pyx_drop_index = 26
code pyx_find_one = 27
code pyx_find_range = 28
code pyx_lookup_next = 29
code pyx_lookup_close = 30
code pyx_snapshot_open = 31
code pyx_snapshot_close = 32
code pyx_snapshot_get = 33
code pyx_snapshot_iter_open = 34
code pyx_snapshot_find_one = 35
code pyx_snapshot_find_range = 36
code pyx_begin_optimistic = 37
code pyx_optimistic_commit = 38
code pyx_optimistic_abort = 39
code pyx_optimistic_insert = 40
code pyx_optimistic_put = 41
code pyx_optimistic_delete = 42
code pyx_optimistic_get = 43
code pyx_optimistic_find_one = 44
code pyx_create_compound_index = 45
code pyx_drop_compound_index = 46
code pyx_compound_find_one = 47

-- How often a name is bound.
unfoldable pub times : Symbol → List Signature → ℕ
unfolding code
times name [] = 0
times name (fn ∷ fns) = (if code name == code (name_of fn) then 1 else 0) + times name fns

pub each_once : (name : Symbol) → times name signatures ≡ 1
unfolding times code
each_once pyx_version = refl
each_once pyx_version_string = refl
each_once pyx_format_version = refl
each_once pyx_status_string = refl
each_once pyx_last_error = refl
each_once pyx_open = refl
each_once pyx_close = refl
each_once pyx_set_sync_mode = refl
each_once pyx_checkpoint = refl
each_once pyx_begin = refl
each_once pyx_commit = refl
each_once pyx_abort = refl
each_once pyx_buf_free = refl
each_once pyx_insert = refl
each_once pyx_put = refl
each_once pyx_get = refl
each_once pyx_get_zero_copy = refl
each_once pyx_snapshot_get_zero_copy = refl
each_once pyx_delete = refl
each_once pyx_insert_many = refl
each_once pyx_get_many = refl
each_once pyx_iter_open = refl
each_once pyx_iter_next = refl
each_once pyx_iter_close = refl
each_once pyx_create_collection = refl
each_once pyx_create_index = refl
each_once pyx_drop_index = refl
each_once pyx_find_one = refl
each_once pyx_find_range = refl
each_once pyx_lookup_next = refl
each_once pyx_lookup_close = refl
each_once pyx_snapshot_open = refl
each_once pyx_snapshot_close = refl
each_once pyx_snapshot_get = refl
each_once pyx_snapshot_iter_open = refl
each_once pyx_snapshot_find_one = refl
each_once pyx_snapshot_find_range = refl
each_once pyx_begin_optimistic = refl
each_once pyx_optimistic_commit = refl
each_once pyx_optimistic_abort = refl
each_once pyx_optimistic_insert = refl
each_once pyx_optimistic_put = refl
each_once pyx_optimistic_delete = refl
each_once pyx_optimistic_get = refl
each_once pyx_optimistic_find_one = refl
each_once pyx_create_compound_index = refl
each_once pyx_drop_compound_index = refl
each_once pyx_compound_find_one = refl
