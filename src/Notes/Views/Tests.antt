-- ===== src/Notes/Views/Tests.antt =====
-- Runs of the views of realworldexamples/django/notes/views.py.
mod Database
use pyx.Base.{
  ℕ, ◌≡◌, refl, Bool, true, false, Option, none, some, List, [], ◌∷◌, ◌&&◌, ◌==◌, if◌then◌else◌,
  arith,
}
use pyx.Base.Bytes.{Bytes, le_bytes}
use pyx.Base.Int.{ℤ, pos, to_word}
use pyx.Calls.{check}
use pyx.Result.{Result, ok}
use pyx.Doc.Utf8.{Str, utf8_encode, encode_char}
use pyx.Doc.Value.{
  Fields, dict, dict_set, key_eq, str_eq, null, field, no_fields, str_key, int, str,
}
use pyx.Query.{c_int64}
use pyx.Doc.Encode.{
  write_array_element, encode, write_object_entry, value_tag, write_body, to_bytes4, write_sized,
}
use pyx.Doc.Decode.{decode, read_header, read_sized, read_entry_key, unpack_from}
use pyx.Doc.Utf8.{utf8_decode, decode_char}
use pyx.Doc.Varint.{read_varint}
use pyx.Base.Bytes.{le_value}
use pyx.Collection.{read_buf}
use pyx.Doc.Varint.{write_varint}
use pyx.Collection.{insert, get}
use pyx.Collection.Tests.Table.{Rows, rows, empty_rows, rows-KeyValue}
use pyx.Txn.{
  run_optimistic, run_loop, attempt, run_callback, begin_optimistic, opened, settle, try_commit,
  commit, back_off,
}
use pyx.Txn.Ops
use pyx.Txn.Serial.{Atomic, run_optimistic-Atomic}
use pyx.Notes.Tags.{parse_tags, split, strip_parts, strip, lstrip, rstrip}
use pyx.Notes.Views.{
  Request, redirect_detail, detail_page, user_id, create_view, detail_view, new_note, update,
  store_edited, edited, edit_answer,
}
use pyx.Notes.Views.Create.{notes, IsPageOf, detail_view-create_view}
use pyx.Notes.Views.Edit.{update_txn, update-Edits, edit_post, edit_post-Atomic, Made}
use pyx.Notes.Views.Tests.Database.{Shelf, shelf, shelf_operations, shelf-Validating}

-- A form with the letter t in every field.
abbrev form : Request
form = record { is_get = false; query = λ key. none; form = λ key. some (b't' ∷ []) }

-- The empty note under 7, which another thread overwrites with another before the first commit.
abbrev note : Bytes
note = 8 ∷ 0 ∷ 0 ∷ 0 ∷ 0 ∷ []

abbrev other_note : Bytes
other_note = 8 ∷ 3 ∷ 0 ∷ 0 ∷ 0 ∷ 0 ∷ 1 ∷ b'a' ∷ []

abbrev contended : Shelf
contended = record {
  docs = λ name id. if str_eq name notes && (id == 7) then some note else none;
  was_read = none;
  buffered = none;
  intruder = some (notes, 7, other_note);
}

decode-note : decode none note ≡ ok (dict no_fields)
unfolding decode read_header read_sized read_entry_key unpack_from read_varint utf8_decode
    decode_char le_value dict_set str_eq
decode-note = refl

decode-other_note : decode none other_note ≡ ok (dict (field (str_key (b'a' ∷ [])) null no_fields))
unfolding decode read_header read_sized read_entry_key unpack_from read_varint utf8_decode
    decode_char le_value dict_set str_eq
decode-other_note = refl

edit_answered :
    (edit_post shelf shelf_operations (λ s. b'n' ∷ []) form (pos 7) contended).0
    ≡ ok (redirect_detail (pos 7) (user_id form))
unfolding edit_post run_optimistic run_loop attempt run_callback begin_optimistic opened settle
    try_commit commit update_txn update store_edited Ops.get Ops.put read_buf check encode
    write_object_entry utf8_encode encode_char value_tag write_body to_bytes4 write_sized
    write_varint le_bytes to_word decode read_header read_sized read_entry_key unpack_from
    read_varint utf8_decode decode_char le_value dict_set str_eq edited parse_tags split strip_parts
    strip lstrip rstrip edit_answer user_id back_off c_int64 write_array_element
edit_answered = refl

edit_post-Atomic_example :
    Atomic shelf shelf_operations shelf-Validating notes 7
      (Made shelf shelf_operations (λ s. b'n' ∷ []) form (pos 7))
      (update_txn shelf shelf_operations (λ s. b'n' ∷ []) form (pos 7))
      contended
      (edit_post shelf shelf_operations (λ s. b'n' ∷ []) form (pos 7) contended).1
unfolding c_int64
edit_post-Atomic_example =
    edit_post-Atomic shelf shelf_operations (λ s. b'n' ∷ []) form (pos 7) shelf-Validating contended
      edit_answered

updated :
    (run_optimistic shelf
      (update_txn shelf shelf_operations (λ s. b'n' ∷ []) form (pos 7))
      3
      contended).0
    ≡ ok tt
unfolding run_optimistic run_loop attempt run_callback begin_optimistic opened settle try_commit
    commit update_txn update store_edited Ops.get Ops.put read_buf check encode write_object_entry
    utf8_encode encode_char value_tag write_body to_bytes4 write_sized write_varint le_bytes to_word
    decode read_header read_sized read_entry_key unpack_from read_varint utf8_decode decode_char
    le_value dict_set str_eq edited parse_tags split strip_parts strip lstrip rstrip edit_answer
    user_id back_off c_int64 write_array_element
updated = refl

run_optimistic-Atomic_example :
    Atomic shelf shelf_operations shelf-Validating notes 7
      (Made shelf shelf_operations (λ s. b'n' ∷ []) form (pos 7))
      (update_txn shelf shelf_operations (λ s. b'n' ∷ []) form (pos 7))
      contended
      (run_optimistic shelf
        (update_txn shelf shelf_operations (λ s. b'n' ∷ []) form (pos 7))
        3
        contended).1
unfolding c_int64
run_optimistic-Atomic_example =
    run_optimistic-Atomic shelf shelf_operations shelf-Validating notes 7
      (Made shelf shelf_operations (λ s. b'n' ∷ []) form (pos 7))
      (update_txn shelf shelf_operations (λ s. b'n' ∷ []) form (pos 7))
      (update-Edits shelf shelf_operations (λ s. b'n' ∷ []) form (pos 7) shelf-Validating) 3
      contended updated

created :
    (create_view (insert rows notes) (b'n' ∷ []) (b'm' ∷ []) form empty_rows).0
    ≡ ok (redirect_detail (pos 1) (user_id form))
unfolding create_view insert check new_note encode write_object_entry utf8_encode encode_char
    value_tag write_body to_bytes4 write_sized write_varint le_bytes to_word parse_tags split
    strip_parts strip lstrip rstrip user_id c_int64 write_array_element
created = refl

detail_view-create_view_example :
    (page : Fields) × ((detail_view
        (get rows notes)
        (pos 1)
        (create_view (insert rows notes) (b'n' ∷ []) (b'm' ∷ []) form empty_rows).1).0
      ≡ ok (detail_page page))
    × IsPageOf form (b'n' ∷ []) (b'm' ∷ []) 1 page
detail_view-create_view_example =
    detail_view-create_view rows rows-KeyValue form (b'n' ∷ []) (b'm' ∷ []) 1 empty_rows
      (omega arith) created
