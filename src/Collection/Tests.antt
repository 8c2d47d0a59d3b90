-- ===== src/Collection/Tests.antt =====
-- Runs of `Collection` of bindings/python/pyx/__init__.py against a small store.
pub mod Table
use pyx.Base.{
  ℕ, zero, suc, ◌+◌, ◌-◌, ◌<◌, ◌≤◌, ◌^◌, ◌≡◌, ◌≢◌, refl, ap, sym, ◌∙◌, Bool, true, false, ◌&&◌,
  Option, none, some, List, [], ◌∷◌, ◌++◌, length, get_elem?, ltb, leb, ◌==◌, if◌then◌else◌, arith,
  Bool-cases, Option-cases, inl, inr, length-append_bytes, append-nil,
}
use pyx.Base.Bytes.{Bytes}
use pyx.Base.Int.{ℤ, pos, negsuc, is_negative}
use pyx.Errors.{pyx_ok, pyx_not_found, pyx_buffer_too_small}
use pyx.Calls.{
  check, check-eq-ok, then_call, then_call-eq-ok, then_call-keeps, then_call-value, if-keeps,
}
use pyx.Result.{ok}
use pyx.Doc.Value.{Value, str_key, null, int, dict, field, no_fields}
use pyx.Doc.Encode.{encode}
use pyx.Collection.{Engine, Reply, put, get, insert, delete, insert_many, get_many}
use pyx.Collection.Laws.{KeyValue, BulkRead, BulkWrite, packed, sizes, cut, Stored}
use pyx.Collection.Many.{get_many-get_each, get_each}
use pyx.Collection.Bulk.{get-insert_many, Reads}
use pyx.Collection.Tests.Table.{
  Rows, rows, empty_rows, rows-KeyValue, rows-BulkRead, rows-BulkWrite,
}
use pyx.Doc.Value.{plain}
use pyx.Doc.Value.Dict.{IsPython}
use pyx.Base.{All}
use pyx.Doc.Encode.{write_object_entry, value_tag, write_body, to_bytes4, write_sized}
use pyx.Doc.Utf8.{utf8_encode, encode_char}
use pyx.Doc.Varint.{write_varint}
use pyx.Base.Bytes.{le_bytes}
use pyx.Base.Int.{to_word}
use pyx.Collection.{encode_all}
use pyx.Result.{ok-injective}
use pyx.Collection.Store.{Holds}
use pyx.Collection.Bulk.{Sendable}
use pyx.Query.{c_int64}

-- {"a": 1} and {}
abbrev one_field : Value
one_field = dict (field (str_key (b'a' ∷ [])) (int (pos 1)) no_fields)

abbrev no_field : Value
no_field = dict no_fields

abbrev one_field_bytes : Bytes
one_field_bytes = 8 ∷ 11 ∷ 0 ∷ 0 ∷ 0 ∷ 3 ∷ 1 ∷ b'a' ∷ 1 ∷ 0 ∷ 0 ∷ 0 ∷ 0 ∷ 0 ∷ 0 ∷ 0 ∷ []

encode-one_field : encode none one_field ≡ ok one_field_bytes
unfolding encode write_object_entry utf8_encode encode_char value_tag write_body to_bytes4
    write_sized write_varint le_bytes to_word
encode-one_field = refl

encode-no_field : encode none no_field ≡ ok (8 ∷ 0 ∷ 0 ∷ 0 ∷ 0 ∷ [])
unfolding encode write_body to_bytes4 le_bytes
encode-no_field = refl

put-one_field : (put rows [] (pos 7) one_field empty_rows).0 ≡ ok tt
unfolding put check
put-one_field = rw (encode-one_field, put)

-- {"a": 1} under 3.
abbrev three : Rows
three = record { row = λ i. if i == 3 then some one_field_bytes else none; next = 4 }

insert-one_field : (insert rows [] one_field empty_rows).0 ≡ ok 1
unfolding insert check
insert-one_field = rw (encode-one_field, insert)

row_filled :
    (found : Bool) (b : Bytes)
    → ◌≡◌ {A = Option Bytes} (if found then some one_field_bytes else none) (some b)
    → 0 < length b
row_filled true b e = let same : ◌≡◌ {A = Bytes} one_field_bytes b = cc in rw (← same) (omega arith)
row_filled false b e = absurd (cc)

three_filled : (id : ℕ) (b : Bytes) → three.row id ≡ some b → 0 < length b
three_filled id b e = row_filled (id == 3) b e

get_many-get_each_example :
    (get_many rows [] (pos 5 ∷ pos 3 ∷ pos 3 ∷ []) three).0
    ≡ get_each rows [] (pos 5 ∷ pos 3 ∷ pos 3 ∷ []) [] three
get_many-get_each_example =
    get_many-get_each rows [] rows-KeyValue rows-BulkRead (pos 5 ∷ pos 3 ∷ pos 3 ∷ []) three
      three_filled

abbrev batch : List Value
batch = one_field ∷ no_field ∷ []

one_small : (b : Bytes) → encode none one_field ≡ ok b → length b < 2 ^ 32
one_small b e = rw (← ok-injective (sym encode-one_field ∙ e)) (omega arith)

none_small : (b : Bytes) → encode none no_field ≡ ok b → length b < 2 ^ 32
none_small b e = rw (← ok-injective (sym encode-no_field ∙ e)) (omega arith)

batch-Sendable : All Sendable batch
batch-Sendable = (((tt, tt, tt), (λ b e. one_small b e)), ((tt, (λ b e. none_small b e)), tt))

insert_many-batch : (insert_many rows [] batch empty_rows).0 ≡ ok (1 ∷ 2 ∷ [])
unfolding insert_many encode_all check
insert_many-batch = rw (encode-one_field, encode-no_field, encode_all, insert_many)

get-insert_many_example :
    Reads rows rows-KeyValue [] (insert_many rows [] batch empty_rows).1 (1 ∷ 2 ∷ []) batch
get-insert_many_example =
    get-insert_many rows rows-KeyValue [] rows-BulkWrite batch (1 ∷ 2 ∷ []) empty_rows
      batch-Sendable insert_many-batch
