-- ===== src/Native/Stored/Tests.antt =====
-- A document that is put into a small store and read through the C extension bindings/python/pyx/_native.c.
use pyx.Base.{◌≡◌, refl, true, none, some, [], ◌∷◌}
use pyx.Base.Bytes.{le_bytes}
use pyx.Base.Int.{pos}
use pyx.Calls.{check}
use pyx.Result.{Exn, ok, raised}
use pyx.Doc.Value.{Value, dict, no_fields, plain}
use pyx.Doc.Encode.{encode, write_body, to_bytes4}
use pyx.Collection.{put}
use pyx.Collection as Collection
use pyx.Collection.Tests.Table.{rows, empty_rows, rows-KeyValue}
use pyx.Native.Decode.{Unspecified, py_decode}
use pyx.Native.Get.{get}
use pyx.Native.Get.Tests.{copy, copy-ReadsStore}
use pyx.Native.Stored.{get_bound-put}

abbrev unread : Unspecified
unread buf start n = raised Exn.index_error

abbrev nothing_in : Value
nothing_in = dict no_fields

encode-nothing_in : encode none nothing_in ≡ ok (8 ∷ 0 ∷ 0 ∷ 0 ∷ 0 ∷ [])
unfolding encode write_body to_bytes4 le_bytes
encode-nothing_in = refl

put-nothing_in : (put rows [] (pos 7) nothing_in empty_rows).0 ≡ ok tt
unfolding put check
put-nothing_in = rw (encode-nothing_in, put)

get_bound-put_example :
    (get copy
      (py_decode unread)
      true
      (Collection.get rows [])
      (some 1)
      []
      (pos 7)
      (put rows [] (pos 7) nothing_in empty_rows).1).0
    ≡ ok (some (plain nothing_in))
get_bound-put_example =
    get_bound-put rows rows-KeyValue 1 copy copy-ReadsStore unread [] (pos 7) nothing_in empty_rows
      tt put-nothing_in
