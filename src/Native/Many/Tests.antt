-- ===== src/Native/Many/Tests.antt =====
-- Bulk reads of a small store through the C extension bindings/python/pyx/_native.c.
use pyx.Base.{
  ◌<◌, ◌≡◌, refl, Bool, true, false, Option, none, some, length, [], ◌∷◌, ◌==◌, if◌then◌else◌,
  arith,
}
use pyx.Base.Bytes.{Bytes, le_value}
use pyx.Base.Int.{pos}
use pyx.Result.{Exn, raised}
use pyx.Doc.Decode.{decode, read_header}
use pyx.Collection as Collection
use pyx.Collection.Tests.Table.{Rows, rows, rows-KeyValue, rows-BulkRead}
use pyx.Native.Decode.{Unspecified, py_decode}
use pyx.Native.Many.{decode_many, decode_each, get_many}
use pyx.Native.Many.Agree.{get_many-native}

abbrev unread : Unspecified
unread buf start n = raised Exn.index_error

-- {} under 3.
abbrev empty_doc : Bytes
empty_doc = 8 ∷ 0 ∷ 0 ∷ 0 ∷ 0 ∷ []

abbrev one : Rows
one = record { row = λ i. if i == 3 then some empty_doc else none; next = 4 }

decoded_alike : py_decode unread empty_doc ≡ decode none empty_doc
unfolding py_decode decode read_header le_value
decoded_alike = refl

one_agrees :
    (found : Bool) (b : Bytes)
    → ◌≡◌ {A = Option Bytes} (if found then some empty_doc else none) (some b)
    → (0 < length b) × (py_decode unread b ≡ decode none b)
one_agrees true b e =
    let same : ◌≡◌ {A = Bytes} empty_doc b = cc in rw (← same) (omega arith, decoded_alike)
one_agrees false b e = absurd (cc)

get_many-native_example :
    (get_many (py_decode unread) rows [] (pos 5 ∷ pos 3 ∷ pos 3 ∷ []) one).0
    ≡ (Collection.get_many rows [] (pos 5 ∷ pos 3 ∷ pos 3 ∷ []) one).0
get_many-native_example =
    get_many-native (py_decode unread) rows rows-KeyValue rows-BulkRead []
      (pos 5 ∷ pos 3 ∷ pos 3 ∷ []) one (λ id b there. one_agrees (id == 3) b there)

-- A buffer that ends inside a value.
too_short :
    decode_many (py_decode unread) (8 ∷ 0 ∷ []) (5 ∷ []) (pos 3 ∷ [])
    ≡ raised (Exn.value_error "out_buf shorter than declared lens")
unfolding decode_many decode_each
too_short = refl
