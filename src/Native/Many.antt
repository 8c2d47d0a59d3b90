-- ===== src/Native/Many.antt =====
-- The read of many documents through the C extension: `decode_many` of bindings/python/pyx/_native.c, and `get_many` of
-- bindings/python/pyx/__init__.py with it. `out_lens` is a ctypes array, which gives its buffer.
pub mod Agree
mod Tests
use pyx.Base.{ℕ, ◌+◌, ◌==◌, ltb, if◌then◌else◌, true, false, length, List, [], ◌∷◌}
use pyx.Base.Bytes.{Bytes}
use pyx.Base.Int.{ℤ}
use pyx.Base.Reading.{slice}
use pyx.Calls.{then_call}
use pyx.Result.{Result, Exn, ok, raised, ◌>>=◌}
use pyx.Doc.Value.{Value}
use pyx.Collection.{Engine, fill_loop, first_size, to_words, set_doc}

module _ (native_decode : Bytes → Result Value) where
  -- `for (Py_ssize_t i = 0; i < n_ids; i++)`; a Reader of its own reads each value.
  unfoldable pub decode_each :
      List ℤ → List ℕ → Bytes → ℕ → List (ℤ × Value) → Result (List (ℤ × Value))
  decode_each (id ∷ ids) (ln ∷ out_lens) buf offset result =
      let skipped = decode_each ids out_lens buf offset result in
      let decoded = native_decode (slice buf offset (offset + ln)) >>= λ doc.
      decode_each ids out_lens buf (offset + ln) (set_doc result id doc) in
      if ln == 0
      then skipped
      else if ltb (length buf) (offset + ln)
      then raised (Exn.value_error "out_buf shorter than declared lens")
      else decoded
  decode_each _ _ buf offset result = ok result

  unfoldable pub decode_many : Bytes → List ℕ → List ℤ → Result (List (ℤ × Value))
  unfolding decode_each
  decode_many out_buf out_lens ids =
      if ltb (length out_lens) (length ids)
      then raised (Exn.value_error "out_lens shorter than ids")
      else decode_each ids out_lens out_buf 0 []

  -- `Collection.get_many` where the extension was built.
  unfoldable pub get_many :
      (engine : Engine) → Bytes → List ℤ → engine.State → Result (List (ℤ × Value)) × engine.State
  get_many engine name ids s =
      if length ids == 0
      then (ok [], s)
      else then_call (fill_loop engine name 8 (to_words ids) (first_size (length ids)) s).0
          (λ reply t. (decode_many reply.out_buf reply.out_lens ids, t))
          (fill_loop engine name 8 (to_words ids) (first_size (length ids)) s).1
