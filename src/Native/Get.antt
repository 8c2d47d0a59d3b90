-- ===== src/Native/Get.antt =====
-- The read of one document through the C extension: `call_get_and_decode` of bindings/python/pyx/_native.c, and
-- `Collection.get` and `SnapshotCollection.get` of bindings/python/pyx/__init__.py where `_native_get_bound` holds.
-- An allocation that fails is left out.
pub mod Agree
pub mod Tests
use Prim.Native.String.{String}
use pyx.Base.{ℕ, Bool, true, false, Option, none, some, if◌then◌else◌, take, List, [], ◌∷◌}
use pyx.Base.Bytes.{Bytes}
use pyx.Base.Int.{ℤ, int_eq}
use pyx.Errors.{PyxError, pyx_error, pyx_ok, pyx_not_found, pyx_invalid_arg, pyx_buffer_too_small}
use pyx.Result.{Result, Exn, ok, raised, out_of_fuel, ◌>>=◌}
use pyx.Doc.Value.{Value}
use pyx.Collection.{c_uint64}

-- A `pyx_get_zero_copy_fn`, by the handle, the collection's name, the id and the buffer's size. It returns the
-- status, the buffer and `*out_len`.
abbrev pub ZeroCopy : Type 0 → Type 0
ZeroCopy S = ℕ → Bytes → ℕ → ℕ → S → ℤ × Bytes × ℕ × S

-- `sizeof(stack_buf)`
abbrev pub stack_size : ℕ
stack_size = 4096

module _ {S : Type 0} (fn : ZeroCopy S) (native_decode : Bytes → Result Value) where
  -- What becomes of the last call: a miss, an error, or a value that is decoded.
  unfoldable pub reply : ℤ × Bytes × ℕ × S → Result (Option Value) × S
  reply (rc, buf, out_len, s) =
      if int_eq rc pyx_not_found
      then (ok none, s)
      else if int_eq rc pyx_ok
      then (native_decode (take out_len buf) >>= λ doc. ok (some doc), s)
      else (raised (Exn.runtime_error "pyx_get_zero_copy"), s)

  unfoldable pub call_get_and_decode : ℕ → Bytes → ℕ → S → Result (Option Value) × S
  call_get_and_decode handle name doc_id s =
      let first = fn handle name doc_id stack_size s in
      let second = fn handle name doc_id first.2 first.3 in
      if int_eq first.0 pyx_buffer_too_small then reply second else reply first

  abbrev pub closed : String → Exn
  closed message =
      Exn.raised_pyx (record { cls = pyx_error; status = pyx_invalid_arg; message = message })

  -- `get` of a collection whose handle is given; `message` says what is closed.
  unfoldable pub get_bound : String → Option ℕ → Bytes → ℤ → S → Result (Option Value) × S
  get_bound message none name doc_id s = (raised (closed message), s)
  get_bound message (some handle) name doc_id s =
      call_get_and_decode handle name (c_uint64 doc_id) s

  -- `Collection.get`, with the path that is taken where nothing is bound.
  unfoldable pub get :
      Bool
      → (ℤ → S → Result (Option Value) × S)
      → Option ℕ
      → Bytes
      → ℤ
      → S
      → Result (Option Value) × S
  get native_get_bound unbound handle name doc_id s =
      if native_get_bound then get_bound "db is closed" handle name doc_id s else unbound doc_id s

  -- `SnapshotCollection.get`
  unfoldable pub snapshot_get :
      Bool
      → (ℤ → S → Result (Option Value) × S)
      → Option ℕ
      → Bytes
      → ℤ
      → S
      → Result (Option Value) × S
  snapshot_get native_get_bound unbound handle name doc_id s =
      if native_get_bound
      then get_bound "snapshot is closed" handle name doc_id s
      else unbound doc_id s
