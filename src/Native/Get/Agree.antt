-- ===== src/Native/Get/Agree.antt =====
-- Reads through the C extension and without it, compared.
use pyx.Base.{
  ℕ, ◌<◌, ◌≤◌, ◌≡◌, true, false, Bool-cases, inl, inr, none, some, length, take, ◌==◌, ltb,
  Option-cases, arith,
}
use pyx.Base.Bytes.{Bytes}
use pyx.Base.Int.{ℤ}
use pyx.Errors.{pyx_ok, pyx_not_found, pyx_buffer_too_small}
use pyx.Calls.{check}
use pyx.Result.{Result, ok, ◌>>=◌}
use pyx.Doc.Value.{Value}
use pyx.Doc.Decode.{decode}
use pyx.Collection.{Engine, c_uint64, read_buf}
use pyx.Collection as Collection
use pyx.Collection.Laws.{KeyValue}
use pyx.Native.Get.{ZeroCopy, stack_size, reply, call_get_and_decode, get_bound, get}

module _ (engine : Engine) (kv : KeyValue engine) (handle : ℕ) (fn : ZeroCopy engine.State) where
  open kv use {lookup}

  -- The function finds what is stored. It fills the buffer where the value fits, and tells the size where it does
  -- not; it changes nothing.
  pub record ReadsStore : Type 0 where
    pub hit :
        (name b : Bytes) (id cap : ℕ) (s : engine.State)
        → lookup s name id ≡ some b
        → length b ≤ cap
        → ((fn handle name id cap s).0 ≡ pyx_ok)
          × (take (fn handle name id cap s).2 (fn handle name id cap s).1 ≡ b)
    pub short :
        (name b : Bytes) (id cap : ℕ) (s : engine.State)
        → lookup s name id ≡ some b
        → cap < length b
        → ((fn handle name id cap s).0 ≡ pyx_buffer_too_small)
          × ((fn handle name id cap s).2 ≡ length b)
          × (lookup (fn handle name id cap s).3 name id ≡ some b)
    pub miss :
        (name : Bytes) (id cap : ℕ) (s : engine.State)
        → lookup s name id ≡ none
        → (fn handle name id cap s).0 ≡ pyx_not_found

  -- The path through ctypes, for a value that is stored.
  unbound-hit :
      (name b : Bytes) (id : ℤ) (s : engine.State)
      → lookup s name (c_uint64 id) ≡ some b
      → 0 < length b
      → (Collection.get engine name id s).0 ≡ decode none b >>= λ doc. ok (some doc)
  unfolding Collection.get check read_buf
  unbound-hit name b id s there filled =
      let (rc, buf) = kv.get_stored name (c_uint64 id) b s there in
      let full : (length b == 0) ≡ false = ground arith in rw (rc, buf, full, Collection.get)

  unbound-miss :
      (name : Bytes) (id : ℤ) (s : engine.State)
      → lookup s name (c_uint64 id) ≡ none
      → (Collection.get engine name id s).0 ≡ ok none
  unfolding Collection.get
  unbound-miss name id s gone = rw (kv.get_missing name (c_uint64 id) s gone, Collection.get)

  module _ (native_decode : Bytes → Result Value) (law : ReadsStore) where
    bound-hit :
        (name b : Bytes) (id : ℕ) (s : engine.State)
        → lookup s name id ≡ some b
        → (call_get_and_decode fn native_decode handle name id s).0
          ≡ native_decode b >>= λ doc. ok (some doc)
    unfolding call_get_and_decode reply
    bound-hit name b id s there = elim (Bool-cases (ltb stack_size (length b))) [
      | inr small ↦
          let (rc, value) = law.hit name b id stack_size s there (ground arith) in
          rw (rc, value, call_get_and_decode)
      | inl big ↦
          let (rc, size, kept) = law.short name b id stack_size s there (ground arith) in
          let (rc', value) =
            law.hit name b id (length b) (fn handle name id stack_size s).3 kept (omega arith) in
          rw (rc, size, rc', value, call_get_and_decode)
    ]

    bound-miss :
        (name : Bytes) (id : ℕ) (s : engine.State)
        → lookup s name id ≡ none
        → (call_get_and_decode fn native_decode handle name id s).0 ≡ ok none
    unfolding call_get_and_decode reply
    bound-miss name id s gone = rw (law.miss name id stack_size s gone, call_get_and_decode)

    -- Where the extension's decoder agrees with the one in Python on the value that is stored under the id, if one
    -- is, and stored values are not empty, `get` returns or raises the same whether the extension was bound or
    -- not.
    pub get-get_bound :
        (name : Bytes) (id : ℤ) (s : engine.State)
        → ((b : Bytes)
            → lookup s name (c_uint64 id) ≡ some b
            → (0 < length b) × (native_decode b ≡ decode none b))
        → (get fn native_decode true (Collection.get engine name) (some handle) name id s).0
          ≡ (get fn native_decode false (Collection.get engine name) (some handle) name id s).0
    unfolding get get_bound
    get-get_bound name id s agree = elim (Option-cases (lookup s name (c_uint64 id))) [
      | inl gone ↦ rw (bound-miss name (c_uint64 id) s gone, unbound-miss name id s gone)
      | inr (b, there) ↦
          let (filled, same) = agree b there in
          rw (bound-hit name b (c_uint64 id) s there, unbound-hit name b id s there filled, same)
    ]
