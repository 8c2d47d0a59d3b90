-- ===== src/Txn/Ops.antt =====
-- `TxnCollection` of bindings/python/pyx/__init__.py: the reads and the buffered writes of an OptimisticTxn.
use pyx.Base.{ℕ, Bool, true, false, Option, none, if◌then◌else◌}
use pyx.Base.Bytes.{Bytes}
use pyx.Base.Int.{ℤ, int_eq}
use pyx.Errors.{pyx_not_found}
use pyx.Calls.{check, then_call, found}
use pyx.Result.{Result, ok, ◌>>=◌}
use pyx.Doc.Utf8.{Str, utf8_encode}
use pyx.Doc.Value.{Value}
use pyx.Doc.Encode.{encode}
use pyx.Query.{PyxValue, to_pyx_value}
use pyx.Collection.{c_uint64, found_doc}
use pyx.Txn.{Libpyx, OptimisticTxn}

-- The functions of the C ABI that are called here. The first argument is the transaction's handle, `none` where it
-- was given up.
pub record Operations (lib : Libpyx) : Type 0 where
  pub pyx_optimistic_insert : Option ℕ → Bytes → Bytes → lib.State → ℤ × ℕ × lib.State
  pub pyx_optimistic_put : Option ℕ → Bytes → ℕ → Bytes → lib.State → ℤ × lib.State
  pub pyx_optimistic_get : Option ℕ → Bytes → ℕ → lib.State → ℤ × Bytes × lib.State
  pub pyx_optimistic_delete : Option ℕ → Bytes → ℕ → lib.State → ℤ × lib.State
  pub pyx_optimistic_find_one : Option ℕ → Bytes → Bytes → PyxValue → lib.State → ℤ × ℕ × lib.State
  pub pyx_buf_free : Bytes → lib.State → lib.State

module _ (lib : Libpyx) (operations : Operations lib) (txn : OptimisticTxn) (name : Bytes) where
  open lib use {State, pyx_last_error}
  open operations use {
    pyx_optimistic_insert, pyx_optimistic_put, pyx_optimistic_get, pyx_optimistic_delete,
    pyx_optimistic_find_one, pyx_buf_free,
  }

  unfoldable pub insert : Value → State → Result ℕ × State
  insert doc s =
      then_call (encode none doc)
        (λ b t.
          let (rc, out, s') = pyx_optimistic_insert txn.handle name b t in
          (check pyx_last_error rc s' >>= λ _. ok out, s'))
        s

  unfoldable pub put : ℤ → Value → State → Result (Unit {0}) × State
  put doc_id doc s =
      then_call (encode none doc)
        (λ b t.
          let (rc, s') = pyx_optimistic_put txn.handle name (c_uint64 doc_id) b t in
          (check pyx_last_error rc s', s'))
        s

  unfoldable pub get : ℤ → State → Result (Option Value) × State
  get doc_id s =
      found_doc pyx_last_error pyx_buf_free (pyx_optimistic_get txn.handle name (c_uint64 doc_id) s)

  unfoldable pub delete : ℤ → State → Result Bool × State
  delete doc_id s =
      let (rc, s') = pyx_optimistic_delete txn.handle name (c_uint64 doc_id) s in
      if int_eq rc pyx_not_found
      then (ok false, s')
      else (check pyx_last_error rc s' >>= λ _. ok true, s')

  unfoldable pub find_one : Str → Value → State → Result (Option ℕ) × State
  find_one field value s =
      then_call (to_pyx_value value)
        (λ v t.
          then_call (utf8_encode field)
            (λ cb t'. found pyx_last_error (pyx_optimistic_find_one txn.handle name cb v t')) t)
        s
