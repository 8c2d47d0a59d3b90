-- ===== src/Collection.antt =====
-- `Collection` of bindings/python/pyx/__init__.py: its reads and writes, one document at a time and in bulk, in
-- pure Python. libpyx is a parameter.
pub mod Laws
pub mod Store
pub mod Many
pub mod Bulk
pub mod Refines
pub mod Tests
use Prim.Native.String.{String}
use pyx.Base.{
  ℕ, zero, suc, ◌+◌, ◌*◌, ◌%◌, ◌^◌, Bool, true, false, Option, none, some, if◌then◌else◌, ltb, ◌==◌,
  List, [], ◌∷◌, ◌++◌, length,
}
use pyx.Base.Bytes.{Bytes}
use pyx.Base.Int.{ℤ, is_negative, int_eq}
use pyx.Base.Reading.{slice}
use pyx.Errors.{from_status, pyx_ok, pyx_not_found, pyx_buffer_too_small}
use pyx.Calls.{check, then_call}
use pyx.Result.{Result, Exn, ok, raised, out_of_fuel, ◌>>=◌}
use pyx.Doc.Value.{Value, dict, no_fields}
use pyx.Doc.Encode.{encode}
use pyx.Doc.Decode.{decode}
use pyx.Query.{c_int64}

-- What `pyx_get_many` returns: the status, a length for each id, the buffer, and `used`.
pub record Reply : Type 0 where
  pub rc : ℤ
  pub out_lens : List ℕ
  pub out_buf : Bytes
  pub used : ℕ

-- The functions of the C ABI that a collection calls, on a state that holds the database. The first
-- argument is the collection's name; a `pyx_buf` without data is empty.
pub record Engine : Type 1 where
  pub State : Type 0
  pub pyx_insert : Bytes → Bytes → State → ℤ × ℕ × State
  pub pyx_insert_many : Bytes → Bytes → List ℕ → State → ℤ × List ℕ × State
  pub pyx_put : Bytes → ℕ → Bytes → State → ℤ × State
  pub pyx_get : Bytes → ℕ → State → ℤ × Bytes × State
  pub pyx_get_many : Bytes → List ℕ → ℕ → State → Reply × State
  pub pyx_delete : Bytes → ℕ → State → ℤ × State
  pub pyx_buf_free : Bytes → State → State
  pub pyx_last_error : State → String

-- A `c_uint64` argument: the integer modulo 2 ^ 64.
abbrev pub c_uint64 : ℤ → ℕ
c_uint64 = c_int64

-- `result[doc_id] = doc`: a key that is there keeps its place.
abbrev pub set_doc : List (ℤ × Value) → ℤ → Value → List (ℤ × Value)
set_doc [] id doc = (id, doc) ∷ []
set_doc (entry ∷ result) id doc =
    let rest = set_doc result id doc in
    if int_eq entry.0 id then (entry.0, doc) ∷ result else entry ∷ rest

-- `max(a, b)`
abbrev pub max : ℕ → ℕ → ℕ
max a b = if ltb a b then b else a

-- `_doc.encode(d) for d in docs`
unfoldable pub encode_all : List Value → Result (List Bytes)
encode_all [] = ok []
encode_all (doc ∷ docs) = encode none doc >>= λ b. (encode_all docs >>= λ bs. ok (b ∷ bs))

-- `b"".join(encoded)`, and the lengths.
abbrev pub join : List Bytes → Bytes
join [] = []
join (b ∷ bs) = b ++ join bs

abbrev pub lens_list : List Bytes → List ℕ
lens_list [] = []
lens_list (b ∷ bs) = length b ∷ lens_list bs

-- `(C.c_uint32 * n)(*lens_list)`: each length modulo 2 ^ 32.
abbrev pub c_uint32_array : List ℕ → List ℕ
c_uint32_array [] = []
c_uint32_array (n ∷ ns) = n % 2 ^ 32 ∷ c_uint32_array ns

-- The loop that decodes the values of `get_many`, from `offset` on; an id without a length ends it.
unfoldable pub decode_loop :
    List ℤ → List ℕ → Bytes → ℕ → List (ℤ × Value) → Result (List (ℤ × Value))
decode_loop (id ∷ ids) (ln ∷ out_lens) buf offset result =
    let skipped = decode_loop ids out_lens buf offset result in
    let decoded = decode none (slice buf offset (offset + ln)) >>= λ doc.
    decode_loop ids out_lens buf (offset + ln) (set_doc result id doc) in
    if ln == 0 then skipped else decoded
decode_loop _ _ buf offset result = ok result

abbrev not_converged : Exn
not_converged = Exn.runtime_error "pyx_get_many: buffer-too-small loop did not converge"

-- The first `cap`.
abbrev pub first_size : ℕ → ℕ
first_size n = max (n * 256) 4096

-- `(C.c_uint64 * n)(*ids)`
abbrev pub to_words : List ℤ → List ℕ
to_words [] = []
to_words (id ∷ ids) = c_uint64 id ∷ to_words ids

-- `_read_buf`: `free` is `pyx_buf_free`. The bytes are copied and freed before they are decoded.
unfoldable pub read_buf : {S : Type 0} → (Bytes → S → S) → Bytes → S → Result Value × S
read_buf free buf s =
    if length buf == 0 then (ok (dict no_fields), s) else (decode none buf, free buf s)

-- What becomes of the status and the buffer of a read.
abbrev pub found_doc :
    {S : Type 0} → (S → String) → (Bytes → S → S) → ℤ × Bytes × S → Result (Option Value) × S
found_doc last_error free (rc, buf, s) =
    if int_eq rc pyx_not_found
    then (ok none, s)
    else then_call (check last_error rc s)
        (λ _ t. let (r, s2) = read_buf free buf t in (r >>= λ doc. ok (some doc), s2)) s

module _ (engine : Engine) where
  open engine use {
    State, pyx_insert, pyx_insert_many, pyx_put, pyx_get, pyx_get_many, pyx_delete, pyx_buf_free,
    pyx_last_error,
  }

  module _ (name : Bytes) where
    unfoldable pub insert : Value → State → Result ℕ × State
    insert doc s =
        then_call (encode none doc)
          (λ b t.
            let (rc, out, s') = pyx_insert name b t in
            (check pyx_last_error rc s' >>= λ _. ok out, s'))
          s

    unfoldable pub put : ℤ → Value → State → Result (Unit {0}) × State
    put doc_id doc s =
        then_call (encode none doc)
          (λ b t.
            let (rc, s') = pyx_put name (c_uint64 doc_id) b t in (check pyx_last_error rc s', s'))
          s

    unfoldable pub get : ℤ → State → Result (Option Value) × State
    get doc_id s = found_doc pyx_last_error pyx_buf_free (pyx_get name (c_uint64 doc_id) s)

    unfoldable pub delete : ℤ → State → Result Bool × State
    delete doc_id s =
        let (rc, s') = pyx_delete name (c_uint64 doc_id) s in
        if int_eq rc pyx_not_found
        then (ok false, s')
        else (check pyx_last_error rc s' >>= λ _. ok true, s')

    -- No call is made for an empty batch.
    unfoldable pub insert_many : List Value → State → Result (List ℕ) × State
    insert_many docs s =
        then_call (encode_all docs)
          (λ encoded t.
            let (rc, out_ids, s') =
              pyx_insert_many name (join encoded) (c_uint32_array (lens_list encoded)) t in
            let sent : Result (List ℕ) × State =
              (check pyx_last_error rc s' >>= λ _. ok out_ids, s') in
            if length encoded == 0 then (ok [], t) else sent)
          s

    -- `for _ in range(8)`: the reply that the loop breaks with. A status that is neither of the two and
    -- passes the check leads to another round.
    unfoldable pub fill_loop : ℕ → List ℕ → ℕ → State → Result Reply × State
    fill_loop zero ids_arr cap s = (raised not_converged, s)
    fill_loop (suc left) ids_arr cap s =
        let (reply, s') = pyx_get_many name ids_arr cap s in
        let grown = fill_loop left ids_arr (max reply.used (cap * 2)) s' in
        let same =
          then_call (check pyx_last_error reply.rc s') (λ _ t. fill_loop left ids_arr cap t) s' in
        if int_eq reply.rc pyx_ok
        then (ok reply, s')
        else if int_eq reply.rc pyx_buffer_too_small
        then grown
        else same

    unfoldable pub get_many : List ℤ → State → Result (List (ℤ × Value)) × State
    get_many ids s =
        if length ids == 0
        then (ok [], s)
        else then_call (fill_loop 8 (to_words ids) (first_size (length ids)) s).0
            (λ reply t. (decode_loop ids reply.out_lens reply.out_buf 0 [], t))
            (fill_loop 8 (to_words ids) (first_size (length ids)) s).1
