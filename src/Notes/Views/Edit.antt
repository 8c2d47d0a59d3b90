-- ===== src/Notes/Views/Edit.antt =====
-- `edit_view` of realworldexamples/django/notes/views.py: the edit of a note under `run_optimistic`.
use pyx.Base.{
  ℕ, ◌≡◌, ◌≢◌, refl, ◌∙◌, Bool-cases, inl, inr, Option, none, some, length, ◌==◌, if◌then◌else◌,
  arith,
}
use pyx.Base.Bytes.{Bytes}
use pyx.Base.Int.{ℤ, is_negative, int_eq}
use pyx.Errors.{pyx_not_found}
use pyx.Result.{Result, ok, raised, out_of_fuel, ◌>>=◌}
use pyx.Calls.{check, check-eq-ok, then_call-eq-ok}
use pyx.Doc.Utf8.{Str}
use pyx.Doc.Value.{Value, Fields, dict, no_fields, null, str, str_eq}
use pyx.Doc.Encode.{encode}
use pyx.Doc.Decode.{decode}
use pyx.Collection.{c_uint64, read_buf}
use pyx.Txn.{Libpyx, OptimisticTxn, Callback, run_optimistic}
use pyx.Txn.Ops.{Operations, get, put}
use pyx.Txn.Serial.{Validating, Edit, Edits, Atomic, run_optimistic-Atomic}
use pyx.Notes.Views.{
  Request, Response, redirect_detail, update, store_edited, edited, edit_answer, edit_form, user_id,
  dict_get, k_title, k_body, k_tags, k_updated_at,
}
use pyx.Notes.Views.Lookup.{text_of, tags_of, str_eq-ne, dict_get-dict_set}
use pyx.Notes.Views.Create.{notes}

-- What a buffer of the engine is read as.
abbrev pub reading : Bytes → Result Value
reading buf = if length buf == 0 then ok (dict no_fields) else decode none buf

found-ok :
    (r : Result Value) {v : Value}
    → ◌≡◌ {A = Result (Option Value)} (r >>= λ doc. ok (some doc)) (ok (some v))
    → r ≡ ok v
found-ok (ok w) e = cc
found-ok (raised x) e = absurd (cc)
found-ok out_of_fuel e = absurd (cc)

-- `note'` is `note` with the form's title, body and tags and the time `now`; every other key holds what it held.
pub record IsEdited (request : Request) (now : Str) (note note' : Fields) : Type 0 where
  pub title : dict_get note' k_title ≡ some (text_of request k_title)
  pub body : dict_get note' k_body ≡ some (text_of request k_body)
  pub tags : dict_get note' k_tags ≡ some (tags_of request)
  pub updated : dict_get note' k_updated_at ≡ some (str now)
  pub rest :
      (key : Str)
      → key ≢ k_title
      → key ≢ k_body
      → key ≢ k_tags
      → key ≢ k_updated_at
      → dict_get note' key ≡ dict_get note key

-- The four assignments, as the last one leaves a key.
edited-get :
    (request : Request) (now : Str) (note : Fields) (key : Str)
    → dict_get (edited request now note) key ≡ (
        if str_eq k_updated_at key
        then some (str now)
        else if str_eq k_tags key
        then some (tags_of request)
        else if str_eq k_body key
        then some (text_of request k_body)
        else if str_eq k_title key
        then some (text_of request k_title)
        else dict_get note key)
unfolding edited
edited-get request now note key = simp dict_get-dict_set

edited-IsEdited :
    (request : Request) (now : Str) (note : Fields)
    → IsEdited request now note (edited request now note)
unfolding str_eq
edited-IsEdited request now note = record {
  title = edited-get request now note k_title;
  body = edited-get request now note k_body;
  tags = edited-get request now note k_tags;
  updated = edited-get request now note k_updated_at;
  rest = λ key t b g u.
      edited-get request now note key
      ∙ rw
          (
            str_eq-ne k_updated_at key u,
            str_eq-ne k_tags key g,
            str_eq-ne k_body key b,
            str_eq-ne k_title key t,
          )
          refl;
}

module _ (lib : Libpyx) (operations : Operations lib) (clock : lib.State → Str) (request : Request)
    (doc_id : ℤ) where
  open lib use {State, pyx_last_error}
  open operations use {pyx_optimistic_get, pyx_optimistic_put, pyx_buf_free}

  -- `update`, as `run_optimistic` calls it. The clock is read before the note is.
  unfoldable pub update_txn : Callback lib
  update_txn txn s =
      let (r, s') =
        update (get lib operations txn notes) (put lib operations txn notes) (clock s) request
          doc_id s in
      (r, txn, s')

  -- `edit_view` for a POST.
  unfoldable pub edit_post : State → Result Response × State
  edit_post s =
      let (r, s') = run_optimistic lib update_txn 8 s in (edit_answer request doc_id r, s')

  -- `edit_view`; `coll_get` is `get` of the collection notes outside of a transaction.
  unfoldable pub edit_view :
      (ℤ → State → Result (Option Value) × State) → State → Result Response × State
  edit_view coll_get s = if request.is_get then edit_form coll_get doc_id s else edit_post s

  -- `v` is a note and `b` encodes that note with the form's title, body and tags and the clock's time in some state.
  pub record Made (v : Option Bytes) (b : Bytes) : Type 0 where
    pub buf : Bytes
    pub stored : v ≡ some buf
    pub note : Fields
    pub reads : reading buf ≡ ok (dict note)
    pub at : State
    pub note' : Fields
    pub edit : IsEdited request (clock at) note note'
    pub writes : encode none (dict note') ≡ ok b

  abbrev word : ℕ
  word = c_uint64 doc_id

  module _ (law : Validating lib operations) where
    open law use {Seen, written}

    -- A read that found `v` in the buffer of the engine.
    get-Seen :
        (h : ℕ) (s : State) (v : Value)
        → written h s ≡ none
        → (get lib operations (record { handle = some h }) notes doc_id s).0 ≡ ok (some v)
        → Seen h
            (get lib operations (record { handle = some h }) notes doc_id s).1
            notes
            word
            (some (pyx_optimistic_get (some h) notes word s).1)
          × (reading (pyx_optimistic_get (some h) notes word s).1 ≡ ok v)
          × (written h (get lib operations (record { handle = some h }) notes doc_id s).1 ≡ none)
    unfolding get check read_buf
    get-Seen h s v fresh found =
        let reply = pyx_optimistic_get (some h) notes word s in
        elim (Bool-cases (int_eq reply.0 pyx_not_found)) [
          | inl missing ↦ absurd (let never = rw missing at found in cc)
          | inr there ↦ elim (Bool-cases (is_negative reply.0)) [
            | inl failed ↦ absurd (let never = rw (there, failed) at found in cc)
            | inr fine ↦
                let seen = rw there at (law.get_seen h notes word s fresh fine) in
                let writes = law.get_writes h notes word s ∙ fresh in
                elim (Bool-cases (length reply.1 == 0)) [
                  | inl empty ↦
                      let found' = rw (there, fine, empty, get) at found in
                      rw (there, fine, empty, get) (seen, cc, writes)
                  | inr full ↦
                      let found' = rw (there, fine, full, get) at found in
                      let (kept, same) =
                        law.free_keeps h reply.1 notes word (some reply.1) reply.2 seen in
                      rw (there, fine, full, get)
                        (kept, found-ok (decode none reply.1) found', same ∙ writes)
                ]
          ]
        ]

    -- A write that was accepted.
    put-written :
        (h : ℕ) (v : Option Bytes) (doc : Value) (s : State)
        → written h s ≡ none
        → Seen h s notes word v
        → (put lib operations (record { handle = some h }) notes doc_id doc s).0 ≡ ok tt
        → (b : Bytes) × (encode none doc ≡ ok b)
          × Seen h
              (put lib operations (record { handle = some h }) notes doc_id doc s).1
              notes
              word
              v
          × (written h (put lib operations (record { handle = some h }) notes doc_id doc s).1
              ≡ some (notes, word, b))
    unfolding put
    put-written h v doc s fresh seen returned =
        let (b, encoded, passed) = then_call-eq-ok (encode none doc) _ s returned in
        let reply = pyx_optimistic_put (some h) notes word b s in
        let fine = check-eq-ok pyx_last_error reply.0 reply.1 passed in
        (
          b,
          encoded,
          rw encoded (law.put_keeps h notes word b v s seen),
          rw encoded (law.put_written h notes word b s fine fresh),
        )

    -- `update` from the value that was read on.
    store-Edit :
        (h : ℕ) (buf : Bytes) (at : State) (v : Value) (s : State)
        → written h s ≡ none
        → Seen h s notes word (some buf)
        → reading buf ≡ ok v
        → (store_edited
            (put lib operations (record { handle = some h }) notes)
            (clock at)
            request
            doc_id
            (some v)
            s).0
          ≡ ok tt
        → Edit lib operations law notes word Made h
            (store_edited
              (put lib operations (record { handle = some h }) notes)
              (clock at)
              request
              doc_id
              (some v)
              s).1
    unfolding store_edited
    store-Edit h buf at (dict note) s fresh seen reads returned =
        let (b, encoded, kept, wrote) =
          put-written h (some buf) (dict (edited request (clock at) note)) s fresh seen returned in
        record {
          v = some buf;
          b = b;
          read = kept;
          made = record {
            buf = buf;
            stored = refl;
            note = note;
            reads = reads;
            at = at;
            note' = edited request (clock at) note;
            edit = edited-IsEdited request (clock at) note;
            writes = encoded;
          };
          wrote = wrote;
        }
    store-Edit h buf at null s fresh seen reads returned = absurd (cc)
    store-Edit h buf at _ s fresh seen reads returned = absurd (cc)

    found-Edit :
        (h : ℕ) (at : State) (found : Option Value) (s : State)
        → (get lib operations (record { handle = some h }) notes doc_id s).0 ≡ ok found
        → written h s ≡ none
        → (store_edited
            (put lib operations (record { handle = some h }) notes)
            (clock at)
            request
            doc_id
            found
            (get lib operations (record { handle = some h }) notes doc_id s).1).0
          ≡ ok tt
        → Edit lib operations law notes word Made h
            (store_edited
              (put lib operations (record { handle = some h }) notes)
              (clock at)
              request
              doc_id
              found
              (get lib operations (record { handle = some h }) notes doc_id s).1).1
    unfolding store_edited
    found-Edit h at none s got fresh returned = absurd (cc)
    found-Edit h at (some v) s got fresh returned =
        let (seen, reads, blank) = get-Seen h s v fresh got in
        store-Edit h (pyx_optimistic_get (some h) notes word s).1 at v _ blank seen reads returned

    pub update-Edits : Edits lib operations law notes word Made update_txn
    unfolding update_txn update
    update-Edits h s fresh returned =
        let t : OptimisticTxn = record { handle = some h } in
        let (found, got, stored) =
          then_call-eq-ok (get lib operations t notes doc_id s).0 _ _ returned in
        (refl, rw (got, update) (found-Edit h s found s got fresh stored))

    -- What `edit_view` answered with a redirect.
    edit_answer-redirect :
        (r : Result (Unit {0}))
        → edit_answer request doc_id r ≡ ok (redirect_detail doc_id (user_id request))
        → r ≡ ok tt
    unfolding edit_answer
    edit_answer-redirect (ok u) e = refl
    edit_answer-redirect (raised x) e = ground arith
    edit_answer-redirect out_of_fuel e = absurd (cc)

    -- Where a commit that libpyx accepts found a store in which everything that its transaction had read
    -- still held, and left that store with the transaction's write in it: if `edit_view` answers a POST with
    -- the redirect to the note, then the commit of one of its transactions, which was begun behind some rounds
    -- that ended in a conflict, was accepted and has left the store that the view leaves. That store is the one
    -- that this commit found with the note replaced by a note that holds the form's stripped title and body,
    -- the parsed tags and a time of the clock, and under every other text key what the note held; every other
    -- document is as the commit found it.
    pub edit_post-Atomic :
        (s : State)
        → (edit_post s).0 ≡ ok (redirect_detail doc_id (user_id request))
        → Atomic lib operations law notes word Made update_txn s (edit_post s).1
    unfolding edit_post
    edit_post-Atomic s answered =
        run_optimistic-Atomic lib operations law notes word Made update_txn update-Edits 8 s
          (edit_answer-redirect (run_optimistic lib update_txn 8 s).0 answered)
