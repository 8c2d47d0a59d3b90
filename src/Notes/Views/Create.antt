-- ===== src/Notes/Views/Create.antt =====
-- `create_view` and then `detail_view` of realworldexamples/django/notes/views.py, through the binding.
use pyx.Base.{
  ℕ, ◌<◌, ◌^◌, ◌≡◌, ◌≢◌, refl, ap, Bool-cases, inl, inr, false, none, some, List, [], ◌∷◌, arith,
}
use pyx.Base.Bytes.{Bytes}
use pyx.Base.Int.{pos}
use pyx.Result.{Result, ok, raised, out_of_fuel}
use pyx.Calls.{then_call}
use pyx.Doc.Utf8.{Str}
use pyx.Doc.Value.{Value, Items, Fields, dict, dict_set, plain, plain_items, str_eq, item, int, str}
use pyx.Doc.Value.Dict.{IsPython, ItemsArePython}
use pyx.Query.{c_int64}
use pyx.Collection.{Engine, insert, get}
use pyx.Collection.Laws.{KeyValue}
use pyx.Collection.Store.{get-insert}
use pyx.Notes.Tags.{is_empty, strip, parse_tags}
use pyx.Notes.Views.{
  Request, redirect_detail, detail_page, new_note, create_view, detail_view, show_note, with_id,
  user_id, str_items, stripped, dict_get, k_title, k_body, k_tags, k_user_id, k_doc_id,
  k_created_at, k_updated_at, get_default,
}
use pyx.Notes.Views.Lookup.{text_of, tags_of, str_eq-ne}

-- "notes"
abbrev pub notes : Bytes
notes = b'n' ∷ b'o' ∷ b't' ∷ b'e' ∷ b's' ∷ []

str_items-IsPython : (tags : List Str) → ItemsArePython (str_items tags)
str_items-IsPython [] = tt
str_items-IsPython (t ∷ tags) = (tt, str_items-IsPython tags)

plain-str_items : (tags : List Str) → plain_items (str_items tags) ≡ str_items tags
unfolding plain
plain-str_items [] = refl
plain-str_items (t ∷ tags) = ap (λ (xs : Items). item (str t) xs) (plain-str_items tags)

new_note-IsPython :
    (request : Request) (now now' : Str) → IsPython (dict (new_note request now now'))
unfolding new_note str_eq
new_note-IsPython request now now' = (
  (refl, (refl, (refl, (refl, (refl, tt))))),
  tt,
  (
    (refl, (refl, (refl, (refl, tt)))),
    tt,
    (
      (refl, (refl, (refl, tt))),
      tt,
      (
        (refl, (refl, tt)),
        str_items-IsPython (parse_tags (get_default (request.form k_tags) [])),
        ((refl, tt), tt, (tt, tt, tt)),
      ),
    ),
  ),
)

plain-new_note :
    (request : Request) (now now' : Str)
    → plain (dict (new_note request now now')) ≡ dict (new_note request now now')
unfolding plain new_note
plain-new_note request now now' =
    rw (plain-str_items (parse_tags (get_default (request.form k_tags) [])))

-- The page of a note that was made from the form at the times `now` and `now'` and is kept under `n`.
pub record IsPageOf (request : Request) (now now' : Str) (n : ℕ) (page : Fields) : Type 0 where
  pub titled : is_empty (strip (get_default (request.form k_title) [])) ≡ false
  pub user : dict_get page k_user_id ≡ some (str (user_id request))
  pub title : dict_get page k_title ≡ some (text_of request k_title)
  pub body : dict_get page k_body ≡ some (text_of request k_body)
  pub tags : dict_get page k_tags ≡ some (tags_of request)
  pub created : dict_get page k_created_at ≡ some (str now)
  pub updated : dict_get page k_updated_at ≡ some (str now')
  pub id : dict_get page k_doc_id ≡ some (int (pos n))
  pub rest :
      (key : Str)
      → key ≢ k_user_id
      → key ≢ k_title
      → key ≢ k_body
      → key ≢ k_tags
      → key ≢ k_created_at
      → key ≢ k_updated_at
      → key ≢ k_doc_id
      → dict_get page key ≡ none

new_note-IsPageOf :
    (request : Request) (now now' : Str) (n : ℕ)
    → is_empty (stripped request k_title) ≡ false
    → IsPageOf request now now' n (with_id (new_note request now now') (pos n))
unfolding new_note dict_get str_eq dict_set
new_note-IsPageOf request now now' n titled = record {
  titled = titled;
  user = refl;
  title = refl;
  body = refl;
  tags = refl;
  created = refl;
  updated = refl;
  id = refl;
  rest = λ key u t b g c m d.
      rw
        (
          str_eq-ne k_user_id key u,
          str_eq-ne k_title key t,
          str_eq-ne k_body key b,
          str_eq-ne k_tags key g,
          str_eq-ne k_created_at key c,
          str_eq-ne k_updated_at key m,
          str_eq-ne k_doc_id key d,
        )
        refl;
}

module _ (engine : Engine) (kv : KeyValue engine) where
  -- What `insert` returned, where the view redirected.
  inserted :
      (r : Result ℕ) (s : engine.State) (user : Str) (n : ℕ)
      → (then_call r (λ doc_id t. (ok (redirect_detail (pos doc_id) user), t)) s).0
        ≡ ok (redirect_detail (pos n) user)
      → r ≡ ok n
  inserted (ok m) s user n e = let same : pos m ≡ pos n = cc in cc
  inserted (raised x) s user n e = absurd (cc)
  inserted out_of_fuel s user n e = absurd (cc)

  -- Where libpyx stores values by name and id as a map does: what `create_view` accepts under an id below
  -- 2 ^ 64 has a title that is not empty when stripped, and `detail_view` answers for the id that `create_view`
  -- redirects to with a page that holds the request's user, the stripped title, the stripped body, the parsed
  -- tags, the two times and the id under their keys, and no other text key.
  pub detail_view-create_view :
      (request : Request) (now now' : Str) (n : ℕ) (s : engine.State)
      → n < 2 ^ 64
      → (create_view (insert engine notes) now now' request s).0
        ≡ ok (redirect_detail (pos n) (user_id request))
      → (page : Fields) × ((detail_view
            (get engine notes)
            (pos n)
            (create_view (insert engine notes) now now' request s).1).0
          ≡ ok (detail_page page))
        × IsPageOf request now now' n page
  unfolding create_view detail_view show_note c_int64
  detail_view-create_view request now now' n s small e =
      let doc : Value = dict (new_note request now now') in
      elim (Bool-cases (is_empty (stripped request k_title))) [
        | inl missing ↦ absurd (let refused = rw missing at e in cc)
        | inr titled ↦
            let e' = rw titled at e in
            let returned =
              inserted (insert engine notes doc s).0 (insert engine notes doc s).1 (user_id request)
                n e' in
            let (_, shown) =
              get-insert engine kv notes (pos n) n doc s (omega arith)
                (new_note-IsPython request now now') returned in
            (
              with_id (new_note request now now') (pos n),
              rw (titled, returned, create_view, shown, plain-new_note request now now') refl,
              new_note-IsPageOf request now now' n titled,
            )
      ]
