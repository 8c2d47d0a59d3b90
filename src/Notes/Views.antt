-- ===== src/Notes/Views.antt =====
-- realworldexamples/django/notes/views.py: the views of the notes application. Django is a parameter as far as a view
-- asks it for the request's fields; what a view answers is a value.
pub mod Lookup
pub mod Create
pub mod Edit
mod Tests
use Prim.Native.String.{String}
use pyx.Base.{
  ℕ, Bool, true, false, ◌||◌, ◌&&◌, Option, none, some, List, [], ◌∷◌, ◌++◌, ◌==◌, if◌then◌else◌,
}
use pyx.Base.Bytes.{Bytes}
use pyx.Base.Int.{ℤ, pos}
use pyx.Errors.{PyxClass, retry_budget_exhausted}
use pyx.Calls.{then_call}
use pyx.Result.{Result, Exn, ok, raised, out_of_fuel, ◌>>=◌}
use pyx.Doc.Utf8.{Str}
use pyx.Doc.Value.{
  Value, Items, Fields, str_key, null, bool, int, float, str, bytes, sequence, list_class, dict,
  other, no_items, item, no_fields, field, dict_set, str_eq, key_eq, Key,
}
use pyx.Notes.Tags.{parse_tags, strip, is_empty}

-- `request.method`, and `request.GET.get` and `request.POST.get`, which know a field or not.
pub record Request : Type 0 where
  pub is_get : Bool
  pub query : Str → Option Str
  pub form : Str → Option Str

-- A redirect to a page, with its user; a page of a note or of the list, with its context; an error's text.
pub data Response : Type 0 where
  redirect_detail : ℤ → Str → Response
  redirect_list : Str → Response
  detail_page edit_page : Fields → Response
  list_page : List Fields → Str → Option Str → Response
  bad_request not_found conflict : String → Response

abbrev pub k_u : Str
k_u = b'u' ∷ []

abbrev pub k_demo : Str
k_demo = b'd' ∷ b'e' ∷ b'm' ∷ b'o' ∷ []

abbrev pub k_tag : Str
k_tag = b't' ∷ b'a' ∷ b'g' ∷ []

abbrev pub k_tags : Str
k_tags = b't' ∷ b'a' ∷ b'g' ∷ b's' ∷ []

abbrev pub k_title : Str
k_title = b't' ∷ b'i' ∷ b't' ∷ b'l' ∷ b'e' ∷ []

abbrev pub k_body : Str
k_body = b'b' ∷ b'o' ∷ b'd' ∷ b'y' ∷ []

abbrev pub k_user_id : Str
k_user_id = b'u' ∷ b's' ∷ b'e' ∷ b'r' ∷ b'_' ∷ b'i' ∷ b'd' ∷ []

abbrev pub k_doc_id : Str
k_doc_id = b'd' ∷ b'o' ∷ b'c' ∷ b'_' ∷ b'i' ∷ b'd' ∷ []

abbrev pub k_created_at : Str
k_created_at = b'c' ∷ b'r' ∷ b'e' ∷ b'a' ∷ b't' ∷ b'e' ∷ b'd' ∷ b'_' ∷ b'a' ∷ b't' ∷ []

abbrev pub k_updated_at : Str
k_updated_at = b'u' ∷ b'p' ∷ b'd' ∷ b'a' ∷ b't' ∷ b'e' ∷ b'd' ∷ b'_' ∷ b'a' ∷ b't' ∷ []

-- `a or b`, where the empty string and None are as false.
abbrev pub or_else : Option Str → Option Str → Option Str
or_else (some (c ∷ cs)) other_value = some (c ∷ cs)
or_else _ other_value = other_value

abbrev pub get_default : Option Str → Str → Str
get_default none default = default
get_default (some s) default = s

-- `_user_id`
unfoldable pub user_id : Request → Str
user_id request =
    get_default (or_else (request.query k_u) (or_else (request.form k_u) (some k_demo))) k_demo

-- `doc.get(key)`
unfoldable pub dict_get : Fields → Str → Option Value
dict_get no_fields key = none
dict_get (field k v fs) key = if key_eq k (str_key key) then some v else dict_get fs key

-- A list of texts as a Python list.
abbrev pub str_items : List Str → Items
str_items [] = no_items
str_items (t ∷ tags) = item (str t) (str_items tags)

-- The stripped field of the form.
abbrev pub stripped : Request → Str → Str
stripped request key = strip (get_default (request.form key) [])

-- The document that `create_view` inserts; `_now_iso` is called twice.
unfoldable pub new_note : Request → Str → Str → Fields
new_note request now now' =
    (field (str_key k_user_id) (str (user_id request)) (
      field (str_key k_title) (str (stripped request k_title)) (
        field (str_key k_body) (str (stripped request k_body)) (
          field (str_key k_tags)
            (sequence list_class (str_items (parse_tags (get_default (request.form k_tags) []))))
            (field (str_key k_created_at) (str now)
              (field (str_key k_updated_at) (str now') no_fields))))))

-- What `update` of `edit_view` makes of the document that it read.
unfoldable pub edited : Request → Str → Fields → Fields
edited request now cur =
    let cur1 = dict_set cur (str_key k_title) (str (stripped request k_title)) in
    let cur2 = dict_set cur1 (str_key k_body) (str (stripped request k_body)) in
    let tags =
      sequence list_class (str_items (parse_tags (get_default (request.form k_tags) []))) in
    let cur3 = dict_set cur2 (str_key k_tags) tags in dict_set cur3 (str_key k_updated_at) (str now)

-- `note["doc_id"] = doc_id`
abbrev pub with_id : Fields → ℤ → Fields
with_id note doc_id = dict_set note (str_key k_doc_id) (int doc_id)

-- A page of the note that `get` found; its value is always a dict.
unfoldable pub show_note : (Fields → Response) → String → ℤ → Option Value → Result Response
show_note page missing doc_id none = ok (not_found missing)
show_note page missing doc_id (some (dict note)) = ok (page (with_id note doc_id))
show_note page missing doc_id (some v) = raised (Exn.type_error "item assignment")

-- `create_view`, with `insert` of the collection notes.
unfoldable pub create_view :
    {S : Type 0} → (Value → S → Result ℕ × S) → Str → Str → Request → S → Result Response × S
create_view insert now now' request s =
    let inserted =
      then_call (insert (dict (new_note request now now')) s).0
        (λ doc_id t. (ok (redirect_detail (pos doc_id) (user_id request)), t))
        (insert (dict (new_note request now now')) s).1 in
    if is_empty (stripped request k_title) then (ok (bad_request "title required"), s) else inserted

-- `detail_view`, and `edit_view` for a GET, with `get` of the collection notes.
unfoldable pub detail_view :
    {S : Type 0} → (ℤ → S → Result (Option Value) × S) → ℤ → S → Result Response × S
detail_view get doc_id s =
    then_call (get doc_id s).0 (λ note t. (show_note detail_page "note not found" doc_id note, t))
      (get doc_id s).1

unfoldable pub edit_form :
    {S : Type 0} → (ℤ → S → Result (Option Value) × S) → ℤ → S → Result Response × S
edit_form get doc_id s =
    then_call (get doc_id s).0 (λ note t. (show_note edit_page "note not found" doc_id note, t))
      (get doc_id s).1

-- `update` behind its read.
unfoldable pub store_edited :
    {S : Type 0}
    → (ℤ → Value → S → Result (Unit {0}) × S)
    → Str
    → Request
    → ℤ
    → Option Value
    → S
    → Result (Unit {0}) × S
store_edited put now request doc_id none s = (raised (Exn.lookup_error "vanished"), s)
store_edited put now request doc_id (some (dict cur)) s =
    put doc_id (dict (edited request now cur)) s
store_edited put now request doc_id (some v) s = (raised (Exn.type_error "item assignment"), s)

-- `update`: `get` and `put` are those of the transaction's collection notes.
unfoldable pub update :
    {S : Type 0}
    → (ℤ → S → Result (Option Value) × S)
    → (ℤ → Value → S → Result (Unit {0}) × S)
    → Str
    → Request
    → ℤ
    → S
    → Result (Unit {0}) × S
update get put now request doc_id s =
    then_call (get doc_id s).0 (store_edited put now request doc_id) (get doc_id s).1

-- `except LookupError` catches it.
abbrev pub is_lookup_error : Exn → Bool
is_lookup_error (Exn.lookup_error m) = true
is_lookup_error Exn.index_error = true
is_lookup_error _ = false

abbrev pub is_budget_class : PyxClass → Bool
is_budget_class retry_budget_exhausted = true
is_budget_class _ = false

-- `except pyx.RetryBudgetExhausted` catches it.
abbrev pub is_budget_error : Exn → Bool
is_budget_error (Exn.raised_pyx e) = is_budget_class e.cls
is_budget_error _ = false

-- What `edit_view` answers to a POST, by the end of its `run_optimistic`.
unfoldable pub edit_answer : Request → ℤ → Result (Unit {0}) → Result Response
edit_answer request doc_id (ok _) = ok (redirect_detail doc_id (user_id request))
edit_answer request doc_id (raised e) =
    if is_lookup_error e
    then ok (not_found "note vanished mid-edit")
    else if is_budget_error e
    then ok (conflict "too many concurrent edits; please refresh and retry")
    else raised e
edit_answer request doc_id out_of_fuel = out_of_fuel

-- `delete_view`, with `delete` of the collection notes.
unfoldable pub delete_view :
    {S : Type 0} → (ℤ → S → Result Bool × S) → Request → ℤ → S → Result Response × S
delete_view delete request doc_id s =
    then_call (delete doc_id s).0 (λ _ t. (ok (redirect_list (user_id request)), t))
      (delete doc_id s).1
