-- ===== src/Notes/Listing.antt =====
-- `list_view` of realworldexamples/django/notes/views.py.
pub mod Order
mod Tests
use Prim.Native.String.{String}
use pyx.Base.{
  ℕ, ◌^◌, Bool, true, false, ◌||◌, ◌&&◌, Option, none, some, List, [], ◌∷◌, ◌==◌, if◌then◌else◌,
  ltb,
}
use pyx.Base.Int.{ℤ, pos, negsuc}
use mathlib.Core.List.{map}
use pyx.Calls.{then_call}
use pyx.Result.{Result, Exn, ok, raised, out_of_fuel, ◌>>=◌}
use pyx.Doc.Utf8.{Str}
use pyx.Doc.Value.{
  Value, Items, Fields, str_key, null, bool, int, float, str, bytes, sequence, dict, other,
  no_items, item, no_fields, field, str_eq, key_eq,
}
use pyx.Notes.Tags.{strip}
use pyx.Notes.Views.{
  Request, Response, list_page, user_id, dict_get, with_id, get_default, k_tag, k_tags, k_user_id,
  k_updated_at,
}

-- `v == s`, for a text `s`.
abbrev pub is_str : Str → Value → Bool
is_str s (str t) = str_eq t s
is_str s _ = false

-- `doc.get("user_id") == user`
abbrev pub owned : Str → Fields → Bool
owned user doc = elim (dict_get doc k_user_id) [ none ↦ false | some v ↦ is_str user v ]

unfoldable pub in_items : Str → Items → Bool
in_items tag no_items = false
in_items tag (item v xs) = is_str tag v || in_items tag xs

abbrev pub starts_with : Str → Str → Bool
starts_with [] s = true
starts_with (c ∷ cs) [] = false
starts_with (c ∷ cs) (d ∷ ds) = c == d && starts_with cs ds

-- `tag in s`, for a text `s`.
unfoldable pub in_str : Str → Str → Bool
in_str tag [] = starts_with tag []
in_str tag (c ∷ cs) = starts_with tag (c ∷ cs) || in_str tag cs

unfoldable pub in_fields : Str → Fields → Bool
in_fields tag no_fields = false
in_fields tag (field k v fs) = key_eq k (str_key tag) || in_fields tag fs

abbrev no_container : Result Bool
no_container = raised (Exn.type_error "argument is not iterable")

-- `tag in (v or [])`: a value that is as false as None stands for the empty list.
unfoldable pub has_tag : Str → Value → Result Bool
has_tag tag null = ok false
has_tag tag (bool b) = if b then no_container else ok false
has_tag tag (int (pos n)) = if n == 0 then ok false else no_container
has_tag tag (int (negsuc n)) = no_container
has_tag tag (float f) = if f == 0 || f == 2 ^ 63 then ok false else no_container
has_tag tag (str []) = ok false
has_tag tag (str (c ∷ cs)) = ok (in_str tag (c ∷ cs))
has_tag tag (bytes c []) = ok false
has_tag tag (bytes c (b ∷ bs)) = no_container
has_tag tag (sequence c xs) = ok (in_items tag xs)
has_tag tag (dict fs) = ok (in_fields tag fs)
has_tag tag other = no_container

-- `tag in (doc.get("tags") or [])`, where a filter is given.
abbrev pub tagged : Option Str → Fields → Result Bool
tagged none doc = ok true
tagged (some tag) doc = elim (dict_get doc k_tags) [ none ↦ ok false | some v ↦ has_tag tag v ]

-- The two loops over the snapshot, without and with a filter; an entry is an id and a document.
unfoldable pub collect : Str → Option Str → List (ℕ × Value) → Result (List Fields)
collect user tag [] = ok []
collect user tag (entry ∷ entries) =
    let rest = collect user tag entries in
    elim entry.1 [
      | dict doc ↦
          if owned user doc
          then (tagged tag doc >>= λ b.
              (rest >>= λ notes. ok (if b then with_id doc (pos entry.0) ∷ notes else notes)))
          else rest
      | _ ↦ raised (Exn.type_error "no attribute get")
    ]

-- `a < b` on texts, by their code points.
unfoldable pub str_lt : Str → Str → Bool
str_lt s [] = false
str_lt [] (d ∷ ds) = true
str_lt (c ∷ cs) (d ∷ ds) = if c == d then str_lt cs ds else ltb c d

-- `d.get("updated_at", "")`. A value of another type, which the application never stores, is taken for a
-- text that no order is defined on, and raises.
unfoldable pub sort_key : Fields → Result Str
sort_key doc = elim (dict_get doc k_updated_at) [
  | none ↦ ok []
  | some v ↦ elim v [ str s ↦ ok s | _ ↦ raised (Exn.type_error "not supported between instances") ]
]

unfoldable pub with_keys : List Fields → Result (List (Str × Fields))
with_keys [] = ok []
with_keys (doc ∷ docs) =
    sort_key doc >>= λ key. (with_keys docs >>= λ keyed. ok ((key, doc) ∷ keyed))

-- `sort(key=..., reverse=True)`: a descending order, in which notes with one key stay in theirs.
unfoldable pub insert_note : Str × Fields → List (Str × Fields) → List (Str × Fields)
insert_note note [] = note ∷ []
insert_note note (first ∷ notes) =
    let later = insert_note note notes in
    if str_lt note.0 first.0 then first ∷ later else note ∷ first ∷ notes

unfoldable pub sort_notes : List (Str × Fields) → List (Str × Fields)
sort_notes [] = []
sort_notes (note ∷ notes) = insert_note note (sort_notes notes)

abbrev pub docs_of : List (Str × Fields) → List Fields
docs_of notes = map (λ (note : Str × Fields). note.1) notes

unfoldable pub listing : Str → Option Str → List (ℕ × Value) → Result (List Fields)
listing user tag entries = collect user tag entries >>= λ notes.
    (with_keys notes >>= λ keyed. ok (docs_of (sort_notes keyed)))

-- `request.GET.get("tag", "").strip() or None`
abbrev pub or_none : Str → Option Str
or_none [] = none
or_none (c ∷ cs) = some (c ∷ cs)

-- `list_view`: `open` is `Db.snapshot`, `scan` the iteration over its collection notes, and `close` the end of the
-- with block. The generator is run to its end before the loop's body.
unfoldable pub list_view :
    {S Snap : Type 0}
    → (S → Result Snap × S)
    → (Snap → S → Result (List (ℕ × Value)) × S)
    → (Snap → S → S)
    → Request
    → S
    → Result Response × S
list_view open_snapshot scan close request s =
    let tag = or_none (strip (get_default (request.query k_tag) [])) in
    then_call (open_snapshot s).0
      (λ snap t.
        let (r, t') = scan snap t in
        (
          (r >>= λ entries.
              (listing (user_id request) tag entries >>= λ notes.
              ok (list_page notes (user_id request) tag))),
          close snap t',
        ))
      (open_snapshot s).1
