-- ===== src/Notes/Views/Lookup.antt =====
-- What `doc.get` of realworldexamples/django/notes/views.py finds in a dict in which a key has been set.
use pyx.Base.{
  ◌≡◌, ◌≢◌, refl, sym, true, false, Bool-cases, inl, inr, some, if◌then◌else◌, [], arith,
}
use pyx.Doc.Utf8.{Str}
use pyx.Doc.Value.{
  Value, Fields, no_fields, field, str_key, other_key, dict_set, str_eq, str, sequence, list_class,
}
use pyx.Doc.Value.Dict.{str_eq→eq, str_eq_refl}
use pyx.Notes.Tags.{strip, parse_tags}
use pyx.Notes.Views.{Request, dict_get, get_default, str_items, k_tags}

-- The stripped text of a field of the form, and its tags, as a document holds them.
abbrev pub text_of : Request → Str → Value
text_of request key = str (strip (get_default (request.form key) []))

abbrev pub tags_of : Request → Value
tags_of request =
    sequence list_class (str_items (parse_tags (get_default (request.form k_tags) [])))

pub str_eq-ne : (s t : Str) → t ≢ s → str_eq s t ≡ false
str_eq-ne s t apart = elim (Bool-cases (str_eq s t)) [
  | inl same ↦ absurd (apart (sym (str_eq→eq s t same)))
  | inr differ ↦ differ
]

-- Two keys that are equal to a third.
str_eq-both : (i k j : Str) → str_eq i j ≡ true → str_eq k j ≡ true → str_eq i k ≡ true
str_eq-both i k j e e' = rw (str_eq→eq i j e, str_eq→eq k j e') (str_eq_refl j)

pub dict_get-dict_set :
    (fs : Fields) (k j : Str) (v : Value)
    → dict_get (dict_set fs (str_key k) v) j ≡ (if str_eq k j then some v else dict_get fs j)
unfolding dict_get dict_set
dict_get-dict_set no_fields k j v = refl
dict_get-dict_set (field (str_key i) w fs) k j v = elim (Bool-cases (str_eq i k)) [
  | inl same ↦ rw (same, str_eq→eq i k same, dict_get, dict_set) (ground arith)
  | inr differ ↦
      rw (differ, dict_get, dict_set)
        (ground (arith, dict_get-dict_set fs k j v, str_eq-both i k j))
]
dict_get-dict_set (field other_key w fs) k j v = dict_get-dict_set fs k j v
