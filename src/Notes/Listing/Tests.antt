-- ===== src/Notes/Listing/Tests.antt =====
-- A page of `list_view` of realworldexamples/django/notes/views.py.
use pyx.Base.{ℕ, List, [], ◌∷◌}
use pyx.Base.Int.{pos}
use pyx.Doc.Utf8.{Str}
use pyx.Doc.Value.{Value, Fields, str, sequence, list_class, dict, no_fields, field, str_key}
use pyx.Notes.Views.{with_id, str_items, k_user_id, k_tags, k_updated_at}

abbrev ann : Str
ann = b'a' ∷ []

abbrev home : Str
home = b'h' ∷ []

abbrev note : Str → Str → Fields
note user stamp = field (str_key k_user_id) (str user) (
    field (str_key k_tags) (sequence list_class (str_items (home ∷ [])))
      (field (str_key k_updated_at) (str stamp) no_fields))

-- Ann's notes of the times 1 and 2, one of another user, and one of Ann's without tags.
abbrev entries : List (ℕ × Value)
entries =
    (1, dict (note ann (b'1' ∷ [])))
    ∷ (2, dict (note (b'b' ∷ []) (b'3' ∷ [])))
    ∷ (3, dict (note ann (b'2' ∷ [])))
    ∷ (4, dict (field (str_key k_user_id) (str ann) no_fields))
    ∷ []

abbrev page : List Fields
page = with_id (note ann (b'2' ∷ [])) (pos 3) ∷ with_id (note ann (b'1' ∷ [])) (pos 1) ∷ []
