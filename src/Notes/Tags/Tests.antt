-- ===== src/Notes/Tags/Tests.antt =====
-- A tag field of the notes application in realworldexamples/django/notes/views.py.
use pyx.Base.{◌≡◌, refl, [], ◌∷◌, All}
use pyx.Doc.Utf8.{Str}
use pyx.Notes.Tags.{parse_tags, join_tags, split, strip_parts, strip, lstrip, rstrip}
use pyx.Notes.Tags.RoundTrip.{IsTag, parse_tags-join_tags}

-- " ab ,,c"
abbrev raw : Str
raw = b' ' ∷ b'a' ∷ b'b' ∷ b' ' ∷ 44 ∷ 44 ∷ b'c' ∷ []

two_tags : parse_tags raw ≡ (b'a' ∷ b'b' ∷ []) ∷ (b'c' ∷ []) ∷ []
unfolding parse_tags split strip_parts strip lstrip rstrip
two_tags = refl

parse_tags-join_tags_example :
    All IsTag (parse_tags raw) × (parse_tags (join_tags (parse_tags raw)) ≡ parse_tags raw)
parse_tags-join_tags_example = parse_tags-join_tags raw
