-- ===== src/Notes/Tags.antt =====
-- `_parse_tags` of realworldexamples/django/notes/views.py, with the `str.strip` and `str.split` that it calls.
pub mod RoundTrip
mod Tests
use pyx.Base.{ℕ, Bool, true, false, ◌||◌, ◌&&◌, List, [], ◌∷◌, ◌++◌, ◌==◌, leb, if◌then◌else◌}
use pyx.Doc.Utf8.{Str}

-- The characters that `str.strip` strips.
abbrev pub is_space : ℕ → Bool
is_space c =
    (leb 9 c && leb c 13)
    || (leb 28 c && leb c 32)
    || c == 0x85
    || c == 0xa0
    || c == 0x1680
    || (leb 0x2000 c && leb c 0x200a)
    || c == 0x2028
    || c == 0x2029
    || c == 0x202f
    || c == 0x205f
    || c == 0x3000

unfoldable pub lstrip : Str → Str
lstrip [] = []
lstrip (c ∷ cs) = let rest = lstrip cs in if is_space c then rest else c ∷ cs

-- A character in front of what was stripped: a space at the end goes as well.
abbrev pub keep : ℕ → Str → Str
keep c [] = if is_space c then [] else c ∷ []
keep c (d ∷ ds) = c ∷ d ∷ ds

unfoldable pub rstrip : Str → Str
rstrip [] = []
rstrip (c ∷ cs) = keep c (rstrip cs)

unfoldable pub strip : Str → Str
strip s = rstrip (lstrip s)

abbrev pub comma : ℕ
comma = 44

-- A character in front of the first part.
abbrev pub onto : ℕ → List Str → List Str
onto c [] = (c ∷ []) ∷ []
onto c (part ∷ parts) = (c ∷ part) ∷ parts

-- `raw.split(",")`
unfoldable pub split : Str → List Str
split [] = [] ∷ []
split (c ∷ cs) = if c == comma then [] ∷ split cs else onto c (split cs)

abbrev pub is_empty : Str → Bool
is_empty [] = true
is_empty (c ∷ cs) = false

-- `[t.strip() for t in parts if t.strip()]`
unfoldable pub strip_parts : List Str → List Str
strip_parts [] = []
strip_parts (t ∷ parts) =
    let rest = strip_parts parts in if is_empty (strip t) then rest else strip t ∷ rest

unfoldable pub parse_tags : Str → List Str
parse_tags raw = strip_parts (split raw)

-- `{{ note.tags|join:', ' }}` of realworldexamples/django/notes/templates/notes/edit.html
unfoldable pub join_tags : List Str → Str
join_tags [] = []
join_tags (t ∷ []) = t
join_tags (t ∷ u ∷ tags) = t ++ (comma ∷ 32 ∷ join_tags (u ∷ tags))
