-- ===== src/Notes/Tags/RoundTrip.antt =====
-- What `_parse_tags` of realworldexamples/django/notes/views.py returns, and the edit form's way back to it.
use pyx.Base.{ℕ, ◌≡◌, refl, ap, ◌∙◌, inl, inr, false, Bool-cases, List, [], ◌∷◌, ◌++◌, ◌==◌, All}
use pyx.Doc.Utf8.{Str}
use pyx.Notes.Tags.{
  is_space, lstrip, keep, rstrip, strip, comma, onto, split, is_empty, strip_parts, parse_tags,
  join_tags,
}

-- No space in front.
abbrev Starts : Str → Type 0
Starts [] = Unit
Starts (c ∷ cs) = is_space c ≡ false

abbrev NoComma : Str → Type 0
NoComma [] = Unit
NoComma (c ∷ cs) = ((c == comma) ≡ false) × NoComma cs

-- Not empty, without a comma, and without a space at either end.
abbrev pub IsTag : Str → Type 0
IsTag t = (is_empty t ≡ false) × NoComma t × (strip t ≡ t)

lstrip-Starts : (s : Str) → Starts (lstrip s)
unfolding lstrip
lstrip-Starts [] = tt
lstrip-Starts (c ∷ cs) = elim (Bool-cases (is_space c)) [
  | inl space ↦ rw space (lstrip-Starts cs)
  | inr other ↦ rw other other
]

lstrip_id : (s : Str) → Starts s → lstrip s ≡ s
unfolding lstrip
lstrip_id [] h = refl
lstrip_id (c ∷ cs) h = rw h

keep-Starts : (c : ℕ) (cs : Str) → is_space c ≡ false → Starts (keep c cs)
keep-Starts c [] h = rw h h
keep-Starts c (d ∷ ds) h = h

rstrip-Starts : (s : Str) → Starts s → Starts (rstrip s)
unfolding rstrip
rstrip-Starts [] h = tt
rstrip-Starts (c ∷ cs) h = keep-Starts c (rstrip cs) h

rstrip-keep : (c : ℕ) (cs : Str) → rstrip cs ≡ cs → rstrip (keep c cs) ≡ keep c cs
unfolding rstrip
rstrip-keep c [] h = elim (Bool-cases (is_space c)) [
  | inl space ↦ rw space refl
  | inr other ↦ rw other (rw other refl)
]
rstrip-keep c (d ∷ ds) h = rw h

rstrip-rstrip : (s : Str) → rstrip (rstrip s) ≡ rstrip s
unfolding rstrip
rstrip-rstrip [] = refl
rstrip-rstrip (c ∷ cs) = rstrip-keep c (rstrip cs) (rstrip-rstrip cs)

strip-strip : (s : Str) → strip (strip s) ≡ strip s
unfolding strip
strip-strip s =
    ap rstrip (lstrip_id (rstrip (lstrip s)) (rstrip-Starts (lstrip s) (lstrip-Starts s)))
    ∙ rstrip-rstrip (lstrip s)

lstrip-NoComma : (s : Str) → NoComma s → NoComma (lstrip s)
unfolding lstrip
lstrip-NoComma [] h = tt
lstrip-NoComma (c ∷ cs) h = elim (Bool-cases (is_space c)) [
  | inl space ↦ rw space (lstrip-NoComma cs h.1)
  | inr other ↦ rw other h
]

keep-NoComma : (c : ℕ) (cs : Str) → (c == comma) ≡ false → NoComma cs → NoComma (keep c cs)
keep-NoComma c [] h k = elim (Bool-cases (is_space c)) [
  | inl space ↦ rw space tt
  | inr other ↦ rw other (h, tt)
]
keep-NoComma c (d ∷ ds) h k = (h, k)

rstrip-NoComma : (s : Str) → NoComma s → NoComma (rstrip s)
unfolding rstrip
rstrip-NoComma [] h = tt
rstrip-NoComma (c ∷ cs) h = keep-NoComma c (rstrip cs) h.0 (rstrip-NoComma cs h.1)

strip-NoComma : (s : Str) → NoComma s → NoComma (strip s)
unfolding strip
strip-NoComma s h = rstrip-NoComma (lstrip s) (lstrip-NoComma s h)

onto-NoComma :
    (c : ℕ) (parts : List Str)
    → (c == comma) ≡ false
    → All NoComma parts
    → All NoComma (onto c parts)
onto-NoComma c [] h k = ((h, tt), tt)
onto-NoComma c (part ∷ parts) h k = ((h, k.0), k.1)

split-NoComma : (s : Str) → All NoComma (split s)
unfolding split
split-NoComma [] = (tt, tt)
split-NoComma (c ∷ cs) = elim (Bool-cases (c == comma)) [
  | inl here ↦ rw here (tt, split-NoComma cs)
  | inr other ↦ rw other (onto-NoComma c (split cs) other (split-NoComma cs))
]

strip_parts-IsTag : (parts : List Str) → All NoComma parts → All IsTag (strip_parts parts)
unfolding strip_parts
strip_parts-IsTag [] h = tt
strip_parts-IsTag (t ∷ parts) h = elim (Bool-cases (is_empty (strip t))) [
  | inl gone ↦ rw gone (strip_parts-IsTag parts h.1)
  | inr there ↦ rw there ((there, strip-NoComma t h.0, strip-strip t), strip_parts-IsTag parts h.1)
]

parse_tags-IsTag : (raw : Str) → All IsTag (parse_tags raw)
unfolding parse_tags
parse_tags-IsTag raw = strip_parts-IsTag (split raw) (split-NoComma raw)

-- A part without a comma, and what follows its comma.
split-comma : (t rest : Str) → NoComma t → split (t ++ (comma ∷ rest)) ≡ t ∷ split rest
unfolding split
split-comma [] rest h = refl
split-comma (c ∷ cs) rest h = rw (h.0, split-comma cs rest h.1) refl

split-end : (t : Str) → NoComma t → split t ≡ t ∷ []
unfolding split
split-end [] h = refl
split-end (c ∷ cs) h = rw (h.0, split-end cs h.1) refl

strip-space : (s : Str) → strip (32 ∷ s) ≡ strip s
unfolding strip lstrip
strip-space s = refl

-- The space that the form puts behind a comma is stripped again.
strip_parts-onto_space : (parts : List Str) → strip_parts (onto 32 parts) ≡ strip_parts parts
unfolding strip_parts strip lstrip rstrip
strip_parts-onto_space [] = refl
strip_parts-onto_space (t ∷ parts) = rw (strip-space t) refl

split-space : (s : Str) → strip_parts (split (32 ∷ s)) ≡ strip_parts (split s)
unfolding split
split-space s = strip_parts-onto_space (split s)

no_tags : strip_parts (split []) ≡ []
unfolding strip_parts split strip lstrip rstrip
no_tags = refl

strip_parts-join_tags :
    (tags : List Str) → All IsTag tags → strip_parts (split (join_tags tags)) ≡ tags
unfolding join_tags strip_parts
strip_parts-join_tags [] h = no_tags
strip_parts-join_tags (t ∷ []) h = rw (split-end t h.0.1, h.0.2, h.0.0)
strip_parts-join_tags (t ∷ u ∷ tags) h = rw (
  split-comma t (32 ∷ join_tags (u ∷ tags)) h.0.1,
  h.0.2,
  h.0.0,
  split-space (join_tags (u ∷ tags)),
  strip_parts-join_tags (u ∷ tags) h.1,
)

-- Every tag that `_parse_tags` returns is stripped, without a comma and not empty, and the tags that the edit
-- form shows, joined by a comma and a space, are parsed as the same tags.
pub parse_tags-join_tags :
    (raw : Str)
    → All IsTag (parse_tags raw) × (parse_tags (join_tags (parse_tags raw)) ≡ parse_tags raw)
unfolding parse_tags
parse_tags-join_tags raw =
    (parse_tags-IsTag raw, strip_parts-join_tags (parse_tags raw) (parse_tags-IsTag raw))
