-- ===== src/Notes/Listing/Order.antt =====
-- What `list_view` of realworldexamples/django/notes/views.py shows: the user's notes that the filter keeps, the
-- one with the latest text of updated_at first.
use mathlib.Core.List.{Perm}
use mathlib.Core.List.Perm
use pyx.Base.{ℕ, ◌≡◌, Bool, false, ◌&&◌, Option, List, [], ◌∷◌, if◌then◌else◌, All}
use pyx.Base.Int.{pos}
use pyx.Result.{Result, ok}
use pyx.Doc.Utf8.{Str}
use pyx.Doc.Value.{Value, Fields, dict}
use pyx.Notes.Views.{with_id}
use pyx.Notes.Listing.{owned, tagged, str_lt, sort_key}

abbrev is_kept : Result Bool → Bool
is_kept (ok b) = b
is_kept _ = false

-- The note is the user's, and has the tag, where one is given.
abbrev pub wanted : Str → Option Str → Fields → Bool
wanted user tag doc = owned user doc && is_kept (tagged tag doc)

-- The notes to be shown, in the snapshot's order and with their ids.
pub selected : Str → Option Str → List (ℕ × Value) → List Fields
selected user tag [] = []
selected user tag (entry ∷ entries) =
    let rest = selected user tag entries in
    elim entry.1 [
      | dict doc ↦ if wanted user tag doc then with_id doc (pos entry.0) ∷ rest else rest
      | _ ↦ rest
    ]

-- `b` may stand after `a`: its key is not the later one.
abbrev NotLater : Fields → Fields → Type 0
NotLater a b =
    (ka : Str) × (kb : Str) × (sort_key a ≡ ok ka) × (sort_key b ≡ ok kb) × (str_lt ka kb ≡ false)

abbrev pub LatestFirst : List Fields → Type 0
LatestFirst [] = Unit
LatestFirst (doc ∷ docs) = All (NotLater doc) docs × LatestFirst docs

-- The key before it is not the earlier one.
abbrev NotBefore : Str → Str × Fields → Type 0
NotBefore key note = str_lt key note.0 ≡ false

abbrev Descending : List (Str × Fields) → Type 0
Descending [] = Unit
Descending (x ∷ xs) = All (NotBefore x.0) xs × Descending xs

abbrev HasKey : Str × Fields → Type 0
HasKey note = sort_key note.1 ≡ ok note.0
