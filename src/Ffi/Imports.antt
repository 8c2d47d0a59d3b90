-- ===== src/Ffi/Imports.antt =====
-- The import of bindings/python/pyx/_ffi.py: `_bind` looks each name up in the library, and a name that is not there ends
-- the import with an AttributeError.
use pyx.Base.{
  ◌≡◌, refl, sym, ◌∙◌, Bool, true, false, Bool-cases, inl, inr, Option, some, none, List, [], ◌∷◌,
  if◌then◌else◌,
}
use pyx.Ffi.{Symbol, Signature, name_of}
use pyx.Ffi.Signatures.{signatures}
use pyx.Ffi.Header.{prototype}

-- The functions of the module, or the name whose lookup raised the AttributeError.
pub data Import : Type 0 where
  imported : List Signature → Import
  attribute_error : Symbol → Import

abbrev pub and_then : Signature → Import → Import
and_then fn (imported fns) = imported (fn ∷ fns)
and_then fn (attribute_error name) = attribute_error name

-- `_bind`, over a library that is the names that it exports, and the module's calls of it.
unfoldable pub bind_all : (Symbol → Bool) → List Signature → Import
bind_all exports [] = imported []
bind_all exports (fn ∷ fns) =
    let rest = and_then fn (bind_all exports fns) in
    if exports (name_of fn) then rest else attribute_error (name_of fn)

abbrev pub import_ffi : (Symbol → Bool) → Import
import_ffi exports = bind_all exports signatures

-- Whether the header declares the name.
abbrev pub is_some {ℓ} : {A : Type ℓ} → Option A → Bool
is_some none = false
is_some (some x) = true

abbrev pub declared : Symbol → Bool
declared name = is_some (prototype name)

-- The first of the names that the library does not export, and how the import ends.
first_missing : (Symbol → Bool) → List Signature → Option Symbol
first_missing exports [] = none
first_missing exports (fn ∷ fns) =
    let rest = first_missing exports fns in if exports (name_of fn) then rest else some (name_of fn)

abbrev pub ending : Option Symbol → List Signature → Import
ending none fns = imported fns
ending (some name) fns = attribute_error name

and_then-ending :
    (fn : Signature) (missing : Option Symbol) (fns : List Signature)
    → and_then fn (ending missing fns) ≡ ending missing (fn ∷ fns)
and_then-ending fn none fns = refl
and_then-ending fn (some name) fns = refl

-- The import ends at the first name that is missing, and binds everything where none is.
bind_all-first_missing :
    (exports : Symbol → Bool) (fns : List Signature)
    → bind_all exports fns ≡ ending (first_missing exports fns) fns
unfolding bind_all first_missing
bind_all-first_missing exports [] = refl
bind_all-first_missing exports (fn ∷ fns) = elim (Bool-cases (exports (name_of fn))) [
  | inl there ↦
      rw (there, bind_all-first_missing exports fns)
        (and_then-ending fn (first_missing exports fns) fns)
  | inr gone ↦ rw gone refl
]

ending-imported :
    (missing : Option Symbol) (fns bound : List Signature)
    → ending missing fns ≡ imported bound
    → bound ≡ fns
ending-imported none fns bound e = cc
ending-imported (some name) fns bound e = absurd (cc)

-- An import that succeeds has bound everything.
pub import_ffi-imported :
    (exports : Symbol → Bool) (bound : List Signature)
    → import_ffi exports ≡ imported bound
    → bound ≡ signatures
import_ffi-imported exports bound e =
    ending-imported (first_missing exports signatures) signatures bound
      (sym (bind_all-first_missing exports signatures) ∙ e)
