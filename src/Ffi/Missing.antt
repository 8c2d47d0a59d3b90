-- ===== src/Ffi/Missing.antt =====
-- How the import of bindings/python/pyx/_ffi.py ends, by what the library exports.
use pyx.Base.{
  ◌≡◌, ◌↔◌, refl, ap, ◌∙◌, Bool, true, false, Bool-cases, inl, inr, List, [], ◌∷◌, ◌++◌, All,
}
use pyx.Ffi.{Symbol, Signature, name_of}
use pyx.Ffi.Signatures.{signatures}
use pyx.Ffi.Imports.{Import, imported, attribute_error, and_then, bind_all, import_ffi}
use pyx.Ffi.Exports.{Exported, Exported-name_of}

-- `name` is the first of the functions' names that the library lacks.
pub record FirstMissing (exports : Symbol → Bool) (fns : List Signature) (name : Symbol)
    : Type 0 where
  pub before : List Signature
  pub fn : Signature
  pub after : List Signature
  pub splits : fns ≡ before ++ (fn ∷ after)
  pub bound : All (Exported exports) before
  pub named : name_of fn ≡ name
  pub missing : exports name ≡ false

module _ (exports : Symbol → Bool) where
  and_then-imported :
      (fn : Signature) (r : Import) (fns : List Signature)
      → and_then fn r ≡ imported (fn ∷ fns)
      → r ≡ imported fns
  and_then-imported fn (imported gs) fns e = cc
  and_then-imported fn (attribute_error name) fns e = absurd (cc)

  and_then-error :
      (fn : Signature) (r : Import) (name : Symbol)
      → and_then fn r ≡ attribute_error name
      → r ≡ attribute_error name
  and_then-error fn (imported gs) name e = absurd (cc)
  and_then-error fn (attribute_error other) name e = e

  bind_all-imported :
      (fns : List Signature) → bind_all exports fns ≡ imported fns → All (Exported exports) fns
  unfolding bind_all
  bind_all-imported [] e = tt
  bind_all-imported (fn ∷ fns) e = elim (Bool-cases (exports (name_of fn))) [
    | inl there ↦ (
      there,
      bind_all-imported fns (and_then-imported fn (bind_all exports fns) fns (rw there at e)),
    )
    | inr gone ↦ absurd (let never = rw gone at e in cc)
  ]

  bind_all_complete :
      (fns : List Signature) → All (Exported exports) fns → bind_all exports fns ≡ imported fns
  unfolding bind_all
  bind_all_complete [] h = refl
  bind_all_complete (fn ∷ fns) h = rw (h.0, bind_all_complete fns h.1) refl

  bind_all-error :
      (fns : List Signature) (name : Symbol)
      → bind_all exports fns ≡ attribute_error name
      → FirstMissing exports fns name
  unfolding bind_all
  bind_all-error [] name e = absurd (cc)
  bind_all-error (fn ∷ fns) name e = elim (Bool-cases (exports (name_of fn))) [
    | inr gone ↦
        let same : name_of fn ≡ name = cc (rw gone at e) in
        record {
          before = [];
          fn = fn;
          after = fns;
          splits = refl;
          bound = tt;
          named = same;
          missing = rw same at gone;
        }
    | inl there ↦
        let f =
          bind_all-error fns name (and_then-error fn (bind_all exports fns) name (rw there at e)) in
        record {
          before = fn ∷ f.before;
          fn = f.fn;
          after = f.after;
          splits = ap (λ (l : List Signature). fn ∷ l) f.splits;
          bound = (there, f.bound);
          named = f.named;
          missing = f.missing;
        }
  ]

  bind_all-stops :
      (before : List Signature) (fn : Signature) (after : List Signature)
      → All (Exported exports) before
      → exports (name_of fn) ≡ false
      → bind_all exports (before ++ (fn ∷ after)) ≡ attribute_error (name_of fn)
  unfolding bind_all
  bind_all-stops [] fn after h gone = rw gone refl
  bind_all-stops (g ∷ before) fn after h gone =
      rw (h.0, bind_all-stops before fn after h.1 gone) refl

  All-Exported :
      (fns : List Signature) → ((name : Symbol) → exports name ≡ true) → All (Exported exports) fns
  All-Exported [] h = tt
  All-Exported (fn ∷ fns) h = (h (name_of fn), All-Exported fns h)

  -- The import of _ffi.py binds all its functions exactly if the library exports each of the names, and raises the
  -- AttributeError for a name exactly if that is the first of its calls of `_bind` whose name the library lacks.
  pub import_ffi-ends :
      ((import_ffi exports ≡ imported signatures) ↔ ((name : Symbol) → exports name ≡ true))
      × ((name : Symbol)
          → (import_ffi exports ≡ attribute_error name) ↔ FirstMissing exports signatures name)
  import_ffi-ends = (
    (
      (λ e. Exported-name_of exports (bind_all-imported signatures e)),
      λ h. bind_all_complete signatures (All-Exported signatures h),
    ),
    λ name. (
      bind_all-error signatures name,
      λ f. rw f.splits (
          bind_all-stops f.before f.fn f.after f.bound (rw (← f.named) at f.missing)
          ∙ ap attribute_error f.named),
    ),
  )
