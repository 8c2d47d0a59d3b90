-- ===== src/Loader/Search.antt =====
-- Which library `_load_library` of bindings/python/pyx/_ffi.py takes.
use Prim.Native.String.{String}
use pyx.Base.{
  ◌⊎◌, ◌≡◌, refl, ap, true, inl, inr, Bool-cases, Option, none, some, List, [], ◌∷◌, ◌++◌, All, ◌↔◌,
}
use pyx.Doc.Utf8.{Str}
use pyx.Loader.{
  System, Loading, loaded, os_error, library, candidate_paths, load_loop, load_library,
}

Loading-cases :
    {Lib : Type 0} (r : Loading Lib)
    → ((lib : Lib) × (r ≡ loaded lib)) ⊎ ((e : String) × (r ≡ os_error e))
Loading-cases (loaded lib) = inl (lib, refl)
Loading-cases (os_error e) = inr (e, refl)

module _ (system : System) where
  open system use {FilePath, Lib, exists, cdll}

  -- There is a file, and it is a library.
  abbrev pub Loads : FilePath → Lib → Type 0
  Loads p lib = (exists p ≡ true) × (cdll p ≡ loaded lib)

  abbrev pub Useless : FilePath → Type 0
  Useless p = (lib : Lib) → ¬ Loads p lib

  -- `lib` is the library of the first path that has one.
  pub record First (paths : List FilePath) (lib : Lib) : Type 0 where
    pub before : List FilePath
    pub at : FilePath
    pub after : List FilePath
    pub splits : paths ≡ before ++ (at ∷ after)
    pub useless : All Useless before
    pub loads : Loads at lib

  First-cons :
      (p : FilePath) (paths : List FilePath) (lib : Lib)
      → Useless p
      → First paths lib
      → First (p ∷ paths) lib
  First-cons p paths lib h f = record {
    before = p ∷ f.before;
    at = f.at;
    after = f.after;
    splits = ap (λ (l : List FilePath). p ∷ l) f.splits;
    useless = (h, f.useless);
    loads = f.loads;
  }

  load_loop-First :
      (paths : List FilePath) (e : Option String) (lib : Lib)
      → load_loop system paths e ≡ library lib
      → First paths lib
  unfolding load_loop
  load_loop-First [] e lib h = absurd (cc)
  load_loop-First (p ∷ paths) e lib h = elim (Bool-cases (exists p)) [
    | inr missing ↦
        First-cons p paths lib (λ l loads. absurd (let bad = loads.0 in cc))
          (load_loop-First paths e lib (rw missing at h))
    | inl there ↦ elim (Loading-cases (cdll p)) [
      | inl (l, opens) ↦
          let same : library l ≡ library lib = rw (there, opens) at h in
          record {
            before = [];
            at = p;
            after = paths;
            splits = refl;
            useless = tt;
            loads = (there, cc);
          }
      | inr (x, fails) ↦
          First-cons p paths lib (λ l loads. absurd (let bad = loads.1 in cc))
            (load_loop-First paths (some x) lib (rw (there, fails) at h))
    ]
  ]

  skip :
      (before : List FilePath) (at : FilePath) (after : List FilePath) (e : Option String)
      (lib : Lib)
      → All Useless before
      → Loads at lib
      → load_loop system (before ++ (at ∷ after)) e ≡ library lib
  unfolding load_loop
  skip [] at after e lib h loads = rw (loads.0, loads.1)
  skip (p ∷ before) at after e lib h loads = elim (Bool-cases (exists p)) [
    | inr missing ↦ rw missing (skip before at after e lib h.1 loads)
    | inl there ↦ elim (Loading-cases (cdll p)) [
      | inl (l, opens) ↦ absurd (h.0 l (there, opens))
      | inr (x, fails) ↦ rw (there, fails) (skip before at after (some x) lib h.1 loads)
    ]
  ]

  -- `_load_library` returns a library exactly if it is that of the first candidate that exists and can be
  -- loaded.
  pub load_library-First :
      (env : Option Str) (pkg_dir : FilePath) (lib : Lib)
      → load_library system env pkg_dir ≡ library lib
        ↔ First (candidate_paths system env pkg_dir) lib
  unfolding load_library
  load_library-First env pkg_dir lib = (
    load_loop-First (candidate_paths system env pkg_dir) none lib,
    (λ f. rw f.splits (skip f.before f.at f.after none lib f.useless f.loads)),
  )
