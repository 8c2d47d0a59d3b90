-- ===== src/Loader/Tests.antt =====
-- A file system for `_load_library` of bindings/python/pyx/_ffi.py.
use pyx.Base.{ℕ, suc, ◌==◌, ◌||◌, ◌≡◌, ◌↔◌, refl, some, Bool, true, false, [], ◌∷◌}
use pyx.Loader.{
  System, Loading, loaded, os_error, library, candidate_paths, load_loop, load_library,
}
use pyx.Loader.Search.{First, load_library-First}

-- A path is a number: the package is 0, each step below it adds one, the path of the variable is 7.
abbrev opens : Bool → Loading ℕ
opens true = os_error "wrong architecture"
opens false = loaded 42

abbrev disk : System
disk = record {
  FilePath = ℕ;
  Lib = ℕ;
  path = λ s. 7;
  parent = λ p. p;
  child = λ p name. suc p;
  exists = λ p. p == 7 || p == 3;
  cdll = λ p. opens (p == 7);
}

-- The library of the variable is there, but broken; the one of the checkout is taken.
load_disk : load_library disk (some (b'x' ∷ [])) 0 ≡ library 42
unfolding load_library candidate_paths load_loop
load_disk = refl

load_library-First_example :
    load_library disk (some (b'x' ∷ [])) 0 ≡ library 42
    ↔ First disk (candidate_paths disk (some (b'x' ∷ [])) 0) 42
load_library-First_example = load_library-First disk (some (b'x' ∷ [])) 0 42
