-- ===== src/Loader.antt =====
-- How bindings/python/pyx/_ffi.py finds libpyx: `_candidate_paths` and `_load_library`. Paths, the file system and
-- the dynamic loader are parameters.
pub mod Search
mod Tests
use Prim.Native.String.{String}
use pyx.Base.{Bool, Option, none, some, if◌then◌else◌, List, [], ◌∷◌, ◌++◌}
use pyx.Doc.Utf8.{Str}

-- What `ctypes.CDLL` does with a path.
pub data Loading (Lib : Type 0) : Type 0 where
  loaded : Lib → Loading Lib
  os_error : String → Loading Lib

pub record System : Type 1 where
  pub FilePath : Type 0
  pub Lib : Type 0
  pub path : Str → FilePath
  pub parent : FilePath → FilePath
  pub child : FilePath → String → FilePath
  pub exists : FilePath → Bool
  pub cdll : FilePath → Loading Lib

-- The library, or the RuntimeError with the last error that its message ends in, if there was one.
pub data Outcome (Lib : Type 0) : Type 0 where
  library : Lib → Outcome Lib
  no_library : Option String → Outcome Lib

module _ (system : System) where
  open system use {FilePath, Lib, path, parent, child, exists, cdll}

  -- The three names of the library in a directory.
  abbrev in_directory : FilePath → List FilePath
  in_directory dir = child dir "libpyx.dylib" ∷ child dir "libpyx.so" ∷ child dir "pyx.dll" ∷ []

  -- `os.environ.get("PYX_LIBRARY")`, where the empty string is as good as none.
  abbrev from_env : Option Str → List FilePath
  from_env (some (c ∷ cs)) = path (c ∷ cs) ∷ []
  from_env _ = []

  unfoldable pub candidate_paths : Option Str → FilePath → List FilePath
  candidate_paths env pkg_dir =
      from_env env
      ++ (in_directory pkg_dir
          ++ in_directory (child (child (parent (parent (parent pkg_dir))) "zig-out") "lib"))

  -- `for p in _candidate_paths()`
  unfoldable pub load_loop : List FilePath → Option String → Outcome Lib
  load_loop [] last_err = no_library last_err
  load_loop (p ∷ paths) last_err =
      let rest = load_loop paths last_err in
      let tried : Outcome Lib = elim (cdll p) [
        | loaded lib ↦ library lib
        | os_error e ↦ load_loop paths (some e)
      ] in
      if exists p then tried else rest

  unfoldable pub load_library : Option Str → FilePath → Outcome Lib
  unfolding candidate_paths
  load_library env pkg_dir = load_loop (candidate_paths env pkg_dir) none
