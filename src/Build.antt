-- ===== src/Build.antt =====
-- The build hook bindings/python/setup.py: which libpyx is put into the package before it is built. Paths, the file
-- system and zig are parameters; a message of an error is kept without the names that are put into it.
pub mod Platform
pub mod Choice
pub mod Bundle
mod Tests
use Prim.Native.String.{String}
use pyx.Base.{
  ℕ, zero, suc, Bool, true, false, ◌&&◌, ◌||◌, not, Option, none, some, if◌then◌else◌, List, [],
  ◌∷◌, ◌++◌, ◌==◌, ltb,
}
use pyx.Doc.Utf8.{Str}
use pyx.Doc.Value.{str_eq}
use pyx.Result.{Result, Exn, ok, raised, out_of_fuel, ◌>>=◌}
use pyx.Calls.{then_call}

-- `name` is a path's last part. `check_call` runs zig in a directory, and `super_run` is setuptools' `build_py.run`.
pub record System : Type 1 where
  pub FilePath : Type 0
  pub State : Type 0
  pub path : Str → FilePath
  pub parent : FilePath → FilePath
  pub child : FilePath → String → FilePath
  pub name : FilePath → String
  pub exists : FilePath → State → Bool
  pub mtime : FilePath → State → ℕ
  pub copy2 : FilePath → FilePath → State → Result (Unit {0}) × State
  pub check_call : FilePath → State → Result (Unit {0}) × State
  pub super_run : State → Result (Unit {0}) × State

-- `sys.platform`, the two variables of the environment, and whether `shutil.which` finds zig.
pub record Environ : Type 0 where
  pub platform : Str
  pub prebuilt : Option Str
  pub skip_native_build : Option Str
  pub has_zig : Bool

-- `sys.platform.startswith(prefix)`
unfoldable pub is_prefix : Str → Str → Bool
is_prefix [] s = true
is_prefix (c ∷ cs) [] = false
is_prefix (c ∷ cs) (d ∷ ds) = c == d && is_prefix cs ds

abbrev pub darwin : Str
darwin = b'd' ∷ b'a' ∷ b'r' ∷ b'w' ∷ b'i' ∷ b'n' ∷ []

abbrev pub linux : Str
linux = b'l' ∷ b'i' ∷ b'n' ∷ b'u' ∷ b'x' ∷ []

abbrev pub freebsd : Str
freebsd = b'f' ∷ b'r' ∷ b'e' ∷ b'e' ∷ b'b' ∷ b's' ∷ b'd' ∷ []

abbrev pub win32 : Str
win32 = b'w' ∷ b'i' ∷ b'n' ∷ b'3' ∷ b'2' ∷ []

unfoldable pub lib_name : Str → Result String
lib_name platform =
    if str_eq platform darwin
    then ok "libpyx.dylib"
    else if is_prefix linux platform || is_prefix freebsd platform
    then ok "libpyx.so"
    else if str_eq platform win32
    then ok "pyx.dll"
    else raised (Exn.runtime_error "unsupported platform for pyx")

-- A variable that is set, and not to the empty string.
abbrev pub is_set : Option Str → Bool
is_set (some (c ∷ cs)) = true
is_set _ = false

module _ (system : System) where
  open system use {
    FilePath, State, path, parent, child, name, exists, mtime, copy2, check_call, super_run,
  }

  -- The directories that both loops `for _ in range(6)` go through.
  unfoldable pub walk_up : ℕ → FilePath → List FilePath
  walk_up zero cur = []
  walk_up (suc left) cur = cur ∷ walk_up left (parent cur)

  abbrev pub from_prebuilt : Option Str → List FilePath
  from_prebuilt (some (c ∷ cs)) = path (c ∷ cs) ∷ []
  from_prebuilt _ = []

  abbrev pub built_lib : String → FilePath → FilePath
  built_lib lib dir = child (child (child dir "zig-out") "lib") lib

  unfoldable pub built_libs : String → List FilePath → List FilePath
  built_libs lib [] = []
  built_libs lib (dir ∷ dirs) = built_lib lib dir ∷ built_libs lib dirs

  -- `_candidate_prebuilt`, where the platform is supported; `lib` is its library's name.
  unfoldable pub candidate_prebuilt : Environ → FilePath → String → List FilePath
  candidate_prebuilt env here lib = from_prebuilt env.prebuilt ++ built_libs lib (walk_up 6 here)

  -- The first path of a loop that exists.
  unfoldable pub first_existing : List FilePath → State → Option FilePath
  first_existing [] s = none
  first_existing (p ∷ paths) s =
      let later = first_existing paths s in if exists p s then some p else later

  -- The first directory with a build.zig.
  unfoldable pub root_of : List FilePath → State → Option FilePath
  root_of [] s = none
  root_of (dir ∷ dirs) s =
      let later = root_of dirs s in if exists (child dir "build.zig") s then some dir else later

  unfoldable pub find_repo_root : FilePath → State → Option FilePath
  find_repo_root here s = root_of (walk_up 6 here) s

  abbrev pub not_located : Result FilePath
  not_located = raised (Exn.runtime_error "Could not locate the library")

  -- zig's run in the repository, where one was found.
  unfoldable pub build_in : String → FilePath → State → Result FilePath × State
  build_in lib root s =
      let (r, s') = check_call root s in
      then_call r
        (λ _ t. (
          if exists (built_lib lib root) t
              then ok (built_lib lib root)
              else raised (Exn.runtime_error "zig build succeeded but the library is missing"),
          t,
        ))
        s'

  unfoldable pub build_at : Environ → String → Option FilePath → State → Result FilePath × State
  build_at env lib none s = (not_located, s)
  build_at env lib (some root) s =
      let built = build_in lib root s in if env.has_zig then built else (not_located, s)

  -- `_ensure_native_lib` behind its first line.
  unfoldable pub ensure_lib : Environ → FilePath → String → State → Result FilePath × State
  ensure_lib env here lib s = elim (first_existing (candidate_prebuilt env here lib) s) [
    | some p ↦ (ok p, s)
    | none ↦
        if is_set env.skip_native_build
        then (
          raised (Exn.runtime_error "PYX_SKIP_NATIVE_BUILD is set but no prebuilt library found"),
          s,
        )
        else build_at env lib (find_repo_root here s) s
  ]

  unfoldable pub ensure_native_lib : Environ → FilePath → State → Result FilePath × State
  ensure_native_lib env here s = then_call (lib_name env.platform) (ensure_lib env here) s

  -- `BuildPy.run` up to `super().run()`; it is given the library.
  unfoldable pub stage : FilePath → FilePath → State → Result (Unit {0}) × State
  stage pkg_dir src s =
      let dst = child pkg_dir (name src) in
      if not (exists dst s) || ltb (mtime dst s) (mtime src s) then copy2 src dst s else (ok tt, s)

  unfoldable pub run : Environ → FilePath → State → Result (Unit {0}) × State
  run env here s =
      let (r, s') = ensure_native_lib env here s in
      then_call r
        (λ src t.
          let (r', t') = stage (child here "pyx") src t in then_call r' (λ _ u. super_run u) t')
        s'
