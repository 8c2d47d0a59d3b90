-- ===== src/Build/Tests.antt =====
-- A checkout for the build hook of bindings/python/setup.py, in which zig has not been run yet.
use pyx.Base.{
  ℕ, suc, ◌≡◌, refl, Bool, true, false, Option, none, some, [], ◌∷◌, ◌==◌, if◌then◌else◌, arith,
}
use Prim.Native.String.{String}
use pyx.Result.{Result, Exn, ok, raised}
use pyx.Doc.Value.{str_eq}
use pyx.Build.{
  System, Environ, lib_name, is_prefix, walk_up, built_libs, candidate_prebuilt, first_existing,
  root_of, find_repo_root, build_in, build_at, ensure_lib, ensure_native_lib, stage, run,
}
use pyx.Build.Platform.{IsLibOf}
use pyx.Build.Choice.{Chosen}
use pyx.Build.Bundle.{FileLaws, Bundled, run-Bundled}

-- The times of the files that are there. A path is a number: a child has the next one.
abbrev Files : Type 0
Files = ℕ → Option ℕ

abbrev is_file : Option ℕ → Bool
is_file none = false
is_file (some t) = true

abbrev time : Option ℕ → ℕ
time none = 0
time (some t) = t

abbrev set_file : ℕ → ℕ → Files → Files
set_file p t s q = if q == p then some t else s q

abbrev copy_at : Option ℕ → ℕ → Files → Result (Unit {0}) × Files
copy_at none dst s = (raised Exn.index_error, s)
copy_at (some t) dst s = (ok tt, set_file dst t s)

-- zig writes the library of the directory.
abbrev disk : System
disk = record {
  FilePath = ℕ;
  State = Files;
  path = λ s. 40;
  parent = λ p. p;
  child = λ p name. suc p;
  name = λ p. "libpyx.so";
  exists = λ p s. is_file (s p);
  mtime = λ p s. time (s p);
  copy2 = λ src dst s. copy_at (s src) dst s;
  check_call = λ root s. (ok tt, set_file (suc (suc (suc root))) 9 s);
  super_run = λ s. (ok tt, s);
}

set_file-same : (dst src t : ℕ) (s : Files) → s src ≡ some t → set_file dst t s src ≡ some t
set_file-same dst src t s e = ground (arith, e)

set_file-here : (dst t : ℕ) (s : Files) → set_file dst t s dst ≡ some t
set_file-here dst t s = ground arith

copy_done :
    (src dst : ℕ) (s : Files) (x : Option ℕ)
    → s src ≡ x
    → (copy_at x dst s).0 ≡ ok tt
    → (is_file ((copy_at x dst s).1 dst) ≡ true)
      × (time ((copy_at x dst s).1 dst) ≡ time ((copy_at x dst s).1 src))
copy_done src dst s none e h = absurd (cc)
copy_done src dst s (some t) e h =
    rw (set_file-here dst t s, set_file-same dst src t s e) (refl, refl)

disk-FileLaws : FileLaws disk
disk-FileLaws = record {
  copy2_done = λ src dst s h. copy_done src dst s (s src) refl h;
  super_exists = λ p s. refl;
  super_mtime = λ p s. refl;
}

-- The directory 0 has a build.zig.
abbrev checkout : Files
checkout p = if p == 1 then some 5 else none

abbrev linux_with_zig : Environ
linux_with_zig = record {
  platform = b'l' ∷ b'i' ∷ b'n' ∷ b'u' ∷ b'x' ∷ [];
  prebuilt = none;
  skip_native_build = some [];
  has_zig = true;
}

run-checkout : (run disk linux_with_zig 0 checkout).0 ≡ ok tt
unfolding run ensure_native_lib lib_name str_eq is_prefix ensure_lib first_existing
    candidate_prebuilt built_libs walk_up find_repo_root root_of build_at build_in stage
run-checkout = refl

run-Bundled_example :
    (lib : String) × (src : ℕ) × (t : Files) × IsLibOf linux_with_zig.platform lib
    × Chosen disk linux_with_zig 0 lib checkout src t
    × ((run disk linux_with_zig 0 checkout).1 ≡ (stage disk 1 src t).1)
    × Bundled disk src 2 (run disk linux_with_zig 0 checkout).1
run-Bundled_example = run-Bundled disk disk-FileLaws linux_with_zig 0 checkout run-checkout
