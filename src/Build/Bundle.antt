-- ===== src/Build/Bundle.antt =====
-- What the build hook of bindings/python/setup.py leaves in the package.
use Prim.Native.String.{String}
use pyx.Base.{◌≤◌, ◌≡◌, inl, inr, refl, ◌∙◌, true, Bool-cases, not, ◌||◌, ltb, arith}
use pyx.Result.{ok}
use pyx.Calls.{then_call-eq-ok}
use pyx.Build.{System, Environ, lib_name, ensure_lib, ensure_native_lib, stage, run}
use pyx.Build.Platform.{IsLibOf, lib_name-IsLibOf}
use pyx.Build.Choice.{Chosen, ensure_lib-Chosen}

module _ (system : System) where
  open system use {FilePath, State, child, name, exists, mtime, copy2, super_run}

  -- A copy that returns gives the file its source's time; setuptools leaves the sources alone.
  pub record FileLaws : Type 0 where
    pub copy2_done :
        (src dst : FilePath) (s : State)
        → (copy2 src dst s).0 ≡ ok tt
        → (exists dst (copy2 src dst s).1 ≡ true)
          × (mtime dst (copy2 src dst s).1 ≡ mtime src (copy2 src dst s).1)
    pub super_exists : (p : FilePath) (s : State) → exists p (super_run s).1 ≡ exists p s
    pub super_mtime : (p : FilePath) (s : State) → mtime p (super_run s).1 ≡ mtime p s

  -- The file is there and is not older than the library.
  abbrev pub Bundled : FilePath → FilePath → State → Type 0
  Bundled src dst s = (exists dst s ≡ true) × (mtime src s ≤ mtime dst s)

  module _ (law : FileLaws) where
    stage-Bundled :
        (pkg_dir src : FilePath) (s : State)
        → (stage system pkg_dir src s).0 ≡ ok tt
        → Bundled src (child pkg_dir (name src)) (stage system pkg_dir src s).1
    unfolding stage
    stage-Bundled pkg_dir src s e =
        let dst = child pkg_dir (name src) in
        elim (Bool-cases (not (exists dst s) || ltb (mtime dst s) (mtime src s))) [
          | inl old ↦
              let (there, same) = law.copy2_done src dst s (rw (old, stage) at e) in
              rw (old, stage) (there, omega arith)
          | inr fresh ↦ rw (fresh, stage) (ground arith, ground arith)
        ]

    super-Bundled :
        (src dst : FilePath) (s : State) → Bundled src dst s → Bundled src dst (super_run s).1
    super-Bundled src dst s (there, newer) =
        (law.super_exists dst s ∙ there, rw (law.super_mtime src s, law.super_mtime dst s) newer)

    -- Where a copy that returns gives the file its source's time and setuptools leaves the sources alone: if the
    -- hook returns, the platform is one of those that have a library, named so; the library that was chosen is the
    -- first path that exists among that of PYX_PREBUILT_LIB and zig-out/lib of the package's directory and the five
    -- above it, and nothing was run, or none of them exists, building is not forbidden, and zig was run, without an
    -- error, in the first of these directories with a build.zig, and has left the library that was chosen in that
    -- one's zig-out/lib; and in the end the package has a file of its name that is not older.
    pub run-Bundled :
        (env : Environ) (here : FilePath) (s : State)
        → (run system env here s).0 ≡ ok tt
        → (lib : String) × (src : FilePath) × (t : State) × IsLibOf env.platform lib
          × Chosen system env here lib s src t
          × ((run system env here s).1 ≡ (super_run (stage system (child here "pyx") src t).1).1)
          × Bundled src (child (child here "pyx") (name src)) (run system env here s).1
    unfolding run ensure_native_lib
    run-Bundled env here s e =
        let (src, chosen, e') =
          then_call-eq-ok (ensure_native_lib system env here s).0 _
            (ensure_native_lib system env here s).1 e in
        let t : State = (ensure_native_lib system env here s).1 in
        let staging = stage system (child here "pyx") src t in
        let (_, staged, ran) = then_call-eq-ok staging.0 (λ _ u. super_run u) staging.1 e' in
        let (lib, named, picked) =
          then_call-eq-ok (lib_name env.platform) (ensure_lib system env here) s chosen in
        (
          lib,
          src,
          t,
          lib_name-IsLibOf env.platform lib named,
          rw named (ensure_lib-Chosen system env here lib s src picked),
          rw (chosen, staged, run) refl,
          rw (chosen, staged, run)
              (super-Bundled src (child (child here "pyx") (name src)) staging.1
                (stage-Bundled (child here "pyx") src t staged)),
        )
