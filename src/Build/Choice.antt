-- ===== src/Build/Choice.antt =====
-- Which library `_ensure_native_lib` of bindings/python/setup.py returns.
use Prim.Native.String.{String}
use pyx.Base.{
  ◌≡◌, ◌⊎◌, inl, inr, refl, sym, ap, subst, Bool, true, false, Bool-cases, Option, none, some,
  Option-cases, List, [], ◌∷◌, ◌++◌, map, All,
}
use pyx.Result.{ok, ok-injective}
use pyx.Calls.{then_call-eq-ok}
use pyx.Build.{
  System, Environ, is_set, walk_up, from_prebuilt, built_libs, candidate_prebuilt, first_existing,
  root_of, find_repo_root, build_in, build_at, ensure_lib,
}

module _ (system : System) where
  open system use {FilePath, State, parent, child, exists, check_call}

  -- A directory and the five above it.
  abbrev pub six_up : FilePath → List FilePath
  six_up d =
      d
      ∷ parent d
      ∷ parent (parent d)
      ∷ parent (parent (parent d))
      ∷ parent (parent (parent (parent d)))
      ∷ parent (parent (parent (parent (parent d))))
      ∷ []

  abbrev pub zig_out : String → FilePath → FilePath
  zig_out lib dir = child (child (child dir "zig-out") "lib") lib

  -- The path of PYX_PREBUILT_LIB, if that is set and not empty, and what zig would have built.
  abbrev pub listed : Environ → FilePath → String → List FilePath
  listed env here lib = from_prebuilt system env.prebuilt ++ map (zig_out lib) (six_up here)

  abbrev pub Fails : (FilePath → Bool) → FilePath → Type 0
  Fails test p = test p ≡ false

  -- `p` is the first of the paths that the test holds of.
  pub record FirstOf (test : FilePath → Bool) (paths : List FilePath) (p : FilePath) : Type 0 where
    pub before : List FilePath
    pub after : List FilePath
    pub splits : paths ≡ before ++ (p ∷ after)
    pub missing : All (Fails test) before
    pub there : test p ≡ true

  -- zig was run in the first directory upwards with a build.zig, for there was no library to be found; it left the
  -- state `t`, in which `p` is there.
  pub record Built (env : Environ) (here : FilePath) (lib : String) (s : State) (p : FilePath)
      (t : State) : Type 0 where
    pub root : FilePath
    pub located : FirstOf (λ dir. exists (child dir "build.zig") s) (six_up here) root
    pub missing : All (Fails (λ q. exists q s)) (listed env here lib)
    pub allowed : is_set env.skip_native_build ≡ false
    pub zig : env.has_zig ≡ true
    pub ran : (check_call root s).0 ≡ ok tt
    pub left : (check_call root s).1 ≡ t
    pub made : p ≡ zig_out lib root
    pub there : exists p t ≡ true

  -- The library `p` that was found, nothing having been run, or built.
  abbrev pub Chosen : Environ → FilePath → String → State → FilePath → State → Type 0
  Chosen env here lib s p t =
      (FirstOf (λ q. exists q s) (listed env here lib) p × (t ≡ s)) ⊎ Built env here lib s p t

  candidate_prebuilt-listed :
      (env : Environ) (here : FilePath) (lib : String)
      → candidate_prebuilt system env here lib ≡ listed env here lib
  unfolding candidate_prebuilt built_libs walk_up
  candidate_prebuilt-listed env here lib = refl

  here-FirstOf :
      (test : FilePath → Bool) (q : FilePath) (paths : List FilePath) (p : FilePath)
      → test q ≡ true
      → q ≡ p
      → FirstOf test (q ∷ paths) p
  here-FirstOf test q paths p there same = record {
    before = [];
    after = paths;
    splits = ap (λ (x : FilePath). x ∷ paths) same;
    missing = tt;
    there = rw same at there;
  }

  later-FirstOf :
      (test : FilePath → Bool) (q : FilePath) (paths : List FilePath) (p : FilePath)
      → test q ≡ false
      → FirstOf test paths p
      → FirstOf test (q ∷ paths) p
  later-FirstOf test q paths p gone f = record {
    before = q ∷ f.before;
    after = f.after;
    splits = ap (λ (l : List FilePath). q ∷ l) f.splits;
    missing = (gone, f.missing);
    there = f.there;
  }

  first_existing-FirstOf :
      (paths : List FilePath) (s : State) (p : FilePath)
      → first_existing system paths s ≡ some p
      → FirstOf (λ q. exists q s) paths p
  unfolding first_existing
  first_existing-FirstOf [] s p e = absurd (cc)
  first_existing-FirstOf (q ∷ paths) s p e = elim (Bool-cases (exists q s)) [
    | inl there ↦ here-FirstOf (λ r. exists r s) q paths p there (cc (rw there at e))
    | inr gone ↦
        later-FirstOf (λ r. exists r s) q paths p gone
          (first_existing-FirstOf paths s p (rw (gone, first_existing) at e))
  ]

  root_of-FirstOf :
      (dirs : List FilePath) (s : State) (root : FilePath)
      → root_of system dirs s ≡ some root
      → FirstOf (λ dir. exists (child dir "build.zig") s) dirs root
  unfolding root_of
  root_of-FirstOf [] s root e = absurd (cc)
  root_of-FirstOf (q ∷ dirs) s root e = elim (Bool-cases (exists (child q "build.zig") s)) [
    | inl there ↦
        here-FirstOf (λ dir. exists (child dir "build.zig") s) q dirs root there
          (cc (rw there at e))
    | inr gone ↦
        later-FirstOf (λ dir. exists (child dir "build.zig") s) q dirs root gone
          (root_of-FirstOf dirs s root (rw (gone, root_of) at e))
  ]

  find_repo_root-FirstOf :
      (here : FilePath) (s : State) (root : FilePath)
      → find_repo_root system here s ≡ some root
      → FirstOf (λ dir. exists (child dir "build.zig") s) (six_up here) root
  unfolding find_repo_root walk_up
  find_repo_root-FirstOf here s root e = root_of-FirstOf (six_up here) s root e

  first_existing-none :
      (paths : List FilePath) (s : State)
      → first_existing system paths s ≡ none
      → All (Fails (λ q. exists q s)) paths
  unfolding first_existing
  first_existing-none [] s e = tt
  first_existing-none (q ∷ paths) s e = elim (Bool-cases (exists q s)) [
    | inl there ↦ absurd (let never = rw there at e in cc)
    | inr gone ↦ (gone, first_existing-none paths s (rw (gone, first_existing) at e))
  ]

  -- A build that returned a path has run zig, which left the library there.
  build_in-made :
      (lib : String) (root : FilePath) (s : State) (p : FilePath)
      → (build_in system lib root s).0 ≡ ok p
      → ((check_call root s).0 ≡ ok tt)
        × ((check_call root s).1 ≡ (build_in system lib root s).1)
        × (p ≡ zig_out lib root)
        × (exists p (build_in system lib root s).1 ≡ true)
  unfolding build_in
  build_in-made lib root s p e =
      let (_, ran, e') = then_call-eq-ok (check_call root s).0 _ (check_call root s).1 e in
      elim (Bool-cases (exists (zig_out lib root) (check_call root s).1)) [
        | inl there ↦
            let made : p ≡ zig_out lib root = sym (ok-injective (rw there at e')) in
            rw (ran, build_in) (refl, refl, made, rw made there)
        | inr gone ↦ absurd (let never = rw gone at e' in cc)
      ]

  build_at-Built :
      (env : Environ) (here : FilePath) (lib : String) (found : Option FilePath) (s : State)
      (p : FilePath)
      → find_repo_root system here s ≡ found
      → All (Fails (λ q. exists q s)) (listed env here lib)
      → is_set env.skip_native_build ≡ false
      → (build_at system env lib found s).0 ≡ ok p
      → Built env here lib s p (build_at system env lib found s).1
  unfolding build_at
  build_at-Built env here lib none s p found missing allowed e = absurd (cc)
  build_at-Built env here lib (some root) s p found missing allowed e =
      elim (Bool-cases env.has_zig) [
        | inr absent ↦ absurd (let never = rw absent at e in cc)
        | inl zig ↦
            let (ran, left, made, there) = build_in-made lib root s p (rw zig at e) in
            let same : build_at system env lib (some root) s ≡ build_in system lib root s =
              simp zig in
            subst (λ r. Built env here lib s p r.1) (sym same)
              record {
                root = root;
                located = find_repo_root-FirstOf here s root found;
                missing = missing;
                allowed = allowed;
                zig = zig;
                ran = ran;
                left = left;
                made = made;
                there = there;
              }
      ]

  pub ensure_lib-Chosen :
      (env : Environ) (here : FilePath) (lib : String) (s : State) (p : FilePath)
      → (ensure_lib system env here lib s).0 ≡ ok p
      → Chosen env here lib s p (ensure_lib system env here lib s).1
  unfolding ensure_lib
  ensure_lib-Chosen env here lib s p e =
      let candidates = candidate_prebuilt system env here lib in
      let same_list = candidate_prebuilt-listed env here lib in
      elim (Option-cases (first_existing system candidates s)) [
        | inr (q, found) ↦
            let same : q ≡ p = ok-injective (rw (found, ensure_lib) at e) in
            rw (found, ensure_lib)
              (inl
                (rw same_list at (first_existing-FirstOf candidates s p (rw same at found)), refl))
        | inl nowhere ↦ elim (Bool-cases (is_set env.skip_native_build)) [
          | inl skipped ↦ absurd (let never = rw (nowhere, skipped, ensure_lib) at e in cc)
          | inr allowed ↦
              rw (nowhere, allowed, ensure_lib)
                (inr (
                  build_at-Built env here lib (find_repo_root system here s) s p refl
                    (rw same_list at (first_existing-none candidates s nowhere)) allowed
                    (rw (nowhere, allowed, ensure_lib) at e)))
        ]
      ]
