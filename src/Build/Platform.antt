-- ===== src/Build/Platform.antt =====
-- The names of the library in bindings/python/setup.py, by platform.
use Prim.Native.String.{String}
use pyx.Base.{◌≡◌, ◌⊎◌, inl, inr, refl, sym, true, Bool-cases, [], ◌∷◌, ◌++◌, arith}
use pyx.Doc.Utf8.{Str}
use pyx.Doc.Value.{str_eq}
use pyx.Doc.Value.Dict.{str_eq→eq}
use pyx.Result.{ok, ok-injective}
use pyx.Build.{darwin, linux, freebsd, win32, is_prefix, lib_name}

-- `platform` has a library of this name.
abbrev pub IsLibOf : Str → String → Type 0
IsLibOf platform lib =
    ((platform ≡ darwin) × (lib ≡ "libpyx.dylib"))
    ⊎ ((rest : Str) × ((platform ≡ linux ++ rest) ⊎ (platform ≡ freebsd ++ rest))
        × (lib ≡ "libpyx.so"))
    ⊎ ((platform ≡ win32) × (lib ≡ "pyx.dll"))

is_prefix-append : (p s : Str) → is_prefix p s ≡ true → (rest : Str) × (s ≡ p ++ rest)
unfolding is_prefix
is_prefix-append [] s h = (s, refl)
is_prefix-append (c ∷ cs) [] h = absurd (cc)
is_prefix-append (c ∷ cs) (d ∷ ds) h =
    let tail : is_prefix cs ds ≡ true = ground arith in
    let same : d ≡ c = ground arith in
    let (rest, e) = is_prefix-append cs ds tail in (rest, rw (same, e) refl)

pub lib_name-IsLibOf :
    (platform : Str) (lib : String) → lib_name platform ≡ ok lib → IsLibOf platform lib
unfolding lib_name
lib_name-IsLibOf platform lib e = elim (Bool-cases (str_eq platform darwin)) [
  | inl mac ↦ inl (str_eq→eq platform darwin mac, sym (ok-injective (rw mac at e)))
  | inr no_mac ↦ elim (Bool-cases (is_prefix linux platform)) [
    | inl starts ↦
        let (rest, split) = is_prefix-append linux platform starts in
        inr (inl (rest, inl split, sym (ok-injective (rw (no_mac, starts) at e))))
    | inr no_linux ↦ elim (Bool-cases (is_prefix freebsd platform)) [
      | inl starts ↦
          let (rest, split) = is_prefix-append freebsd platform starts in
          inr (inl (rest, inr split, sym (ok-injective (rw (no_mac, no_linux, starts) at e))))
      | inr no_bsd ↦ elim (Bool-cases (str_eq platform win32)) [
        | inl windows ↦ inr (
            inr (
              str_eq→eq platform win32 windows,
              sym (ok-injective (rw (no_mac, no_linux, no_bsd, windows) at e)),
            ))
        | inr other ↦ absurd (let never = rw (no_mac, no_linux, no_bsd, other) at e in cc)
      ]
    ]
  ]
]
