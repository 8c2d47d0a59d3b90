-- ===== src/Base/Reading.antt =====
-- A position in a buffer and what stands there: `buf[pos]`, `buf[pos:end]` and the bytes that follow.
use Prim.Native.Nat.{ℕ, zero, suc, ◌+◌, ◌-◌}
use Prim.Native.Nat.add
use mathlib.Core.Path.{◌≡◌, refl, ap, ◌∙◌, sym}
use mathlib.Core.Option.{some}
use mathlib.Core.List.{List, [], ◌∷◌, ◌++◌}
use native.Mathlib.Omega.{arith}
use pyx.Base.Lists.{length, length-append, get_elem?, take, drop, take-append, drop-append, lengths}
use pyx.Base.Bytes.{Bytes}

-- `buf[pos:end]`
abbrev pub slice : Bytes → ℕ → ℕ → Bytes
slice buf pos end = take (end - pos) (drop pos buf)

-- The bytes from `pos` on are `rest`, and `pos` does not pass the end.
pub record At (buf : Bytes) (pos : ℕ) (rest : Bytes) : Type 0 where
  pub from : drop pos buf ≡ rest
  pub total : length buf ≡ pos + length rest

pub At-start : (buf : Bytes) → At buf 0 buf
At-start buf = record { from = refl; total = omega arith }

pub drop-drop {ℓ} :
    {A : Type ℓ} (n pos : ℕ) (buf : List A) → drop n (drop pos buf) ≡ drop (pos + n) buf
drop-drop n zero buf = rw add.zero
drop-drop zero (suc pos) [] = rw add.suc
drop-drop (suc n) (suc pos) [] = rw add.suc
drop-drop n (suc pos) (x ∷ buf) = rw add.suc (drop-drop n pos buf)

get_elem?-drop :
    (pos : ℕ) (buf : Bytes) {x : ℕ} {rest : Bytes}
    → drop pos buf ≡ x ∷ rest
    → get_elem? buf pos ≡ some x
get_elem?-drop zero [] e = cc
get_elem?-drop zero (y ∷ buf) e = cc
get_elem?-drop (suc pos) [] e = cc
get_elem?-drop (suc pos) (y ∷ buf) e = get_elem?-drop pos buf e

module _ {buf : Bytes} {pos : ℕ} where
  pub get_elem?-At : {x : ℕ} {rest : Bytes} → At buf pos (x ∷ rest) → get_elem? buf pos ≡ some x
  get_elem?-At h = get_elem?-drop pos buf h.from

  -- The position after `xs`, which stand at `pos`.
  pub At-append : (xs rest : Bytes) → At buf pos (xs ++ rest) → At buf (pos + length xs) rest
  At-append xs rest h = record {
    from = sym (drop-drop (length xs) pos buf) ∙ ap (drop (length xs)) h.from ∙ drop-append xs rest;
    total = omega (lengths, h.total);
  }

  pub At-cons : {x : ℕ} {rest : Bytes} → At buf pos (x ∷ rest) → At buf (pos + 1) rest
  At-cons {x} {rest} h = At-append (x ∷ []) rest h

  pub slice-At : (xs rest : Bytes) → At buf pos (xs ++ rest) → slice buf pos (pos + length xs) ≡ xs
  slice-At xs rest h =
      let width : pos + length xs - pos ≡ length xs = omega arith in
      rw (width, h.from) (take-append xs rest)

-- What follows a prefix stands at the prefix's length.
pub At-behind : (pre rest : Bytes) → At (pre ++ rest) (length pre) rest
At-behind pre rest = record { from = drop-append pre rest; total = length-append pre rest }
