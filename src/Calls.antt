-- ===== src/Calls.antt =====
-- How a method of bindings/python/pyx/__init__.py goes from one call to the next: the status that `_check` tests,
-- and an exception that ends the method. Calls pass a state on, which holds whatever they share.
use Prim.Native.String.{String}
use pyx.Base.{ℕ, ◌≡◌, refl, Bool, true, false, Option, none, some, if◌then◌else◌, arith}
use pyx.Base.Int.{ℤ, is_negative, int_eq}
use pyx.Errors.{from_status, pyx_not_found}
use pyx.Result.{Result, Exn, ok, raised, out_of_fuel, ◌>>=◌}

-- `_check`: `last_error` is `pyx_last_error`.
unfoldable pub check : {S : Type 0} → (S → String) → ℤ → S → Result (Unit {0})
check last_error rc s =
    if is_negative rc then raised (Exn.raised_pyx (from_status rc (last_error s))) else ok tt

-- What becomes of the status and the id of an equality lookup.
unfoldable pub found : {S : Type 0} → (S → String) → ℤ × ℕ × S → Result (Option ℕ) × S
unfolding check
found last_error (rc, out, s) =
    if int_eq rc pyx_not_found
    then (ok none, s)
    else (check last_error rc s >>= λ _. ok (some out), s)

pub check-eq-ok :
    {S : Type 0} (last_error : S → String) (rc : ℤ) (s : S)
    → check last_error rc s ≡ ok tt
    → is_negative rc ≡ false
unfolding check
check-eq-ok last_error rc s e = ground arith

-- The next call, where this one returned.
abbrev pub then_call {ℓ κ} :
    {A : Type ℓ} {B : Type κ} {S : Type 0} → Result A → (A → S → Result B × S) → S → Result B × S
then_call (ok a) next s = next a s
then_call (raised e) next s = (raised e, s)
then_call out_of_fuel next s = (out_of_fuel, s)

module _ {ℓ κ} {A : Type ℓ} {B : Type κ} {S : Type 0} where
  pub then_call-eq-ok :
      (r : Result A) (next : A → S → Result B × S) (s : S) {y : B}
      → (then_call r next s).0 ≡ ok y
      → (a : A) × (r ≡ ok a) × ((next a s).0 ≡ ok y)
  then_call-eq-ok (ok a) next s e = (a, refl, e)
  then_call-eq-ok (raised x) next s e = absurd (cc)
  then_call-eq-ok out_of_fuel next s e = absurd (cc)

  -- Both ways out of a call keep what holds of the state.
  pub then_call-keeps {κ'} :
      (P : S → Type κ') (r : Result A) (next : A → S → Result B × S) (s : S)
      → P s
      → ((a : A) → P (next a s).1)
      → P (then_call r next s).1
  then_call-keeps P (ok a) next s h k = k a
  then_call-keeps P (raised e) next s h k = h
  then_call-keeps P out_of_fuel next s h k = h

  pub then_call-value :
      (r : Result A) (next : A → Result B) (s t : S)
      → (then_call r (λ a _. (next a, t)) s).0 ≡ r >>= next
  then_call-value (ok a) next s t = refl
  then_call-value (raised e) next s t = refl
  then_call-value out_of_fuel next s t = refl

pub if-keeps {ℓ κ} :
    {B : Type ℓ} {S : Type 0} (P : S → Type κ) (b : Bool) (x y : B × S)
    → P x.1
    → P y.1
    → P (if b then x else y).1
if-keeps P true x y h k = h
if-keeps P false x y h k = k
