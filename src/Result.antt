-- ===== src/Result.antt =====
-- The outcome of a Python call in the binding: a value, or a raised exception.
-- `out_of_fuel` has no counterpart in the program: a loop of the model ran out of its fuel.
use Prim.Native.String.{String}
use pyx.Base.{◌≡◌, ◌≢◌, refl, ap, subst, Bool, true, false, if◌then◌else◌}
use pyx.Errors.{PyxError}

-- `unicode_error` is a UnicodeEncodeError or UnicodeDecodeError, a subclass of ValueError.
pub data Exn : Type 0 where
  type_error value_error runtime_error lookup_error : String → Exn
  unicode_error overflow_error index_error struct_error : Exn
  keyboard_interrupt : Exn
  raised_pyx : PyxError → Exn

-- `except Exception` catches it: all but a BaseException such as KeyboardInterrupt.
abbrev pub is_exception : Exn → Bool
is_exception Exn.keyboard_interrupt = false
is_exception _ = true

-- `except ValueError` catches it.
abbrev pub IsValueError : Exn → Type 0
IsValueError (Exn.value_error m) = Unit
IsValueError Exn.unicode_error = Unit
IsValueError _ = ⊥

pub data Result {ℓ} (A : Type ℓ) : Type ℓ where
  ok : A → Result A
  raised : Exn → Result A
  out_of_fuel : Result A

infixl 5 ◌>>=◌
abbrev pub ◌>>=◌ {ℓ κ} : {A : Type ℓ} {B : Type κ} → Result A → (A → Result B) → Result B
ok a >>= f = f a
raised e >>= f = raised e
out_of_fuel >>= f = out_of_fuel

pub ok-injective {ℓ} : {A : Type ℓ} {a b : A} → ok a ≡ ok b → a ≡ b
ok-injective e = cc

pub ok_pair {ℓ κ} :
    {A : Type ℓ} {B : Type κ} {a c : A} {b d : B}
    → a ≡ c
    → b ≡ d
    → ◌≡◌ {A = Result (A × B)} (ok (a, b)) (ok (c, d))
ok_pair p q = λ i. ok (p i, q i)

module _ {ℓ κ} {A : Type ℓ} {B : Type κ} where
  -- The first call returned `x`, and what follows it returned `y`.
  abbrev pub Chain : Result A → (A → Result B) → B → Type (ℓ ⊔ κ)
  Chain first next y = (x : A) × (first ≡ ok x) × (next x ≡ ok y)

  pub >>=-eq-ok :
      (first : Result A) (next : A → Result B) {y : B} → first >>= next ≡ ok y → Chain first next y
  >>=-eq-ok out_of_fuel next returned = absurd (cc)
  >>=-eq-ok (raised x) next returned = absurd (cc)
  >>=-eq-ok (ok x) next returned = (x, refl, returned)

-- Two calls in a row, whose results were paired.
pub pair-eq-ok {ℓ κ} :
    {A : Type ℓ} {B : Type κ} (p : Result A) (q : Result B) {x : A} {y : B}
    → ◌≡◌ {A = Result (A × B)} (p >>= λ a. (q >>= λ b. ok (a, b))) (ok (x, y))
    → (p ≡ ok x) × (q ≡ ok y)
pair-eq-ok (ok a) (ok b) e = (ap (λ r. ok r.0) (ok-injective e), ap (λ r. ok r.1) (ok-injective e))
pair-eq-ok (ok a) (raised x) e = absurd (cc)
pair-eq-ok (ok a) out_of_fuel e = absurd (cc)
pair-eq-ok (raised x) q e = absurd (cc)
pair-eq-ok out_of_fuel q e = absurd (cc)

-- The call ended within its fuel; its value has `P`, its exception has `Q`.
pub data Ensures {ℓ κ} {A : Type ℓ} (P : A → Type κ) (Q : Exn → Type 0)
    : Result A → Type (ℓ ⊔ κ) where
  returns : {a : A} → P a → Ensures P Q (ok a)
  raises : {e : Exn} → Q e → Ensures P Q (raised e)

module _ {ℓ κ} {A : Type ℓ} {P : A → Type κ} {Q : Exn → Type 0} where
  pub Ensures-ok : {r : Result A} {a : A} → Ensures P Q r → r ≡ ok a → P a
  Ensures-ok (returns h) e = subst P (cc) h
  Ensures-ok (raises h) e = absurd (cc)

  pub Ensures-raised : {r : Result A} {x : Exn} → Ensures P Q r → r ≡ raised x → Q x
  Ensures-raised (returns h) e = absurd (cc)
  Ensures-raised (raises h) e = subst Q (cc) h

  pub Ensures-out_of_fuel : {r : Result A} → Ensures P Q r → r ≢ out_of_fuel
  Ensures-out_of_fuel (returns h) e = cc
  Ensures-out_of_fuel (raises h) e = cc

  pub Ensures-if :
      (b : Bool) {x y : Result A}
      → (b ≡ true → Ensures P Q x)
      → (b ≡ false → Ensures P Q y)
      → Ensures P Q (if b then x else y)
  Ensures-if true hx hy = hx refl
  Ensures-if false hx hy = hy refl

  pub Ensures-bind {ℓ' κ'} :
      {B : Type ℓ'} {R : B → Type κ'} {r : Result A} {f : A → Result B}
      → Ensures P Q r
      → ((a : A) → P a → Ensures R Q (f a))
      → Ensures R Q (r >>= f)
  Ensures-bind (returns {a} h) k = k a h
  Ensures-bind (raises h) k = raises h

  pub Ensures-mono {κ'} :
      {R : A → Type κ'} {r : Result A} → Ensures P Q r → ((a : A) → P a → R a) → Ensures R Q r
  Ensures-mono (returns {a} h) k = returns (k a h)
  Ensures-mono (raises h) k = raises h
