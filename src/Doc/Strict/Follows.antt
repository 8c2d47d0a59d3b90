-- ===== src/Doc/Strict/Follows.antt =====
-- A call that returns what another one returns, up to a change of its form, wherever that one returns. It compares the
-- decoders of bindings/python/pyx/_doc.py and bindings/python/pyx/_native.c with Doc.Strict.
use pyx.Base.{◌≡◌, refl, ap, Bool, true, false, if◌then◌else◌}
use pyx.Result.{Result, Exn, ok, raised, out_of_fuel, ◌>>=◌}

pub data Follows {ℓ κ} {A : Type ℓ} {B : Type κ} (h : A → B)
    : Result A → Result B → Type (ℓ ⊔ κ) where
  follows : {a : A} → Follows h (ok a) (ok (h a))
  free : {e : Exn} {r' : Result B} → Follows h (raised e) r'
  short : {r' : Result B} → Follows h out_of_fuel r'

module _ {ℓ κ} {A : Type ℓ} {B : Type κ} {h : A → B} where
  pub Follows-ok :
      {r : Result A} {r' : Result B} {a : A} → Follows h r r' → r ≡ ok a → r' ≡ ok (h a)
  Follows-ok follows e = ap (λ (r : Result A). r >>= λ x. ok (h x)) e
  Follows-ok free e = absurd (cc)
  Follows-ok short e = absurd (cc)

  pub Follows-if :
      (b : Bool) {x y : Result A} {x' y' : Result B}
      → (b ≡ true → Follows h x x')
      → (b ≡ false → Follows h y y')
      → Follows h (if b then x else y) (if b then x' else y')
  Follows-if true hx hy = hx refl
  Follows-if false hx hy = hy refl

  pub Follows-bind {ℓ' κ'} :
      {C : Type ℓ'} {D : Type κ'} {k : C → D} {r : Result A} {r' : Result B} {f : A → Result C}
      (g : B → Result D)
      → Follows h r r'
      → ((a : A) → Follows k (f a) (g (h a)))
      → Follows k (r >>= f) (r' >>= g)
  Follows-bind g (follows {a}) later = later a
  Follows-bind g free later = free
  Follows-bind g short later = short

  -- A test that only the first call makes.
  pub Follows-when :
      (b : Bool) (e : Exn) {x : Result A} {r' : Result B}
      → (b ≡ true → Follows h x r')
      → Follows h (if b then x else raised e) r'
  Follows-when true e hx = hx refl
  Follows-when false e hx = free

  pub Follows-unless :
      (b : Bool) (e : Exn) {x : Result A} {r' : Result B}
      → (b ≡ false → Follows h x r')
      → Follows h (if b then raised e else x) r'
  Follows-unless true e hx = free
  Follows-unless false e hx = hx refl

  -- Behind a call that only the first one makes.
  pub Follows-first {ℓ'} :
      {C : Type ℓ'} (r : Result C) {f : C → Result A} {r' : Result B}
      → ((c : C) → r ≡ ok c → Follows h (f c) r')
      → Follows h (r >>= f) r'
  Follows-first (ok c) later = later c refl
  Follows-first (raised e) later = free
  Follows-first out_of_fuel later = short

-- A call follows itself.
pub Follows-same {ℓ} : {A : Type ℓ} (r : Result A) → Follows (λ (x : A). x) r r
Follows-same (ok a) = follows
Follows-same (raised e) = free
Follows-same out_of_fuel = short

-- After a call that both make.
pub Follows-after {ℓ κ κ'} :
    {A : Type ℓ} {C : Type κ} {D : Type κ'} {k : C → D} (r : Result A) {f : A → Result C}
    {g : A → Result D}
    → ((a : A) → r ≡ ok a → Follows k (f a) (g a))
    → Follows k (r >>= f) (r >>= g)
Follows-after (ok a) later = later a refl
Follows-after (raised e) later = free
Follows-after out_of_fuel later = short
