-- ===== src/Query/Ranges.antt =====
-- What the bounds of `find_range` in bindings/python/pyx/__init__.py mean for the keys of an index.
use Prim.Native.String.{String}
use pyx.Base.{ℕ, zero, suc, ◌≡◌, ◌↔◌, refl, ap, ◌∙◌, Option, none, some, arith, if◌then◌else◌}
use pyx.Base.Int.{◌≤ℤ◌, ◌<ℤ◌, ℤ, InI64, of_word}
use pyx.Result.{Result, ok, raised, out_of_fuel, pair-eq-ok, ◌>>=◌, ok-injective}
use pyx.Doc.Value.{Value, null, int}
use pyx.Query.Scalars.{of_word-c_int64}
use pyx.Query.{
  PyxValue, val_i64, to_pyx_value, PyxBound, BoundArg, scalar, bound, inclusive, to_bound, one_side,
  bounds_from_kwargs, find_range_args, range_bounds, is_none,
}

-- What one keyword of the pair gte=, gt= (or lte=, lt=) becomes.
closed : Value → BoundArg
closed a = if is_none a then scalar null else bound (inclusive a)

to_bound-closed : (a : Value) → to_bound (closed a) ≡ to_bound (scalar a)
unfolding closed to_bound
to_bound-closed null = refl
to_bound-closed _ = refl

find_range_args-closed :
    (a b : Value)
    → find_range_args (scalar null) (scalar null) a null b null ≡ ok (closed a, closed b)
unfolding find_range_args closed one_side
find_range_args-closed null null = refl
find_range_args-closed null _ = refl
find_range_args-closed _ null = refl
find_range_args-closed _ _ = refl

-- The two styles of closed range, positional scalars and gte=/lte=, give the engine the same bounds,
-- whatever the values, None included.
positional-eq-kwargs :
    (a b : Value)
    → range_bounds (scalar a) (scalar b) null null null null
      ≡ range_bounds (scalar null) (scalar null) a null b null
unfolding range_bounds
positional-eq-kwargs a b = rw (find_range_args-closed a b, to_bound-closed a, to_bound-closed b)

-- An optional keyword that is an integer.
abbrev pub keyword : Option ℤ → Value
keyword none = null
keyword (some z) = int z

abbrev pub Fits : Option ℤ → Type 0
Fits none = Unit
Fits (some z) = InI64 z

-- A key that an optional keyword lets through, by an order.
abbrev pub Obeys : (ℤ → ℤ → Type 0) → Option ℤ → ℤ → Type 0
Obeys R none key = Unit
Obeys R (some z) key = R z key

abbrev pub LetsAt : (ℤ → ℤ → Type 0) → (ℤ → ℤ → Type 0) → ℕ → PyxValue → ℤ → Type 0
LetsAt R S (suc zero) (val_i64 w) key = R (of_word w) key
LetsAt R S (suc (suc zero)) (val_i64 w) key = S (of_word w) key
LetsAt R S _ _ key = Unit

-- A key that a bound of the C ABI lets through: `R` is the order of an inclusive bound, `S`
-- that of an exclusive one.
abbrev pub Lets : (ℤ → ℤ → Type 0) → (ℤ → ℤ → Type 0) → Option PyxBound → ℤ → Type 0
Lets R S none key = Unit
Lets R S (some b) key = LetsAt R S b.kind b.value key

module _ (R S : ℤ → ℤ → Type 0) (both : String) where
  -- The bound that the side's keywords have made lets through what both keywords let through.
  one_side-Lets :
      (ge gt : Option ℤ) (arg : BoundArg) (b : Option PyxBound)
      → Fits ge
      → Fits gt
      → one_side both (keyword ge) (keyword gt) ≡ ok arg
      → to_bound arg ≡ ok b
      → (key : ℤ) → Lets R S b key ↔ (Obeys R ge key × Obeys S gt key)
  unfolding one_side to_bound to_pyx_value
  one_side-Lets none none arg b h k e f key =
      let same : none ≡ b = ok-injective (ap to_bound (ok-injective e) ∙ f) in
      rw (← same) ((λ _. (tt, tt)), (λ _. tt))
  one_side-Lets (some x) none arg b h k e f key =
      let same = ok-injective (ap to_bound (ok-injective e) ∙ f) in
      rw (← same, of_word-c_int64 x h) ((λ r. (r, tt)), (λ p. p.0))
  one_side-Lets none (some y) arg b h k e f key =
      let same = ok-injective (ap to_bound (ok-injective e) ∙ f) in
      rw (← same, of_word-c_int64 y k) ((λ r. (tt, r)), (λ p. p.1))
  one_side-Lets (some x) (some y) arg b h k e f key = absurd (cc)

abbrev pub ◌≥ℤ◌ : ℤ → ℤ → Type 0
◌≥ℤ◌ a b = b ≤ℤ a

abbrev pub ◌>ℤ◌ : ℤ → ℤ → Type 0
◌>ℤ◌ a b = b <ℤ a

pub keyword_args :
    (gte gt lte lt : Option ℤ)
    → find_range_args
        (scalar null)
        (scalar null)
        (keyword gte)
        (keyword gt)
        (keyword lte)
        (keyword lt)
      ≡ bounds_from_kwargs (keyword gte) (keyword gt) (keyword lte) (keyword lt)
unfolding find_range_args one_side
keyword_args gte gt lte none = ground arith
keyword_args gte gt lte _ = ground arith

-- The keywords' bounds, and what they became.
sides :
    (m n : Result BoundArg) (lo hi : Option PyxBound)
    → ◌>>=◌ {B = Option PyxBound × Option PyxBound}
        (◌>>=◌ {B = BoundArg × BoundArg} m (λ a. (n >>= λ b. ok (a, b))))
        (λ (a, b). (to_bound a >>= λ l. (to_bound b >>= λ h. ok (l, h))))
      ≡ ok (lo, hi)
    → (a : BoundArg) × (b : BoundArg) × (m ≡ ok a)
      × (n ≡ ok b)
      × (to_bound a ≡ ok lo)
      × (to_bound b ≡ ok hi)
sides (ok a) (ok b) lo hi e =
    let (l, h) = pair-eq-ok (to_bound a) (to_bound b) e in (a, b, refl, refl, l, h)
sides (ok a) (raised x) lo hi e = absurd (cc)
sides (ok a) out_of_fuel lo hi e = absurd (cc)
sides (raised x) n lo hi e = absurd (cc)
sides out_of_fuel n lo hi e = absurd (cc)

-- Where `find_range` with integer keywords gets as far as its call, the engine's bounds let through
-- exactly the integer keys that satisfy every keyword given.
pub range_bounds-Lets :
    (gte gt lte lt : Option ℤ) (lo hi : Option PyxBound)
    → Fits gte
    → Fits gt
    → Fits lte
    → Fits lt
    → range_bounds (scalar null) (scalar null) (keyword gte) (keyword gt) (keyword lte) (keyword lt)
      ≡ ok (lo, hi)
    → (key : ℤ)
    → (Lets ◌≤ℤ◌ ◌<ℤ◌ lo key × Lets ◌≥ℤ◌ ◌>ℤ◌ hi key)
      ↔ ((Obeys ◌≤ℤ◌ gte key × Obeys ◌<ℤ◌ gt key) × (Obeys ◌≥ℤ◌ lte key × Obeys ◌>ℤ◌ lt key))
unfolding range_bounds
range_bounds-Lets gte gt lte lt lo hi h1 h2 h3 h4 e key =
    let kwargs = rw (keyword_args gte gt lte lt) at e in
    let (a, b, m, n, l, h) =
      sides (one_side "pass either gte= or gt=, not both" (keyword gte) (keyword gt))
        (one_side "pass either lte= or lt=, not both" (keyword lte) (keyword lt)) lo hi kwargs in
    let low = one_side-Lets ◌≤ℤ◌ ◌<ℤ◌ _ gte gt a lo h1 h2 m l key in
    let high = one_side-Lets ◌≥ℤ◌ ◌>ℤ◌ _ lte lt b hi h3 h4 n h key in
    ((λ p. (low.0 p.0, high.0 p.1)), (λ p. (low.1 p.0, high.1 p.1)))
