-- ===== src/Scan/Selects.antt =====
-- Which ids `find_range` of bindings/python/pyx/__init__.py yields: the conversions of the keywords, the call and
-- the generator together.
use Prim.Native.String.{String}
use pyx.Base.{
  ℕ, zero, suc, ◌<◌, ◌≤◌, ◌≡◌, ◌∙◌, ap, refl, Bool, true, false, ◌&&◌, Option, none, some, List, [],
  ◌∷◌, length, take, arith,
}
use pyx.Base.Bytes.{Bytes}
use pyx.Base.Int.{ℤ, is_negative}
use pyx.Calls.{check}
use pyx.Result.{ok}
use pyx.Doc.Utf8.{Str, utf8_encode}
use pyx.Doc.Value.{null}
use pyx.Query.{
  PyxValue, val_i64, PyxBound, BoundArg, scalar, bound, inclusive, exclusive, to_bound,
  to_pyx_value, one_side, bounds_from_kwargs, c_int64,
}
use pyx.Query.Scalars.{of_word-c_int64}
use pyx.Query.Ranges.{keyword, Fits, keyword_args}
use pyx.Scan.{Lookups, open_range, range_loop, scan, range, find_range}
use pyx.Scan.Laws.{Indexed, lets, select, int_le, int_lt, int_ge, int_gt}

-- A key that an optional keyword lets through, by a test.
abbrev pub passes : (ℤ → ℤ → Bool) → Option ℤ → ℤ → Bool
passes test none key = true
passes test (some z) key = test z key

-- At most one of the two keywords of a side.
abbrev pub OneOf : Option ℤ → Option ℤ → Type 0
OneOf (some a) (some b) = ⊥
OneOf _ _ = Unit

-- The argument and the bound that one side's keywords become.
abbrev arg_of : Option ℤ → Option ℤ → BoundArg
arg_of (some z) _ = bound (inclusive (keyword (some z)))
arg_of none (some z) = bound (exclusive (keyword (some z)))
arg_of none none = scalar null

abbrev word_bound : ℕ → ℤ → Option PyxBound
word_bound kind z = some (record { kind = kind; value = val_i64 (c_int64 z) })

abbrev bound_of : Option ℤ → Option ℤ → Option PyxBound
bound_of (some z) _ = word_bound 1 z
bound_of none (some z) = word_bound 2 z
bound_of none none = none

one_side-arg_of :
    (both : String) (ge gt : Option ℤ)
    → OneOf ge gt
    → one_side both (keyword ge) (keyword gt) ≡ ok (arg_of ge gt)
unfolding one_side
one_side-arg_of both none none h = refl
one_side-arg_of both none (some z) h = refl
one_side-arg_of both (some z) none h = refl
one_side-arg_of both (some z) (some y) h = elim h [ ]

to_bound-arg_of : (ge gt : Option ℤ) → to_bound (arg_of ge gt) ≡ ok (bound_of ge gt)
unfolding to_bound to_pyx_value
to_bound-arg_of none none = refl
to_bound-arg_of none (some z) = refl
to_bound-arg_of (some z) none = refl
to_bound-arg_of (some z) (some y) = refl

lets-bound_of :
    (incl excl : ℤ → ℤ → Bool) (other : ℕ → PyxValue → ℤ → Bool) (ge gt : Option ℤ) (key : ℤ)
    → OneOf ge gt
    → Fits ge
    → Fits gt
    → lets incl excl other (bound_of ge gt) key ≡ passes incl ge key && passes excl gt key
lets-bound_of incl excl other none none key h f g = refl
lets-bound_of incl excl other none (some z) key h f g =
    ap (λ (y : ℤ). excl y key) (of_word-c_int64 z g)
lets-bound_of incl excl other (some z) none key h f g = rw (of_word-c_int64 z f) (ground arith)
lets-bound_of incl excl other (some z) (some y) key h f g = elim h [ ]

select-ext :
    (f g : ℤ → Bool) (entries : List (ℤ × ℕ))
    → ((key : ℤ) → f key ≡ g key)
    → select f entries ≡ select g entries
unfolding select
select-ext f g [] same = refl
select-ext f g (entry ∷ entries) same = rw (same entry.0, select-ext f g entries same)

length-select :
    (test : ℤ → Bool) (entries : List (ℤ × ℕ)) → length (select test entries) ≤ length entries
unfolding select
length-select test [] = omega arith
length-select test (entry ∷ entries) = ground (arith, length-select test entries)

-- The test that the keywords stand for.
abbrev pub in_range : Option ℤ → Option ℤ → Option ℤ → Option ℤ → ℤ → Bool
in_range gte gt lte lt key =
    (passes int_le gte key && passes int_lt gt key)
    && (passes int_ge lte key && passes int_gt lt key)

module _ (lookups : Lookups) (x : Indexed lookups) where
  open lookups use {State, pyx_lookup_next}
  open x use {index, ids}

  -- With a round for each id and one more, the consumer gets the ids that the lookup has.
  range_loop-take :
      (fuel wanted h : ℕ) (given : List ℕ) (s : State)
      → ids s h ≡ given
      → length given < fuel
      → (range_loop lookups fuel wanted h s).0 ≡ ok (take wanted given)
  unfolding range_loop check
  range_loop-take zero wanted h given s e more = absurd (omega arith)
  range_loop-take (suc fuel) zero h given s e more = refl
  range_loop-take (suc fuel) (suc wanted) h [] s e more = rw (x.next_end h s e, range_loop)
  range_loop-take (suc fuel) (suc wanted) h (id ∷ given) s e more =
      let (rc, same, after) = x.next_id h id given s e in
      rw (
        rc,
        same,
        range_loop,
        range_loop-take fuel wanted h given (pyx_lookup_next h s).2 after (omega arith),
      )

  module _ (name cb : Bytes) (snapshot : Option ℕ) (s : State)
      (accepted : (lo hi : Option PyxBound)
        → is_negative (open_range lookups name cb lo hi snapshot s).0 ≡ false) where
    scan-select :
        (fuel wanted : ℕ) (gte gt lte lt : Option ℤ)
        → OneOf gte gt
        → OneOf lte lt
        → Fits gte
        → Fits gt
        → Fits lte
        → Fits lt
        → length (index s snapshot name cb) < fuel
        → (scan lookups fuel name cb (bound_of gte gt) (bound_of lte lt) snapshot wanted s).0
          ≡ ok (take wanted (select (in_range gte gt lte lt) (index s snapshot name cb)))
    unfolding scan check
    scan-select fuel wanted gte gt lte lt one two h1 h2 h3 h4 more =
        let opening = open_range lookups name cb (bound_of gte gt) (bound_of lte lt) snapshot s in
        let opened = accepted (bound_of gte gt) (bound_of lte lt) in
        let given =
          x.open_selects name cb (bound_of gte gt) (bound_of lte lt) snapshot s opened
          ∙ select-ext _ (in_range gte gt lte lt) (index s snapshot name cb) (λ key.
            rw
              (
                lets-bound_of int_le int_lt x.other_low gte gt key one h1 h2,
                lets-bound_of int_ge int_gt x.other_high lte lt key two h3 h4,
              )
              refl) in
        rw (opened, scan)
          (range_loop-take fuel wanted opening.1 _ opening.2 given
            (omega (arith, length-select (in_range gte gt lte lt) (index s snapshot name cb))))

    -- Where libpyx accepts the scan, the field's name can be encoded and the keywords are 64-bit integers,
    -- at most one for each side, the generator yields the ids of the index entries whose key satisfies
    -- every keyword, in the index's order, as many as are wanted.
    pub find_range-select :
        (fuel wanted : ℕ) (field : Str) (gte gt lte lt : Option ℤ)
        → utf8_encode field ≡ ok cb
        → OneOf gte gt
        → OneOf lte lt
        → Fits gte
        → Fits gt
        → Fits lte
        → Fits lt
        → length (index s snapshot name cb) < fuel
        → (find_range lookups fuel name field
            (scalar null)
            (scalar null)
            (keyword gte)
            (keyword gt)
            (keyword lte)
            (keyword lt)
            snapshot
            wanted
            s).0
          ≡ ok (take wanted (select (in_range gte gt lte lt) (index s snapshot name cb)))
    unfolding find_range range bounds_from_kwargs
    find_range-select fuel zero field gte gt lte lt encoded one two h1 h2 h3 h4 more =
        rw
          (
            keyword_args gte gt lte lt,
            find_range,
            one_side-arg_of _ gte gt one,
            one_side-arg_of _ lte lt two,
          )
          refl
    find_range-select fuel (suc wanted) field gte gt lte lt encoded one two h1 h2 h3 h4 more =
        rw
          (
            keyword_args gte gt lte lt,
            find_range,
            one_side-arg_of _ gte gt one,
            one_side-arg_of _ lte lt two,
            encoded,
            to_bound-arg_of gte gt,
            to_bound-arg_of lte lt,
          )
          (scan-select fuel (suc wanted) gte gt lte lt one two h1 h2 h3 h4 more)
