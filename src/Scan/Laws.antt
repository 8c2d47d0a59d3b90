-- ===== src/Scan/Laws.antt =====
-- What the range scan of bindings/python/pyx/__init__.py relies on of libpyx: the lookups that are open, and what
-- each has still to give.
use pyx.Base.{
  ℕ, zero, suc, ◌<◌, ◌≡◌, Option, none, some, List, [], ◌∷◌, Bool, true, false, ◌&&◌, leb,
  if◌then◌else◌, not,
}
use pyx.Base.Bytes.{Bytes}
use pyx.Base.Int.{ℤ, pos, negsuc, is_negative, of_word}
use pyx.Errors.{pyx_ok, pyx_end}
use pyx.Query.{PyxValue, val_i64, PyxBound}
use pyx.Scan.{Lookups, open_range}

-- `a <= b` and `a < b` on Python integers.
abbrev pub int_le : ℤ → ℤ → Bool
int_le (pos a) (pos b) = leb a b
int_le (pos a) (negsuc b) = false
int_le (negsuc a) (pos b) = true
int_le (negsuc a) (negsuc b) = leb b a

abbrev pub int_lt : ℤ → ℤ → Bool
int_lt a b = not (int_le b a)

-- Whether a bound of the kind and the value lets an integer key through: `incl` is the test of an
-- inclusive bound, `excl` that of an exclusive one. A value of another type than the key's is the
-- engine's to order.
abbrev pub lets_at :
    (ℤ → ℤ → Bool) → (ℤ → ℤ → Bool) → (ℕ → PyxValue → ℤ → Bool) → ℕ → PyxValue → ℤ → Bool
lets_at incl excl other (suc zero) (val_i64 w) key = incl (of_word w) key
lets_at incl excl other (suc (suc zero)) (val_i64 w) key = excl (of_word w) key
lets_at incl excl other kind value key = other kind value key

abbrev pub lets :
    (ℤ → ℤ → Bool) → (ℤ → ℤ → Bool) → (ℕ → PyxValue → ℤ → Bool) → Option PyxBound → ℤ → Bool
lets incl excl other none key = true
lets incl excl other (some b) key = lets_at incl excl other b.kind b.value key

-- `a >= b` and `a > b`
abbrev pub int_ge : ℤ → ℤ → Bool
int_ge a b = int_le b a

abbrev pub int_gt : ℤ → ℤ → Bool
int_gt a b = int_lt b a

-- The ids of the index entries, a key and an id, whose key passes the test, in the index's order.
unfoldable pub select : (ℤ → Bool) → List (ℤ × ℕ) → List ℕ
select test [] = []
select test (entry ∷ entries) =
    let rest = select test entries in if test entry.0 then entry.1 ∷ rest else rest

module _ (lookups : Lookups) where
  open lookups use {State, pyx_lookup_next, pyx_lookup_close}

  -- An open that returns no error opens one lookup; a step opens and closes none.
  pub record Counted : Type 0 where
    pub open_lookups : State → ℕ
    pub open_ok :
        (name field : Bytes) (lo hi : Option PyxBound) (snapshot : Option ℕ) (s : State)
        → is_negative (open_range lookups name field lo hi snapshot s).0 ≡ false
        → open_lookups (open_range lookups name field lo hi snapshot s).2 ≡ suc (open_lookups s)
    pub open_failed :
        (name field : Bytes) (lo hi : Option PyxBound) (snapshot : Option ℕ) (s : State)
        → is_negative (open_range lookups name field lo hi snapshot s).0 ≡ true
        → open_lookups (open_range lookups name field lo hi snapshot s).2 ≡ open_lookups s
    pub next_keeps : (h : ℕ) (s : State) → open_lookups (pyx_lookup_next h s).2 ≡ open_lookups s
    pub close_one :
        (h : ℕ) (s : State)
        → 0 < open_lookups s
        → suc (open_lookups (pyx_lookup_close h s)) ≡ open_lookups s

  -- `index s snapshot name field` is the integer index, by its keys in their order, and `ids s h` what the
  -- lookup `h` has still to give. A lookup gives the ids of the entries that its bounds let through.
  pub record Indexed : Type 0 where
    pub index : State → Option ℕ → Bytes → Bytes → List (ℤ × ℕ)
    pub ids : State → ℕ → List ℕ
    pub other_low : ℕ → PyxValue → ℤ → Bool
    pub other_high : ℕ → PyxValue → ℤ → Bool
    pub open_selects :
        (name field : Bytes) (lo hi : Option PyxBound) (snapshot : Option ℕ) (s : State)
        → is_negative (open_range lookups name field lo hi snapshot s).0 ≡ false
        → ids
            (open_range lookups name field lo hi snapshot s).2
            (open_range lookups name field lo hi snapshot s).1
          ≡ select
              (λ key. lets int_le int_lt other_low lo key && lets int_ge int_gt other_high hi key)
              (index s snapshot name field)
    pub next_id :
        (h id : ℕ) (rest : List ℕ) (s : State)
        → ids s h ≡ id ∷ rest
        → ((pyx_lookup_next h s).0 ≡ pyx_ok)
          × ((pyx_lookup_next h s).1 ≡ id)
          × (ids (pyx_lookup_next h s).2 h ≡ rest)
    pub next_end : (h : ℕ) (s : State) → ids s h ≡ [] → (pyx_lookup_next h s).0 ≡ pyx_end
