-- ===== src/Find/Styles.antt =====
-- Which indexes `create_index` of bindings/python/pyx/__init__.py makes, and which `find_one` asks for.
use Prim.Native.String.{String}
use pyx.Base.{◌≡◌, ◌≢◌, refl, ◌∙◌, false, Bool, none, List, [], ◌∷◌}
use pyx.Base.Bytes.{Bytes}
use pyx.Errors.{from_status, no_such_index}
use pyx.Calls.{found, check, then_call}
use pyx.Result.{Result, Exn, ok, raised, out_of_fuel, ◌>>=◌}
use pyx.Doc.Utf8.{Str, utf8_encode}
use pyx.Doc.Value.{Value, null}
use pyx.Query.{PyxValue, to_pyx_value}
use pyx.Find.{
  Indexes, create_index, find_one, find_one_compound, build_field_arrays, to_pyx_values,
  pyx_no_such_index,
}

module _ (indexes : Indexes) where
  open indexes use {
    State, pyx_create_index, pyx_create_compound_index, pyx_compound_find_one, pyx_last_error,
  }

  -- The compound indexes that are there, by their lists of fields. They are apart from the indexes of a
  -- single field; a lookup without an index is an error.
  pub record Registry : Type 0 where
    pub has_compound : State → Bytes → List Bytes → Bool
    pub single_apart :
        (cb fb name : Bytes) (fields : List Bytes) (s : State)
        → has_compound (pyx_create_index cb fb s).1 name fields ≡ has_compound s name fields
    pub compound_own :
        (cb name : Bytes) (made fields : List Bytes) (s : State)
        → made ≢ fields
        → has_compound (pyx_create_compound_index cb made s).1 name fields
          ≡ has_compound s name fields
    pub lookup_missing :
        (name : Bytes) (fields : List Bytes) (vs : List PyxValue) (s : State)
        → has_compound s name fields ≡ false
        → (pyx_compound_find_one name fields vs s).0 ≡ pyx_no_such_index

  module _ (registry : Registry) where
    open registry use {has_compound}

    -- No compound index has one field only.
    unfoldable pub NoSingles : State → Type 0
    NoSingles s = (name b : Bytes) → has_compound s name (b ∷ []) ≡ false

    then_call-NoSingles {ℓ κ} :
        {A : Type ℓ} {B : Type κ} (r : Result A) (next : A → State → Result B × State) (s : State)
        → NoSingles s
        → ((a : A) → r ≡ ok a → NoSingles (next a s).1)
        → NoSingles (then_call r next s).1
    then_call-NoSingles (ok a) next s h k = k a refl
    then_call-NoSingles (raised e) next s h k = h
    then_call-NoSingles out_of_fuel next s h k = h

    two_fields :
        (r : Result Bytes) (q : Result Bytes) (p : Result (List Bytes)) (bs : List Bytes)
        (b : Bytes)
        → ◌≡◌ {A = Result (List Bytes)}
            (r >>= λ x. ((q >>= λ y. (p >>= λ ys. ok (y ∷ ys))) >>= λ xs. ok (x ∷ xs)))
            (ok bs)
        → bs ≢ b ∷ []
    two_fields (ok x) (ok y) (ok ys) bs b e same = cc
    two_fields (ok x) (ok y) (raised z) bs b e same = absurd (cc)
    two_fields (ok x) (ok y) out_of_fuel bs b e same = absurd (cc)
    two_fields (ok x) (raised z) p bs b e same = absurd (cc)
    two_fields (ok x) out_of_fuel p bs b e same = absurd (cc)
    two_fields (raised z) q p bs b e same = absurd (cc)
    two_fields out_of_fuel q p bs b e same = absurd (cc)

    -- `create_index` never makes a compound index of one field.
    create_index-NoSingles :
        (collection : Str) (fields : List Str) (s : State)
        → NoSingles s
        → NoSingles (create_index indexes collection fields s).1
    unfolding create_index build_field_arrays NoSingles
    create_index-NoSingles collection [] s h = h
    create_index-NoSingles collection (f ∷ []) s h =
        then_call-NoSingles (utf8_encode collection) _ s h (λ cb _.
          then_call-NoSingles (utf8_encode f) _ s h
            (λ fb _. λ name b. registry.single_apart cb fb name (b ∷ []) s ∙ h name b))
    create_index-NoSingles collection (f ∷ g ∷ fields) s h =
        then_call-NoSingles (utf8_encode collection) _ s h (λ cb _.
          then_call-NoSingles (build_field_arrays (f ∷ g ∷ fields)) _ s h (λ made e. λ name b.
            registry.compound_own cb name made (b ∷ []) s
              (two_fields (utf8_encode f) (utf8_encode g) (build_field_arrays fields) made b e)
            ∙ h name b))

    -- So a lookup by one keyword, of a name and a value that can be converted, raises the error of a
    -- missing index.
    pub find_one-one_keyword :
        (name b : Bytes) (field : Str) (value : Value) (v : PyxValue) (s : State)
        → NoSingles s
        → utf8_encode field ≡ ok b
        → to_pyx_value value ≡ ok v
        → (m : String) × ((find_one indexes name none null ((field, value) ∷ []) s).0
            ≡ raised (
                Exn.raised_pyx
                  (record { cls = no_such_index; status = pyx_no_such_index; message = m })))
    unfolding find_one find_one_compound build_field_arrays to_pyx_values NoSingles found check
        from_status
    find_one-one_keyword name b field value v s h encoded converted = (
      pyx_last_error (pyx_compound_find_one name (b ∷ []) (v ∷ []) s).2,
      rw (encoded, converted, registry.lookup_missing name (b ∷ []) (v ∷ []) s (h name b), find_one)
          refl,
    )
