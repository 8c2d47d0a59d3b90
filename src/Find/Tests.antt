-- ===== src/Find/Tests.antt =====
-- Runs of `create_index` and `find_one` of bindings/python/pyx/__init__.py.
use Prim.Native.String.{String}
use pyx.Base.{
  ℕ, ◌≡◌, ◌≢◌, refl, sym, ◌∙◌, Bool, true, false, ◌&&◌, ◌||◌, none, List, [], ◌∷◌, ◌==◌,
  if◌then◌else◌, arith,
}
use pyx.Base.Bytes.{Bytes}
use pyx.Base.Int.{ℤ, pos}
use pyx.Errors.{pyx_ok, pyx_not_found, no_such_index}
use pyx.Result.{Exn, ok, raised}
use pyx.Doc.Utf8.{utf8_encode, encode_char}
use pyx.Doc.Value.{int, null}
use pyx.Query.{val_i64, to_pyx_value, c_int64}
use pyx.Find.{Indexes, find_one, pyx_no_such_index}
use pyx.Find.Styles.{Registry, NoSingles, find_one-one_keyword}

-- The one compound index that this database can have, on the fields a and b.
abbrev is_byte : ℕ → Bytes → Bool
is_byte n (x ∷ []) = x == n
is_byte n _ = false

abbrev is_a_b : List Bytes → Bool
is_a_b (p ∷ q ∷ []) = is_byte b'a' p && is_byte b'b' q
is_a_b _ = false

abbrev lookup_status : Bool → ℤ
lookup_status true = pyx_not_found
lookup_status false = pyx_no_such_index

abbrev two_fields : Indexes
two_fields = record {
  State = Bool;
  pyx_find_one = λ name fb v s. (pyx_not_found, 0, s);
  pyx_compound_find_one = λ name fields vs s. (lookup_status (s && is_a_b fields), 0, s);
  pyx_create_index = λ cb fb s. (pyx_ok, s);
  pyx_create_compound_index = λ cb fields s. (pyx_ok, s || is_a_b fields);
  pyx_drop_index = λ cb fb s. (pyx_ok, s);
  pyx_drop_compound_index = λ cb fields s. (pyx_ok, if is_a_b fields then false else s);
  pyx_last_error = λ s. "NoSuchIndex";
}

is_byte-eq : (n : ℕ) (b : Bytes) → is_byte n b ≡ true → b ≡ n ∷ []
is_byte-eq n [] e = absurd (cc)
is_byte-eq n (x ∷ []) e = let same : x ≡ n = ground arith in rw same
is_byte-eq n (x ∷ y ∷ b) e = absurd (cc)

is_a_b-eq : (fields : List Bytes) → is_a_b fields ≡ true → fields ≡ (b'a' ∷ []) ∷ (b'b' ∷ []) ∷ []
is_a_b-eq [] e = absurd (cc)
is_a_b-eq (p ∷ []) e = absurd (cc)
is_a_b-eq (p ∷ q ∷ []) e =
    let first : is_byte b'a' p ≡ true = ground arith in
    let second : is_byte b'b' q ≡ true = ground arith in
    rw (is_byte-eq b'a' p first, is_byte-eq b'b' q second)
is_a_b-eq (p ∷ q ∷ r ∷ fields) e = absurd (cc)

apart :
    (s : Bool) (made fields : List Bytes) (m f : Bool)
    → is_a_b made ≡ m
    → is_a_b fields ≡ f
    → made ≢ fields
    → (s || m) && f ≡ s && f
apart s made fields true true e k h = absurd (h (is_a_b-eq made e ∙ sym (is_a_b-eq fields k)))
apart true made fields m f e k h = refl
apart false made fields true false e k h = refl
apart false made fields false f e k h = refl

lookup_missing : (b : Bool) → b ≡ false → lookup_status b ≡ pyx_no_such_index
lookup_missing b e = rw e

abbrev two_fields-Registry : Registry two_fields
two_fields-Registry = record {
  has_compound = λ s name fields. s && is_a_b fields;
  single_apart = λ cb fb name fields s. refl;
  compound_own =
      λ cb name made fields s h. apart s made fields (is_a_b made) (is_a_b fields) refl refl h;
  lookup_missing = λ name fields vs s e. lookup_missing (s && is_a_b fields) e;
}

true-NoSingles : NoSingles two_fields two_fields-Registry true
unfolding NoSingles
true-NoSingles name b = refl

encode-a : utf8_encode (b'a' ∷ []) ≡ ok (b'a' ∷ [])
unfolding utf8_encode encode_char
encode-a = refl

five : to_pyx_value (int (pos 5)) ≡ ok (val_i64 5)
unfolding to_pyx_value c_int64
five = refl

find_one-one_keyword_example :
    (m : String) × ((find_one two_fields [] none null ((b'a' ∷ [], int (pos 5)) ∷ []) true).0
      ≡ raised (
          Exn.raised_pyx (record { cls = no_such_index; status = pyx_no_such_index; message = m })))
find_one-one_keyword_example =
    find_one-one_keyword two_fields two_fields-Registry [] (b'a' ∷ []) (b'a' ∷ []) (int (pos 5))
      (val_i64 5) true true-NoSingles encode-a five
