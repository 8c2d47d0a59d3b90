-- ===== src/Doc/Wire/Decoded.antt =====
-- The decoder of bindings/python/pyx/_doc.py on any bytes: what it returns is made of what the format has.
use Prim.Native.String.{String}
use pyx.Base.{
  ℕ, zero, suc, ◌+◌, ◌-◌, ◌*◌, ◌<◌, ◌^◌, ◌≡◌, refl, Bool, true, false, subst, [], ◌∷◌, ltb, leb,
  ◌==◌, length, take, drop, if◌then◌else◌, All, arith, none,
}
use pyx.Base.Bytes.{Bytes, IsByte, le_value}
use pyx.Base.Int.{of_word, of_word-InI64}
use pyx.Base.Reading.{slice}
use native.Mathlib.Nat.{pow-suc}
use pyx.Result.{Result, Exn, ok, raised, out_of_fuel, ◌>>=◌}
use pyx.Doc.Utf8.{utf8_decode}
use pyx.Doc.Varint.{index, read_varint}
use pyx.Doc.Value.{
  str_key, Value, Items, Fields, int, float, dict, no_items, no_fields, append_item, dict_set,
  plain,
}
use pyx.Doc.Decode.{
  unpack_from, read_word, read_sized, read_header, read_entry_key, read_payload, read_value,
  read_items, read_fields, make_str, make_bytes, require_dict, decode,
}
use pyx.Doc.Encode.{
  tag_null, tag_false, tag_true, tag_i64, tag_f64, tag_string, tag_bytes, tag_array, tag_object,
}
use pyx.Doc.Wire.{
  IsWire, ItemsAreWire, FieldsAreWire, append_item-AreWire, dict_set-AreWire, plain-IsWire,
}

-- The call's value has `P`, if it returns.
data Gives {ℓ} {A : Type ℓ} (P : A → Type 0) : Result A → Type ℓ where
  gives : {a : A} → P a → Gives P (ok a)
  raises : {e : Exn} → Gives P (raised e)
  short : Gives P out_of_fuel

module _ {ℓ} {A : Type ℓ} {P : A → Type 0} where
  Gives-ok : {r : Result A} {a : A} → Gives P r → r ≡ ok a → P a
  Gives-ok (gives h) e = subst P (cc) h
  Gives-ok raises e = absurd (cc)
  Gives-ok short e = absurd (cc)

  Gives-any : (r : Result A) → ((a : A) → P a) → Gives P r
  Gives-any (ok a) h = gives (h a)
  Gives-any (raised e) h = raises
  Gives-any out_of_fuel h = short

  Gives-if : (b : Bool) {x y : Result A} → Gives P x → Gives P y → Gives P (if b then x else y)
  Gives-if true hx hy = hx
  Gives-if false hx hy = hy

  Gives-bind {κ} :
      {B : Type κ} {R : B → Type 0} {r : Result A} {f : A → Result B}
      → Gives P r
      → ((a : A) → P a → Gives R (f a))
      → Gives R (r >>= f)
  Gives-bind (gives {a} h) k = k a h
  Gives-bind raises k = raises
  Gives-bind short k = short

All-take : (n : ℕ) (bs : Bytes) → All IsByte bs → All IsByte (take n bs)
All-take zero bs h = tt
All-take (suc n) [] h = tt
All-take (suc n) (b ∷ bs) (hb, h) = (hb, All-take n bs h)

All-drop : (n : ℕ) (bs : Bytes) → All IsByte bs → All IsByte (drop n bs)
All-drop zero bs h = h
All-drop (suc n) [] h = tt
All-drop (suc n) (b ∷ bs) (hb, h) = All-drop n bs h

le_value-take_lt : (n : ℕ) (bs : Bytes) → All IsByte bs → le_value (take n bs) < 256 ^ n
unfolding le_value
le_value-take_lt zero bs h = omega arith
le_value-take_lt (suc n) [] h = omega (arith, le_value-take_lt n [] tt, pow-suc 256 n)
le_value-take_lt (suc n) (b ∷ bs) (hb, h) =
    omega (arith, hb, le_value-take_lt n bs h, pow-suc 256 n)

module _ (buf : Bytes) (octets : All IsByte buf) where
  slice-IsByte : (pos end : ℕ) → All IsByte (slice buf pos end)
  slice-IsByte pos end = All-take (end - pos) (drop pos buf) (All-drop pos buf octets)

  unpack_from-Gives : (pos : ℕ) → Gives (λ n. n < 2 ^ 64) (unpack_from 8 buf pos)
  unfolding unpack_from
  unpack_from-Gives pos =
      let width : pos + 8 - pos ≡ 8 = omega arith in
      Gives-if (leb (pos + 8) (length buf))
        (gives
          (rw width (omega (arith, le_value-take_lt 8 (drop pos buf) (All-drop pos buf octets)))))
        raises

  read_word-IsWire :
      (what : String) (make : ℕ → Value) (pos : ℕ)
      → ((n : ℕ) → n < 2 ^ 64 → IsWire (make n))
      → Gives (λ (v, end). IsWire v) (read_word what make buf pos)
  unfolding read_word
  read_word-IsWire what make pos h =
      Gives-if (ltb (length buf) (pos + 8)) raises
        (Gives-bind (unpack_from-Gives pos) λ n small. gives (h n small))

  read_sized-IsWire :
      (what : String) (make : Bytes → Result Value) (pos : ℕ)
      → ((b : Bytes) → All IsByte b → Gives IsWire (make b))
      → Gives (λ (v, end). IsWire v) (read_sized what make buf pos)
  unfolding read_sized
  read_sized-IsWire what make pos h =
      Gives-bind (Gives-any {P = λ r. Unit {0}} (read_varint buf pos) λ r. tt) λ (n, p) _.
        Gives-if (ltb (length buf) (p + n)) raises
          (Gives-bind (h (slice buf p (p + n)) (slice-IsByte p (p + n))) λ v hv. gives hv)

  make_str-IsWire : (b : Bytes) → All IsByte b → Gives IsWire (make_str b)
  make_str-IsWire b h =
      Gives-bind (Gives-any {P = λ s. Unit {0}} (utf8_decode b) λ s. tt) λ s _. gives tt

  mutual
    unfolding read_payload

    read_payload-IsWire :
        (f pos tag : ℕ) → Gives (λ (v, end). IsWire v) (read_payload f buf pos tag)
    read_payload-IsWire zero pos tag = short
    read_payload-IsWire (suc f) pos tag = Gives-if (tag == tag_null) (gives tt) (
        Gives-if (tag == tag_false) (gives tt) (
          Gives-if (tag == tag_true) (gives tt) (
            Gives-if (tag == tag_i64)
              (read_word-IsWire _ (λ n. int (of_word n)) pos (λ n small. of_word-InI64 n small))
              (Gives-if (tag == tag_f64) (read_word-IsWire _ float pos (λ n small. small)) (
                Gives-if (tag == tag_string) (read_sized-IsWire _ make_str pos make_str-IsWire) (
                  Gives-if (tag == tag_bytes)
                    (read_sized-IsWire _ make_bytes pos (λ b h. gives (refl, h)))
                    (Gives-if (tag == tag_array)
                      (Gives-bind (Gives-any {P = λ r. Unit {0}} (read_header _ _ buf pos) λ r. tt)
                        λ (start, end) _.
                          Gives-bind (read_items-AreWire f start end no_items tt)
                            λ xs h. gives (refl, h))
                      (Gives-if (tag == tag_object)
                        (Gives-bind
                          (Gives-any {P = λ r. Unit {0}} (read_header _ _ buf pos) λ r. tt)
                          λ (start, end) _.
                            Gives-bind (read_fields-AreWire f start end no_fields tt)
                              λ fs h. gives h)
                        raises))))))))

    read_value-IsWire : (f pos : ℕ) → Gives (λ (v, end). IsWire v) (read_value f buf pos)
    read_value-IsWire zero pos = short
    read_value-IsWire (suc f) pos = Gives-if (leb (length buf) pos) raises (
        Gives-bind (Gives-any {P = λ r. Unit {0}} (index buf pos) λ r. tt)
          λ tag _. read_payload-IsWire f (pos + 1) tag)

    read_items-AreWire :
        (f pos end : ℕ) (items : Items)
        → ItemsAreWire items
        → Gives ItemsAreWire (read_items f buf pos end items)
    read_items-AreWire zero pos end items h = short
    read_items-AreWire (suc f) pos end items h =
        Gives-if (ltb pos end)
          (Gives-bind (read_value-IsWire f pos) λ (v, pos') hv.
            read_items-AreWire f pos' end (append_item items v) (append_item-AreWire items v h hv))
          (gives h)

    read_fields-AreWire :
        (f pos end : ℕ) (out : Fields)
        → FieldsAreWire out
        → Gives FieldsAreWire (read_fields f buf pos end out)
    read_fields-AreWire zero pos end out h = short
    read_fields-AreWire (suc f) pos end out h =
        Gives-if (ltb pos end)
          (Gives-bind (Gives-any {P = λ r. Unit {0}} (read_entry_key buf pos end) λ r. tt)
            λ (tag, key, start) _. Gives-bind (read_payload-IsWire f start tag) λ (v, pos') hv.
              read_fields-AreWire f pos' end (dict_set out (str_key key) v)
                (dict_set-AreWire out (str_key key) v h tt hv))
          (gives h)

  require_dict-IsWire : (v : Value) → IsWire v → Gives IsWire (require_dict v)
  require_dict-IsWire (dict fs) h = gives h
  require_dict-IsWire _ h = raises

  -- Whatever bytes are decoded, a value that is returned is made of what the format has: integers and floats of
  -- 64 bits, bytes objects, lists, and dicts that hold each of their text keys once; and it is as it would be read
  -- back.
  pub decode-IsWire : (v : Value) → decode none buf ≡ ok v → IsWire v × (plain v ≡ v)
  unfolding decode
  decode-IsWire v e =
      let decoded : Gives IsWire (decode none buf) = Gives-if (ltb (length buf) 1) raises (
        Gives-bind (Gives-any {P = λ r. Unit {0}} (index buf 0) λ r. tt) λ tag _.
          Gives-if (tag == tag_object)
            (Gives-bind (read_value-IsWire (2 * length buf + 2) 0)
              λ (w, _) h. require_dict-IsWire w h)
            raises) in
      let h = Gives-ok decoded e in (h, plain-IsWire v h)
