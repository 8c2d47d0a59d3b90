-- ===== src/Doc/Wire.antt =====
-- What the decoder of bindings/python/pyx/_doc.py makes of bytes: of all the values that Python has, only those that
-- the format has.
pub mod Decoded
use Prim.Native.String.{String}
use pyx.Base.{
  ℕ, zero, suc, ◌+◌, ◌-◌, ◌*◌, ◌<◌, ◌^◌, ◌≡◌, refl, ap, ◌∙◌, Bool, true, false, Bool-cases, inl,
  inr, subst, List, [], ◌∷◌, ltb, leb, ◌==◌, length, take, drop, if◌then◌else◌, All, arith, none,
}
use pyx.Base.Bytes.{Bytes, IsByte, le_value}
use pyx.Base.Int.{InI64, of_word, of_word-InI64}
use pyx.Base.Reading.{slice}
use native.Mathlib.Nat.{pow-suc}
use pyx.Result.{Result, Exn, ok, raised, out_of_fuel, ◌>>=◌}
use pyx.Doc.Utf8.{Str, utf8_decode}
use pyx.Doc.Varint.{index, read_varint}
use pyx.Doc.Value.{
  Key, str_key, other_key, Value, Items, Fields, null, bool, int, float, str, bytes, bytes_class,
  sequence, list_class, dict, other, no_items, item, no_fields, field, append_item, key_eq,
  dict_set, plain, plain_items, plain_fields,
}
use pyx.Doc.Value.Dict.{Absent, Absent-dict_set, key_eq_comm}
use pyx.Doc.Decode.{
  unpack_from, read_word, read_sized, read_header, read_entry_key, read_payload, read_value,
  read_items, read_fields, make_str, make_bytes, require_dict, decode,
}
use pyx.Doc.Encode.{
  tag_null, tag_false, tag_true, tag_i64, tag_f64, tag_string, tag_bytes, tag_array, tag_object,
}

abbrev pub IsText : Key → Type 0
IsText (str_key s) = Unit
IsText other_key = ⊥

-- Integers of 64 bits, floats of 64 bits, bytes objects, lists, and dicts that hold each of their text keys once.
abbrev mutual
  pub IsWire : Value → Type 0
  IsWire null = Unit
  IsWire (bool b) = Unit
  IsWire (int z) = InI64 z
  IsWire (float f) = f < 2 ^ 64
  IsWire (str s) = Unit
  IsWire (bytes c b) = (c ≡ bytes_class) × All IsByte b
  IsWire (sequence c xs) = (c ≡ list_class) × ItemsAreWire xs
  IsWire (dict fs) = FieldsAreWire fs
  IsWire other = ⊥

  pub ItemsAreWire : Items → Type 0
  ItemsAreWire no_items = Unit
  ItemsAreWire (item v xs) = IsWire v × ItemsAreWire xs

  pub FieldsAreWire : Fields → Type 0
  FieldsAreWire no_fields = Unit
  FieldsAreWire (field k v fs) = (IsText k × Absent k fs) × (IsWire v × FieldsAreWire fs)

pub append_item-AreWire :
    (xs : Items) (v : Value) → ItemsAreWire xs → IsWire v → ItemsAreWire (append_item xs v)
unfolding append_item
append_item-AreWire no_items v h hv = (hv, tt)
append_item-AreWire (item w xs) v (hw, h) hv = (hw, append_item-AreWire xs v h hv)

pub dict_set-AreWire :
    (fs : Fields) (k : Key) (v : Value)
    → FieldsAreWire fs
    → IsText k
    → IsWire v
    → FieldsAreWire (dict_set fs k v)
unfolding dict_set
dict_set-AreWire no_fields k v h hk hv = ((hk, tt), (hv, tt))
dict_set-AreWire (field j w fs) k v ((text, absent), (hw, h)) hk hv =
    elim (Bool-cases (key_eq j k)) [
      | inl same ↦ rw same ((text, absent), (hv, h))
      | inr apart ↦ rw apart (
        (text, Absent-dict_set fs j k v absent (key_eq_comm k j ∙ apart)),
        (hw, dict_set-AreWire fs k v h hk hv),
      )
    ]

mutual
  unfolding plain

  pub plain-IsWire : (v : Value) → IsWire v → plain v ≡ v
  plain-IsWire null h = refl
  plain-IsWire (bool b) h = refl
  plain-IsWire (int z) h = refl
  plain-IsWire (float f) h = refl
  plain-IsWire (str s) h = refl
  plain-IsWire (bytes c b) (same, h) = rw same refl
  plain-IsWire (sequence c xs) (same, h) =
      rw same (ap (sequence list_class) (plain_items-AreWire xs h))
  plain-IsWire (dict fs) h = ap dict (plain_fields-AreWire fs h)
  plain-IsWire other h = absurd h

  plain_items-AreWire : (xs : Items) → ItemsAreWire xs → plain_items xs ≡ xs
  plain_items-AreWire no_items h = refl
  plain_items-AreWire (item v xs) (hv, h) = rw (plain-IsWire v hv, plain_items-AreWire xs h) refl

  plain_fields-AreWire : (fs : Fields) → FieldsAreWire fs → plain_fields fs ≡ fs
  plain_fields-AreWire no_fields h = refl
  plain_fields-AreWire (field k v fs) (hk, (hv, h)) =
      rw (plain-IsWire v hv, plain_fields-AreWire fs h) refl
