-- ===== src/Doc/Value/Dict.antt =====
-- Dicts of Python hold each key once; items appended one by one make up the list.
use pyx.Base.{◌≡◌, refl, ap, ◌∙◌, true, false, [], ◌∷◌, arith, ◌<◌, ◌^◌, Bool-cases, inl, inr, All}
use pyx.Base.Bytes.{IsByte}
use pyx.Doc.Value.{
  Key, str_key, other_key, Value, Items, Fields, null, bool, int, float, str, bytes, sequence, dict,
  other, no_items, item, no_fields, field, append_item, str_eq, key_eq, dict_set, plain,
  plain_fields,
}
use pyx.Doc.Utf8.{Str}

pub str_eq→eq : (s t : Str) → str_eq s t ≡ true → s ≡ t
unfolding str_eq
str_eq→eq [] [] h = refl
str_eq→eq [] (b ∷ t) h = absurd (cc)
str_eq→eq (a ∷ s) [] h = absurd (cc)
str_eq→eq (a ∷ s) (b ∷ t) h = ground (arith, str_eq→eq s t)

pub str_eq_refl : (s : Str) → str_eq s s ≡ true
unfolding str_eq
str_eq_refl [] = refl
str_eq_refl (a ∷ s) = ground (arith, str_eq_refl s)

abbrev pub Absent : Key → Fields → Type 0
Absent k no_fields = Unit
Absent k (field j w fs) = (key_eq j k ≡ false) × Absent k fs

-- Every dict inside the value holds each key once, as a Python dict does, every float is a 64-bit
-- pattern, and a bytes value is made of bytes.
abbrev mutual
  pub IsPython : Value → Type 0
  IsPython null = Unit
  IsPython (bool b) = Unit
  IsPython (int z) = Unit
  IsPython (float f) = f < 2 ^ 64
  IsPython (str s) = Unit
  IsPython (bytes c b) = All IsByte b
  IsPython (sequence c xs) = ItemsArePython xs
  IsPython (dict fs) = FieldsArePython fs
  IsPython other = Unit

  pub ItemsArePython : Items → Type 0
  ItemsArePython no_items = Unit
  ItemsArePython (item v xs) = IsPython v × ItemsArePython xs

  pub FieldsArePython : Fields → Type 0
  FieldsArePython no_fields = Unit
  FieldsArePython (field k v fs) = Absent k fs × IsPython v × FieldsArePython fs

-- `xs` with `ys` behind it.
unfoldable pub join_items : Items → Items → Items
join_items no_items ys = ys
join_items (item v xs) ys = item v (join_items xs ys)

unfoldable pub join_fields : Fields → Fields → Fields
join_fields no_fields gs = gs
join_fields (field k v fs) gs = field k v (join_fields fs gs)

pub join_items-append_item :
    (xs : Items) (v : Value) (ys : Items)
    → join_items (append_item xs v) ys ≡ join_items xs (item v ys)
unfolding join_items append_item
join_items-append_item no_items v ys = refl
join_items-append_item (item w xs) v ys = ap (item w) (join_items-append_item xs v ys)

pub join_items-no_items : (xs : Items) → join_items xs no_items ≡ xs
unfolding join_items
join_items-no_items no_items = refl
join_items-no_items (item v xs) = ap (item v) (join_items-no_items xs)

pub join_fields-no_fields : (fs : Fields) → join_fields fs no_fields ≡ fs
unfolding join_fields
join_fields-no_fields no_fields = refl
join_fields-no_fields (field k v fs) = ap (field k v) (join_fields-no_fields fs)

-- A new key goes to the end.
pub join_fields-dict_set :
    (fs : Fields) (k : Key) (v : Value) (gs : Fields)
    → Absent k fs
    → join_fields (dict_set fs k v) gs ≡ join_fields fs (field k v gs)
unfolding join_fields dict_set
join_fields-dict_set no_fields k v gs h = refl
join_fields-dict_set (field j w fs) k v gs h =
    rw h.0 (ap (field j w) (join_fields-dict_set fs k v gs h.1))

-- Keys other than the one that is set stay absent.
pub Absent-dict_set :
    (fs : Fields) (j k : Key) (v : Value)
    → Absent j fs
    → key_eq k j ≡ false
    → Absent j (dict_set fs k v)
unfolding dict_set
Absent-dict_set no_fields j k v h e = (e, tt)
Absent-dict_set (field i w fs) j k v h e = elim (Bool-cases (key_eq i k)) [
  | inl c ↦ rw c h
  | inr c ↦ rw c (h.0, Absent-dict_set fs j k v h.1 e)
]

pub Absent-plain : (k : Key) (fs : Fields) → Absent k fs → Absent k (plain_fields fs)
unfolding plain
Absent-plain k no_fields h = tt
Absent-plain k (field j v fs) h = (h.0, Absent-plain k fs h.1)

str_eq_comm : (s t : Str) → str_eq s t ≡ str_eq t s
unfolding str_eq
str_eq_comm [] [] = refl
str_eq_comm [] (b ∷ t) = refl
str_eq_comm (a ∷ s) [] = refl
str_eq_comm (a ∷ s) (b ∷ t) = ground (arith, str_eq_comm s t)

pub key_eq_comm : (j k : Key) → key_eq j k ≡ key_eq k j
key_eq_comm (str_key s) (str_key t) = str_eq_comm s t
key_eq_comm (str_key s) other_key = refl
key_eq_comm other_key (str_key t) = refl
key_eq_comm other_key other_key = refl

-- No key of `fs` is in `acc`.
abbrev pub Fresh : Fields → Fields → Type 0
Fresh no_fields acc = Unit
Fresh (field k v fs) acc = Absent k acc × Fresh fs acc

pub Fresh-empty : (fs : Fields) → Fresh fs no_fields
Fresh-empty no_fields = tt
Fresh-empty (field k v fs) = (tt, Fresh-empty fs)

pub Fresh-dict_set :
    (fs acc : Fields) (k : Key) (v : Value)
    → Fresh fs acc
    → Absent k fs
    → Fresh fs (dict_set acc k v)
Fresh-dict_set no_fields acc k v h a = tt
Fresh-dict_set (field j w fs) acc k v h a =
    (Absent-dict_set acc j k v h.0 (key_eq_comm k j ∙ a.0), Fresh-dict_set fs acc k v h.1 a.1)
