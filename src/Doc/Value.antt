-- ===== src/Doc/Value.antt =====
-- The Python values that bindings/python/pyx/_doc.py encodes and decodes.
pub mod Dict
use pyx.Base.{ℕ, Bool, true, false, ◌&&◌, List, [], ◌∷◌, ◌==◌, if◌then◌else◌}
use pyx.Base.Bytes.{Bytes}
use pyx.Base.Int.{ℤ}
use pyx.Doc.Utf8.{Str}

-- The classes that one test of `_value_tag` takes together.
pub data BytesClass : Type 0 where
  bytes_class bytearray_class memoryview_class : BytesClass

pub data SequenceClass : Type 0 where
  list_class tuple_class : SequenceClass

-- A dict's key; `other_key` is any object that is no str.
pub data Key : Type 0 where
  str_key : Str → Key
  other_key : Key

-- A float is its IEEE 754 bit pattern, a number below 2 ^ 64. `other` is an object of any class that
-- the codec does not know. `Items` and `Fields` are what a list or tuple and a dict hold, in order.
mutual
  pub data Value : Type 0 where
    null : Value
    bool : Bool → Value
    int : ℤ → Value
    float : ℕ → Value
    str : Str → Value
    bytes : BytesClass → Bytes → Value
    sequence : SequenceClass → Items → Value
    dict : Fields → Value
    other : Value

  pub data Items : Type 0 where
    no_items : Items
    item : Value → Items → Items

  pub data Fields : Type 0 where
    no_fields : Fields
    field : Key → Value → Fields → Fields

-- `items.append(v)`
unfoldable pub append_item : Items → Value → Items
append_item no_items v = item v no_items
append_item (item w xs) v = item w (append_item xs v)

-- `a == b` on two texts
unfoldable pub str_eq : Str → Str → Bool
str_eq [] [] = true
str_eq (a ∷ s) (b ∷ t) = a == b && str_eq s t
str_eq _ _ = false

abbrev pub key_eq : Key → Key → Bool
key_eq (str_key s) (str_key t) = str_eq s t
key_eq _ _ = false

-- `out[key] = v`: a key that is there keeps its place, a new one comes last.
unfoldable pub dict_set : Fields → Key → Value → Fields
dict_set no_fields k v = field k v no_fields
dict_set (field j w fs) k v = if key_eq j k then field j v fs else field j w (dict_set fs k v)

-- What reading back makes of a value: tuples become lists, bytearrays and memoryviews become bytes.
unfoldable mutual
  pub plain : Value → Value
  plain null = null
  plain (bool b) = bool b
  plain (int z) = int z
  plain (float f) = float f
  plain (str s) = str s
  plain (bytes c b) = bytes bytes_class b
  plain (sequence c xs) = sequence list_class (plain_items xs)
  plain (dict fs) = dict (plain_fields fs)
  plain other = other

  pub plain_items : Items → Items
  plain_items no_items = no_items
  plain_items (item v xs) = item (plain v) (plain_items xs)

  pub plain_fields : Fields → Fields
  plain_fields no_fields = no_fields
  plain_fields (field k v fs) = field k (plain v) (plain_fields fs)
