-- ===== src/Ffi/Agree.antt =====
-- What ctypes is told in bindings/python/pyx/_ffi.py, against what include/pyx.h declares.
use pyx.Base.{◌≡◌, refl, Bool, Option, some, none, List, [], ◌∷◌, All, All-append}
use pyx.Ffi.{
  Symbol, CType, Members, Signature, signature, name_of, nothing, c_int, c_uint8, c_uint32,
  c_uint64, c_int64, c_size_t, c_double, c_char_p, c_void_p, pointer, structure, union_of,
  no_members, member,
}
use pyx.Ffi.Signatures.{
  sections, joined, signatures, versioning, lifecycle, transactions, buffer, doc_ops, batched,
  iteration, collections, indexes, snapshots, optimistic, compound,
}
use pyx.Ffi.Header as Header
use pyx.Ffi.Header.{Decl, DeclFields, prototype, engine_only}
use pyx.Ffi.Imports.{imported, import_ffi, import_ffi-imported}
use pyx.Ffi.Names.{times, each_once}
use mathlib.Core.List.{map}

-- What the caller and the callee have to agree on: the representation of a value, and what a pointer points to.
mutual
  pub data Shape : Type 0 where
    no_value int_shape byte word32 word64 signed64 float64 size hidden : Shape
    address : Shape → Shape
    record_of either_of : Shapes → Shape

  pub data Shapes : Type 0 where
    no_shapes : Shapes
    shape : Shape → Shapes → Shapes

-- A `c_char_p` is the address of bytes, a `c_void_p` one of a struct that the header hides.
unfoldable mutual
  pub c_shape : CType → Shape
  c_shape nothing = no_value
  c_shape c_int = int_shape
  c_shape c_uint8 = byte
  c_shape c_uint32 = word32
  c_shape c_uint64 = word64
  c_shape c_int64 = signed64
  c_shape c_size_t = size
  c_shape c_double = float64
  c_shape c_char_p = address byte
  c_shape c_void_p = address hidden
  c_shape (pointer t) = address (c_shape t)
  c_shape (structure ms) = record_of (c_shapes ms)
  c_shape (union_of ms) = either_of (c_shapes ms)

  pub c_shapes : Members → Shapes
  c_shapes no_members = no_shapes
  c_shapes (member name t ms) = shape (c_shape t) (c_shapes ms)

unfoldable mutual
  pub d_shape : Decl → Shape
  d_shape Header.void = no_value
  d_shape Header.enum = int_shape
  d_shape Header.char = byte
  d_shape Header.uint8_t = byte
  d_shape Header.uint32_t = word32
  d_shape Header.uint64_t = word64
  d_shape Header.int64_t = signed64
  d_shape Header.double = float64
  d_shape Header.size_t = size
  d_shape Header.opaque = hidden
  d_shape (Header.ptr d) = address (d_shape d)
  d_shape (Header.struct fs) = record_of (d_shapes fs)
  d_shape (Header.union fs) = either_of (d_shapes fs)

  pub d_shapes : DeclFields → Shapes
  d_shapes Header.no_fields = no_shapes
  d_shapes (Header.field name d fs) = shape (d_shape d) (d_shapes fs)

-- The declaration of a function, in the header or else in the engine.
abbrev pub declaration :
    Option (Decl × List Decl) → Option (Decl × List Decl) → Option (Decl × List Decl)
declaration (some d) other = some d
declaration none other = other

-- The result and the arguments have the shapes of the declaration.
abbrev pub AgreeWith : Option (Decl × List Decl) → Signature → Type 0
AgreeWith none fn = ⊥
AgreeWith (some (result, params)) (signature name restype argtypes) =
    (c_shape restype ≡ d_shape result) × (map c_shape argtypes ≡ map d_shape params)

abbrev pub Agrees : Signature → Type 0
Agrees fn = AgreeWith (declaration (prototype (name_of fn)) (engine_only (name_of fn))) fn

versioning-Agree : All Agrees versioning
unfolding prototype engine_only c_shape d_shape
versioning-Agree =
    ((refl, refl), ((refl, refl), ((refl, refl), ((refl, refl), ((refl, refl), tt)))))

lifecycle-Agree : All Agrees lifecycle
unfolding prototype engine_only c_shape d_shape
lifecycle-Agree = ((refl, refl), ((refl, refl), ((refl, refl), ((refl, refl), tt))))

transactions-Agree : All Agrees transactions
unfolding prototype engine_only c_shape d_shape
transactions-Agree = ((refl, refl), ((refl, refl), ((refl, refl), tt)))

buffer-Agree : All Agrees buffer
unfolding prototype engine_only c_shape d_shape
buffer-Agree = ((refl, refl), tt)

doc_ops-Agree : All Agrees doc_ops
unfolding prototype engine_only c_shape d_shape
doc_ops-Agree = (
  (refl, refl),
  ((refl, refl), ((refl, refl), ((refl, refl), ((refl, refl), ((refl, refl), tt))))),
)

batched-Agree : All Agrees batched
unfolding prototype engine_only c_shape d_shape
batched-Agree = ((refl, refl), ((refl, refl), tt))

iteration-Agree : All Agrees iteration
unfolding prototype engine_only c_shape d_shape
iteration-Agree = ((refl, refl), ((refl, refl), ((refl, refl), tt)))

collections-Agree : All Agrees collections
unfolding prototype engine_only c_shape d_shape
collections-Agree = ((refl, refl), tt)

indexes-Agree : All Agrees indexes
unfolding prototype engine_only c_shape d_shape
indexes-Agree = (
  (refl, refl),
  ((refl, refl), ((refl, refl), ((refl, refl), ((refl, refl), ((refl, refl), tt))))),
)

snapshots-Agree : All Agrees snapshots
unfolding prototype engine_only c_shape d_shape
snapshots-Agree = (
  (refl, refl),
  ((refl, refl), ((refl, refl), ((refl, refl), ((refl, refl), ((refl, refl), tt))))),
)

optimistic-Agree : All Agrees optimistic
unfolding prototype engine_only c_shape d_shape
optimistic-Agree = (
  (refl, refl),
  (
    (refl, refl),
    (
      (refl, refl),
      ((refl, refl), ((refl, refl), ((refl, refl), ((refl, refl), ((refl, refl), tt))))),
    ),
  ),
)

compound-Agree : All Agrees compound
unfolding prototype engine_only c_shape d_shape
compound-Agree = ((refl, refl), ((refl, refl), ((refl, refl), tt)))

All-joined : (parts : List (List Signature)) → All (All Agrees) parts → All Agrees (joined parts)
All-joined [] h = tt
All-joined (fns ∷ parts) h = All-append Agrees fns (joined parts) h.0 (All-joined parts h.1)

signatures-Agree : All Agrees signatures
signatures-Agree = All-joined sections (
  versioning-Agree,
  (
    lifecycle-Agree,
    (
      transactions-Agree,
      (
        buffer-Agree,
        (
          doc_ops-Agree,
          (
            batched-Agree,
            (
              iteration-Agree,
              (
                collections-Agree,
                (indexes-Agree, (snapshots-Agree, (optimistic-Agree, (compound-Agree, tt)))),
              ),
            ),
          ),
        ),
      ),
    ),
  ),
)

-- If the import of the module succeeds, it has bound each of its names once, with a result and arguments of the shapes
-- that include/pyx.h declares or, for a function that the header lacks, that src/c_api.zig does: integers of the same
-- width and signedness, an enumeration counted as an int and a char as an unsigned byte, pointers to the same, structs
-- and unions member by member.
pub import_ffi-Agrees :
    (exports : Symbol → Bool) (bound : List Signature)
    → import_ffi exports ≡ imported bound
    → ((name : Symbol) → times name bound ≡ 1) × All Agrees bound
import_ffi-Agrees exports bound e =
    rw (import_ffi-imported exports bound e) (each_once, signatures-Agree)
