-- ===== src/Native/Get/Tests.antt =====
-- Reads of a small store through the C extension, bindings/python/pyx/_native.c.
use pyx.Base.{
  ℕ, ◌<◌, ◌≤◌, ◌≡◌, refl, ap, Bool, true, false, Option, none, some, length, take, [], ◌∷◌, ◌==◌,
  ltb, if◌then◌else◌, arith,
}
use pyx.Base.Bytes.{Bytes}
use pyx.Base.Int.{ℤ, pos, negsuc}
use pyx.Errors.{pyx_ok, pyx_not_found, pyx_invalid_arg, pyx_buffer_too_small, pyx_error}
use pyx.Result.{Exn, raised}
use pyx.Doc.Decode.{decode}
use pyx.Collection.{Engine, c_uint64, read_buf}
use pyx.Collection as Collection
use pyx.Collection.Tests.Table.{Rows, rows, rows-KeyValue}
use pyx.Native.Get.{ZeroCopy, reply, call_get_and_decode, get_bound, get}
use pyx.Native.Get.Agree.{ReadsStore, get-get_bound}

abbrev pub copy_at : Option Bytes → ℕ → Rows → ℤ × Bytes × ℕ × Rows
copy_at none cap s = (pyx_not_found, [], 0, s)
copy_at (some b) cap s =
    if ltb cap (length b) then (pyx_buffer_too_small, [], length b, s) else (pyx_ok, b, length b, s)

abbrev pub copy : ZeroCopy Rows
copy handle name id cap s = copy_at (s.row id) cap s

take-length : (b : Bytes) → take (length b) b ≡ b
take-length [] = refl
take-length (x ∷ b) = ap (λ (l : Bytes). x ∷ l) (take-length b)

copy-hit :
    (b : Bytes) (x : Option Bytes) (cap : ℕ) (s : Rows)
    → x ≡ some b
    → length b ≤ cap
    → ((copy_at x cap s).0 ≡ pyx_ok) × (take (copy_at x cap s).2 (copy_at x cap s).1 ≡ b)
copy-hit b x cap s e fits =
    let test : ltb cap (length b) ≡ false = ground arith in rw (e, test) (refl, take-length b)

copy-short :
    (b : Bytes) (x : Option Bytes) (cap : ℕ) (s : Rows)
    → x ≡ some b
    → cap < length b
    → ((copy_at x cap s).0 ≡ pyx_buffer_too_small)
      × ((copy_at x cap s).2 ≡ length b)
      × ((copy_at x cap s).3 ≡ s)
copy-short b x cap s e big =
    let test : ltb cap (length b) ≡ true = ground arith in rw (e, test) (refl, refl, refl)

pub copy-ReadsStore : ReadsStore rows rows-KeyValue 1 copy
copy-ReadsStore = record {
  hit = λ name b id cap s there fits. copy-hit b (s.row id) cap s there fits;
  short = λ name b id cap s there big.
      let (rc, size, same) = copy-short b (s.row id) cap s there big in (rc, size, rw same there);
  miss = λ name id cap s gone. rw gone refl;
}

-- {} under 3.
abbrev empty_doc : Bytes
empty_doc = 8 ∷ 0 ∷ 0 ∷ 0 ∷ 0 ∷ []

abbrev one : Rows
one = record { row = λ i. if i == 3 then some empty_doc else none; next = 4 }

row_filled :
    (found : Bool) (b : Bytes)
    → ◌≡◌ {A = Option Bytes} (if found then some empty_doc else none) (some b)
    → 0 < length b
row_filled true b e = let same : ◌≡◌ {A = Bytes} empty_doc b = cc in rw (← same) (omega arith)
row_filled false b e = absurd (cc)

get-get_bound_example :
    (get copy (decode none) true (Collection.get rows []) (some 1) [] (pos 3) one).0
    ≡ (get copy (decode none) false (Collection.get rows []) (some 1) [] (pos 3) one).0
get-get_bound_example =
    get-get_bound rows rows-KeyValue 1 copy (decode none) copy-ReadsStore [] (pos 3) one
      (λ b there. (row_filled _ b there, refl))

-- A status that is an error: `check` makes a PyxError of it, the extension a RuntimeError.
abbrev corrupt : ZeroCopy Rows
corrupt handle name id cap s = (negsuc 3, [], 0, s)

error_class :
    (get corrupt (decode none) true (Collection.get rows []) (some 1) [] (pos 3) one).0
    ≡ raised (Exn.runtime_error "pyx_get_zero_copy")
unfolding get get_bound call_get_and_decode reply
error_class = refl

closed_class :
    (get corrupt (decode none) true (Collection.get rows []) none [] (pos 3) one).0
    ≡ raised (
        Exn.raised_pyx
          (record { cls = pyx_error; status = pyx_invalid_arg; message = "db is closed" }))
unfolding get get_bound
closed_class = refl
