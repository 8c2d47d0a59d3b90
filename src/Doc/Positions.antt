-- ===== src/Doc/Positions.antt =====
-- The decoder on any bytes: it ends, it stays in the buffer, and it raises nothing but ValueError.
use Prim.Native.String.{String}
use pyx.Base.{ℕ, zero, suc, ◌+◌, ◌*◌, ◌≤◌, ◌<◌, ◌≡◌, refl, ltb, leb, ◌==◌, length, arith, none}
use pyx.Base.Bytes.{Bytes}
use pyx.Base.Reading.{slice}
use pyx.Result.{
  Result, IsValueError, Ensures, returns, raises, Ensures-if, Ensures-bind, Ensures-mono,
}
use pyx.Doc.Utf8.RoundTrip.{utf8_decode-Ensures}
use pyx.Doc.Varint.Read.{Advances, index-Ensures, read_varint-Advances}
use pyx.Doc.Value.{Value, Items, Fields, str_key, dict, no_items, no_fields, append_item, dict_set}
use pyx.Doc.Decode.{
  unpack_from, read_word, read_sized, read_header, read_entry_key, read_payload, read_value,
  read_items, read_fields, make_str, make_bytes, require_dict, decode,
}
use pyx.Doc.Encode.{
  tag_null, tag_false, tag_true, tag_i64, tag_f64, tag_string, tag_bytes, tag_array, tag_object,
}

-- A read at `pos` that ends no earlier and within the buffer, or raises a ValueError.
abbrev Stays : Bytes → ℕ → Result (Value × ℕ) → Type 0
Stays buf pos r = Ensures (λ (v, end). (pos ≤ end) × (end ≤ length buf)) IsValueError r

unpack_from-Ensures :
    (w : ℕ) (buf : Bytes) (pos : ℕ)
    → pos + w ≤ length buf
    → Ensures (λ n. Unit {0}) IsValueError (unpack_from w buf pos)
unfolding unpack_from
unpack_from-Ensures w buf pos h =
    Ensures-if (leb (pos + w) (length buf)) (λ _. returns tt) λ e. absurd (ground arith)

module _ (what : String) (buf : Bytes) (pos : ℕ) where
  read_word-Stays : (make : ℕ → Value) → Stays buf pos (read_word what make buf pos)
  unfolding read_word
  read_word-Stays make =
      Ensures-if (ltb (length buf) (pos + 8)) (λ _. raises tt)
        λ fits.
          Ensures-bind (unpack_from-Ensures 8 buf pos (ground arith)) λ n _. returns (ground arith)

  read_sized-Stays :
      (make : Bytes → Result Value)
      → ((b : Bytes) → Ensures (λ v. Unit {0}) IsValueError (make b))
      → Stays buf pos (read_sized what make buf pos)
  unfolding read_sized
  read_sized-Stays make h = Ensures-bind (read_varint-Advances buf pos) λ (n, p) adv.
      Ensures-if (ltb (length buf) (p + n)) (λ _. raises tt)
        λ fits. Ensures-bind (h (slice buf p (p + n))) λ v _. returns (ground arith)

  pub read_header-Ensures :
      (no_body : String)
      → Ensures
          (λ (start, end). (start ≡ pos + 4) × (start ≤ end) × (end ≤ length buf))
          IsValueError
          (read_header what no_body buf pos)
  unfolding read_header
  read_header-Ensures no_body =
      Ensures-if (ltb (length buf) (pos + 4)) (λ _. raises tt)
        λ fits. Ensures-bind (unpack_from-Ensures 4 buf pos (ground arith)) λ n _.
          Ensures-if (ltb (length buf) (pos + 4 + n)) (λ _. raises tt)
            λ inside. returns (refl, omega arith, ground arith)

read_entry_key-Ensures :
    (buf : Bytes) (pos end : ℕ)
    → pos < end
    → end ≤ length buf
    → Ensures
        (λ (tag, key, start). (pos + 1 < start) × (start ≤ end))
        IsValueError
        (read_entry_key buf pos end)
unfolding read_entry_key
read_entry_key-Ensures buf pos end h inside =
    Ensures-bind (index-Ensures buf pos (omega arith)) λ tag _.
      Ensures-bind (read_varint-Advances buf (pos + 1)) λ (klen, start) adv.
        Ensures-if (ltb end (start + klen)) (λ _. raises tt)
          λ fits.
            Ensures-bind (utf8_decode-Ensures (slice buf start (start + klen)))
              λ key _. returns (ground arith)

make_str-Ensures : (b : Bytes) → Ensures (λ v. Unit {0}) IsValueError (make_str b)
make_str-Ensures b = Ensures-bind (utf8_decode-Ensures b) λ s _. returns tt

-- One induction on the fuel: a byte is passed at every call but the loops', which pass one at the
-- read that they make, so the fuel stays above twice the bytes that are left.
mutual
  unfolding read_payload

  read_payload-Stays :
      (f : ℕ) (buf : Bytes) (pos tag : ℕ)
      → pos ≤ length buf
      → 2 * length buf + 1 < f + 2 * pos
      → Stays buf pos (read_payload f buf pos tag)
  read_payload-Stays zero buf pos tag inside enough = absurd (omega arith)
  read_payload-Stays (suc f) buf pos tag inside enough =
      Ensures-if (tag == tag_null) (λ _. returns (omega arith))
        λ _.
          Ensures-if (tag == tag_false) (λ _. returns (omega arith))
            λ _.
              Ensures-if (tag == tag_true) (λ _. returns (omega arith))
                λ _.
                  Ensures-if (tag == tag_i64) (λ _. read_word-Stays _ buf pos _)
                    λ _.
                      Ensures-if (tag == tag_f64) (λ _. read_word-Stays _ buf pos _)
                        λ _.
                          Ensures-if (tag == tag_string)
                            (λ _. read_sized-Stays _ buf pos make_str make_str-Ensures)
                            λ _.
                              Ensures-if (tag == tag_bytes)
                                (λ _. read_sized-Stays _ buf pos make_bytes (λ b. returns tt))
                                λ _.
                                  Ensures-if (tag == tag_array)
                                    (λ _.
                                      Ensures-bind (read_header-Ensures _ buf pos _)
                                        λ (start, end) h.
                                          Ensures-bind
                                            (read_items-Ensures f buf start end no_items
                                              (omega arith) h.2 (omega arith))
                                            λ xs _. returns (omega arith))
                                    λ _.
                                      Ensures-if (tag == tag_object)
                                        (λ _.
                                          Ensures-bind (read_header-Ensures _ buf pos _)
                                            λ (start, end) h.
                                              Ensures-bind
                                                (read_fields-Ensures f buf start end no_fields
                                                  (omega arith) h.2 (omega arith))
                                                λ fs _. returns (omega arith))
                                        (λ _. raises tt)

  read_value-Advances :
      (f : ℕ) (buf : Bytes) (pos : ℕ)
      → pos ≤ length buf
      → 2 * length buf < f + 2 * pos
      → Advances buf pos (read_value f buf pos)
  read_value-Advances zero buf pos inside enough = absurd (omega arith)
  read_value-Advances (suc f) buf pos inside enough =
      Ensures-if (leb (length buf) pos) (λ _. raises tt)
        λ before. Ensures-bind (index-Ensures buf pos (ground arith)) λ tag _.
          Ensures-mono (read_payload-Stays f buf (pos + 1) tag (ground arith) (omega arith))
            λ (v, end) h. omega arith

  read_items-Ensures :
      (f : ℕ) (buf : Bytes) (pos end : ℕ) (items : Items)
      → pos ≤ length buf
      → end ≤ length buf
      → 2 * length buf + 1 < f + 2 * pos
      → Ensures (λ xs. Unit {0}) IsValueError (read_items f buf pos end items)
  read_items-Ensures zero buf pos end items inside fits enough = absurd (omega arith)
  read_items-Ensures (suc f) buf pos end items inside fits enough =
      Ensures-if (ltb pos end)
        (λ more. Ensures-bind (read_value-Advances f buf pos inside (omega arith)) λ (v, pos') h.
          read_items-Ensures f buf pos' end (append_item items v) h.1 fits (omega arith))
        (λ _. returns tt)

  read_fields-Ensures :
      (f : ℕ) (buf : Bytes) (pos end : ℕ) (out : Fields)
      → pos ≤ length buf
      → end ≤ length buf
      → 2 * length buf + 1 < f + 2 * pos
      → Ensures (λ fs. Unit {0}) IsValueError (read_fields f buf pos end out)
  read_fields-Ensures zero buf pos end out inside fits enough = absurd (omega arith)
  read_fields-Ensures (suc f) buf pos end out inside fits enough =
      Ensures-if (ltb pos end)
        (λ more.
          Ensures-bind (read_entry_key-Ensures buf pos end (ground arith) fits)
            λ (tag, key, start) k.
              Ensures-bind (read_payload-Stays f buf start tag (omega arith) (omega arith))
                λ (v, pos') h.
                  read_fields-Ensures f buf pos' end (dict_set out (str_key key) v) h.1 fits
                    (omega arith))
        (λ _. returns tt)

abbrev pub IsDict : Value → Type 0
IsDict (dict fs) = Unit
IsDict _ = ⊥

require_dict-Ensures : (v : Value) → Ensures IsDict IsValueError (require_dict v)
require_dict-Ensures (dict fs) = returns tt
require_dict-Ensures _ = raises tt

-- On any bytes the pure-Python decoder ends, with a dict or with a ValueError: no IndexError, no
-- struct.error, and the fuel of the model is never short.
pub decode-Ensures : (bs : Bytes) → Ensures IsDict IsValueError (decode none bs)
unfolding decode
decode-Ensures bs =
    Ensures-if (ltb (length bs) 1) (λ _. raises tt)
      λ nonempty. Ensures-bind (index-Ensures bs 0 (ground arith)) λ tag _.
        Ensures-if (tag == tag_object)
          (λ _.
            Ensures-bind (read_value-Advances (2 * length bs + 2) bs 0 (omega arith) (omega arith))
              λ (v, _) _. require_dict-Ensures v)
          (λ _. raises tt)
