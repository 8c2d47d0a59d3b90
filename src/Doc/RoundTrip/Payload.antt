-- ===== src/Doc/RoundTrip/Payload.antt =====
-- `_write_value_payload` against `_read_payload`, by one induction on the value.
use pyx.Base.{
  ℕ, zero, suc, ◌+◌, ◌*◌, ◌^◌, ◌<◌, ◌≡◌, refl, sym, ap, ◌∙◌, subst, [], ◌++◌, append_assoc,
  append-nil, length, lengths, arith, Bool, true, false, ltb, ltb→lt, Bool-cases, inl, inr, All,
  All-append,
}
use pyx.Base.Bytes.{Bytes, IsByte, le_bytes, length-le_bytes, le_bytes-IsByte}
use pyx.Base.Int.{ℤ, in_i64, in_i64→InI64, to_word, to_word-lt, of_word-to_word}
use pyx.Base.Reading.{At, At-append}
use pyx.Result.{ok, ok_pair, ok-injective, >>=-eq-ok}
use pyx.Doc.Utf8.{Str, utf8_encode}
use pyx.Doc.Utf8.RoundTrip.{utf8_decode-utf8_encode}
use pyx.Doc.Varint.Write.{Leb128, Leb128-IsByte, write_varint-Leb128}
use pyx.Doc.Value.{
  Value, Items, Fields, null, bool, int, float, str, bytes, sequence, dict, no_items, no_fields,
  plain, plain_items, plain_fields, list_class, bytes_class,
}
use pyx.Doc.Value.Dict.{Fresh, Fresh-empty, join_items, join_fields}
use pyx.Doc.Encode.{value_tag, to_bytes4, write_body, write_sized, write_value_payload}
use pyx.Doc.Decode.{make_str, make_bytes}
use pyx.Doc.Strict.{strict_payload, strict_items, strict_fields}
use pyx.Doc.RoundTrip.Parts.{read_word-At, read_header-At, read_sized-At}

-- `out` is `buf` with bytes behind it that `R` says how to read, if they are fewer than 2 ^ 70.
pub record Written (buf out : Bytes) (R : Bytes → Type 0) : Type 0 where
  pub tail : Bytes
  pub splits : out ≡ buf ++ tail
  pub all_bytes : All IsByte tail
  pub reads : length tail < 2 ^ 70 → R tail

abbrev pub Fuel : ℕ → Bytes → ℕ → Type 0
Fuel f input pos = 2 * length input + 1 < f + 2 * pos

abbrev pub Reads : Value → ℕ → Bytes → Type 0
Reads v tag bs =
    (f : ℕ) (input : Bytes) (pos : ℕ) (rest : Bytes)
    → Fuel f input pos
    → At input pos (bs ++ rest)
    → strict_payload f input pos tag ≡ ok (plain v, pos + length bs)

abbrev pub PayloadReads : Value → Bytes → Type 0
PayloadReads v bs = (tag : ℕ) → value_tag v ≡ ok tag → Reads v tag bs

abbrev pub ItemsRead : Items → Bytes → Type 0
ItemsRead xs bs =
    (f : ℕ) (input : Bytes) (pos end : ℕ) (acc : Items) (rest : Bytes)
    → Fuel f input pos
    → end ≡ pos + length bs
    → At input pos (bs ++ rest)
    → strict_items f input pos end acc ≡ ok (join_items acc (plain_items xs))

abbrev pub FieldsRead : Fields → Bytes → Type 0
FieldsRead fs bs =
    (f : ℕ) (input : Bytes) (pos end : ℕ) (acc : Fields) (rest : Bytes)
    → Fuel f input pos
    → end ≡ pos + length bs
    → Fresh fs acc
    → At input pos (bs ++ rest)
    → strict_fields f input pos end acc ≡ ok (join_fields acc (plain_fields fs))

-- The fuel is never used up at a position inside the buffer.
pub spend {ℓ} :
    (P : ℕ → Type ℓ) (f : ℕ) (input : Bytes) (pos : ℕ) (rest : Bytes)
    → Fuel f input pos
    → At input pos rest
    → ((g : ℕ) → Fuel (suc g) input pos → P (suc g))
    → P f
spend P zero input pos rest enough here k = absurd (omega (arith, here.total))
spend P (suc g) input pos rest enough here k = k g enough

written :
    {R : Bytes → Type 0} (buf out tail : Bytes)
    → ok (buf ++ tail) ≡ ok out
    → All IsByte tail
    → (length tail < 2 ^ 70 → R tail)
    → Written buf out R
written buf out tail e b r = record {
  tail = tail;
  splits = sym (ok-injective e);
  all_bytes = b;
  reads = r;
}

-- A payload's reader, for the tag that `value_tag` gave.
leaf :
    (v : Value) (k : ℕ) (bs : Bytes)
    → value_tag v ≡ ok k
    → ((f : ℕ) (input : Bytes) (pos : ℕ) (rest : Bytes)
        → Fuel (suc f) input pos
        → At input pos (bs ++ rest)
        → strict_payload (suc f) input pos k ≡ ok (plain v, pos + length bs))
    → PayloadReads v bs
leaf v k bs tagged h tag e =
    subst (λ t. Reads v t bs) (ok-injective (sym tagged ∙ e))
      λ f input pos rest enough here.
        spend (λ g. strict_payload g input pos k ≡ ok (plain v, pos + length bs)) f input pos
          (bs ++ rest) enough here λ g more. h g input pos rest more here

pub write_body-eq-ok :
    (buf body out : Bytes)
    → write_body buf body ≡ ok out
    → (length body < 2 ^ 32) × (ok (buf ++ (le_bytes 4 (length body) ++ body)) ≡ ok out)
unfolding write_body to_bytes4
write_body-eq-ok buf body out e = elim (Bool-cases (ltb (length body) (2 ^ 32))) [
  | inl fits ↦ (ltb→lt (length body) (2 ^ 32) fits, rw (fits) at e)
  | inr big ↦ absurd (ground arith)
]

-- A varint length and the bytes behind it.
pub write_sized-Leb128 :
    (buf b : Bytes) → (lb : Bytes) × (write_sized buf b ≡ buf ++ (lb ++ b)) × Leb128 (length b) lb
unfolding write_sized
write_sized-Leb128 buf b =
    let (lb, e, l) = write_varint-Leb128 buf (length b) in (lb, rw (e, append_assoc), l)

pub null_payload : (buf out : Bytes) → ok buf ≡ ok out → Written buf out (PayloadReads null)
unfolding value_tag strict_payload plain
null_payload buf out e =
    written buf out [] (rw append-nil e) tt
      λ small. leaf null 0 [] refl λ f input pos rest enough here. ok_pair refl (omega arith)

pub bool_payload :
    (b : Bool) (buf out : Bytes) → ok buf ≡ ok out → Written buf out (PayloadReads (bool b))
unfolding value_tag strict_payload plain
bool_payload false buf out e =
    written buf out [] (rw append-nil e) tt λ small.
      leaf (bool false) 1 [] refl λ f input pos rest enough here. ok_pair refl (omega arith)
bool_payload true buf out e =
    written buf out [] (rw append-nil e) tt
      λ small. leaf (bool true) 2 [] refl λ f input pos rest enough here. ok_pair refl (omega arith)

pub int_payload :
    (z : ℤ) (buf out : Bytes)
    → write_value_payload (int z) buf ≡ ok out
    → Written buf out (PayloadReads (int z))
unfolding write_value_payload value_tag strict_payload plain
int_payload z buf out e = elim (Bool-cases (in_i64 z)) [
  | inr big ↦ absurd (ground arith)
  | inl fits ↦
      written buf out (le_bytes 8 (to_word z)) (rw fits at e) (le_bytes-IsByte 8 (to_word z))
        λ small. leaf (int z) 3 (le_bytes 8 (to_word z)) refl λ f input pos rest enough here.
          read_word-At _ _ (to_word z) rest (to_word-lt z (in_i64→InI64 z fits)) here
          ∙ ok_pair (ap int (of_word-to_word z (in_i64→InI64 z fits)))
              (ap (λ (k : ℕ). pos + k) (sym (length-le_bytes 8 (to_word z))))
]

pub float_payload :
    (n : ℕ) (buf out : Bytes)
    → n < 2 ^ 64
    → write_value_payload (float n) buf ≡ ok out
    → Written buf out (PayloadReads (float n))
unfolding write_value_payload value_tag strict_payload plain
float_payload n buf out fits e = written buf out (le_bytes 8 n) e (le_bytes-IsByte 8 n) λ small.
    leaf (float n) 4 (le_bytes 8 n) refl λ f input pos rest enough here.
      read_word-At _ _ n rest fits here
      ∙ ok_pair refl (ap (λ (k : ℕ). pos + k) (sym (length-le_bytes 8 n)))

pub str_payload :
    (s : Str) (buf out : Bytes)
    → write_value_payload (str s) buf ≡ ok out
    → Written buf out (PayloadReads (str s))
unfolding write_value_payload value_tag strict_payload plain
str_payload s buf out e =
    let (sb, encoded, e') = >>=-eq-ok (utf8_encode s) _ e in
    let (lb, w, l) = write_sized-Leb128 buf sb in
    let (decoded, byte) = utf8_decode-utf8_encode s sb encoded in
    written buf out (lb ++ sb) (ap ok (sym w) ∙ e') (All-append IsByte lb sb (Leb128-IsByte l) byte)
      λ small. leaf (str s) 5 (lb ++ sb) refl λ f input pos rest enough here.
        read_sized-At sb l (omega lengths) _ make_str rest (rw decoded) (rw append_assoc at here)
        ∙ ok_pair refl (omega lengths)

pub bytes_payload :
    (v : Value) (b : Bytes) (buf out : Bytes)
    → value_tag v ≡ ok 6
    → plain v ≡ bytes bytes_class b
    → ok (write_sized buf b) ≡ ok out
    → All IsByte b
    → Written buf out (PayloadReads v)
bytes_payload v b buf out tagged read e byte =
    let (lb, w, l) = write_sized-Leb128 buf b in
    written buf out (lb ++ b) (ap ok (sym w) ∙ e) (All-append IsByte lb b (Leb128-IsByte l) byte)
      λ small. leaf v 6 (lb ++ b) tagged λ f input pos rest enough here.
        unfold strict_payload in
        (read_sized-At b l (omega lengths) _ make_bytes rest refl (rw append_assoc at here)
          ∙ ok_pair (sym read) (omega lengths))

-- A container: the length of its body, and the body.
body_bytes : (body : Bytes) → All IsByte body → All IsByte (le_bytes 4 (length body) ++ body)
body_bytes body h =
    All-append IsByte (le_bytes 4 (length body)) body (le_bytes-IsByte 4 (length body)) h

body_end :
    (pos : ℕ) (body : Bytes)
    → pos + 4 + length body ≡ pos + length (le_bytes 4 (length body) ++ body)
body_end pos body = omega (lengths, length-le_bytes 4 (length body))

body_At :
    {input : Bytes} {pos : ℕ} (body rest : Bytes)
    → At input pos ((le_bytes 4 (length body) ++ body) ++ rest)
    → At input pos (le_bytes 4 (length body) ++ (body ++ rest)) × At input (pos + 4) (body ++ rest)
body_At {input} {pos} body rest here =
    let split = rw append_assoc at here in
    (
      split,
      subst (λ k. At input (pos + k) (body ++ rest)) (length-le_bytes 4 (length body))
          (At-append (le_bytes 4 (length body)) (body ++ rest) split),
    )

pub sequence_payload :
    (v : Value) (xs : Items) (body buf out : Bytes)
    → value_tag v ≡ ok 7
    → plain v ≡ sequence list_class (plain_items xs)
    → Written [] body (ItemsRead xs)
    → write_body buf body ≡ ok out
    → Written buf out (PayloadReads v)
unfolding strict_payload join_items plain
sequence_payload v xs body buf out tagged read w e =
    let (fits, e') = write_body-eq-ok buf body out e in
    let reads = subst (ItemsRead xs) (sym w.splits) (w.reads (omega (arith, ap length w.splits))) in
    written buf out (le_bytes 4 (length body) ++ body) e'
      (body_bytes body (subst (All IsByte) (sym w.splits) w.all_bytes))
      λ small. leaf v 7 (le_bytes 4 (length body) ++ body) tagged λ f input pos rest enough here.
        let (head, inner) = body_At body rest here in
        rw
          (
            read_header-At "truncated array length" "truncated array body" body rest fits head,
            reads f input (pos + 4) (pos + 4 + length body) no_items rest (omega arith) refl inner,
          )
          (ok_pair (sym read) (body_end pos body))

pub dict_payload :
    (fs : Fields) (body buf out : Bytes)
    → Written [] body (FieldsRead fs)
    → write_body buf body ≡ ok out
    → Written buf out (PayloadReads (dict fs))
unfolding strict_payload value_tag plain join_fields
dict_payload fs body buf out w e =
    let (fits, e') = write_body-eq-ok buf body out e in
    let reads =
      subst (FieldsRead fs) (sym w.splits) (w.reads (omega (arith, ap length w.splits))) in
    written buf out (le_bytes 4 (length body) ++ body) e'
      (body_bytes body (subst (All IsByte) (sym w.splits) w.all_bytes))
      λ small.
        leaf (dict fs) 8 (le_bytes 4 (length body) ++ body) refl λ f input pos rest enough here.
          let (head, inner) = body_At body rest here in
          rw
            (
              read_header-At "truncated object length" "truncated object body" body rest fits head,
              reads f input (pos + 4) (pos + 4 + length body) no_fields rest (omega arith) refl
                  (Fresh-empty fs) inner,
            )
            (ok_pair refl (body_end pos body))
