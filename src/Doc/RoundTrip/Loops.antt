-- ===== src/Doc/RoundTrip/Loops.antt =====
-- The loops over the elements of an array and the entries of an object, and the induction that ties
-- them to the values inside.
use pyx.Base.{
  ℕ, zero, suc, ◌+◌, ◌*◌, ◌^◌, ◌<◌, ◌≡◌, ap, ◌∙◌, [], ◌∷◌, ◌++◌, append_assoc, length, lengths,
  arith, true, false, ltb, lt→ltb, All-append,
}
use pyx.Base.Bytes.{Bytes, IsByte}
use pyx.Base.Reading.{At, At-append, At-cons}
use pyx.Result.{ok}
use pyx.Doc.Utf8.{Str, utf8_encode, utf8_decode}
use pyx.Doc.Utf8.RoundTrip.{utf8_decode-utf8_encode}
use pyx.Doc.Varint.Write.{Leb128, Leb128-IsByte}
use pyx.Doc.Varint.Read.{index-At, At-lt}
use pyx.Doc.Value.{
  str_key, Value, Items, Fields, null, bool, no_items, item, no_fields, field, append_item,
  dict_set, plain, plain_items, plain_fields,
}
use pyx.Doc.Value.Dict.{
  Absent, Fresh-dict_set, join_items, join_fields, join_items-append_item, join_items-no_items,
  join_fields-no_fields, join_fields-dict_set,
}
use pyx.Doc.Encode.{value_tag, write_sized}
use pyx.Doc.Strict.{strict_payload, strict_value, strict_items, strict_fields}
use pyx.Doc.RoundTrip.Parts.{read_entry_key-At}
use pyx.Doc.RoundTrip.Payload.{
  Written, Reads, PayloadReads, ItemsRead, FieldsRead, spend, write_sized-Leb128,
}

value_tag-IsByte : (v : Value) (tag : ℕ) → value_tag v ≡ ok tag → IsByte tag
unfolding value_tag
value_tag-IsByte (bool false) tag e = ground arith
value_tag-IsByte (bool true) tag e = ground arith
value_tag-IsByte null tag e = ground arith
value_tag-IsByte _ tag e = ground arith

pub read_value-At :
    (v : Value) (tag : ℕ) (bs : Bytes) (g : ℕ) (input : Bytes) (pos : ℕ) (rest : Bytes)
    → Reads v tag bs
    → 2 * length input < g + 2 * pos
    → At input pos (tag ∷ (bs ++ rest))
    → strict_value g input pos ≡ ok (plain v, pos + 1 + length bs)
unfolding strict_payload
read_value-At v tag bs zero input pos rest reads enough here = absurd (omega (arith, here.total))
read_value-At v tag bs (suc g) input pos rest reads enough here =
    rw (At-lt here, index-At here) (reads g input (pos + 1) rest (omega arith) (At-cons here))

pub no_items_read : ItemsRead no_items []
unfolding strict_payload plain
no_items_read f input pos end acc rest enough ends here =
    spend (λ g. strict_items g input pos end acc ≡ ok (join_items acc no_items)) f input pos rest
      enough here λ g more. ground (arith, join_items-no_items acc)

-- One element, then the others.
item_read :
    (v : Value) (xs : Items) (tag : ℕ) (bs more : Bytes)
    → Reads v tag bs
    → ItemsRead xs more
    → ItemsRead (item v xs) (tag ∷ (bs ++ more))
item_read v xs tag bs more first others f input pos end acc rest enough ends here =
    spend (λ g. strict_items g input pos end acc ≡ ok (join_items acc (plain_items (item v xs)))) f
      input pos (tag ∷ ((bs ++ more) ++ rest)) enough here
      λ g left.
        let inner = rw append_assoc at here in
        let inside : ltb pos end ≡ true = lt→ltb pos end (omega (lengths, ends)) in
        let after = At-append bs (more ++ rest) (At-cons inner) in
        unfold strict_payload plain in
        rw (inside, read_value-At v tag bs g input pos (more ++ rest) first (omega arith) inner)
          (others g input (pos + 1 + length bs) end (append_item acc (plain v)) rest (omega arith)
              (omega (lengths, ends)) after
            ∙ ap ok (join_items-append_item acc (plain v) (plain_items xs)))

pub no_fields_read : FieldsRead no_fields []
unfolding strict_payload plain
no_fields_read f input pos end acc rest enough ends fresh here =
    spend (λ g. strict_fields g input pos end acc ≡ ok (join_fields acc no_fields)) f input pos rest
      enough here λ g more. ground (arith, join_fields-no_fields acc)

-- One entry, whose key is not met again, then the others.
entry_read :
    (s : Str) (v : Value) (fs : Fields) (tag : ℕ) (lb kb bs more : Bytes)
    → Leb128 (length kb) lb
    → length kb < 2 ^ 70
    → utf8_decode kb ≡ ok s
    → Absent (str_key s) fs
    → Reads v tag bs
    → FieldsRead fs more
    → FieldsRead (field (str_key s) v fs) (tag ∷ ((lb ++ kb) ++ (bs ++ more)))
entry_read s v fs tag lb kb bs more l small key absent first others f input pos end acc rest enough
      ends fresh here =
    spend
      (λ g.
        strict_fields g input pos end acc
        ≡ ok (join_fields acc (plain_fields (field (str_key s) v fs))))
      f input pos (tag ∷ (((lb ++ kb) ++ (bs ++ more)) ++ rest)) enough here
      λ g left.
        let inner : At input pos (tag ∷ (lb ++ (kb ++ (bs ++ (more ++ rest))))) =
          simp append_assoc at here in
        let inside : ltb pos end ≡ true = lt→ltb pos end (omega (lengths, ends)) in
        let value =
          At-append kb (bs ++ (more ++ rest))
            (At-append lb (kb ++ (bs ++ (more ++ rest))) (At-cons inner)) in
        let after = At-append bs (more ++ rest) value in
        let start : ℕ = pos + 1 + length lb + length kb in
        unfold strict_payload plain in
        rw
          (
            inside,
            read_entry_key-At kb l small tag end (bs ++ (more ++ rest)) key inner
                (omega (lengths, ends)),
            first g input start (more ++ rest) (omega arith) value,
          )
          (others g input (start + length bs) end (dict_set acc (str_key s) (plain v)) rest
              (omega arith) (omega (lengths, ends))
              (Fresh-dict_set fs acc (str_key s) (plain v) fresh.1 absent) after
            ∙ ap ok (join_fields-dict_set acc (str_key s) (plain v) (plain_fields fs) fresh.0))

-- What one element, or one entry, and the rest of the loop have written.
pub item_written :
    (v : Value) (xs : Items) (tag : ℕ) (out out' out2 : Bytes)
    → value_tag v ≡ ok tag
    → Written (out ++ (tag ∷ [])) out' (PayloadReads v)
    → Written out' out2 (ItemsRead xs)
    → Written out out2 (ItemsRead (item v xs))
item_written v xs tag out out' out2 tagged w1 w2 = record {
  tail = tag ∷ (w1.tail ++ w2.tail);
  splits = w2.splits ∙ simp (w1.splits, append_assoc);
  all_bytes =
      (value_tag-IsByte v tag tagged, All-append IsByte w1.tail w2.tail w1.all_bytes w2.all_bytes);
  reads = λ small.
      item_read v xs tag w1.tail w2.tail (w1.reads (omega lengths) tag tagged)
        (w2.reads (omega lengths));
}

pub entry_written :
    (s : Str) (v : Value) (fs : Fields) (tag : ℕ) (kb out out' out2 : Bytes)
    → utf8_encode s ≡ ok kb
    → value_tag v ≡ ok tag
    → Absent (str_key s) fs
    → Written (write_sized (out ++ (tag ∷ [])) kb) out' (PayloadReads v)
    → Written out' out2 (FieldsRead fs)
    → Written out out2 (FieldsRead (field (str_key s) v fs))
entry_written s v fs tag kb out out' out2 encoded tagged absent w1 w2 =
    let (lb, sized, l) = write_sized-Leb128 (out ++ (tag ∷ [])) kb in
    let (key, kbytes) = utf8_decode-utf8_encode s kb encoded in
    record {
      tail = tag ∷ ((lb ++ kb) ++ (w1.tail ++ w2.tail));
      splits = w2.splits ∙ simp (w1.splits, sized, append_assoc);
      all_bytes = (
        value_tag-IsByte v tag tagged,
        All-append IsByte (lb ++ kb) (w1.tail ++ w2.tail)
            (All-append IsByte lb kb (Leb128-IsByte l) kbytes)
            (All-append IsByte w1.tail w2.tail w1.all_bytes w2.all_bytes),
      );
      reads = λ small.
          entry_read s v fs tag lb kb w1.tail w2.tail l (omega lengths) key absent
            (w1.reads (omega lengths) tag tagged) (w2.reads (omega lengths));
    }
