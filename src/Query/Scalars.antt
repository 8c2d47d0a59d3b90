-- ===== src/Query/Scalars.antt =====
-- `_to_pyx_value` of bindings/python/pyx/__init__.py: what the engine is handed for a Python scalar.
use pyx.Base.{ℕ, ◌^◌, ◌<◌, ◌≡◌, ◌≢◌, subst, le→ltb, ap, ◌∙◌, sym, true, false, arith, ltb}
use pyx.Base.Int.{ℤ, pos, negsuc, InI64, of_word, of_word-InI64, to_word, of_word-to_word}
use pyx.Base.Bytes.{Bytes}
use pyx.Result.{Result, Exn, ok, raised, ◌>>=◌, >>=-eq-ok, ok-injective}
use pyx.Doc.Utf8.{utf8_encode, utf8_decode}
use pyx.Doc.Utf8.RoundTrip.{utf8_decode-utf8_encode}
use pyx.Doc.Encode.{write_value_payload}
use pyx.Doc.Value.{Value, null, bool, int, float, str}
use pyx.Query.{PyxValue, val_null, val_bool, val_i64, val_f64, val_string, c_int64, to_pyx_value}

-- The Python value that a `pyx_value` stands for.
unfoldable pub meaning : PyxValue → Result Value
meaning val_null = ok null
meaning (val_bool b) = ok (bool (ltb 0 b))
meaning (val_i64 w) = ok (int (of_word w))
meaning (val_f64 f) = ok (float f)
meaning (val_string b) = utf8_decode b >>= λ s. ok (str s)

abbrev pub IntInRange : Value → Type 0
IntInRange (int z) = InI64 z
IntInRange _ = Unit

c_int64-to_word : (z : ℤ) → InI64 z → c_int64 z ≡ to_word z
unfolding c_int64 to_word
c_int64-to_word (pos n) h = omega arith
c_int64-to_word (negsuc n) h = omega arith

pub of_word-c_int64 : (z : ℤ) → InI64 z → of_word (c_int64 z) ≡ z
of_word-c_int64 z h = ap of_word (c_int64-to_word z h) ∙ of_word-to_word z h

c_int64-lt : (z : ℤ) → c_int64 z < 2 ^ 64
unfolding c_int64
c_int64-lt (pos n) = omega arith
c_int64-lt (negsuc n) = omega arith

c_int64-of_word : (w : ℕ) → w < 2 ^ 64 → c_int64 (of_word w) ≡ w
unfolding c_int64 of_word
c_int64-of_word w h = ground arith

-- Where the conversion succeeds, the value that the engine is handed stands for the scalar given, if
-- an integer fits 64 bits.
pub meaning-to_pyx_value :
    (v : Value) (p : PyxValue) → IntInRange v → to_pyx_value v ≡ ok p → meaning p ≡ ok v
unfolding to_pyx_value meaning
meaning-to_pyx_value null p h e = rw (← ok-injective e)
meaning-to_pyx_value (bool true) p h e = rw (← ok-injective e)
meaning-to_pyx_value (bool false) p h e = rw (← ok-injective e)
meaning-to_pyx_value (int z) p h e =
    rw (← ok-injective e) (ap (λ (i : ℤ). ok (int i)) (of_word-c_int64 z h))
meaning-to_pyx_value (float f) p h e = rw (← ok-injective e)
meaning-to_pyx_value (str s) p h e =
    let (b, encoded, e') = >>=-eq-ok (utf8_encode s) _ e in
    rw (← ok-injective e') (rw (utf8_decode-utf8_encode s b encoded).0)
meaning-to_pyx_value _ p h e = absurd (cc)

refused :
    (z : ℤ)
    → ¬ InI64 z
    → (buf : Bytes)
    → write_value_payload (int z) buf ≡ raised (Exn.value_error "integer out of i64 range")
unfolding write_value_payload
refused (pos n) h buf = rw (le→ltb n (2 ^ 63) (omega arith))
refused (negsuc n) h buf = rw (le→ltb n (2 ^ 63) (omega arith))

-- An integer that does not fit 64 bits is handed over as another one, which does fit, while the
-- encoder refuses it in a document.
pub out_of_range_lookup :
    (z : ℤ)
    → ¬ InI64 z
    → ((y : ℤ) × InI64 y × (y ≢ z) × (to_pyx_value (int z) ≡ to_pyx_value (int y)))
      × ((buf : Bytes)
          → write_value_payload (int z) buf ≡ raised (Exn.value_error "integer out of i64 range"))
unfolding to_pyx_value
out_of_range_lookup z h =
    let w : ℕ = c_int64 z in
    (
      (
        of_word w,
        of_word-InI64 w (c_int64-lt z),
        (λ same. h (subst InI64 same (of_word-InI64 w (c_int64-lt z)))),
        ap (λ (k : ℕ). ok (val_i64 k)) (sym (c_int64-of_word w (c_int64-lt z))),
      ),
      refused z h,
    )
