-- ===== src/Doc/Utf8/RoundTrip.antt =====
-- Text that was encoded decodes to itself, and decoding ends on every input.
use pyx.Base.{
  ℕ, zero, suc, ◌+◌, ◌/◌, ◌%◌, ◌≤◌, ◌<◌, ◌≡◌, refl, Option, none, some, [], ◌∷◌, ◌++◌, length, All,
  All-append, lengths, arith, inl, inr, Option-cases, Bool-cases, ltb, ltb→lt, ltb→le, false,
}
use pyx.Base.Bytes.{Bytes, IsByte}
use pyx.Result.{
  ok-injective, Result, ok, raised, out_of_fuel, IsValueError, Ensures, returns, raises,
  Ensures-bind,
}
use pyx.Doc.Utf8.{
  Str, is_surrogate, encode_char, append_char, utf8_encode, decode_char, decode_loop, utf8_decode,
}

decode_one : (c : ℕ) (rest : Bytes) → c < 0x80 → decode_char c rest ≡ some (c, rest)
unfolding decode_char
decode_one c rest h = ground arith

decode_two :
    (c : ℕ) (rest : Bytes)
    → 0x80 ≤ c
    → c < 0x800
    → decode_char (0xc0 + c / 64) ((0x80 + c % 64) ∷ rest) ≡ some (c, rest)
unfolding decode_char
decode_two c rest lo hi = ground arith

decode_three :
    (c : ℕ) (rest : Bytes)
    → 0x800 ≤ c
    → c < 0x10000
    → is_surrogate c ≡ false
    → decode_char (0xe0 + c / 4096) ((0x80 + c / 64 % 64) ∷ (0x80 + c % 64) ∷ rest) ≡ some (c, rest)
unfolding decode_char
decode_three c rest lo hi s = ground arith

decode_four :
    (c : ℕ) (rest : Bytes)
    → 0x10000 ≤ c
    → c < 0x110000
    → decode_char
        (0xf0 + c / 262144)
        ((0x80 + c / 4096 % 64) ∷ (0x80 + c / 64 % 64) ∷ (0x80 + c % 64) ∷ rest)
      ≡ some (c, rest)
unfolding decode_char
decode_four c rest lo hi = ground arith

-- What was encoded is bytes, and one round of the decoder reads it back.
abbrev IsFirst : ℕ → Option Bytes → Type 0
IsFirst c none = Unit
IsFirst c (some []) = ⊥
IsFirst c (some (a ∷ more)) =
    ((rest : Bytes) → decode_char a (more ++ rest) ≡ some (c, rest)) × All IsByte (a ∷ more)

encode_char-IsFirst : (c : ℕ) → IsFirst c (encode_char c)
unfolding encode_char
encode_char-IsFirst c = elim (Bool-cases (ltb c 0x80)) [
  | inl e ↦ rw e (λ rest. decode_one c rest (ltb→lt c _ e), ground arith)
  | inr n ↦ elim (Bool-cases (ltb c 0x800)) [
    | inl e ↦ rw (n, e) (λ rest. decode_two c rest (ltb→le c _ n) (ltb→lt c _ e), ground arith)
    | inr n2 ↦ elim (Bool-cases (is_surrogate c)) [
      | inl e ↦ rw (n, n2, e) tt
      | inr n3 ↦ elim (Bool-cases (ltb c 0x10000)) [
        | inl e ↦
            rw (n, n2, n3, e)
              (λ rest. decode_three c rest (ltb→le c _ n2) (ltb→lt c _ e) n3, ground arith)
        | inr n4 ↦ elim (Bool-cases (ltb c 0x110000)) [
          | inl e ↦
              rw (n, n2, n3, n4, e)
                (λ rest. decode_four c rest (ltb→le c _ n4) (ltb→lt c _ e), ground arith)
          | inr n5 ↦ rw (n, n2, n3, n4, n5) tt
        ]
      ]
    ]
  ]
]

-- With fuel for every byte, the decoder reads `s` off these bytes.
abbrev Decodes : Str → Bytes → Type 0
Decodes s bs = (fuel : ℕ) → length bs ≤ fuel → decode_loop fuel bs ≡ ok s

decode-append_char :
    (c : ℕ) (s : Str) (o : Option Bytes) (r : Result Bytes)
    → IsFirst c o
    → ((t : Bytes) → r ≡ ok t → Decodes s t × All IsByte t)
    → (bs : Bytes) → append_char o r ≡ ok bs
    → Decodes (c ∷ s) bs × All IsByte bs
unfolding append_char decode_loop
decode-append_char c s none r h ih bs e = absurd (cc)
decode-append_char c s (some []) r h ih bs e = absurd h
decode-append_char c s (some (a ∷ more)) (raised x) h ih bs e = absurd (cc)
decode-append_char c s (some (a ∷ more)) out_of_fuel h ih bs e = absurd (cc)
decode-append_char c s (some (a ∷ more)) (ok t) h ih bs e =
    rw (← ok-injective e) (reads, All-append IsByte (a ∷ more) t h.1 (ih t refl).1)
  where
    reads : Decodes (c ∷ s) (a ∷ (more ++ t))
    reads zero enough = absurd (omega arith)
    reads (suc fuel) enough = rw (h.0 t, decode_loop, (ih t refl).0 fuel (omega lengths))

decode-encode : (s : Str) (bs : Bytes) → utf8_encode s ≡ ok bs → Decodes s bs × All IsByte bs
unfolding utf8_encode decode_loop
decode-encode [] bs e = rw (← ok-injective e) (λ fuel enough. refl, tt)
decode-encode (c ∷ s) bs e =
    decode-append_char c s (encode_char c) (utf8_encode s) (encode_char-IsFirst c)
      (λ t. decode-encode s t) bs e

-- What `encode` returned is bytes, and `decode` gives the text back.
pub utf8_decode-utf8_encode :
    (s : Str) (bs : Bytes) → utf8_encode s ≡ ok bs → (utf8_decode bs ≡ ok s) × All IsByte bs
unfolding utf8_decode
utf8_decode-utf8_encode s bs e =
    let (reads, byte) = decode-encode s bs e in (reads (length bs) (omega arith), byte)

decode_char_shorter :
    (a : ℕ) (rest : Bytes) (c : ℕ) (more : Bytes)
    → decode_char a rest ≡ some (c, more)
    → length more ≤ length rest
unfolding decode_char
decode_char_shorter a [] c more e = ground arith
decode_char_shorter a (b ∷ []) c more e = ground arith
decode_char_shorter a (b ∷ d ∷ []) c more e = ground arith
decode_char_shorter a (b ∷ d ∷ f ∷ rest) c more e = ground arith

decode_loop-Ensures :
    (fuel : ℕ) (bs : Bytes)
    → length bs ≤ fuel
    → Ensures (λ s. Unit {0}) IsValueError (decode_loop fuel bs)
unfolding decode_loop
decode_loop-Ensures fuel [] h = returns tt
decode_loop-Ensures zero (a ∷ rest) h = absurd (omega arith)
decode_loop-Ensures (suc fuel) (a ∷ rest) h = elim (Option-cases (decode_char a rest)) [
  | inl e ↦ rw (e, decode_loop) (raises tt)
  | inr ((c, more), e) ↦
      rw (e, decode_loop)
        (Ensures-bind
          (decode_loop-Ensures fuel more (omega (arith, decode_char_shorter a rest c more e)))
          λ s _. returns tt)
]

-- Decoding ends on any bytes: with a text, or with a UnicodeDecodeError.
pub utf8_decode-Ensures : (bs : Bytes) → Ensures (λ s. Unit {0}) IsValueError (utf8_decode bs)
unfolding utf8_decode
utf8_decode-Ensures bs = decode_loop-Ensures (length bs) bs (omega arith)

-- Encoding raises nothing but a UnicodeEncodeError.
pub utf8_encode-Ensures : (s : Str) → Ensures (λ bs. Unit {0}) IsValueError (utf8_encode s)
unfolding utf8_encode append_char
utf8_encode-Ensures [] = returns tt
utf8_encode-Ensures (c ∷ s) = elim (Option-cases (encode_char c)) [
  | inl e ↦ rw e (raises tt)
  | inr (b, e) ↦ rw e (Ensures-bind (utf8_encode-Ensures s) λ bs _. returns tt)
]
