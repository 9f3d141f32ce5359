-- ===== src/Adapters/HexText/RoundTrip.antt =====
-- The text of bytes in src/adapters/indexer-chain.ts is bare lowercase hexadecimal, and `hexToBytes`
-- reads the bytes back from it.
use exfer_honor.Base.{
  ℕ, ◌+◌, ◌*◌, ◌/◌, ◌%◌, ◌<◌, ◌≡◌, refl, ap, ◌∙◌, subst, inl, inr, true, false, codes, some, [],
  ◌∷◌, arith, ◌==◌, if◌then◌else◌, length, All, Option-cases,
}
use exfer_honor.Spec.Types.{Hex}
use exfer_honor.Spec.Errors.{Result, ok, throw}
use exfer_honor.Spec.Datum.{is_bare_hex, is_hex_digit}
use exfer_honor.Adapters.HexText.{
  Bytes, hex_char, to_hex, digit_value, bare_error, prepend, parse_byte, is_white_space,
  negated_byte, pairs_to_bytes, hex_to_bytes,
}

abbrev pub IsByte : ℕ → Type 0
IsByte b = b < 256

pub digit-hex : (d : ℕ) → d < 16 → is_hex_digit (hex_char d) ≡ true
digit-hex d h = ground arith

digit_value-hex_char : (d : ℕ) → d < 16 → digit_value (hex_char d) ≡ some d
unfolding digit_value
digit_value-hex_char d h = ground arith

hex_char-is_white_space : (d : ℕ) → d < 16 → is_white_space (hex_char d) ≡ false
unfolding is_white_space
hex_char-is_white_space d h = ground arith

parse_byte-digits :
    (c d high low : ℕ)
    → is_white_space c ≡ false
    → b'-' < c
    → digit_value c ≡ some high
    → digit_value d ≡ some low
    → parse_byte c d ≡ some (high * 16 + low)
unfolding parse_byte
parse_byte-digits c d high low space sign h l = ground arith

hex_char-lt : (d : ℕ) → d < 16 → b'-' < hex_char d
hex_char-lt d h = ground arith

parse_byte-hex : (b : ℕ) → b < 256 → parse_byte (hex_char (b / 16)) (hex_char (b % 16)) ≡ some b
parse_byte-hex b h =
    let high : b / 16 < 16 = omega arith in
    let low : b % 16 < 16 = omega arith in
    parse_byte-digits (hex_char (b / 16)) (hex_char (b % 16)) (b / 16) (b % 16)
      (hex_char-is_white_space (b / 16) high) (hex_char-lt (b / 16) high)
      (digit_value-hex_char (b / 16) high) (digit_value-hex_char (b % 16) low)
    ∙ ap some (omega arith)

digit_value-lt : (c n : ℕ) → digit_value c ≡ some n → n < 16
unfolding digit_value
digit_value-lt c n h = ground arith

negated_byte-IsByte : (n : ℕ) → IsByte (negated_byte n)
unfolding negated_byte
negated_byte-IsByte n = omega arith

parse_byte-IsByte : (c d b : ℕ) → parse_byte c d ≡ some b → IsByte b
unfolding parse_byte
parse_byte-IsByte c d b h = elim (Option-cases (digit_value c)) [
  | inl e ↦ elim (Option-cases (digit_value d)) [
    | inl f ↦ absurd (ground arith)
    | inr (l, f) ↦ ground (arith, digit_value-lt d l f, negated_byte-IsByte l)
  ]
  | inr (k, e) ↦ elim (Option-cases (digit_value d)) [
    | inl f ↦ ground (arith, digit_value-lt c k e)
    | inr (l, f) ↦ ground (arith, digit_value-lt c k e, digit_value-lt d l f, negated_byte-IsByte l)
  ]
]

pub to_hex-bare : (xs : Bytes) → All IsByte xs → is_bare_hex (to_hex xs) ≡ true
to_hex-bare [] h = refl
to_hex-bare (b ∷ xs) (h, hs) =
    ground
      (arith, digit-hex (b / 16) (omega arith), digit-hex (b % 16) (omega arith), to_hex-bare xs hs)

pub length-to_hex : (xs : Bytes) → length (to_hex xs) ≡ 2 * length xs
length-to_hex [] = refl
length-to_hex (b ∷ xs) = omega (arith, length-to_hex xs)

prepend-ok :
    (b : ℕ) (r : Result Bytes) (bytes : Bytes)
    → prepend b r ≡ ok bytes
    → (bs : Bytes) × (r ≡ ok bs) × (b ∷ bs ≡ bytes)
prepend-ok b (ok bs) bytes h = (bs, refl, ground arith)
prepend-ok b (throw e) bytes h = absurd (ground arith)

pairs_to_bytes-IsByte :
    (text : Hex) (bytes : Bytes) → pairs_to_bytes text ≡ ok bytes → All IsByte bytes
unfolding pairs_to_bytes
pairs_to_bytes-IsByte [] bytes h = subst (All IsByte) {x = []} (ground arith) tt
pairs_to_bytes-IsByte (c ∷ []) bytes h = subst (All IsByte) {x = []} (ground arith) tt
pairs_to_bytes-IsByte (c ∷ d ∷ text) bytes h = elim (Option-cases (parse_byte c d)) [
  | inl e ↦ absurd (ground arith)
  | inr (b, e) ↦
      let (bs, f, k) = prepend-ok b (pairs_to_bytes text) bytes (ground arith) in
      subst (All IsByte) k (parse_byte-IsByte c d b e, pairs_to_bytes-IsByte text bs f)
]

pub hex_to_bytes-IsByte :
    (text : Hex) (bytes : Bytes) → hex_to_bytes text ≡ ok bytes → All IsByte bytes
unfolding hex_to_bytes
hex_to_bytes-IsByte text bytes h = pairs_to_bytes-IsByte text bytes (ground arith)

pairs_to_bytes-to_hex :
    (bytes : Bytes) → All IsByte bytes → pairs_to_bytes (to_hex bytes) ≡ ok bytes
unfolding pairs_to_bytes
pairs_to_bytes-to_hex [] h = refl
pairs_to_bytes-to_hex (b ∷ bytes) (h, hs) =
    ground (arith, parse_byte-hex b h, pairs_to_bytes-to_hex bytes hs)

abbrev odd_length : Result Bytes
odd_length = throw (bare_error (codes "tx_hex has odd length"))

-- The bytes that bare lowercase hexadecimal spells are read back from it.
pub hex_to_bytes-to_hex :
    (bytes : Bytes) → All IsByte bytes → hex_to_bytes (to_hex bytes) ≡ ok bytes
unfolding hex_to_bytes
hex_to_bytes-to_hex bytes h =
    let even : length (to_hex bytes) % 2 ≡ 0 = omega (arith, length-to_hex bytes) in
    ap (λ n. if n == 0 then pairs_to_bytes (to_hex bytes) else odd_length) even
    ∙ pairs_to_bytes-to_hex bytes h
