-- ===== src/Adapters/HexText.antt =====
-- Bytes and their text in src/adapters/indexer-chain.ts: `ByteReader.hex` and `hexToBytes`, with
-- `Number.parseInt` on a text of two code units.
pub mod RoundTrip
use exfer_honor.Base.{
  ℕ, zero, suc, ◌+◌, ◌-◌, ◌*◌, ◌/◌, ◌%◌, Text, codes, Bool, true, false, ◌&&◌, ◌||◌, Option, none,
  some, List, [], ◌∷◌, ltb, leb, ◌==◌, if◌then◌else◌, length,
}
use exfer_honor.Spec.Types.{Hex}
use exfer_honor.Spec.Errors.{Thrown, Result, ok, throw}

-- A `Uint8Array`: each entry is below 256.
abbrev pub Bytes : Type 0
Bytes = List ℕ

abbrev pub bare_error : Text → Thrown
bare_error message = Thrown.plain_error none message

abbrev pub hex_char : ℕ → ℕ
hex_char d = if ltb d 10 then d + 48 else d + 87

-- `toString(16).padStart(2, "0")` of each byte, one after the other.
abbrev pub to_hex : Bytes → Hex
to_hex [] = []
to_hex (b ∷ bs) = hex_char (b / 16) ∷ hex_char (b % 16) ∷ to_hex bs

-- The value of a digit in base 16, of either case.
unfoldable pub digit_value : ℕ → Option ℕ
digit_value c =
    if leb b'0' c && leb c b'9'
    then some (c - 48)
    else if leb b'a' c && leb c b'f'
    then some (c - 87)
    else if leb b'A' c && leb c b'F'
    then some (c - 55)
    else none

-- A code unit that `parseInt` passes over at the start.
unfoldable pub is_white_space : ℕ → Bool
is_white_space c =
    (leb 9 c && leb c 13)
    || c == 32
    || c == 160
    || c == 5760
    || (leb 8192 c && leb c 8202)
    || c == 8232
    || c == 8233
    || c == 8239
    || c == 8287
    || c == 12288
    || c == 65279

-- `out[i] = byte` for a negative byte keeps its low 8 bits.
unfoldable pub negated_byte : ℕ → ℕ
negated_byte n = (256 - n) % 256

-- `parseInt(c + d, 16)`, stored in a byte: a text may start with white space or a sign, and ends at
-- the first code unit that is no digit; "0x" is a prefix without a digit, and `none` is `NaN`.
unfoldable pub parse_byte : ℕ → ℕ → Option ℕ
unfolding is_white_space digit_value negated_byte
parse_byte c d =
    if is_white_space c || c == b'+'
    then digit_value d
    else if c == b'-'
    then (elim (digit_value d) [ none ↦ none | some n ↦ some (negated_byte n) ])
    else elim (digit_value c) [
      | none ↦ none
      | some high ↦ elim (digit_value d) [
        | some low ↦ some (high * 16 + low)
        | none ↦ if c == b'0' && (d == b'x' || d == b'X') then none else some high
      ]
    ]

abbrev pub prepend : ℕ → Result Bytes → Result Bytes
prepend byte (ok bytes) = ok (byte ∷ bytes)
prepend byte (throw e) = throw e

-- The loop of `hexToBytes`, a pair of code units at a time.
unfoldable pub pairs_to_bytes : Hex → Result Bytes
unfolding parse_byte
pairs_to_bytes [] = ok []
pairs_to_bytes (c ∷ []) = ok []
pairs_to_bytes (c ∷ d ∷ hex) =
    let rest = pairs_to_bytes hex in
    elim (parse_byte c d) [
      | none ↦ throw (bare_error (codes "tx_hex is not bare hex"))
      | some byte ↦ prepend byte rest
    ]

unfoldable pub hex_to_bytes : Hex → Result Bytes
unfolding pairs_to_bytes
hex_to_bytes hex =
    if length hex % 2 == 0
    then pairs_to_bytes hex
    else throw (bare_error (codes "tx_hex has odd length"))
