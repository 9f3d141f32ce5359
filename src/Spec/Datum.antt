-- ===== src/Spec/Datum.antt =====
-- The strict settlement-datum codec of src/spec/datum.ts: a v1 datum is a bare 16-byte quote id in
-- lowercase hex, with no trailing bytes.
pub mod Laws
use exfer_honor.Base.{
  ℕ, suc, ◌*◌, ◌%◌, ◌/◌, Text, Bool, ◌&&◌, not, ◌||◌, Option, none, some, List, [], ◌∷◌, ltb, leb,
  ◌==◌, if◌then◌else◌, length, all,
}
use exfer_honor.Spec.Types.{Hex, QuoteId}

abbrev pub settlement_datum_version : ℕ
settlement_datum_version = 1

abbrev pub quote_id_bytes : ℕ
quote_id_bytes = 16

pub data DecodeFailure : Type 0 where
  not_hex odd_length wrong_length unknown_version : DecodeFailure

pub data DecodeResult : Type 0 where
  ok : QuoteId → DecodeResult
  failed : DecodeFailure → DecodeResult

-- A code unit of `[0-9a-f]`.
abbrev pub is_hex_digit : ℕ → Bool
is_hex_digit c = (leb b'0' c && leb c b'9') || (leb b'a' c && leb c b'f')

-- `HEX_RE.test`.
abbrev pub is_bare_hex : Hex → Bool
is_bare_hex = all is_hex_digit

-- `bytesOf(hex) === n`: the source divides in floating point, so an odd length never matches.
abbrev pub has_bytes : Hex → ℕ → Bool
has_bytes hex n = length hex == n * 2

unfoldable pub is_well_formed_hex : Hex → Bool
is_well_formed_hex hex = is_bare_hex hex && length hex % 2 == 0

unfoldable pub decode_settlement_datum : Hex → ℕ → DecodeResult
decode_settlement_datum datum_hex version =
    if not (version == settlement_datum_version)
    then DecodeResult.failed DecodeFailure.unknown_version
    else if not (is_bare_hex datum_hex)
    then DecodeResult.failed DecodeFailure.not_hex
    else if not (length datum_hex % 2 == 0)
    then DecodeResult.failed DecodeFailure.odd_length
    else if not (has_bytes datum_hex quote_id_bytes)
    then DecodeResult.failed DecodeFailure.wrong_length
    else DecodeResult.ok datum_hex

-- `none` is the `RangeError`.
unfoldable pub encode_settlement_datum : QuoteId → ℕ → Option Hex
unfolding is_well_formed_hex
encode_settlement_datum quote_id version =
    if not (version == settlement_datum_version)
    then none
    else if not (is_well_formed_hex quote_id) || not (has_bytes quote_id quote_id_bytes)
    then none
    else some quote_id

unfoldable pub as_quote_id : Hex → Option QuoteId
unfolding decode_settlement_datum
as_quote_id hex = elim (decode_settlement_datum hex settlement_datum_version) [
  | ok q ↦ some q
  | failed _ ↦ none
]
