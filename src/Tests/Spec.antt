-- ===== src/Tests/Spec.antt =====
-- The datum codec's theorems at concrete inputs.
use exfer_honor.Base.{◌≡◌, ◌≢◌, ◌↔◌, refl, ◌++◌, some, none, arith, codes}
use exfer_honor.Spec.Datum.{
  settlement_datum_version, DecodeResult, DecodeFailure, decode_settlement_datum,
  encode_settlement_datum, is_well_formed_hex,
}
use exfer_honor.Spec.Datum.Laws.{IsQuoteId, decode-ok_iff, decode-append, encode-decode_iff}
use exfer_honor.Tests.Samples.{quote_id}

-- A version prefix makes a datum too long, and an upper-case digit is no bare hex.
codec_runs :
    (decode_settlement_datum quote_id 1 ≡ DecodeResult.ok quote_id)
    × (decode_settlement_datum (codes "01" ++ quote_id) 1
        ≡ DecodeResult.failed DecodeFailure.wrong_length)
    × (decode_settlement_datum (codes "0A") 1 ≡ DecodeResult.failed DecodeFailure.not_hex)
    × (decode_settlement_datum (codes "012") 1 ≡ DecodeResult.failed DecodeFailure.odd_length)
    × (encode_settlement_datum quote_id 2 ≡ none)
unfolding decode_settlement_datum encode_settlement_datum is_well_formed_hex
codec_runs = (refl, refl, refl, refl, refl)

decode-ok_iff_example :
    (decode_settlement_datum quote_id 1 ≡ DecodeResult.ok quote_id)
    ↔ ((1 ≡ settlement_datum_version) × IsQuoteId quote_id × (quote_id ≡ quote_id))
decode-ok_iff_example = decode-ok_iff quote_id 1 quote_id

appended_refused : decode_settlement_datum (quote_id ++ codes "00") 1 ≢ DecodeResult.ok quote_id
unfolding decode_settlement_datum
appended_refused = decode-append quote_id (codes "00") 1 quote_id quote_id refl (omega arith)

encode-decode_iff_example :
    (encode_settlement_datum quote_id 1 ≡ some quote_id)
    ↔ (decode_settlement_datum quote_id 1 ≡ DecodeResult.ok quote_id)
encode-decode_iff_example = encode-decode_iff quote_id 1 quote_id
