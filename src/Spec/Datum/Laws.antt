-- ===== src/Spec/Datum/Laws.antt =====
-- What the datum codec accepts, and that encoding and decoding are inverse.
use exfer_honor.Base.{ℕ, ◌<◌, ◌≡◌, ◌≢◌, ◌↔◌, true, some, ◌++◌, arith, length, length-append}
use exfer_honor.Spec.Types.{Hex, QuoteId}
use exfer_honor.Spec.Datum.{
  settlement_datum_version, DecodeResult, is_bare_hex, decode_settlement_datum,
  encode_settlement_datum, as_quote_id,
}

-- A text of exactly sixteen bytes of bare lowercase hex.
abbrev pub IsQuoteId : Hex → Type 0
IsQuoteId hex = (is_bare_hex hex ≡ true) × (length hex ≡ 32)

-- Decoding under any version succeeds exactly when the version is the current one and the text is
-- a quote id, and then it returns the text itself.
pub decode-ok_iff :
    (hex : Hex) (version : ℕ) (q : QuoteId)
    → (decode_settlement_datum hex version ≡ DecodeResult.ok q)
      ↔ ((version ≡ settlement_datum_version) × IsQuoteId hex × (hex ≡ q))
unfolding decode_settlement_datum
decode-ok_iff hex version q = (λ h. ground arith, λ h. ground arith)

-- A datum with anything appended to a text that decodes does not decode, under any version.
pub decode-append :
    (hex tail : Hex) (version : ℕ) (q r : QuoteId)
    → decode_settlement_datum hex version ≡ DecodeResult.ok q
    → 0 < length tail
    → decode_settlement_datum (hex ++ tail) version ≢ DecodeResult.ok r
decode-append hex tail version q r h more e =
    let first = (decode-ok_iff hex version q).0 h in
    let both = (decode-ok_iff (hex ++ tail) version r).0 e in
    absurd (omega (arith, length-append hex tail, first.1.1, both.1.1))

-- A quote id is encoded as a text under a version exactly when that text decodes to the quote id
-- under that version.
pub encode-decode_iff :
    (q : QuoteId) (version : ℕ) (hex : Hex)
    → (encode_settlement_datum q version ≡ some hex)
      ↔ (decode_settlement_datum hex version ≡ DecodeResult.ok q)
unfolding encode_settlement_datum decode_settlement_datum
encode-decode_iff q version hex = (λ h. ground arith, λ h. ground arith)

pub as_quote_id-some_iff :
    (hex : Hex) (q : QuoteId) → (as_quote_id hex ≡ some q) ↔ (IsQuoteId hex × (hex ≡ q))
unfolding as_quote_id
as_quote_id-some_iff hex q = (λ h. ground arith, λ h. ground arith)
