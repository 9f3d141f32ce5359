-- ===== src/Forms/Spine/Datum.antt =====
-- When the datum of an output names a quote: step 2 of `runBindingSpine` in src/forms/spine.ts.
use exfer_honor.Base.{
  ◌≡◌, refl, sym, ap, ◌∙◌, true, some, arith, Option-cases, inl, inr, ◌⊎◌, ◌↔◌, text_eq_iff,
}
use exfer_honor.Spec.Types.{Hex, QuoteId}
use exfer_honor.Spec.Datum.{
  DecodeResult, DecodeFailure, decode_settlement_datum, settlement_datum_version,
}
use exfer_honor.Spec.Datum.Laws.{IsQuoteId, decode-ok_iff}
use exfer_honor.Ports.Chain.{OutputDatum}
use exfer_honor.Forms.Spine.{DatumBinding, bind_datum}

-- A datum names a quote: it is honorable and its text is the quote's id, of strict form.
abbrev pub Names : QuoteId → OutputDatum → Type 0
Names quote_id datum =
    (datum.quote_id_hex ≡ some quote_id) × (datum.honorable ≡ true) × IsQuoteId quote_id

-- A text decodes to itself, and is then a quote id, or it does not decode.
decode-cases :
    (hex : Hex)
    → ((decode_settlement_datum hex settlement_datum_version ≡ DecodeResult.ok hex) × IsQuoteId hex)
      ⊎ ((r : DecodeFailure) × (decode_settlement_datum hex settlement_datum_version
            ≡ DecodeResult.failed r))
decode-cases hex = go (decode_settlement_datum hex settlement_datum_version) refl
  where
    go :
        (d : DecodeResult)
        → decode_settlement_datum hex settlement_datum_version ≡ d
        → ((decode_settlement_datum hex settlement_datum_version ≡ DecodeResult.ok hex)
            × IsQuoteId hex)
          ⊎ ((r : DecodeFailure) × (decode_settlement_datum hex settlement_datum_version
                ≡ DecodeResult.failed r))
    go (DecodeResult.ok q) e =
        let known = (decode-ok_iff hex settlement_datum_version q).0 e in
        inl (e ∙ ap DecodeResult.ok (sym known.2), known.1)
    go (DecodeResult.failed r) e = inr (r, e)

bind_datum-named :
    (quote_id hex : Hex) (datum : OutputDatum)
    → datum.quote_id_hex ≡ some hex
    → (bind_datum quote_id datum ≡ DatumBinding.this_quote) ↔ Names quote_id datum
unfolding bind_datum
bind_datum-named quote_id hex datum e = elim (decode-cases hex) [
  | inl (decoded, strict) ↦
      (λ h. ground (arith, text_eq_iff hex quote_id), λ n. ground (arith, text_eq_iff hex quote_id))
  | inr (r, undecoded) ↦ (
    λ h. absurd (ground arith),
    λ n. absurd (ground (arith, decode-ok_iff hex settlement_datum_version hex)),
  )
]

pub bind_datum-this_quote_iff :
    (quote_id : QuoteId) (datum : OutputDatum)
    → (bind_datum quote_id datum ≡ DatumBinding.this_quote) ↔ Names quote_id datum
unfolding bind_datum
bind_datum-this_quote_iff quote_id datum = elim (Option-cases datum.quote_id_hex) [
  | inl e ↦ (λ h. absurd (ground arith), λ n. ground arith)
  | inr (hex, e) ↦ bind_datum-named quote_id hex datum e
]
