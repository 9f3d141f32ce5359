-- ===== src/Forms/Htlc/Binding.antt =====
-- Which locks bind to a quote in `HtlcForm` (src/forms/htlc.ts).
use exfer_honor.Base.{◌≡◌, refl, true, Option, none, some, arith, ◌↔◌, text_eq_iff}
use exfer_honor.Spec.Types.{PubKey, AcceptedQuote}
use exfer_honor.Spec.Datum.{DecodeResult, decode_settlement_datum, settlement_datum_version}
use exfer_honor.Spec.Datum.Laws.{IsQuoteId, decode-ok_iff}
use exfer_honor.Ports.Chain.{OnChainHtlc}
use exfer_honor.Forms.Htlc.{sender_matches, validate_on_chain}

-- The sender is the payer, if one is named.
abbrev pub IsFrom : Option PubKey → PubKey → Type 0
IsFrom none sender = Unit
IsFrom (some payer) sender = sender ≡ payer

sender_matches_iff :
    (payer : Option PubKey) (sender : PubKey)
    → (sender_matches payer sender ≡ true) ↔ IsFrom payer sender
sender_matches_iff none sender = (λ h. tt, λ h. refl)
sender_matches_iff (some payer) sender = text_eq_iff sender payer

-- A lock binds to a quote exactly when the quote's id is a strict quote id and the lock pays its exact
-- amount to its payee, from its payer if it names one.
pub validate_on_chain-none_iff :
    (quote : AcceptedQuote) (lock : OnChainHtlc)
    → (validate_on_chain quote lock ≡ none) ↔ (
        IsQuoteId quote.quote_id
        × (lock.receiver_pubkey ≡ quote.payee_pubkey)
        × (lock.value ≡ quote.exfer_amount)
        × IsFrom quote.payer_pubkey lock.sender_pubkey)
unfolding validate_on_chain
validate_on_chain-none_iff quote lock =
    go (decode_settlement_datum quote.quote_id settlement_datum_version) refl
  where
    go :
        (d : DecodeResult)
        → decode_settlement_datum quote.quote_id settlement_datum_version ≡ d
        → (validate_on_chain quote lock ≡ none) ↔ (
            IsQuoteId quote.quote_id
            × (lock.receiver_pubkey ≡ quote.payee_pubkey)
            × (lock.value ≡ quote.exfer_amount)
            × IsFrom quote.payer_pubkey lock.sender_pubkey)
    go (DecodeResult.ok q) e = (
      λ h. ground (
        arith,
        text_eq_iff q quote.quote_id,
        text_eq_iff lock.receiver_pubkey quote.payee_pubkey,
        decode-ok_iff quote.quote_id settlement_datum_version q,
        sender_matches_iff quote.payer_pubkey lock.sender_pubkey,
      ),
      λ b. ground (
        arith,
        text_eq_iff q quote.quote_id,
        text_eq_iff lock.receiver_pubkey quote.payee_pubkey,
        decode-ok_iff quote.quote_id settlement_datum_version q,
        sender_matches_iff quote.payer_pubkey lock.sender_pubkey,
      ),
    )
    go (DecodeResult.failed r) e = (
      λ h. absurd (ground arith),
      λ b.
          absurd
            (ground (arith, decode-ok_iff quote.quote_id settlement_datum_version quote.quote_id)),
    )
