-- ===== src/Forms/Spine/Verdicts.antt =====
-- The verdicts of the spine of src/forms/spine.ts: declines, and nothing else.
use exfer_honor.Base.{◌≡◌, refl, Bool, true, false, not, ◌==◌, if◌then◌else◌, text_eq}
use exfer_honor.Spec.Types.{SettlementFormId, DeclineReason, HonorVerdict}
use exfer_honor.Ports.Effect.{Eff, pure, Returns, pure-Returns, >>=-Returns}
use exfer_honor.Ports.Chain.{RawSettlementCandidate}
use exfer_honor.Ports.Form.{ScoringCtx}
use exfer_honor.Forms.Address.{domain_hash_addr}
use exfer_honor.Forms.Spine.{
  SpineResult, DatumBinding, declined, bind_datum, check_payer_binding, custody_test,
  bound_candidate, bind_payment, run_binding_spine,
}

-- A result of the spine that gives no reason to honor.
abbrev pub IsSpineResult : SpineResult → Type 0
IsSpineResult (SpineResult.verdict v) = (reason : DeclineReason) × (v ≡ HonorVerdict.decline reason)
IsSpineResult SpineResult.skip = Unit
IsSpineResult (SpineResult.bound c) = Unit

module _ {W : Type 0} (ctx : ScoringCtx W) (raw : RawSettlementCandidate)
    (form_id : SettlementFormId) where
  declined-Returns :
      (reason : DeclineReason) → Returns {W = W} IsSpineResult (pure (declined reason))
  declined-Returns reason = pure-Returns IsSpineResult (declined reason) (reason, refl)

  or_declined-Returns :
      (b : Bool) (reason : DeclineReason) (k : Eff W SpineResult)
      → Returns IsSpineResult k
      → Returns IsSpineResult (if b then pure (declined reason) else k)
  or_declined-Returns true reason k h = declined-Returns reason
  or_declined-Returns false reason k h = h

  bind_payment-Returns : Returns IsSpineResult (bind_payment ctx raw form_id)
  unfolding bind_payment
  bind_payment-Returns =
      or_declined-Returns (not (raw.value == ctx.quote.exfer_amount)) DeclineReason.amount_mismatch
        _
        (or_declined-Returns
          (not (
            text_eq raw.script_hex
              (domain_hash_addr ctx.quote.payee_pubkey ctx.config.address_deriver)))
          DeclineReason.address_mismatch _
          (>>=-Returns IsSpineResult (custody_test ctx) _ (λ controls.
            or_declined-Returns (not controls) DeclineReason.payee_not_controlled _ (
              >>=-Returns IsSpineResult (check_payer_binding ctx raw.outpoint.tx_id) _ (λ funded.
                or_declined-Returns (not funded) DeclineReason.payer_binding_failed _ (
                  pure-Returns IsSpineResult (SpineResult.bound (bound_candidate ctx raw form_id))
                    tt))))))

  -- If the spine ends with a verdict, that verdict is a decline.
  pub run_binding_spine-Returns : Returns IsSpineResult (run_binding_spine ctx raw form_id)
  unfolding run_binding_spine
  run_binding_spine-Returns =
      >>=-Returns IsSpineResult (ctx.chain.get_output_datum raw.outpoint) _
        (λ datum. go (bind_datum ctx.quote.quote_id datum))
    where
      go :
          (b : DatumBinding)
          → Returns {W = W} IsSpineResult (elim b [
            | DatumBinding.unhonorable ↦ pure (declined DeclineReason.datum_unhonorable)
            | DatumBinding.other_quote ↦ pure SpineResult.skip
            | DatumBinding.this_quote ↦ bind_payment ctx raw form_id
          ])
      go DatumBinding.unhonorable = declined-Returns _
      go DatumBinding.other_quote = pure-Returns IsSpineResult _ tt
      go DatumBinding.this_quote = bind_payment-Returns
