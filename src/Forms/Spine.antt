-- ===== src/Forms/Spine.antt =====
-- The shared binding spine of src/forms/spine.ts: steps 2 to 6 on one raw candidate. The free-text
-- details of its declines are left out.
pub mod Datum
pub mod Binding
pub mod Verdicts
pub mod Funding
use exfer_honor.Base.{
  ℕ, Text, text_eq, Bool, true, false, not, ◌||◌, Option, none, some, List, [], ◌∷◌, ◌==◌,
  if◌then◌else◌,
}
use exfer_honor.Spec.Types.{
  Hex, QuoteId, PubKey, SettlementFormId, AcceptedQuote, Outpoint, SettlementCandidate,
  DeclineReason, HonorVerdict,
}
use exfer_honor.Spec.Errors.{Thrown, HonorErrorCode}
use exfer_honor.Spec.Datum.{settlement_datum_version, DecodeResult, decode_settlement_datum}
use exfer_honor.Ports.Effect.{Eff, pure, raise, ◌>>=◌, ◌>>◌, try_catch}
use exfer_honor.Ports.Chain.{ChainSource, RawSettlementCandidate, OutputDatum}
use exfer_honor.Ports.Form.{PayerBinding, HonorConfig, ScoringCtx}
use exfer_honor.Forms.Address.{domain_hash_addr}

pub data SpineResult : Type 0 where
  verdict : HonorVerdict → SpineResult
  skip : SpineResult
  bound : SettlementCandidate → SpineResult

abbrev pub declined : DeclineReason → SpineResult
declined reason = SpineResult.verdict (HonorVerdict.decline reason)

-- Step 2 as a test of the datum alone: unhonorable, another quote's, or this quote's.
pub data DatumBinding : Type 0 where
  unhonorable other_quote this_quote : DatumBinding

unfoldable pub bind_datum : QuoteId → OutputDatum → DatumBinding
bind_datum quote_id datum = elim datum.quote_id_hex [
  | none ↦ DatumBinding.unhonorable
  | some hex ↦
      if not datum.honorable
      then DatumBinding.unhonorable
      else elim (decode_settlement_datum hex settlement_datum_version) [
        | DecodeResult.failed _ ↦ DatumBinding.unhonorable
        | DecodeResult.ok decoded ↦
            if text_eq decoded quote_id then DatumBinding.this_quote else DatumBinding.other_quote
      ]
]

abbrev pub is_source : PayerBinding → Bool
is_source PayerBinding.source = true
is_source PayerBinding.consent = false

module _ {W : Type 0} where
  -- Whether one of the prevouts is scripted to the payer; the loop stops at the first.
  unfoldable pub funded_by : ChainSource W → Hex → List Outpoint → Eff W Bool
  funded_by chain script [] = pure false
  funded_by chain script (prevout ∷ rest) =
      let others = funded_by chain script rest in
      do found ← chain.get_output_script prevout; if text_eq found script then pure true else others

  -- `true` where the source returns `null`, a pass.
  unfoldable pub check_payer_binding : ScoringCtx W → Hex → Eff W Bool
  unfolding funded_by
  check_payer_binding ctx settlement_tx_id = elim ctx.quote.payer_pubkey [
    | none ↦ pure true
    | some payer ↦
        if not (is_source ctx.config.payer_binding || ctx.config.require_payer_funded)
        then pure true
        else do
          inputs ← ctx.chain.get_tx_inputs settlement_tx_id
          funded_by ctx.chain (domain_hash_addr payer ctx.config.address_deriver) inputs
  ]

  -- Step 5: a fault of the keystore is retryable, and never a decline.
  unfoldable pub custody_test : ScoringCtx W → Eff W Bool
  custody_test ctx =
      try_catch (ctx.keys.controls_payee ctx.quote.payee_pubkey)
        (λ _. raise (Thrown.honor_error HonorErrorCode.keystore_fault))

  abbrev pub bound_candidate :
      ScoringCtx W → RawSettlementCandidate → SettlementFormId → SettlementCandidate
  bound_candidate ctx raw form_id = record {
    form = form_id;
    quote_id = ctx.quote.quote_id;
    tx_id = raw.outpoint.tx_id;
    output_index = raw.outpoint.output_index;
    value = raw.value;
    script_hex = raw.script_hex;
    block_height = raw.block_height;
    honorable = true;
  }

  -- Steps 3 to 6, once the datum names this quote.
  unfoldable pub bind_payment :
      ScoringCtx W → RawSettlementCandidate → SettlementFormId → Eff W SpineResult
  unfolding custody_test check_payer_binding
  bind_payment ctx raw form_id =
      if not (raw.value == ctx.quote.exfer_amount)
      then pure (declined DeclineReason.amount_mismatch)
      else if not (
          text_eq raw.script_hex
            (domain_hash_addr ctx.quote.payee_pubkey ctx.config.address_deriver))
      then pure (declined DeclineReason.address_mismatch)
      else do
        controls ← custody_test ctx
        if not controls then pure (declined DeclineReason.payee_not_controlled) else do
          funded ← check_payer_binding ctx raw.outpoint.tx_id
          if not funded
              then pure (declined DeclineReason.payer_binding_failed)
              else pure (SpineResult.bound (bound_candidate ctx raw form_id))

  unfoldable pub run_binding_spine :
      ScoringCtx W → RawSettlementCandidate → SettlementFormId → Eff W SpineResult
  unfolding bind_payment
  run_binding_spine ctx raw form_id = do
    datum ← ctx.chain.get_output_datum raw.outpoint
    elim (bind_datum ctx.quote.quote_id datum) [
      | DatumBinding.unhonorable ↦ pure (declined DeclineReason.datum_unhonorable)
      | DatumBinding.other_quote ↦ pure SpineResult.skip
      | DatumBinding.this_quote ↦ bind_payment ctx raw form_id
    ]
