-- ===== src/Tests/Forms.antt =====
-- The forms' theorems at concrete inputs.
use exfer_honor.Base.{
  ◌≡◌, ◌↔◌, refl, true, Option, none, some, List, [], ◌∷◌, arith, codes, text_eq,
}
use exfer_honor.Base.Dict.{lookup, insert}
use exfer_honor.Spec.Types.{SettlementFormId, Outpoint, HonorVerdict, DeclineReason}
use exfer_honor.Spec.Errors.{ok}
use exfer_honor.Spec.Datum.{decode_settlement_datum}
use exfer_honor.Spec.Datum.Laws.{IsQuoteId}
use exfer_honor.Ports.Chain.{TransactionStatus}
use exfer_honor.Ports.World.{ClaimRecord}
use exfer_honor.Ports.Form.{PrepareResult}
use exfer_honor.Forms.Spine.{
  SpineResult, declined, run_binding_spine, bind_datum, bind_payment, custody_test,
  check_payer_binding, funded_by,
}
use exfer_honor.Forms.Spine.Binding.{Binds, run_binding_spine-bound_iff}
use exfer_honor.Forms.Spine.Verdicts.{IsSpineResult, run_binding_spine-Returns}
use exfer_honor.Forms.Spine.Funding.{Spends, check_payer_binding-Spends}
use exfer_honor.Forms.Plain.{depth_gate, score_from}
use exfer_honor.Forms.Plain
use exfer_honor.Forms.Plain.Scoring.{
  IsDeep, IsPaid, depth_gate-honor_iff, score-honor, score-first, score_masked,
}
use exfer_honor.Forms.Htlc.{row_key, validate_on_chain, claim_depth, phase_b, prepare}
use exfer_honor.Forms.Htlc.Binding.{IsFrom, validate_on_chain-none_iff}
use exfer_honor.Forms.Htlc.Gate.{IsBuried, prepare-ready}
use exfer_honor.Forms.Htlc.Claims.{sending, Sends, prepare-Sends}
use exfer_honor.Tests.Samples.{
  Host, quote_id, quote, key, point, payment, shallow_payment, wrong_payment, candidate, htlc_lock,
  ctx, host,
}

run_binding_spine-bound_iff_example :
    (run_binding_spine ctx payment SettlementFormId.plain host
      ≡ (ok (SpineResult.bound candidate), host))
    ↔ ((candidate ≡ candidate) × Binds ctx payment host host)
run_binding_spine-bound_iff_example =
    run_binding_spine-bound_iff ctx payment SettlementFormId.plain candidate host host

payment-Binds : Binds ctx payment host host
unfolding check_payer_binding funded_by text_eq
payment-Binds = record {
  datum = record { quote_id_hex = some quote_id; honorable = true };
  past_datum = host;
  reads = refl;
  names = (refl, refl, (refl, refl));
  amount = refl;
  address = refl;
  past_keys = host;
  controls = refl;
  funded = refl;
}

wrong_payment_declines : IsSpineResult (declined DeclineReason.amount_mismatch)
unfolding run_binding_spine bind_datum bind_payment custody_test check_payer_binding funded_by
    decode_settlement_datum text_eq
wrong_payment_declines =
    run_binding_spine-Returns ctx wrong_payment SettlementFormId.plain host host
      (declined DeclineReason.amount_mismatch) refl

check_payer_binding-Spends_example :
    (inputs : List Outpoint) × (w₁ : Host) × (ctx.chain.get_tx_inputs (codes "t") host
      ≡ (ok inputs, w₁))
    × Spends ctx.chain (codes "cd") inputs host
unfolding check_payer_binding funded_by text_eq
check_payer_binding-Spends_example =
    check_payer_binding-Spends ctx (codes "t") (codes "cd") host host refl refl refl

depth_gate-honor_iff_example :
    (depth_gate 9 3 candidate ≡ HonorVerdict.honor candidate SettlementFormId.plain) ↔ (
      (candidate ≡ candidate)
      × (SettlementFormId.plain ≡ SettlementFormId.plain)
      × IsDeep 9 3 candidate)
depth_gate-honor_iff_example = depth_gate-honor_iff 9 3 candidate candidate SettlementFormId.plain

score-honor_example :
    (SettlementFormId.plain ≡ SettlementFormId.plain)
    × IsPaid ctx (wrong_payment ∷ payment ∷ []) candidate host
unfolding Plain.score score_from depth_gate run_binding_spine bind_datum bind_payment custody_test
    check_payer_binding funded_by decode_settlement_datum text_eq
score-honor_example =
    score-honor ctx (wrong_payment ∷ payment ∷ []) candidate SettlementFormId.plain host host refl

first_payment_honors :
    Plain.score ctx (payment ∷ wrong_payment ∷ []) host
    ≡ (ok (HonorVerdict.honor candidate SettlementFormId.plain), host)
first_payment_honors =
    score-first ctx payment (wrong_payment ∷ []) host host payment-Binds (7, refl, omega arith)

shallow-Binds : Binds ctx shallow_payment host host
unfolding check_payer_binding funded_by text_eq
shallow-Binds = record {
  datum = record { quote_id_hex = some quote_id; honorable = true };
  past_datum = host;
  reads = refl;
  names = (refl, refl, (refl, refl));
  amount = refl;
  address = refl;
  past_keys = host;
  controls = refl;
  funded = refl;
}

score_masked_example :
    Plain.score ctx (shallow_payment ∷ wrong_payment ∷ []) host
    ≡ (ok (HonorVerdict.decline DeclineReason.amount_mismatch), host)
unfolding depth_gate run_binding_spine bind_datum bind_payment custody_test check_payer_binding
    funded_by decode_settlement_datum text_eq
score_masked_example =
    score_masked ctx shallow_payment wrong_payment DeclineReason.amount_mismatch host host host
      shallow-Binds refl refl

validate_on_chain-none_iff_example : (validate_on_chain quote htlc_lock ≡ none) ↔ (
    IsQuoteId quote_id
    × (codes "ab" ≡ codes "ab")
    × (htlc_lock.value ≡ 50)
    × IsFrom (some (codes "cd")) (codes "cd"))
validate_on_chain-none_iff_example = validate_on_chain-none_iff quote htlc_lock

abbrev buried_claim : TransactionStatus
buried_claim = record { block_height = some 4 }

buried_claim_ready : claim_depth 9 6 (some buried_claim) ≡ PrepareResult.ready
unfolding claim_depth
buried_claim_ready = refl

abbrev claim_record : ClaimRecord
claim_record = record { claim_tx_id = codes "claim"; claimed_lock = point }

abbrev claimed_host : Host
claimed_host = record host { claims = insert (row_key key) claim_record [] }

prepare-Sends_example :
    Sends none ctx candidate host (λ f. prepare none (sending none ctx f) candidate host)
prepare-Sends_example = prepare-Sends none ctx candidate host

prepare-ready_example :
    (prior : ClaimRecord) × (claim : Option TransactionStatus) × (lookup
        (row_key key)
        claimed_host.claims
      ≡ some prior)
    × (ctx.chain.get_transaction prior.claim_tx_id claimed_host ≡ (ok claim, claimed_host))
    × IsBuried 9 6 claim
unfolding prepare phase_b claim_depth lookup insert row_key text_eq
prepare-ready_example = prepare-ready none ctx candidate claimed_host claimed_host refl
