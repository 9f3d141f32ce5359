-- ===== src/Forms/Echo.antt =====
-- `EchoForm` (src/forms/examples/trivial-form.ts), the example of a third form. Its id is cast to the closed
-- union there; here it is a parameter, the id that it stands under.
use exfer_honor.Base.{true, not, none, some, List, [], ◌∷◌, ◌==◌, if◌then◌else◌}
use exfer_honor.Spec.Types.{SettlementFormId, WaitReason, DeclineReason, HonorVerdict}
use exfer_honor.Ports.Store.{GateMode}
use exfer_honor.Ports.Effect.{pure}
use exfer_honor.Ports.Chain.{RawSettlementCandidate}
use exfer_honor.Ports.Form.{ScoringCtx, PrepareResult, SettlementForm}

module _ {W : Type 0} (echo_form_id : SettlementFormId) where
  unfoldable pub echo_verdict : ScoringCtx W → List RawSettlementCandidate → HonorVerdict
  echo_verdict ctx [] = HonorVerdict.wait WaitReason.no_candidate
  echo_verdict ctx (c ∷ _) =
      if not (c.value == ctx.quote.exfer_amount)
      then HonorVerdict.decline DeclineReason.amount_mismatch
      else elim c.block_height [
        | none ↦ HonorVerdict.wait WaitReason.insufficient_depth
        | some height ↦
            HonorVerdict.honor
              (record {
                form = echo_form_id;
                quote_id = ctx.quote.quote_id;
                tx_id = c.outpoint.tx_id;
                output_index = c.outpoint.output_index;
                value = c.value;
                script_hex = c.script_hex;
                block_height = some height;
                honorable = true;
              })
              echo_form_id
      ]

  unfoldable pub echo_form : SettlementForm W
  unfolding echo_verdict
  echo_form = record {
    id = echo_form_id;
    discover = λ ctx. ctx.chain.find_settlements_by_quote_id ctx.quote.quote_id;
    score = λ ctx raw. pure (echo_verdict ctx raw);
    prepare = some (λ _ _. pure PrepareResult.ready);
    gate_mode = GateMode.single;
  }
