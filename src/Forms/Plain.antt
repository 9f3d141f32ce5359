-- ===== src/Forms/Plain.antt =====
-- `PlainOutputForm` (src/forms/plain.ts).
pub mod Scoring
use exfer_honor.Base.{ℕ, ◌+◌, Option, none, some, List, [], ◌∷◌, ltb, if◌then◌else◌}
use exfer_honor.Spec.Types.{SettlementFormId, SettlementCandidate, WaitReason, HonorVerdict}
use exfer_honor.Ports.Store.{GateMode}
use exfer_honor.Ports.Effect.{Eff, pure, ◌>>=◌, ◌>>◌}
use exfer_honor.Ports.Chain.{RawSettlementCandidate}
use exfer_honor.Ports.Form.{ScoringCtx, PrepareResult, SettlementForm}
use exfer_honor.Forms.Spine.{SpineResult, run_binding_spine}

-- A candidate is deep enough if `tip - height + 1` is at least the confirmation depth. Both sides are
-- moved to where no subtraction is left.
unfoldable pub depth_gate : (tip confirmation_depth : ℕ) → SettlementCandidate → HonorVerdict
depth_gate tip confirmation_depth candidate = elim candidate.block_height [
  | none ↦ HonorVerdict.wait WaitReason.insufficient_depth
  | some height ↦
      if ltb (tip + 1) (confirmation_depth + height)
      then HonorVerdict.wait WaitReason.insufficient_depth
      else HonorVerdict.honor candidate SettlementFormId.plain
]

-- What is reported if no candidate is honored: the last one that was not skipped.
abbrev pub last_or_none : Option HonorVerdict → HonorVerdict
last_or_none none = HonorVerdict.wait WaitReason.no_candidate
last_or_none (some v) = v

module _ {W : Type 0} where
  -- The loop of `score`, with `lastDecline`.
  unfoldable pub score_from :
      ScoringCtx W → Option HonorVerdict → List RawSettlementCandidate → Eff W HonorVerdict
  score_from ctx last [] = pure (last_or_none last)
  score_from ctx last (c ∷ cs) = do
    spine ← run_binding_spine ctx c SettlementFormId.plain
    elim spine [
      | SpineResult.skip ↦ score_from ctx last cs
      | SpineResult.verdict v ↦ score_from ctx (some v) cs
      | SpineResult.bound candidate ↦
          elim (depth_gate ctx.tip ctx.config.confirmation_depth candidate) [
            | HonorVerdict.honor found form ↦ pure (HonorVerdict.honor found form)
            | HonorVerdict.wait reason ↦ score_from ctx (some (HonorVerdict.wait reason)) cs
            | HonorVerdict.decline reason ↦ score_from ctx (some (HonorVerdict.decline reason)) cs
          ]
    ]

  unfoldable pub score : ScoringCtx W → List RawSettlementCandidate → Eff W HonorVerdict
  unfolding score_from
  score ctx raw = score_from ctx none raw

  unfoldable pub plain_form : SettlementForm W
  plain_form = record {
    id = SettlementFormId.plain;
    discover = λ ctx. ctx.chain.find_settlements_by_quote_id ctx.quote.quote_id;
    score = score;
    prepare = some (λ _ _. pure PrepareResult.ready);
    gate_mode = GateMode.single;
  }
