-- ===== src/Ports/Form.antt =====
-- The settlement-form strategy (src/ports/form.ts).
use exfer_honor.Base.{ℕ, Bool, Option, List}
use exfer_honor.Spec.Types.{
  Hex, PubKey, SettlementFormId, AcceptedQuote, SettlementCandidate, HonorVerdict, WaitReason,
}
use exfer_honor.Ports.Store.{GateMode}
use exfer_honor.Ports.Effect.{Eff}
use exfer_honor.Ports.Chain.{ChainSource, KeyCustody, RawSettlementCandidate}

pub data PayerBinding : Type 0 where
  consent source : PayerBinding

pub record HonorConfig : Type 0 where
  pub confirmation_depth : ℕ
  pub max_reorg_depth : ℕ
  pub claim_margin : ℕ
  pub max_recheck_window : ℕ
  pub payer_binding : PayerBinding
  pub require_payer_funded : Bool
  pub address_deriver : Option (PubKey → Hex)

pub record ScoringCtx (W : Type 0) : Type 0 where
  pub quote : AcceptedQuote
  pub tip : ℕ
  pub now : ℕ
  pub config : HonorConfig
  pub chain : ChainSource W
  pub keys : KeyCustody W

pub data PrepareResult : Type 0 where
  ready : PrepareResult
  claim_submitted : Hex → PrepareResult
  wait : WaitReason → PrepareResult

-- `prepare` is given the candidate of the verdict 'honor'.
pub record SettlementForm (W : Type 0) : Type 0 where
  pub id : SettlementFormId
  pub discover : ScoringCtx W → Eff W (List RawSettlementCandidate)
  pub score : ScoringCtx W → List RawSettlementCandidate → Eff W HonorVerdict
  pub prepare : Option (ScoringCtx W → SettlementCandidate → Eff W PrepareResult)
  pub gate_mode : GateMode
