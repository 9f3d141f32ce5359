-- ===== src/Spec/Types.antt =====
-- The value types of src/spec/types.ts. A branded hex string is its text, an amount (`bigint`) and
-- a time or height (`number`) a natural number; the free-text `detail` of a verdict is left out.
use exfer_honor.Base.{ℕ, Text, Bool, Option}

abbrev pub Hex : Type 0
Hex = Text

abbrev pub QuoteId : Type 0
QuoteId = Hex

abbrev pub PubKey : Type 0
PubKey = Hex

pub data SettlementFormId : Type 0 where
  plain htlc : SettlementFormId

pub record AcceptedQuote : Type 0 where
  pub quote_id : QuoteId
  pub signer_pubkey : PubKey
  pub payee_pubkey : PubKey
  pub payer_pubkey : Option PubKey
  pub exfer_amount : ℕ
  pub expires_at : ℕ
  pub issued_at : ℕ
  pub form : SettlementFormId

pub record Outpoint : Type 0 where
  pub tx_id : Hex
  pub output_index : ℕ

pub record SettlementCandidate : Type 0 where
  pub form : SettlementFormId
  pub quote_id : QuoteId
  pub tx_id : Hex
  pub output_index : ℕ
  pub value : ℕ
  pub script_hex : Hex
  pub block_height : Option ℕ
  pub honorable : Bool

pub data WaitReason : Type 0 where
  no_candidate insufficient_depth htlc_claim_pending reorg_withheld : WaitReason

pub data DeclineReason : Type 0 where
  expired_unobserved amount_mismatch datum_unhonorable address_mismatch : DeclineReason
  payee_not_controlled payer_binding_failed already_honored outpoint_consumed : DeclineReason

pub data HonorVerdict : Type 0 where
  honor : SettlementCandidate → SettlementFormId → HonorVerdict
  wait : WaitReason → HonorVerdict
  decline : DeclineReason → HonorVerdict

-- `delivery_failed` carries `retryable: true` in the source, its only value.
pub data HonorOutcome : Type 0 where
  honored : Outpoint → HonorOutcome
  not_ready : HonorVerdict → HonorOutcome
  delivery_failed : HonorOutcome

pub record HonorKey : Type 0 where
  pub signer_pubkey : PubKey
  pub quote_id : QuoteId

pub record RegisterOpts : Type 0 where
  pub now : Option ℕ
  pub pre_screen_payee_custody : Bool
  pub rethrow_delivery_errors : Bool

pub record RegisterResult : Type 0 where
  pub created : Bool
  pub retain_until : ℕ

pub record ObserveResult : Type 0 where
  pub observed_before_expiry : Bool
  pub within_window : Bool

-- The outpoint of an honored quote, if the row names one: the source writes the transaction id ""
-- and the index -1 otherwise.
pub data HonorStatus : Type 0 where
  accepted : HonorStatus
  claim_submitted : Hex → HonorStatus
  honored : ℕ → Option Outpoint → HonorStatus

pub data TxnModel : Type 0 where
  sync async : TxnModel

-- `db`, the transaction's handle, is the goods tables that a `DeliverFn` is given beside this.
pub record DeliverContext : Type 0 where
  pub key : HonorKey
  pub candidate : SettlementCandidate
  pub honored_at : ℕ
