-- ===== src/Ports/Store.antt =====
-- The gate's persistence port (src/ports/store.ts): the row that a quote is kept as, what a gate
-- transaction is given, and the consumer's `deliver`.
use exfer_honor.Base.{ℕ, Bool, Option}
use exfer_honor.Spec.Types.{
  QuoteId, PubKey, SettlementFormId, Outpoint, SettlementCandidate, DeliverContext,
}
use exfer_honor.Spec.Errors.{Thrown}

pub record SeenRow : Type 0 where
  pub signer_pubkey : PubKey
  pub quote_id : QuoteId
  pub payee_pubkey : PubKey
  pub payer_pubkey : Option PubKey
  pub exfer_amount : ℕ
  pub form : SettlementFormId
  pub accepted_at : ℕ
  pub expires_at : ℕ
  pub observed_before_expiry : Bool
  pub honored_at : Option ℕ
  pub honored_outpoint : Option Outpoint
  pub retain_until : ℕ

pub data GateMode : Type 0 where
  single promote : GateMode

-- How a call of `deliver` ends: it returns no promise, throws, or returns a promise that is
-- fulfilled or rejected.
pub data Delivery : Type 0 where
  returned : Delivery
  threw : Thrown → Delivery
  resolved : Delivery
  rejected : Thrown → Delivery

-- The consumer's callback, over the goods tables that share the gate's connection.
abbrev pub DeliverFn : Type 0 → Type 0
DeliverFn G = DeliverContext → G → Delivery × G

pub record HonorTxnInput (G : Type 0) : Type 0 where
  pub signer_pubkey : PubKey
  pub quote_id : QuoteId
  pub candidate : SettlementCandidate
  pub outpoint : Outpoint
  pub now : ℕ
  pub retain_until : ℕ
  pub mode : GateMode
  pub deliver : DeliverFn G

pub record SweepResult : Type 0 where
  pub seen_deleted : ℕ
  pub outpoints_deleted : ℕ
