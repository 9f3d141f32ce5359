-- ===== src/Ports/Chain.antt =====
-- What a form reads of the chain and the keystore (src/ports/chain.ts and src/ports/custody.ts), as
-- effects over a state `W`.
use exfer_honor.Base.{ℕ, Bool, Option, List}
use exfer_honor.Spec.Types.{Hex, QuoteId, PubKey, Outpoint}
use exfer_honor.Ports.Effect.{Eff}

pub record RawSettlementCandidate : Type 0 where
  pub outpoint : Outpoint
  pub value : ℕ
  pub script_hex : Hex
  pub block_height : Option ℕ

pub record OutputDatum : Type 0 where
  pub quote_id_hex : Option QuoteId
  pub honorable : Bool

pub data HtlcState : Type 0 where
  locked claimed reclaimed : HtlcState

pub record OnChainHtlc : Type 0 where
  pub htlc_lock : Outpoint
  pub receiver_pubkey : PubKey
  pub sender_pubkey : PubKey
  pub hash_lock : Hex
  pub timeout_height : ℕ
  pub value : ℕ
  pub lock_block_height : Option ℕ
  pub state : HtlcState

-- A transaction as the form reads it: the height of its block, if it is in one.
pub record TransactionStatus : Type 0 where
  pub block_height : Option ℕ

pub record ChainSource (W : Type 0) : Type 0 where
  pub tip_height : Eff W ℕ
  pub get_output_datum : Outpoint → Eff W OutputDatum
  pub find_settlements_by_quote_id : QuoteId → Eff W (List RawSettlementCandidate)
  pub get_transaction : Hex → Eff W (Option TransactionStatus)
  pub get_tx_inputs : Hex → Eff W (List Outpoint)
  pub get_output_script : Outpoint → Eff W Hex
  pub get_htlc : Outpoint → Eff W (Option OnChainHtlc)
  pub submit_claim : Option (OnChainHtlc → Hex → Eff W Hex)

pub record KeyCustody (W : Type 0) : Type 0 where
  pub controls_payee : PubKey → Eff W Bool
  pub htlc_preimage_for : Option (QuoteId → PubKey → Eff W (Option Hex))
