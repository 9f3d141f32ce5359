-- ===== src/Ports/Deps.antt =====
-- The store port as effects (`Store<M>` of src/ports/store.ts) and the bag of ports that an engine is
-- built from (src/ports/deps.ts).
use exfer_honor.Base.{ℕ, Bool, Option, List, Text}
use exfer_honor.Spec.Types.{PubKey, HonorKey, AcceptedQuote, Outpoint, TxnModel}
use exfer_honor.Ports.Store.{SeenRow, HonorTxnInput, SweepResult}
use exfer_honor.Ports.Effect.{Eff}
use exfer_honor.Ports.Chain.{ChainSource, KeyCustody}
use exfer_honor.Ports.Form.{HonorConfig, SettlementForm}

pub record StorePort (W G : Type 0) : Type 0 where
  pub txn_model : TxnModel
  pub upsert_accepted : AcceptedQuote → (accepted_at retain_until : ℕ) → Eff W Unit
  pub get_seen : HonorKey → Eff W (Option SeenRow)
  pub list_honorable : PubKey → ℕ → Eff W (List SeenRow)
  pub mark_observed_before_expiry : HonorKey → ℕ → Eff W Unit
  pub is_outpoint_consumed : Outpoint → Eff W Bool
  pub reserve_claim_outpoint : HonorKey → Outpoint → Text → ℕ → Eff W Unit
  pub run_honor_txn : HonorTxnInput G → Eff W Unit
  pub sweep : ℕ → Eff W SweepResult

-- The registry of forms is the list of its entries.
pub record HonorDeps (W G : Type 0) : Type 0 where
  pub store : StorePort W G
  pub chain : ChainSource W
  pub keys : KeyCustody W
  pub clock : Eff W ℕ
  pub forms : List (SettlementForm W)
  pub config : HonorConfig
