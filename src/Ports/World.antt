-- ===== src/Ports/World.antt =====
-- The state that a call may read or change: the database, the engine's map of submitted claims, the
-- HTLC form's map of claims, and the rest of the world (chain, node, keystore and clock), which is a
-- parameter.
use exfer_honor.Base.{Text}
use exfer_honor.Base.Dict.{Dict}
use exfer_honor.Spec.Types.{Hex, Outpoint}
use exfer_honor.Store.Rows.{Db}

-- `ClaimRecord` of src/forms/htlc.ts.
pub record ClaimRecord : Type 0 where
  pub claim_tx_id : Hex
  pub claimed_lock : Outpoint

pub record World (E G : Type 0) : Type 0 where
  pub db : Db G
  pub claim_tx_ids : Dict Text
  pub claims : Dict ClaimRecord
  pub env : E
