-- ===== src/Spec/Errors.antt =====
-- The error model of src/spec/errors.ts: what the library throws, and any other `Error` by its
-- numeric code and its message.
use exfer_honor.Base.{ℕ, Text, Option}

pub data HonorErrorCode : Type 0 where
  malformed_quote api_version_mismatch contract_violation seen_lock_violation : HonorErrorCode
  outpoint_collision claim_margin_assertion store_topology db_fault chain_fault : HonorErrorCode
  keystore_fault indexer_fault : HonorErrorCode

pub data GateKind : Type 0 where
  seen_already_honored expired_window outpoint_taken : GateKind

-- A thrown value. A negative JSON-RPC code -n is kept as n. `from_deliver` marks what the consumer's
-- `deliver` threw: the engine keeps that mark in a variable beside the value.
pub data Thrown : Type 0 where
  honor_error : HonorErrorCode → Thrown
  gate_violation : GateKind → Thrown
  plain_error : Option ℕ → Text → Thrown
  from_deliver : Thrown → Thrown

-- What a call returns: a value, or what it throws.
pub data Result {ℓ} (A : Type ℓ) : Type ℓ where
  ok : A → Result A
  throw : Thrown → Result A
