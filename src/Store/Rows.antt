-- ===== src/Store/Rows.antt =====
-- The rows of the gate's two tables (src/adapters/ddl.ts) and their mapping to the port's `SeenRow`
-- (`rowFromSql` of src/adapters/sqlite-store.ts), with the tests on a key that the statements share.
use exfer_honor.Base.{
  ℕ, ◌≡◌, Text, Bool, true, ◌&&◌, Option, none, some, arith, ◌==◌, text_eq, text_eq_iff, ◌↔◌, List,
}
use exfer_honor.Spec.Types.{SettlementFormId, Outpoint, HonorKey}
use exfer_honor.Ports.Store.{SeenRow}
use exfer_honor.Store.Amount.{text_to_amount}

-- A row of `quote_seen`; its primary key is the signer and the quote.
pub record SeenRowSql : Type 0 where
  pub signer_pubkey : Text
  pub quote_id : Text
  pub payee_pubkey : Text
  pub payer_pubkey : Option Text
  pub exfer_amount : Text
  pub form : SettlementFormId
  pub accepted_at : ℕ
  pub expires_at : ℕ
  pub observed_before_expiry : ℕ
  pub honored_at : Option ℕ
  pub honored_tx_id : Option Text
  pub honored_output_index : Option ℕ
  pub retain_until : ℕ

-- The `CHECK` on the column `state`.
pub data OutpointState : Type 0 where
  claim_pending honored : OutpointState

-- A row of `quote_consumed_outpoint`; its primary key is the outpoint.
pub record ConsumedRowSql : Type 0 where
  pub tx_id : Text
  pub output_index : ℕ
  pub signer_pubkey : Text
  pub quote_id : Text
  pub state : OutpointState
  pub honored_at : Option ℕ
  pub claim_tx_id : Option Text
  pub retain_until : ℕ

-- The database of one connection: the gate's tables, and the consumer's goods beside them.
pub record Db (G : Type 0) : Type 0 where
  pub seen : List SeenRowSql
  pub consumed : List ConsumedRowSql
  pub goods : G

abbrev pub outpoint_from_sql : Option Text → Option ℕ → Option Outpoint
outpoint_from_sql (some tx_id) (some index) = some (record { tx_id = tx_id; output_index = index })
outpoint_from_sql (some tx_id) none = none
outpoint_from_sql none index = none

unfoldable pub row_from_sql : SeenRowSql → SeenRow
row_from_sql r = record {
  signer_pubkey = r.signer_pubkey;
  quote_id = r.quote_id;
  payee_pubkey = r.payee_pubkey;
  payer_pubkey = r.payer_pubkey;
  exfer_amount = text_to_amount r.exfer_amount;
  form = r.form;
  accepted_at = r.accepted_at;
  expires_at = r.expires_at;
  observed_before_expiry = r.observed_before_expiry == 1;
  honored_at = r.honored_at;
  honored_outpoint = outpoint_from_sql r.honored_tx_id r.honored_output_index;
  retain_until = r.retain_until;
}

abbrev pub seen_key : SeenRowSql → HonorKey
seen_key r = record { signer_pubkey = r.signer_pubkey; quote_id = r.quote_id }

-- `WHERE signer_pubkey=? AND quote_id=?`.
unfoldable pub has_key : HonorKey → SeenRowSql → Bool
has_key k r = text_eq r.signer_pubkey k.signer_pubkey && text_eq r.quote_id k.quote_id

abbrev pub consumed_key : ConsumedRowSql → Outpoint
consumed_key r = record { tx_id = r.tx_id; output_index = r.output_index }

-- `WHERE tx_id=? AND output_index=?`.
unfoldable pub has_outpoint : Outpoint → ConsumedRowSql → Bool
has_outpoint o r = text_eq r.tx_id o.tx_id && r.output_index == o.output_index

pub has_key_iff : (k : HonorKey) (r : SeenRowSql) → (has_key k r ≡ true) ↔ (seen_key r ≡ k)
unfolding has_key
has_key_iff k r = (
  λ h.
      ground
        (arith, text_eq_iff r.signer_pubkey k.signer_pubkey, text_eq_iff r.quote_id k.quote_id),
  λ h.
      ground
        (arith, text_eq_iff r.signer_pubkey k.signer_pubkey, text_eq_iff r.quote_id k.quote_id),
)

pub has_outpoint_iff :
    (o : Outpoint) (r : ConsumedRowSql) → (has_outpoint o r ≡ true) ↔ (consumed_key r ≡ o)
unfolding has_outpoint
has_outpoint_iff o r = (
  λ h. ground (arith, text_eq_iff r.tx_id o.tx_id),
  λ h. ground (arith, text_eq_iff r.tx_id o.tx_id),
)
