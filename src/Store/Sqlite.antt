-- ===== src/Store/Sqlite.antt =====
-- `SqliteStore` (src/adapters/sqlite-store.ts): each method as a function of the database, its SQL
-- statements over the tables. Every method is one synchronous call on one connection.
pub mod View
pub mod Refines
pub mod Keys
pub mod Lock
pub mod Consume
pub mod Honor
pub mod History
pub mod Port
use exfer_honor.Base.{
  ℕ, Text, Bool, true, false, not, ◌&&◌, ◌||◌, Option, none, some, List, [], ◌∷◌, ◌++◌, map, ltb,
  ◌==◌, text_eq, if◌then◌else◌,
}
use mathlib.Core.Option
use exfer_honor.Spec.Types.{
  Hex, QuoteId, PubKey, AcceptedQuote, Outpoint, SettlementCandidate, HonorKey, DeliverContext,
}
use exfer_honor.Spec.Errors.{Thrown, GateKind, Result, ok, throw}
use exfer_honor.Ports.Store.{SeenRow, GateMode, Delivery, DeliverFn, HonorTxnInput, SweepResult}
use exfer_honor.Store.Amount.{amount_to_text}
use exfer_honor.Store.Table.{select, first, count_if, update, delete}
use exfer_honor.Store.Rows.{
  SeenRowSql, ConsumedRowSql, OutpointState, Db, row_from_sql, has_key, has_outpoint,
}
use exfer_honor.Store.Txn.{Txn, ◌>>=◌, ◌>>◌, transaction}

-- `Number.MAX_SAFE_INTEGER`.
abbrev pub max_safe_integer : ℕ
max_safe_integer = 9007199254740991

-- The row that `upsertAccepted` inserts.
abbrev pub accepted_row : AcceptedQuote → ℕ → ℕ → SeenRowSql
accepted_row a accepted_at retain_until = record {
  signer_pubkey = a.signer_pubkey;
  quote_id = a.quote_id;
  payee_pubkey = a.payee_pubkey;
  payer_pubkey = a.payer_pubkey;
  exfer_amount = amount_to_text a.exfer_amount;
  form = a.form;
  accepted_at = accepted_at;
  expires_at = a.expires_at;
  observed_before_expiry = 0;
  honored_at = none;
  honored_tx_id = none;
  honored_output_index = none;
  retain_until = retain_until;
}

-- The row that `reserveClaimOutpoint` inserts.
abbrev pub reserved_row : HonorKey → Outpoint → Text → ConsumedRowSql
reserved_row k o claim_tx_id = record {
  tx_id = o.tx_id;
  output_index = o.output_index;
  signer_pubkey = k.signer_pubkey;
  quote_id = k.quote_id;
  state = OutpointState.claim_pending;
  honored_at = none;
  claim_tx_id = some claim_tx_id;
  retain_until = max_safe_integer;
}

-- The row that `insertConsumed` inserts.
abbrev pub honored_row : HonorKey → Outpoint → ℕ → ℕ → ConsumedRowSql
honored_row k o now retain_until = record {
  tx_id = o.tx_id;
  output_index = o.output_index;
  signer_pubkey = k.signer_pubkey;
  quote_id = k.quote_id;
  state = OutpointState.honored;
  honored_at = some now;
  claim_tx_id = none;
  retain_until = retain_until;
}

abbrev pub is_pending : OutpointState → Bool
is_pending OutpointState.claim_pending = true
is_pending OutpointState.honored = false

abbrev pub is_none {ℓ} : {A : Type ℓ} → Option A → Bool
is_none none = true
is_none (some _) = false

-- `INSERT … ON CONFLICT DO NOTHING`: nothing is inserted where a row has the key.
abbrev pub insert_unless : {A : Type 0} → Option A → A → List A → List A
insert_unless none r rows = rows ++ r ∷ []
insert_unless (some _) r rows = rows

abbrev pub input_key : {G : Type 0} → HonorTxnInput G → HonorKey
input_key arg = record { signer_pubkey = arg.signer_pubkey; quote_id = arg.quote_id }

-- The condition of `lockSeen` on the row of the key: not honored, inside the retention window, and
-- before expiry or observed before expiry.
unfoldable pub is_lockable : ℕ → SeenRowSql → Bool
is_lockable now r =
    (is_none r.honored_at && ltb now r.retain_until)
    && (ltb now r.expires_at || r.observed_before_expiry == 1)

abbrev pub observed : SeenRowSql → SeenRowSql
observed r = record r { observed_before_expiry = 1 }

abbrev pub lock : ℕ → Outpoint → SeenRowSql → SeenRowSql
lock now o r = record r {
  honored_at = some now;
  honored_tx_id = some o.tx_id;
  honored_output_index = some o.output_index;
}

abbrev pub promote_row : ℕ → ℕ → ConsumedRowSql → ConsumedRowSql
promote_row now retain_until r = record r {
  state = OutpointState.honored;
  honored_at = some now;
  retain_until = retain_until;
}

-- Why a row could not be locked: it was honored before, or it is gone, out of its window or a late
-- honor that was not observed.
abbrev pub refusal : Option SeenRowSql → GateKind
refusal none = GateKind.expired_window
refusal (some r) =
    if is_none r.honored_at then GateKind.expired_window else GateKind.seen_already_honored

-- The message of the runtime guard against a promise is left out.
abbrev pub async_deliver_error : Thrown
async_deliver_error = Thrown.plain_error none []

-- What the synchronous transaction makes of a `deliver` that has ended.
abbrev pub after_deliver : Delivery → Result (Unit {0})
after_deliver Delivery.returned = ok tt
after_deliver (Delivery.threw e) = throw e
after_deliver Delivery.resolved = throw async_deliver_error
after_deliver (Delivery.rejected _) = throw async_deliver_error

module _ {G : Type 0} where
  unfoldable pub upsert_accepted : AcceptedQuote → ℕ → ℕ → Db G → Db G
  upsert_accepted a accepted_at retain_until db =
      let key : HonorKey = record { signer_pubkey = a.signer_pubkey; quote_id = a.quote_id } in
      record db {
        seen =
            insert_unless (first (has_key key) db.seen) (accepted_row a accepted_at retain_until)
              db.seen;
      }

  unfoldable pub get_seen : HonorKey → Db G → Option SeenRow
  get_seen k db = Option.map row_from_sql (first (has_key k) db.seen)

  unfoldable pub list_honorable : PubKey → ℕ → Db G → List SeenRow
  list_honorable s now db = map row_from_sql (
      select (λ r. text_eq r.signer_pubkey s && is_none r.honored_at && ltb now r.retain_until)
        db.seen)

  unfoldable pub mark_observed_before_expiry : HonorKey → ℕ → Db G → Db G
  mark_observed_before_expiry k now db = record db {
    seen = update (λ r. has_key k r && ltb now r.expires_at) observed db.seen;
  }

  unfoldable pub is_outpoint_consumed : Outpoint → Db G → Bool
  is_outpoint_consumed o db =
      not (is_none (first (λ r. has_outpoint o r && not (is_pending r.state)) db.consumed))

  unfoldable pub reserve_claim_outpoint : HonorKey → Outpoint → Text → Db G → Db G
  reserve_claim_outpoint k o claim_tx_id db = record db {
    consumed =
        insert_unless (first (has_outpoint o) db.consumed) (reserved_row k o claim_tx_id)
          db.consumed;
  }

  -- Step 1 of `runHonorTxn`: the hard lock on the SEEN row, and why it failed.
  unfoldable pub lock_seen : HonorTxnInput G → Txn G Unit
  unfolding get_seen row_from_sql
  lock_seen arg db =
      let k : HonorKey = input_key arg in
      let changes : ℕ = count_if (λ r. has_key k r && is_lockable arg.now r) db.seen in
      let locked : Db G = record db {
        seen =
            update (λ r. has_key k r && is_lockable arg.now r) (lock arg.now arg.outpoint) db.seen;
      } in
      if changes == 1
      then (ok tt, locked)
      else (throw (Thrown.gate_violation (refusal (first (has_key k) locked.seen))), locked)

  -- Step 2 of `runHonorTxn`: insert the consumed outpoint, or promote the reserved one.
  unfoldable pub consume : HonorTxnInput G → Txn G Unit
  consume arg db = elim arg.mode [
    | GateMode.single ↦ elim (first (has_outpoint arg.outpoint) db.consumed) [
      | none ↦ (
        ok tt,
        record db {
          consumed =
              db.consumed ++ honored_row (input_key arg) arg.outpoint arg.now arg.retain_until ∷ [];
        },
      )
      | some _ ↦ (throw (Thrown.gate_violation GateKind.outpoint_taken), db)
    ]
    | GateMode.promote ↦
        let target : ConsumedRowSql → Bool =
          λ r. has_outpoint arg.outpoint r && is_pending r.state in
        let promoted : Db G = record db {
          consumed = update target (promote_row arg.now arg.retain_until) db.consumed;
        } in
        if count_if target db.consumed == 1
        then (ok tt, promoted)
        else (throw (Thrown.gate_violation GateKind.outpoint_taken), promoted)
  ]

  abbrev pub deliver_context : HonorTxnInput G → DeliverContext
  deliver_context arg = record {
    key = input_key arg;
    candidate = arg.candidate;
    honored_at = arg.now;
  }

  -- Step 3 of `runHonorTxn`: `deliver` on the goods of the same connection, inside the transaction.
  unfoldable pub deliver_goods : HonorTxnInput G → Txn G Unit
  deliver_goods arg db =
      let (ended, goods) = arg.deliver (deliver_context arg) db.goods in
      (after_deliver ended, record db { goods = goods })

  unfoldable pub run_honor_txn : HonorTxnInput G → Txn G Unit
  run_honor_txn arg = transaction (do lock_seen arg; consume arg; deliver_goods arg)

  unfoldable pub sweep : ℕ → Db G → SweepResult × Db G
  sweep now db =
      let old_seen : SeenRowSql → Bool = λ r. ltb r.retain_until now in
      let old_outpoint : ConsumedRowSql → Bool = λ r. ltb r.retain_until now in
      (
        record {
          seen_deleted = count_if old_seen db.seen;
          outpoints_deleted = count_if old_outpoint db.consumed;
        },
        record db { seen = delete old_seen db.seen; consumed = delete old_outpoint db.consumed },
      )
