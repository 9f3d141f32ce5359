-- ===== src/Store/Postgres.antt =====
-- `PostgresStore` (src/adapters/postgres-store.ts): each method as a call on the database of one pool. The
-- faults of the pool and of the link to the server are parameters, and so is the text or number that the
-- driver reads a BIGINT column as. `quote_consumed_outpoint` has the columns of the SQLite table.
pub mod Sync
pub mod Honors
pub mod Reads
pub mod Port
pub mod History
use exfer_honor.Base.{
  ℕ, Text, Bool, true, false, not, ◌&&◌, ◌||◌, Option, none, some, List, [], ◌∷◌, ◌++◌, map, ltb,
  ◌==◌, text_eq, if◌then◌else◌,
}
use mathlib.Core.Option
use exfer_honor.Spec.Types.{
  PubKey, SettlementFormId, AcceptedQuote, Outpoint, HonorKey, DeliverContext,
}
use exfer_honor.Spec.Errors.{Thrown, GateKind, Result, ok, throw}
use exfer_honor.Ports.Store.{SeenRow, GateMode, Delivery, HonorTxnInput, SweepResult}
use exfer_honor.Ports.Effect.{Eff, ◌>>=◌, ◌>>◌}
use exfer_honor.Store.Amount.{amount_to_text, text_to_amount}
use exfer_honor.Store.Table.{select, first, count_if, update, delete}
use exfer_honor.Store.Rows.{ConsumedRowSql, OutpointState, outpoint_from_sql, has_outpoint}
use exfer_honor.Store.Sqlite.{
  max_safe_integer, reserved_row, honored_row, is_pending, is_none, insert_unless, input_key,
  promote_row, deliver_context,
}

-- A row of `quote_seen`: the BIGINT columns are numbers in the table, and the observation a BOOLEAN.
pub record PgSeenRow : Type 0 where
  pub signer_pubkey : Text
  pub quote_id : Text
  pub payee_pubkey : Text
  pub payer_pubkey : Option Text
  pub exfer_amount : Text
  pub form : SettlementFormId
  pub accepted_at : ℕ
  pub expires_at : ℕ
  pub observed_before_expiry : Bool
  pub honored_at : Option ℕ
  pub honored_tx_id : Option Text
  pub honored_output_index : Option ℕ
  pub retain_until : ℕ

pub record PgDb (G : Type 0) : Type 0 where
  pub seen : List PgSeenRow
  pub consumed : List ConsumedRowSql
  pub goods : G

-- What the driver reads a BIGINT column as.
pub data BigintCell : Type 0 where
  decimal : Text → BigintCell
  number : ℕ → BigintCell

unfoldable pub num : BigintCell → ℕ
num (BigintCell.decimal t) = text_to_amount t
num (BigintCell.number n) = n

unfoldable pub row_from_sql : (ℕ → BigintCell) → PgSeenRow → SeenRow
unfolding num
row_from_sql cell r = record {
  signer_pubkey = r.signer_pubkey;
  quote_id = r.quote_id;
  payee_pubkey = r.payee_pubkey;
  payer_pubkey = r.payer_pubkey;
  exfer_amount = text_to_amount r.exfer_amount;
  form = r.form;
  accepted_at = num (cell r.accepted_at);
  expires_at = num (cell r.expires_at);
  observed_before_expiry = r.observed_before_expiry;
  honored_at = Option.map (λ n. num (cell n)) r.honored_at;
  honored_outpoint = outpoint_from_sql r.honored_tx_id r.honored_output_index;
  retain_until = num (cell r.retain_until);
}

-- The row that `upsertAccepted` inserts.
abbrev pub accepted_row : AcceptedQuote → ℕ → ℕ → PgSeenRow
accepted_row a accepted_at retain_until = record {
  signer_pubkey = a.signer_pubkey;
  quote_id = a.quote_id;
  payee_pubkey = a.payee_pubkey;
  payer_pubkey = a.payer_pubkey;
  exfer_amount = amount_to_text a.exfer_amount;
  form = a.form;
  accepted_at = accepted_at;
  expires_at = a.expires_at;
  observed_before_expiry = false;
  honored_at = none;
  honored_tx_id = none;
  honored_output_index = none;
  retain_until = retain_until;
}

-- `WHERE signer_pubkey=$1 AND quote_id=$2`.
unfoldable pub has_key : HonorKey → PgSeenRow → Bool
has_key k r = text_eq r.signer_pubkey k.signer_pubkey && text_eq r.quote_id k.quote_id

-- The rest of the condition under which step 1 locks the row.
unfoldable pub is_lockable : ℕ → PgSeenRow → Bool
is_lockable now r =
    (is_none r.honored_at && ltb now r.retain_until)
    && (ltb now r.expires_at || r.observed_before_expiry)

abbrev pub observed : PgSeenRow → PgSeenRow
observed r = record r { observed_before_expiry = true }

abbrev pub lock : ℕ → Outpoint → PgSeenRow → PgSeenRow
lock now o r = record r {
  honored_at = some now;
  honored_tx_id = some o.tx_id;
  honored_output_index = some o.output_index;
}

abbrev pub refusal : Option PgSeenRow → GateKind
refusal none = GateKind.expired_window
refusal (some r) =
    if is_none r.honored_at then GateKind.expired_window else GateKind.seen_already_honored

-- `await input.deliver(ctx)`: the transaction goes on unless the call throws or its promise is rejected.
abbrev pub after_deliver : Delivery → Result (Unit {0})
after_deliver Delivery.returned = ok tt
after_deliver (Delivery.threw e) = throw e
after_deliver Delivery.resolved = ok tt
after_deliver (Delivery.rejected e) = throw e

-- How a COMMIT ends: it is taken, it is not, or it is taken and its answer is lost.
pub data CommitEnd : Type 0 where
  taken : CommitEnd
  not_taken : Thrown → CommitEnd
  answer_lost : Thrown → CommitEnd

-- How `connect`, BEGIN and COMMIT go. A statement that the server refuses inside the transaction ends as
-- a COMMIT that is not taken, by the same ROLLBACK.
pub record Link : Type 0 where
  pub connect : Option Thrown
  pub begin : Option Thrown
  pub commit : CommitEnd

module _ {G : Type 0} where
  -- What the server keeps of a transaction that began with the first tables.
  abbrev pub closed : {A : Type 0} → CommitEnd → PgDb G → Result A × PgDb G → Result A × PgDb G
  closed commit before (throw e, after) = (throw e, before)
  closed CommitEnd.taken before (ok a, after) = (ok a, after)
  closed (CommitEnd.not_taken e) before (ok a, after) = (throw e, before)
  closed (CommitEnd.answer_lost e) before (ok a, after) = (throw e, after)

  -- `connect`, BEGIN, and then what the body's statements came to.
  abbrev pub begun :
      {A : Type 0}
      → Option Thrown
      → Option Thrown
      → CommitEnd
      → PgDb G
      → Result A × PgDb G
      → Result A × PgDb G
  begun (some e) begin commit before p = (throw e, before)
  begun none (some e) commit before p = (throw e, before)
  begun none none commit before p = closed commit before p

  abbrev pub in_transaction : {A : Type 0} → Link → Eff (PgDb G) A → Eff (PgDb G) A
  in_transaction link body db = begun link.connect link.begin link.commit db (body db)

  unfoldable pub upsert_accepted : AcceptedQuote → ℕ → ℕ → PgDb G → PgDb G
  upsert_accepted a accepted_at retain_until db =
      let key : HonorKey = record { signer_pubkey = a.signer_pubkey; quote_id = a.quote_id } in
      record db {
        seen =
            insert_unless (first (has_key key) db.seen) (accepted_row a accepted_at retain_until)
              db.seen;
      }

  unfoldable pub get_seen : (ℕ → BigintCell) → HonorKey → PgDb G → Option SeenRow
  get_seen cell k db = Option.map (row_from_sql cell) (first (has_key k) db.seen)

  unfoldable pub list_honorable : (ℕ → BigintCell) → PubKey → ℕ → PgDb G → List SeenRow
  list_honorable cell s now db = map (row_from_sql cell) (
      select (λ r. text_eq r.signer_pubkey s && is_none r.honored_at && ltb now r.retain_until)
        db.seen)

  unfoldable pub mark_observed_before_expiry : HonorKey → ℕ → PgDb G → PgDb G
  mark_observed_before_expiry k now db = record db {
    seen = update (λ r. has_key k r && ltb now r.expires_at) observed db.seen;
  }

  unfoldable pub is_outpoint_consumed : Outpoint → PgDb G → Bool
  is_outpoint_consumed o db =
      not (is_none (first (λ r. has_outpoint o r && not (is_pending r.state)) db.consumed))

  unfoldable pub reserve_claim_outpoint : HonorKey → Outpoint → Text → PgDb G → PgDb G
  reserve_claim_outpoint k o claim_tx_id db = record db {
    consumed =
        insert_unless (first (has_outpoint o) db.consumed) (reserved_row k o claim_tx_id)
          db.consumed;
  }

  -- Step 1 of `runHonorTxn`.
  unfoldable pub lock_seen : HonorTxnInput G → Eff (PgDb G) Unit
  lock_seen arg db =
      let k : HonorKey = input_key arg in
      let row_count : ℕ = count_if (λ r. has_key k r && is_lockable arg.now r) db.seen in
      let locked : PgDb G = record db {
        seen =
            update (λ r. has_key k r && is_lockable arg.now r) (lock arg.now arg.outpoint) db.seen;
      } in
      if row_count == 1
      then (ok tt, locked)
      else (throw (Thrown.gate_violation (refusal (first (has_key k) locked.seen))), locked)

  -- Step 2 of `runHonorTxn`: a unique violation of the insert is the outpoint taken.
  unfoldable pub consume : HonorTxnInput G → Eff (PgDb G) Unit
  consume arg db = elim arg.mode [
    | GateMode.single ↦ elim (first (has_outpoint arg.outpoint) db.consumed) [
      | none ↦ (
        ok tt,
        record db {
          consumed =
              db.consumed ++ honored_row (input_key arg) arg.outpoint arg.now arg.retain_until ∷ [];
        },
      )
      | some _ ↦ (throw (Thrown.gate_violation GateKind.outpoint_taken), db)
    ]
    | GateMode.promote ↦
        let target : ConsumedRowSql → Bool =
          λ r. has_outpoint arg.outpoint r && is_pending r.state in
        let promoted : PgDb G = record db {
          consumed = update target (promote_row arg.now arg.retain_until) db.consumed;
        } in
        if count_if target db.consumed == 1
        then (ok tt, promoted)
        else (throw (Thrown.gate_violation GateKind.outpoint_taken), promoted)
  ]

  -- Step 3 of `runHonorTxn`: `deliver` on the client of the transaction, awaited.
  unfoldable pub deliver_goods : HonorTxnInput G → Eff (PgDb G) Unit
  deliver_goods arg db =
      let (ended, goods) = arg.deliver (deliver_context arg) db.goods in
      (after_deliver ended, record db { goods = goods })

  unfoldable pub run_honor_txn : Link → HonorTxnInput G → Eff (PgDb G) Unit
  unfolding lock_seen consume deliver_goods
  run_honor_txn link arg = in_transaction link (do lock_seen arg; consume arg; deliver_goods arg)

  unfoldable pub sweep : Link → ℕ → Eff (PgDb G) SweepResult
  sweep link now =
      let old_seen : PgSeenRow → Bool = λ r. ltb r.retain_until now in
      let old_outpoint : ConsumedRowSql → Bool = λ r. ltb r.retain_until now in
      in_transaction link (λ db. (
        ok record {
          seen_deleted = count_if old_seen db.seen;
          outpoints_deleted = count_if old_outpoint db.consumed;
        },
        record db { seen = delete old_seen db.seen; consumed = delete old_outpoint db.consumed },
      ))
