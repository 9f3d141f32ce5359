-- ===== src/Store/Sqlite/Port.antt =====
-- `SqliteStore` as the store port of an engine: each method acts on the database of the state. The
-- methods other than the gate transaction do not throw.
use exfer_honor.Spec.Types.{TxnModel}
use exfer_honor.Spec.Errors.{Result}
use exfer_honor.Ports.World.{World}
use exfer_honor.Ports.Effect.{Eff}
use exfer_honor.Ports.Deps.{StorePort}
use exfer_honor.Store.Rows.{Db}
use exfer_honor.Store.Txn.{Txn}
use exfer_honor.Store.Sqlite.{
  upsert_accepted, get_seen, list_honorable, mark_observed_before_expiry, is_outpoint_consumed,
  reserve_claim_outpoint, run_honor_txn, sweep,
}

module _ {E G : Type 0} where
  abbrev pub on_db : {A : Type 0} → Txn G A → Eff (World E G) A
  on_db m w = let (r, db) = m w.db in (r, record w { db = db })

  abbrev writes : (Db G → Db G) → Eff (World E G) Unit
  writes f = on_db (λ db. (Result.ok tt, f db))

  abbrev reads : {A : Type 0} → (Db G → A) → Eff (World E G) A
  reads f = on_db (λ db. (Result.ok (f db), db))

  abbrev pub sqlite_store : StorePort (World E G) G
  sqlite_store = record {
    txn_model = TxnModel.sync;
    upsert_accepted =
        λ a accepted_at retain_until. writes (upsert_accepted a accepted_at retain_until);
    get_seen = λ k. reads (get_seen k);
    list_honorable = λ s now. reads (list_honorable s now);
    mark_observed_before_expiry = λ k now. writes (mark_observed_before_expiry k now);
    is_outpoint_consumed = λ o. reads (is_outpoint_consumed o);
    reserve_claim_outpoint = λ k o claim_tx_id _. writes (reserve_claim_outpoint k o claim_tx_id);
    run_honor_txn = λ input. on_db (run_honor_txn input);
    sweep = λ now. on_db (λ db. let (r, after) = sweep now db in (Result.ok r, after));
  }
