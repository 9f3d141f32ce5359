-- ===== src/Store/Postgres/Port.antt =====
-- `PostgresStore` (src/adapters/postgres-store.ts) as the store port of an engine: the database is part of
-- what the state keeps beside the engine. The statements outside a transaction are taken not to fail.
use exfer_honor.Base.{ℕ}
use exfer_honor.Spec.Types.{TxnModel}
use exfer_honor.Spec.Errors.{Result}
use exfer_honor.Ports.World.{World}
use exfer_honor.Ports.Effect.{Eff}
use exfer_honor.Ports.Deps.{StorePort}
use exfer_honor.Store.Postgres.{
  BigintCell, PgDb, Link, upsert_accepted, get_seen, list_honorable, mark_observed_before_expiry,
  is_outpoint_consumed, reserve_claim_outpoint, run_honor_txn, sweep,
}

module _ {G : Type 0} where
  abbrev pub on_pg : {A : Type 0} → Eff (PgDb G) A → Eff (World (PgDb G) G) A
  on_pg m w = let (r, db) = m w.env in (r, record w { env = db })

  abbrev writes : (PgDb G → PgDb G) → Eff (World (PgDb G) G) Unit
  writes f = on_pg (λ db. (Result.ok tt, f db))

  abbrev reads : {A : Type 0} → (PgDb G → A) → Eff (World (PgDb G) G) A
  reads f = on_pg (λ db. (Result.ok (f db), db))

  abbrev pub postgres_store : Link → (ℕ → BigintCell) → StorePort (World (PgDb G) G) G
  postgres_store link cell = record {
    txn_model = TxnModel.async;
    upsert_accepted =
        λ a accepted_at retain_until. writes (upsert_accepted a accepted_at retain_until);
    get_seen = λ k. reads (get_seen cell k);
    list_honorable = λ s now. reads (list_honorable cell s now);
    mark_observed_before_expiry = λ k now. writes (mark_observed_before_expiry k now);
    is_outpoint_consumed = λ o. reads (is_outpoint_consumed o);
    reserve_claim_outpoint = λ k o claim_tx_id _. writes (reserve_claim_outpoint k o claim_tx_id);
    run_honor_txn = λ arg. on_pg (run_honor_txn link arg);
    sweep = λ now. on_pg (sweep link now);
  }
