-- ===== src/Store/Fake/Port.antt =====
-- `FakeSyncStore` (src/core/fakes.test-helpers.ts) as the store port of an engine, over its maps in the rest
-- of the world.
use exfer_honor.Base.{Text, List}
use exfer_honor.Spec.Types.{TxnModel}
use exfer_honor.Spec.Errors.{Result}
use exfer_honor.Ports.World.{World}
use exfer_honor.Ports.Effect.{Eff}
use exfer_honor.Ports.Deps.{StorePort}
use exfer_honor.Store.Fake.{
  FakeDb, upsert_accepted, get_seen, list_honorable, mark_observed_before_expiry,
  is_outpoint_consumed, reserve_claim_outpoint, run_honor_txn, sweep,
}

-- A world whose rest holds the fake's maps, and more.
abbrev pub FakeWorld : Type 0 → Type 0
FakeWorld E = World (FakeDb × E) (List Text)

module _ {E : Type 0} where
  abbrev pub on_fake : {A : Type 0} → Eff FakeDb A → Eff (FakeWorld E) A
  on_fake m w = let (r, db) = m w.env.0 in (r, record w { env = (db, w.env.1) })

  abbrev writes : (FakeDb → FakeDb) → Eff (FakeWorld E) Unit
  writes f = on_fake (λ db. (Result.ok tt, f db))

  abbrev reads : {A : Type 0} → (FakeDb → A) → Eff (FakeWorld E) A
  reads f = on_fake (λ db. (Result.ok (f db), db))

  abbrev pub fake_store : StorePort (FakeWorld E) (List Text)
  fake_store = record {
    txn_model = TxnModel.sync;
    upsert_accepted =
        λ a accepted_at retain_until. writes (upsert_accepted a accepted_at retain_until);
    get_seen = λ k. reads (get_seen k);
    list_honorable = λ s now. reads (list_honorable s now);
    mark_observed_before_expiry = λ k now. writes (mark_observed_before_expiry k now);
    is_outpoint_consumed = λ o. reads (is_outpoint_consumed o);
    reserve_claim_outpoint = λ k o _ _. writes (reserve_claim_outpoint k o);
    run_honor_txn = λ input. on_fake (run_honor_txn input);
    sweep = λ now. on_fake (λ db. let (r, after) = sweep now db in (Result.ok r, after));
  }
