-- ===== src/Store/Fake/History.antt =====
-- Histories of `FakeSyncStore` (src/core/fakes.test-helpers.ts), and the same calls of `SqliteStore`
-- (src/adapters/sqlite-store.ts).
use mathlib.Core.Option
use exfer_honor.Base.{
  ◌≡◌, refl, sym, ap, ◌∙◌, subst, Text, Bool, true, false, not, ◌&&◌, Option, none, some, List, [],
  ◌∷◌, All,
}
use exfer_honor.Base.Dict.{lookup}
use exfer_honor.Spec.Types.{Outpoint, HonorKey}
use exfer_honor.Ports.Store.{HonorTxnInput}
use exfer_honor.Store.Table.{first}
use exfer_honor.Store.Keyed.{is_met, is_met-first_and}
use exfer_honor.Store.Rows.{ConsumedRowSql, Db, consumed_key, has_outpoint, has_outpoint_iff}
use exfer_honor.Store.Contract.{Gate, Holding, quote_key}
use exfer_honor.Store.Sqlite.{is_pending, is_none, input_key}
use exfer_honor.Store.Sqlite as Sqlite
use exfer_honor.Store.Sqlite.View as Sql
use exfer_honor.Store.Sqlite.View.{view, IsWellFormed}
use exfer_honor.Store.Sqlite.Refines.{get_seen-view}
use exfer_honor.Store.Sqlite.History.{Call, run, effect, effects, view-run, run_honor_txn-answer}
use exfer_honor.Store.Fake.{
  OutpointRow, FakeDb, outpoint_key, upsert_accepted, get_seen, mark_observed_before_expiry,
  is_outpoint_consumed, is_honored_row, reserve_claim_outpoint, run_honor_txn, sweep,
}
use exfer_honor.Store.Fake.Keys.{IsPlainKey}
use exfer_honor.Store.Fake.Refines.{
  holding_of, Shows, upsert_accepted-Shows, mark_observed-Shows, reserve_claim-Shows, sweep-Shows,
}
use exfer_honor.Store.Fake.Honors.{Stages, run_honor_txn-Agrees}

-- A call of a `SqliteStore`, made of the fake.
unfoldable pub fake_step : Call (List Text) → FakeDb → FakeDb
fake_step (Call.accepts a at retain_until) db = upsert_accepted a at retain_until db
fake_step (Call.observes k now) db = mark_observed_before_expiry k now db
fake_step (Call.reserves k o claim_tx_id) db = reserve_claim_outpoint k o db
fake_step (Call.honors arg) db = (run_honor_txn arg db).1
fake_step (Call.sweeps now) db = (sweep now db).1

unfoldable pub fake_run : List (Call (List Text)) → FakeDb → FakeDb
fake_run [] db = db
fake_run (c ∷ cs) db = fake_run cs (fake_step c db)

-- The quote ids of a call have no colon, and its `deliver` writes goods by staging them.
abbrev pub IsPlainCall : Call (List Text) → Type 0
IsPlainCall (Call.accepts a at retain_until) = IsPlainKey (quote_key a)
IsPlainCall (Call.observes k now) = IsPlainKey k
IsPlainCall (Call.reserves k o claim_tx_id) = Unit
IsPlainCall (Call.honors arg) = IsPlainKey (input_key arg) × Stages arg.deliver
IsPlainCall (Call.sweeps now) = Unit

fake_step-Shows :
    (c : Call (List Text)) (db : FakeDb) (g : Gate (List Text))
    → IsPlainCall c
    → Shows db g
    → Shows (fake_step c db) (effect c g)
unfolding fake_step
fake_step-Shows (Call.accepts a at retain_until) db g h s =
    upsert_accepted-Shows a at retain_until db g h s
fake_step-Shows (Call.observes k now) db g h s = mark_observed-Shows k now db g h s
fake_step-Shows (Call.reserves k o claim_tx_id) db g h s = reserve_claim-Shows k o db g s
fake_step-Shows (Call.honors arg) db g h s = (run_honor_txn-Agrees arg h.0 db g s h.1).1
fake_step-Shows (Call.sweeps now) db g h s = sweep-Shows now db g s

pub fake_run-Shows :
    (cs : List (Call (List Text))) (db : FakeDb) (g : Gate (List Text))
    → All IsPlainCall cs
    → Shows db g
    → Shows (fake_run cs db) (effects cs g)
unfolding fake_run
fake_run-Shows [] db g h s = s
fake_run-Shows (c ∷ cs) db g h s =
    fake_run-Shows cs (fake_step c db) (effect c g) h.1 (fake_step-Shows c db g h.0 s)

abbrev honored_there : Option Holding → Bool
honored_there none = false
honored_there (some h) = h.is_honored

fake_consumed :
    (x : Option OutpointRow) → is_honored_row x ≡ honored_there (Option.map holding_of x)
fake_consumed none = refl
fake_consumed (some r) = refl

sqlite_consumed :
    (x : Option ConsumedRowSql)
    → is_met consumed_key has_outpoint has_outpoint_iff (λ r. not (is_pending r.state)) x
      ≡ honored_there (Option.map Sql.holding_of x)
sqlite_consumed none = refl
sqlite_consumed (some r) = refl

is_none-is_met :
    (x : Option ConsumedRowSql)
    → not (is_none x) ≡ is_met consumed_key has_outpoint has_outpoint_iff (λ _. true) x
is_none-is_met none = refl
is_none-is_met (some r) = refl

is_outpoint_consumed-view :
    (o : Outpoint) (db : Db (List Text))
    → IsWellFormed db
    → Sqlite.is_outpoint_consumed o db ≡ honored_there ((view db).holding o)
unfolding Sqlite.is_outpoint_consumed
is_outpoint_consumed-view o db u =
    is_none-is_met (first (λ r. has_outpoint o r && not (is_pending r.state)) db.consumed)
    ∙ is_met-first_and consumed_key has_outpoint has_outpoint_iff o (λ r. not (is_pending r.state))
        db.consumed u.consumed_unique
    ∙ sqlite_consumed (first (has_outpoint o) db.consumed)

-- Both reference stores, from states that show the same gate and after the same history of calls whose quote
-- ids have no colon and whose `deliver` stages its goods: they answer alike for the row of any such quote
-- and for any outpoint, hold the same goods, and answer the next gate transaction alike.
pub fake_run-run :
    (cs : List (Call (List Text))) (db : Db (List Text)) (fake : FakeDb) (k : HonorKey)
    (o : Outpoint) (arg : HonorTxnInput (List Text))
    → IsWellFormed db
    → Shows fake (view db)
    → All IsPlainCall (Call.honors arg ∷ cs)
    → IsPlainKey k
    → (get_seen k (fake_run cs fake) ≡ Sqlite.get_seen k (run cs db))
      × (is_outpoint_consumed o (fake_run cs fake) ≡ Sqlite.is_outpoint_consumed o (run cs db))
      × ((fake_run cs fake).goods ≡ (run cs db).goods)
      × ((run_honor_txn arg (fake_run cs fake)).0 ≡ (Sqlite.run_honor_txn arg (run cs db)).0)
unfolding get_seen is_outpoint_consumed
fake_run-run cs db fake k o arg u s h plain =
    let (v, e) = view-run cs db u in
    let after : Shows (fake_run cs fake) (view (run cs db)) =
      subst (Shows (fake_run cs fake)) (sym e) (fake_run-Shows cs fake (view db) h.1 s) in
    (
      after.rows k plain ∙ sym (get_seen-view k (run cs db)),
      fake_consumed (lookup (outpoint_key o) (fake_run cs fake).outpoints)
          ∙ ap honored_there (after.holdings o)
          ∙ sym (is_outpoint_consumed-view o (run cs db) v),
      after.goods,
      (run_honor_txn-Agrees arg h.0.0 (fake_run cs fake) (view (run cs db)) after h.0.1).0
          ∙ sym (run_honor_txn-answer arg (run cs db) v),
    )
