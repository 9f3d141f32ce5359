-- ===== src/Tests/Store.antt =====
-- The store's theorems at concrete inputs.
use exfer_honor.Base.{ℕ, ◌≤◌, ◌≡◌, refl, List, [], ◌∷◌, arith, text_eq}
use exfer_honor.Spec.Types.{HonorKey}
use exfer_honor.Store.Table.{first, count_if, update, delete}
use exfer_honor.Store.Rows.{row_from_sql, has_key, has_outpoint}
use exfer_honor.Store.Amount.{amount_to_text, text_to_amount, text_to_amount-amount_to_text}
use exfer_honor.Store.Contract.{same_key, same_outpoint, honor}
use exfer_honor.Store.Contract.Once.{IsTied}
use exfer_honor.Store.Sqlite.{
  upsert_accepted, mark_observed_before_expiry, lock_seen, is_lockable, consume, deliver_goods,
  run_honor_txn, sweep, after_deliver,
}
use exfer_honor.Store.Sqlite.View.{view, IsWellFormed}
use exfer_honor.Store.Sqlite.Honor.{shown, run_honor_txn-honor}
use exfer_honor.Store.Sqlite.History.{
  Call, step, run, commits, honored_times, consumes, consumed_times, effects, view-run,
}
use exfer_honor.Store.Sqlite.History.Once.{honored_times-le-one}
use exfer_honor.Store.Sqlite.History.Outpoints.{consumed_times-le-one}
use exfer_honor.Tests.Samples.{key, point, quote, input, failing_deliver, empty_db, accepted_db}

-- A quote is accepted, its deliver fails, the retry honors it, and a third attempt comes too late.
abbrev calls : List (Call ℕ)
calls =
    Call.accepts quote 10 1100
    ∷ Call.observes key 15
    ∷ Call.honors (record input { deliver = failing_deliver })
    ∷ Call.honors (record input { now = 25 })
    ∷ Call.sweeps 30
    ∷ Call.honors (record input { now = 40 })
    ∷ []

calls_honor_once :
    (honored_times key calls empty_db ≡ 1)
    × (consumed_times point calls empty_db ≡ 1)
    × ((run calls empty_db).goods ≡ 1)
unfolding step run commits honored_times consumes consumed_times same_key same_outpoint
    upsert_accepted mark_observed_before_expiry lock_seen is_lockable consume deliver_goods
    run_honor_txn sweep text_eq amount_to_text text_to_amount row_from_sql has_key has_outpoint
    first count_if update delete
calls_honor_once = (refl, refl, refl)

empty_db-IsWellFormed : IsWellFormed empty_db
empty_db-IsWellFormed = record { seen_unique = tt; consumed_unique = tt }

abbrev deadline : HonorKey → ℕ
deadline _ = 1100

empty_db-IsTied : IsTied deadline (view empty_db)
unfolding first
empty_db-IsTied k r h = absurd (ground arith)

honored_times-le-one_example : honored_times key calls empty_db ≤ 1
honored_times-le-one_example =
    honored_times-le-one deadline calls 5 key empty_db empty_db-IsWellFormed empty_db-IsTied
      (refl, (tt, (omega arith, (omega arith, (omega arith, (omega arith, tt))))))

consumed_times-le-one_example : consumed_times point calls empty_db ≤ 1
consumed_times-le-one_example =
    consumed_times-le-one 1000 calls point empty_db empty_db-IsWellFormed
      (tt, (tt, (omega arith, (omega arith, (omega arith, (omega arith, tt))))))

view-run_example :
    IsWellFormed (run calls empty_db) × (view (run calls empty_db) ≡ effects calls (view empty_db))
view-run_example = view-run calls empty_db empty_db-IsWellFormed

accepted_db_keys : IsWellFormed accepted_db
unfolding first
accepted_db_keys = record { seen_unique = (refl, tt); consumed_unique = tt }

run_honor_txn-honor_example :
    shown (run_honor_txn input accepted_db) ≡ honor after_deliver input (view accepted_db)
run_honor_txn-honor_example = run_honor_txn-honor input accepted_db accepted_db_keys

text_to_amount-amount_to_text_example : text_to_amount (amount_to_text 1200) ≡ 1200
text_to_amount-amount_to_text_example = text_to_amount-amount_to_text 1200
