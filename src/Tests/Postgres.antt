-- ===== src/Tests/Postgres.antt =====
-- The theorems on the Postgres store, and on an engine over it, at concrete inputs.
use exfer_honor.Base.{
  List, ℕ, ◌+◌, ◌≡◌, ◌≤◌, arith, refl, text_eq, codes, true, false, none, [], ◌∷◌,
}
use exfer_honor.Spec.Types.{HonorKey}
use exfer_honor.Spec.Errors.{Thrown, throw}
use exfer_honor.Ports.Store.{SeenRow, GateMode, Delivery, DeliverFn, HonorTxnInput}
use exfer_honor.Ports.World.{World}
use exfer_honor.Ports.Effect.{pure}
use exfer_honor.Ports.Chain.{ChainSource}
use exfer_honor.Ports.Deps.{HonorDeps}
use exfer_honor.Store.Amount.{amount_to_text}
use exfer_honor.Store.Table.{first, count_if, update, delete}
use exfer_honor.Store.Rows as Rows
use exfer_honor.Store.Sqlite as Sqlite
use exfer_honor.Store.Contract.{honor, same_key}
use exfer_honor.Store.Contract.Once.{IsTied}
use exfer_honor.Store.Sqlite.View.{IsWellFormed}
use exfer_honor.Store.Postgres.{
  BigintCell, PgDb, CommitEnd, Link, accepted_row, after_deliver, has_key, is_lockable, lock_seen,
  consume, deliver_goods, run_honor_txn, upsert_accepted, sweep,
}
use exfer_honor.Store.Postgres.Sync.{sqlite_db}
use exfer_honor.Store.Postgres.Honors.{sound_link, pg_view, pg_shown, run_honor_txn-honor_awaited}
use exfer_honor.Store.Postgres.History.{
  PgCall, pg_step, pg_commits, pg_honored_times, pg_honored_times-le-one,
}
use exfer_honor.Store.Postgres.Port.{postgres_store}
use exfer_honor.Core.Engine.{commit_honor, txn_input}
use exfer_honor.Core.Engine.Async.{commit_honor-rejected}
use exfer_honor.Tests.Samples.{key, quote, config, candidate, input}

abbrev accepted_pg : PgDb ℕ
accepted_pg = record { seen = accepted_row quote 10 1100 ∷ []; consumed = []; goods = 0 }

accepted_pg-IsWellFormed : IsWellFormed (sqlite_db accepted_pg)
unfolding first
accepted_pg-IsWellFormed = record { seen_unique = (refl, tt); consumed_unique = tt }

-- A `deliver` whose promise is fulfilled, and one whose promise is rejected after it wrote.
abbrev resolving : DeliverFn ℕ
resolving _ goods = (Delivery.resolved, goods + 1)

abbrev out_of_stock : Thrown
out_of_stock = Thrown.plain_error none (codes "out of stock")

abbrev rejecting : DeliverFn ℕ
rejecting _ goods = (Delivery.rejected out_of_stock, goods + 1)

abbrev awaited_input : HonorTxnInput ℕ
awaited_input = record input { deliver = resolving }

run_honor_txn-honor_awaited_example :
    pg_shown (run_honor_txn sound_link awaited_input accepted_pg)
    ≡ honor after_deliver awaited_input (pg_view accepted_pg)
run_honor_txn-honor_awaited_example =
    run_honor_txn-honor_awaited awaited_input accepted_pg accepted_pg-IsWellFormed

abbrev reset : Thrown
reset = Thrown.plain_error none (codes "ECONNRESET")

-- A link that breaks while the COMMIT is answered.
abbrev breaking_link : Link
breaking_link = record { connect = none; begin = none; commit = CommitEnd.answer_lost reset }

abbrev honored_pg : PgDb ℕ
honored_pg = (run_honor_txn sound_link awaited_input accepted_pg).1

abbrev decimal_cell : ℕ → BigintCell
decimal_cell n = BigintCell.decimal (amount_to_text n)

abbrev PgHost : Type 0
PgHost = World (PgDb ℕ) ℕ

abbrev quiet_chain : ChainSource PgHost
quiet_chain = record {
  tip_height = pure 9;
  get_output_datum = λ _. pure (record { quote_id_hex = none; honorable = false });
  find_settlements_by_quote_id = λ _. pure [];
  get_transaction = λ _. pure none;
  get_tx_inputs = λ _. pure [];
  get_output_script = λ _. pure [];
  get_htlc = λ _. pure none;
  submit_claim = none;
}

abbrev pg_deps : HonorDeps PgHost ℕ
pg_deps = record {
  store = postgres_store sound_link decimal_cell;
  chain = quiet_chain;
  keys = record { controls_payee = λ _. pure true; htlc_preimage_for = none };
  clock = pure 20;
  forms = [];
  config = config;
}

abbrev pg_host : PgHost
pg_host = record {
  db = record { seen = []; consumed = []; goods = 0 };
  claim_tx_ids = [];
  claims = [];
  env = accepted_pg;
}

abbrev seen_row : SeenRow
seen_row = Rows.row_from_sql (Sqlite.accepted_row quote 10 1100)

commit_honor-rejected_example :
    ((commit_honor pg_deps
        (txn_input pg_deps key rejecting 20 seen_row candidate GateMode.single)
        false
        pg_host).0
      ≡ throw out_of_stock)
    × (pg_view
          (commit_honor pg_deps
            (txn_input pg_deps key rejecting 20 seen_row candidate GateMode.single)
            false
            pg_host).1.env
        ≡ pg_view accepted_pg)
unfolding text_eq first Rows.has_key Rows.row_from_sql
commit_honor-rejected_example =
    commit_honor-rejected decimal_cell pg_deps refl key rejecting 20 seen_row seen_row candidate
      GateMode.single false pg_host out_of_stock tt accepted_pg-IsWellFormed refl refl refl

abbrev empty_pg : PgDb ℕ
empty_pg = record { seen = []; consumed = []; goods = 0 }

empty_pg-IsWellFormed : IsWellFormed (sqlite_db empty_pg)
empty_pg-IsWellFormed = record { seen_unique = tt; consumed_unique = tt }

abbrev deadline : HonorKey → ℕ
deadline _ = 1100

empty_pg-IsTied : IsTied deadline (pg_view empty_pg)
unfolding first
empty_pg-IsTied k r h = absurd (ground arith)

-- A link that fails before the COMMIT is taken.
abbrev refusing_link : Link
refusing_link = record { connect = none; begin = none; commit = CommitEnd.not_taken reset }

-- A first honor is rolled back, the answer to the second one's COMMIT is lost, and the caller tries again.
abbrev pg_calls : List (PgCall ℕ)
pg_calls =
    PgCall.accepts quote 10 1100
    ∷ PgCall.honors refusing_link awaited_input
    ∷ PgCall.honors breaking_link (record awaited_input { now = 25 })
    ∷ PgCall.sweeps sound_link 30
    ∷ PgCall.honors sound_link (record awaited_input { now = 40 })
    ∷ []

pg_honored_times-le-one_example : pg_honored_times key pg_calls empty_pg ≤ 1
pg_honored_times-le-one_example =
    pg_honored_times-le-one deadline pg_calls 5 key empty_pg empty_pg-IsWellFormed empty_pg-IsTied
      (refl, (omega arith, (omega arith, (omega arith, tt))))

pg_calls_honor_once : pg_honored_times key pg_calls empty_pg ≡ 1
unfolding pg_honored_times pg_commits pg_step same_key upsert_accepted run_honor_txn lock_seen
    is_lockable has_key consume deliver_goods sweep text_eq amount_to_text first count_if update
    delete
pg_calls_honor_once = refl
