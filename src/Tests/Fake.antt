-- ===== src/Tests/Fake.antt =====
-- Runs of the in-memory store, and the two reference stores at concrete inputs.
use exfer_honor.Base.{◌≡◌, refl, text_eq, true, codes, List, [], ◌∷◌, Text}
use exfer_honor.Base.Dict.{lookup, insert}
use exfer_honor.Spec.Errors.{Thrown, throw, GateKind}
use exfer_honor.Ports.Store.{Delivery, DeliverFn, HonorTxnInput}
use exfer_honor.Store.Table.{first}
use exfer_honor.Store.Rows.{Db}
use exfer_honor.Store.Contract.{honor, accept}
use exfer_honor.Store.Sqlite.{after_deliver}
use exfer_honor.Store.Sqlite as Sqlite
use exfer_honor.Store.Sqlite.View.{view, IsWellFormed}
use exfer_honor.Store.Sqlite.History.{Call, run}
use exfer_honor.Store.Amount.{amount_to_text}
use exfer_honor.Store.Fake.{
  FakeDb, row_key, outpoint_key, add, publish, goods_count, upsert_accepted, get_seen,
  is_outpoint_consumed, stage_seen, stage_outpoint, run_honor_txn,
}
use exfer_honor.Store.Fake.Refines.{Shows, upsert_accepted-Shows}
use exfer_honor.Store.Fake.Honors.{Stages, Agrees, run_honor_txn-Agrees}
use exfer_honor.Store.Fake.History.{fake_run, fake_run-run}
use exfer_honor.Tests.Samples.{key, quote, point, candidate, input}

abbrev pub empty_fake : FakeDb
empty_fake = record { seen = []; outpoints = []; goods = []; deliver_count = 0 }

abbrev pub empty_db : Db (List Text)
empty_db = record { seen = []; consumed = []; goods = [] }

pub empty_IsWellFormed : IsWellFormed empty_db
empty_IsWellFormed = record { seen_unique = tt; consumed_unique = tt }

pub empty_Shows : Shows empty_fake (view empty_db)
unfolding lookup first
empty_Shows = record {
  rows = λ k h. refl;
  holdings = λ o. refl;
  goods = refl;
  seen_unique = tt;
  outpoints_unique = tt;
}

-- Stages one key.
abbrev pub stage : DeliverFn (List Text)
stage _ goods = (Delivery.returned, add (codes "goods") goods)

pub stage-Stages : Stages stage
unfolding add publish
stage-Stages ctx goods = refl

abbrev honor_input : HonorTxnInput (List Text)
honor_input = record {
  signer_pubkey = input.signer_pubkey;
  quote_id = input.quote_id;
  candidate = candidate;
  outpoint = point;
  now = 20;
  retain_until = 1100;
  mode = input.mode;
  deliver = stage;
}

abbrev calls : List (Call (List Text))
calls = Call.accepts quote 10 1100 ∷ Call.honors honor_input ∷ []

abbrev once_honored : FakeDb
once_honored = (run_honor_txn honor_input (upsert_accepted quote 10 1100 empty_fake)).1

-- The second honor of a quote is refused, and one piece of goods is there.
honored_once :
    ((run_honor_txn honor_input once_honored).0
      ≡ throw (Thrown.gate_violation GateKind.seen_already_honored))
    × (goods_count once_honored ≡ 1)
    × (is_outpoint_consumed point once_honored ≡ true)
unfolding run_honor_txn upsert_accepted is_outpoint_consumed goods_count lookup insert text_eq
    row_key outpoint_key stage_seen stage_outpoint publish add amount_to_text
honored_once = (refl, refl, refl)

run_honor_txn-Agrees_example :
    Agrees
      (run_honor_txn honor_input (upsert_accepted quote 10 1100 empty_fake))
      (honor after_deliver honor_input (accept quote 10 1100 (view empty_db)))
run_honor_txn-Agrees_example =
    run_honor_txn-Agrees honor_input refl (upsert_accepted quote 10 1100 empty_fake)
      (accept quote 10 1100 (view empty_db))
      (upsert_accepted-Shows quote 10 1100 empty_fake (view empty_db) refl empty_Shows) stage-Stages

fake_run-run_example :
    (get_seen key (fake_run calls empty_fake) ≡ Sqlite.get_seen key (run calls empty_db))
    × (is_outpoint_consumed point (fake_run calls empty_fake)
        ≡ Sqlite.is_outpoint_consumed point (run calls empty_db))
    × ((fake_run calls empty_fake).goods ≡ (run calls empty_db).goods)
    × ((run_honor_txn honor_input (fake_run calls empty_fake)).0
        ≡ (Sqlite.run_honor_txn honor_input (run calls empty_db)).0)
fake_run-run_example =
    fake_run-run calls empty_db empty_fake key point honor_input empty_IsWellFormed empty_Shows
      ((refl, stage-Stages), (refl, ((refl, stage-Stages), tt))) refl
