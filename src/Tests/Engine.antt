-- ===== src/Tests/Engine.antt =====
-- The engine's theorems at concrete inputs.
use exfer_honor.Base.{ℕ, some, text_eq, ◌≡◌, refl, false}
use exfer_honor.Spec.Types.{AcceptedQuote, HonorOutcome, HonorStatus, HonorVerdict, DeclineReason}
use exfer_honor.Spec.Errors.{ok}
use exfer_honor.Store.Table.{first, count_if, update}
use exfer_honor.Store.Rows.{row_from_sql, has_key, has_outpoint}
use exfer_honor.Store.Amount.{amount_to_text, text_to_amount}
use exfer_honor.Store.Sqlite.{
  get_seen, lock_seen, is_lockable, consume, deliver_goods, run_honor_txn,
}
use exfer_honor.Spec.Datum.{decode_settlement_datum}
use exfer_honor.Forms.Spine.{
  run_binding_spine, bind_datum, bind_payment, custody_test, check_payer_binding, funded_by,
}
use exfer_honor.Forms.Plain.{score_from, score, plain_form, depth_gate}
use exfer_honor.Core.Registry.{find_form, or_malformed, get_form}
use exfer_honor.Core.Scorer.{score_quote, gate_step0}
use exfer_honor.Core.Engine.{
  honor, now_or_clock, after_step0, honor_seen, after_score, prepare_form, after_prepare,
  commit_honor,
}
use exfer_honor.Store.Contract
use exfer_honor.Store.Contract.{quote_key, accept, observe, fresh_row}
use exfer_honor.Store.Sqlite.{after_deliver}
use exfer_honor.Store.Sqlite.View.{view, IsWellFormed}
use exfer_honor.Core.Engine.{register, status, mark_observed, txn_input}
use exfer_honor.Ports.Store.{SeenRow, GateMode, Delivery, HonorTxnInput}
use exfer_honor.Core.Engine.Observes.{observation, mark_observed-observe}
use exfer_honor.Core.Engine.Repeats.{status-honored, honor_again}
use exfer_honor.Core.Engine.Commit.{told, commit_honor-told}
use exfer_honor.Core.Engine.Registers.{plain_opts, registered, register-accept, register_again}
use exfer_honor.Tests.Samples.{
  Host, quote, key, point, input, deps, host, opts, deliver, failing_deliver, candidate, empty_db,
  accepted_db, empty_host,
}

-- A run of `honor` on a settled quote.
host_honors : (honor deps key deliver opts host).0 ≡ ok (HonorOutcome.honored point)
unfolding honor now_or_clock after_step0 gate_step0 honor_seen after_score prepare_form
    after_prepare commit_honor score_quote find_form or_malformed get_form score_from score
    plain_form depth_gate run_binding_spine bind_datum bind_payment custody_test check_payer_binding
    funded_by decode_settlement_datum get_seen lock_seen is_lockable consume deliver_goods
    run_honor_txn text_eq amount_to_text text_to_amount row_from_sql has_key has_outpoint first
    count_if update
host_honors = refl

-- A `deliver` that throws leaves the quote unhonored and the goods unwritten.
host_fails : honor deps key failing_deliver opts host ≡ (ok HonorOutcome.delivery_failed, host)
unfolding honor now_or_clock after_step0 gate_step0 honor_seen after_score prepare_form
    after_prepare commit_honor score_quote find_form or_malformed get_form score_from score
    plain_form depth_gate run_binding_spine bind_datum bind_payment custody_test check_payer_binding
    funded_by decode_settlement_datum get_seen lock_seen is_lockable consume deliver_goods
    run_honor_txn text_eq amount_to_text text_to_amount row_from_sql has_key has_outpoint first
    count_if update
host_fails = refl

accepted_db-IsWellFormed : IsWellFormed accepted_db
unfolding first
accepted_db-IsWellFormed = record { seen_unique = (refl, tt); consumed_unique = tt }

abbrev open_row : SeenRow
open_row = fresh_row quote 10 1100

abbrev told_input : HonorTxnInput ℕ
told_input = txn_input deps key deliver 20 open_row candidate GateMode.single

commit_honor-told_example :
    ((commit_honor deps told_input false host).0
      ≡ told false 20 GateMode.single point
          ((view accepted_db).row key)
          ((view accepted_db).holding point)
          Delivery.returned)
    × (view (commit_honor deps told_input false host).1.db
        ≡ (Contract.honor after_deliver told_input (view accepted_db)).1)
commit_honor-told_example =
    commit_honor-told deps refl key deliver 20 open_row candidate GateMode.single false host
      accepted_db-IsWellFormed

register-accept_example :
    ((register deps quote (plain_opts deps refl 10 false) empty_host).0
      ≡ ok (registered deps refl quote ((view empty_db).row (quote_key quote))))
    × (view (register deps quote (plain_opts deps refl 10 false) empty_host).1.db
        ≡ accept quote 10 1100 (view empty_db))
register-accept_example = register-accept deps refl quote 10 false empty_host

abbrev costlier : AcceptedQuote
costlier = record quote { exfer_amount = 70; expires_at = 200 }

abbrev once : Host
once = (register deps quote (plain_opts deps refl 10 false) empty_host).1

registered_again :
    ((register deps costlier (plain_opts deps refl 12 false) once).0
      ≡ ok (record { created = false; retain_until = 1100 }))
    × (view (register deps costlier (plain_opts deps refl 12 false) once).1.db ≡ view once.db)
unfolding first
registered_again = register_again deps refl quote costlier 10 12 false empty_host refl refl

abbrev committed_host : Host
committed_host = (commit_honor deps input false host).1

reports_the_honor :
    status deps key committed_host
    ≡ (ok (some (HonorStatus.honored 20 (some point))), committed_host)
unfolding commit_honor lock_seen is_lockable consume deliver_goods run_honor_txn text_eq
    amount_to_text text_to_amount row_from_sql has_key has_outpoint first count_if update
reports_the_honor =
    status-honored deps refl input false point host committed_host accepted_db-IsWellFormed refl

honor_again_example : honor deps key deliver (record opts { now = some 30 }) committed_host ≡ (
  ok (HonorOutcome.not_ready (HonorVerdict.decline DeclineReason.already_honored)),
  committed_host,
)
unfolding commit_honor lock_seen is_lockable consume deliver_goods run_honor_txn text_eq
    amount_to_text text_to_amount row_from_sql has_key has_outpoint first count_if update
honor_again_example =
    honor_again deps refl input false point host committed_host accepted_db-IsWellFormed refl
      deliver 30 false

mark_observed-observe_example :
    ((mark_observed deps key 15 host).0 ≡ ok (observation 15 ((view accepted_db).row key)))
    × (view (mark_observed deps key 15 host).1.db ≡ observe key 15 (view accepted_db))
mark_observed-observe_example = mark_observed-observe deps refl key 15 host
