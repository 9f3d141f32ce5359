-- ===== src/Tests/Service.antt =====
-- The theorems of the `onPaid` loop at concrete inputs.
use exfer_honor.Base.{ℕ, text_eq, ◌≡◌, refl, none, some, [], ◌∷◌, false}
use exfer_honor.Spec.Types.{DeclineReason}
use exfer_honor.Spec.Errors.{HonorErrorCode, Thrown}
use exfer_honor.Ports.Effect.{pure, raise}
use exfer_honor.Ports.Deps.{HonorDeps}
use exfer_honor.Spec.Datum.{decode_settlement_datum}
use exfer_honor.Store.Table.{first, count_if, update}
use exfer_honor.Store.Rows.{row_from_sql, has_key, has_outpoint}
use exfer_honor.Store.Amount.{amount_to_text, text_to_amount}
use exfer_honor.Store.Sqlite.{
  upsert_accepted, mark_observed_before_expiry, get_seen, lock_seen, is_lockable, consume,
  deliver_goods, run_honor_txn,
}
use exfer_honor.Store.Sqlite.Port.{sqlite_store}
use exfer_honor.Forms.Spine.{
  run_binding_spine, bind_datum, bind_payment, custody_test, check_payer_binding, funded_by,
}
use exfer_honor.Forms.Plain.{score_from, score, plain_form, depth_gate}
use exfer_honor.Core.Registry.{find_form, or_malformed, get_form}
use exfer_honor.Core.Scorer.{score_quote, gate_step0}
use exfer_honor.Core.Engine.{
  register, pre_screen, mark_observed, observe_row, honor, now_or_clock, after_step0, honor_seen,
  after_score, prepare_form, after_prepare, commit_honor,
}
use exfer_honor.Service.{
  Ending, Event, LoopState, is_retryable_code, tick_ending, start_ending, tick, open_step,
  loop_step, run_loop, on_paid,
}
use exfer_honor.Service.Loop.{Honored, run_loop-settled, on_paid-Honored}
use exfer_honor.Tests.Samples.{Host, quote, point, deps, deliver, empty_host}

-- Registered, observed and honored at the first tick.
abbrev paid : LoopState Unit ℕ
paid = on_paid deps quote deliver false (Event.ticks ∷ Event.cancels ∷ []) empty_host

on_paid-Honored_example : Honored deps quote deliver false point paid.world
unfolding on_paid run_loop loop_step open_step tick tick_ending start_ending register pre_screen
    mark_observed observe_row upsert_accepted mark_observed_before_expiry honor now_or_clock
    after_step0 gate_step0 honor_seen after_score prepare_form after_prepare commit_honor
    score_quote find_form or_malformed get_form score_from score plain_form depth_gate
    run_binding_spine bind_datum bind_payment custody_test check_payer_binding funded_by
    decode_settlement_datum get_seen lock_seen is_lockable consume deliver_goods run_honor_txn
    text_eq amount_to_text text_to_amount row_from_sql has_key has_outpoint first count_if update
on_paid-Honored_example =
    on_paid-Honored deps quote deliver false (Event.ticks ∷ Event.cancels ∷ []) point empty_host
      refl

abbrev settled_loop : LoopState Unit ℕ
settled_loop = record { settled = some Ending.cancelled; world = empty_host }

settled_loop_stays :
    run_loop deps quote deliver false (Event.ticks ∷ Event.ticks ∷ []) settled_loop ≡ settled_loop
settled_loop_stays =
    run_loop-settled deps quote deliver false (Event.ticks ∷ Event.ticks ∷ []) settled_loop
      Ending.cancelled refl

-- A store that is down while the quote is registered.
abbrev faulty_deps : HonorDeps Host ℕ
faulty_deps = record deps {
  store = record sqlite_store {
    get_seen = λ _. pure none;
    upsert_accepted = λ _ _ _. raise (Thrown.honor_error HonorErrorCode.db_fault);
  };
}

-- No tick registers again.
unregistered_declines :
    (on_paid faulty_deps quote deliver false (Event.ticks ∷ Event.ticks ∷ []) empty_host).settled
    ≡ some (Ending.declined DeclineReason.expired_unobserved)
unfolding on_paid register now_or_clock pre_screen is_retryable_code mark_observed honor
unregistered_declines = refl
