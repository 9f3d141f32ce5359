-- ===== src/Service.antt =====
-- The `onPaid` loop of `HonorService` (src/service/honor-service.ts): registration, then ticks until the
-- promise settles. A tick that starts while another runs does nothing, so ticks come one after another;
-- the caller's `cancel` may come between two ticks or during one.
pub mod Loop
pub mod HttpRpc
pub mod Create
use exfer_honor.Base.{ℕ, Bool, true, false, Option, none, some, List, [], ◌∷◌, if◌then◌else◌}
use exfer_honor.Spec.Types.{
  AcceptedQuote, Outpoint, DeclineReason, HonorVerdict, HonorOutcome, HonorKey, RegisterOpts,
  RegisterResult,
}
use exfer_honor.Spec.Errors.{HonorErrorCode, Thrown, Result, ok, throw}
use exfer_honor.Ports.Store.{DeliverFn}
use exfer_honor.Ports.World.{World}
use exfer_honor.Ports.Effect.{Eff, ◌>>=◌}
use exfer_honor.Ports.Deps.{HonorDeps}
use exfer_honor.Core.Engine.{register, mark_observed, honor}

-- What the promise settles with: `OnPaidResult`, or a rejection.
pub data Ending : Type 0 where
  honored : Outpoint → Ending
  declined : DeclineReason → Ending
  cancelled : Ending
  failed : Thrown → Ending

unfoldable pub is_retryable_code : HonorErrorCode → Bool
is_retryable_code HonorErrorCode.chain_fault = true
is_retryable_code HonorErrorCode.keystore_fault = true
is_retryable_code HonorErrorCode.db_fault = true
is_retryable_code HonorErrorCode.indexer_fault = true
is_retryable_code _ = false

-- A `deliver`'s own throw is whatever it threw.
unfoldable pub is_retryable_fault : Thrown → Bool
unfolding is_retryable_code
is_retryable_fault (Thrown.honor_error code) = is_retryable_code code
is_retryable_fault (Thrown.gate_violation kind) = false
is_retryable_fault (Thrown.plain_error code message) = false
is_retryable_fault (Thrown.from_deliver e) = is_retryable_fault e

-- What an answer of `honor` makes of the loop: `none` to try again at the next tick.
unfoldable pub tick_ending : Result HonorOutcome → Option Ending
unfolding is_retryable_fault
tick_ending (ok (HonorOutcome.honored o)) = some (Ending.honored o)
tick_ending (ok HonorOutcome.delivery_failed) = none
tick_ending (ok (HonorOutcome.not_ready (HonorVerdict.decline reason))) =
    some (Ending.declined reason)
tick_ending (ok (HonorOutcome.not_ready (HonorVerdict.wait reason))) = none
tick_ending (ok (HonorOutcome.not_ready (HonorVerdict.honor c form))) = none
tick_ending (throw e) = if is_retryable_fault e then none else some (Ending.failed e)

-- A fault of registration that may pass lets the loop start.
unfoldable pub start_ending : Result RegisterResult → Option Ending
unfolding is_retryable_fault
start_ending (ok _) = none
start_ending (throw e) = if is_retryable_fault e then none else some (Ending.failed e)

pub data Event : Type 0 where
  ticks cancels_in_tick cancels : Event

pub record LoopState (E G : Type 0) : Type 0 where
  pub settled : Option Ending
  pub world : World E G

abbrev pub quote_opts : Bool → RegisterOpts
quote_opts rethrow = record {
  now = none;
  pre_screen_payee_custody = false;
  rethrow_delivery_errors = rethrow;
}

module _ {E G : Type 0} (deps : HonorDeps (World E G) G) (quote : AcceptedQuote)
    (deliver : DeliverFn G) (rethrow : Bool) where
  abbrev pub paid_key : HonorKey
  paid_key = record { signer_pubkey = quote.signer_pubkey; quote_id = quote.quote_id }

  unfoldable pub tick : Eff (World E G) HonorOutcome
  tick = do
    now ← deps.clock
    _ ← mark_observed deps paid_key now
    honor deps paid_key deliver (quote_opts rethrow)

  -- One event, while the promise is open.
  unfoldable pub open_step : Event → World E G → LoopState E G
  unfolding tick tick_ending
  open_step Event.ticks w =
      let (r, after) = tick w in record { settled = tick_ending r; world = after }
  open_step Event.cancels_in_tick w = record { settled = some Ending.cancelled; world = (tick w).1 }
  open_step Event.cancels w = record { settled = some Ending.cancelled; world = w }

  unfoldable pub loop_step : Event → LoopState E G → LoopState E G
  unfolding open_step
  loop_step event l = elim l.settled [ none ↦ open_step event l.world | some _ ↦ l ]

  unfoldable pub run_loop : List Event → LoopState E G → LoopState E G
  unfolding loop_step
  run_loop [] l = l
  run_loop (event ∷ events) l = run_loop events (loop_step event l)

  unfoldable pub on_paid : List Event → World E G → LoopState E G
  unfolding run_loop start_ending
  on_paid events w =
      let (r, after) = register deps quote (quote_opts false) w in
      run_loop events (record { settled = start_ending r; world = after })
