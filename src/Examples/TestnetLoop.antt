-- ===== src/Examples/TestnetLoop.antt =====
-- The settlement loop on the testnet (examples/testnet-loop/loop.ts): its ledger of iterations, its metrics, the
-- funding of the buyer, one iteration and one pass of the loop. The daemons, the clock and the waits are
-- parameters, and so is what the promise of `onPaid` (Service) settles with.
pub mod Row
pub mod Rows
pub mod Ledger
use exfer_honor.Base.{
  ℕ, zero, suc, ◌+◌, ◌-◌, ◌*◌, ◌/◌, Text, Bool, true, false, not, ◌&&◌, Option, none, some, List,
  [], ◌∷◌, ◌++◌, ltb, leb, ◌==◌, if◌then◌else◌,
}
use exfer_honor.Spec.Types.{QuoteId, SettlementFormId, AcceptedQuote}
use exfer_honor.Spec.Errors.{Thrown, Result, ok, throw}
use exfer_honor.Ports.Effect.{Eff, pure, raise, ◌>>=◌, ◌>>◌, try_catch}
use exfer_honor.Store.Table.{update}
use exfer_honor.Service.{Ending}
use exfer_honor.Adapters.Verifier.{QuoteJson, QuoteVerifyResult, AcceptOutcome, accept}

pub record LoopConfig : Type 0 where
  pub amount : ℕ
  pub refill_multiple : ℕ
  pub fee_budget : ℕ
  pub interval_ms : ℕ
  pub max_consecutive_failures : ℕ

-- The column `honor_status`: the status of `onPaid`, or 'failed'.
pub data IterationStatus : Type 0 where
  honored declined cancelled failed : IterationStatus

-- A row of `loop_iterations`; the text of `detail` is left out.
pub record Iteration : Type 0 where
  pub seq : ℕ
  pub started_at : ℕ
  pub quote_id : Option QuoteId
  pub amount : ℕ
  pub settle_tx : Option Text
  pub settle_height : Option ℕ
  pub honor_status : Option IterationStatus
  pub honor_latency_ms : Option ℕ

pub record Metrics : Type 0 where
  pub iterations : ℕ
  pub honored : ℕ
  pub declined : ℕ
  pub failed : ℕ
  pub consecutive_failures : ℕ
  pub last_iteration_ts : ℕ
  pub last_honor_latency_ms : ℕ
  pub height : ℕ
  pub payer_balance : ℕ
  pub payee_balance : ℕ
  pub faucet_calls : ℕ
  pub refills : ℕ

pub record LoopState (W : Type 0) : Type 0 where
  pub rows : List Iteration
  pub metrics : Metrics
  pub last_gauge_at : ℕ
  pub world : W

pub record Settled : Type 0 where
  pub tx_id : Text
  pub tip_height : Option ℕ

-- The remote calls, over the state of the rest of the world. The faucet may be missing.
pub record Remotes (W : Type 0) : Type 0 where
  pub now_ms : W → ℕ × W
  pub sleep : ℕ → W → W
  pub get_height : Eff W ℕ
  pub buyer_balance : Eff W ℕ
  pub seller_balance : Eff W ℕ
  pub refill_transfer : ℕ → Eff W Text
  pub faucet : Option (Eff W Unit)
  pub quote_issue : ℕ → Eff W QuoteJson
  pub seller_verify : QuoteJson → Eff W QuoteVerifyResult
  pub on_paid : AcceptedQuote → Eff W Unit
  pub buyer_verify : QuoteJson → Eff W QuoteVerifyResult
  pub settle_transfer : QuoteId → ℕ → Eff W Settled
  pub done : AcceptedQuote → Eff W Ending

-- An `Error` by the source, its message left out.
abbrev pub loop_error : Thrown
loop_error = Thrown.plain_error none []

abbrev pub fresh_iteration : ℕ → ℕ → ℕ → Iteration
fresh_iteration seq started_at amount = record {
  seq = seq;
  started_at = started_at;
  quote_id = none;
  amount = amount;
  settle_tx = none;
  settle_height = none;
  honor_status = none;
  honor_latency_ms = none;
}

-- `SELECT MAX(seq)`; 0 where there is no row, which no row has as its number.
unfoldable pub max_seq : List Iteration → ℕ
max_seq [] = 0
max_seq (r ∷ rows) = let rest = max_seq rows in if ltb rest r.seq then r.seq else rest

abbrev pub is_open : Option IterationStatus → Bool
is_open none = true
is_open (some _) = false

-- `WHERE seq = ?`.
unfoldable pub update_row : ℕ → (Iteration → Iteration) → List Iteration → List Iteration
update_row seq f = update (λ r. r.seq == seq) f

abbrev pub fail_row : Iteration → Iteration
fail_row r = record r { honor_status = some IterationStatus.failed }

-- The UPDATE of the catch: the latest row, if its status is not set.
unfoldable pub fail_open_row : List Iteration → List Iteration
fail_open_row rows = update (λ r. r.seq == max_seq rows && is_open r.honor_status) fail_row rows

abbrev pub succeed : ℕ → Metrics → Metrics
succeed now m = record m {
  iterations = m.iterations + 1;
  consecutive_failures = 0;
  last_iteration_ts = now;
}

abbrev pub note_failure : Metrics → Metrics
note_failure m = record m {
  failed = m.failed + 1;
  consecutive_failures = m.consecutive_failures + 1;
}

module _ {W : Type 0} where
  abbrev pub on_world : {A : Type 0} → Eff W A → Eff (LoopState W) A
  on_world m s = let (r, w) = m s.world in (r, record s { world = w })

  -- `Date.now()` and a wait do not throw.
  abbrev pub at_clock : (W → ℕ × W) → Eff (LoopState W) ℕ
  at_clock f s = let (t, w) = f s.world in (ok t, record s { world = w })

  abbrev pub slept : (W → W) → Eff (LoopState W) Unit
  slept f s = (ok tt, record s { world = f s.world })

  abbrev pub on_rows : (List Iteration → List Iteration) → Eff (LoopState W) Unit
  on_rows f s = (ok tt, record s { rows = f s.rows })

  abbrev pub on_metrics : (Metrics → Metrics) → Eff (LoopState W) Unit
  on_metrics f s = (ok tt, record s { metrics = f s.metrics })

  -- The latency gauge, and the UPDATE of the status.
  abbrev pub mark_row : ℕ → ℕ → IterationStatus → Eff (LoopState W) Unit
  mark_row seq latency status = do
    on_metrics (λ m. record m { last_honor_latency_ms = latency })
    on_rows (
        update_row seq
          (λ r. record r { honor_status = some status; honor_latency_ms = some latency }))

  abbrev pub last_gauge : Eff (LoopState W) ℕ
  last_gauge s = (ok s.last_gauge_at, s)

  abbrev pub gauged_at : ℕ → Eff (LoopState W) Unit
  gauged_at now s = (ok tt, record s { last_gauge_at = now })

  -- The INSERT of an iteration, and its number.
  abbrev pub insert_row : ℕ → ℕ → Eff (LoopState W) ℕ
  insert_row started_at amount s = (
    ok (suc (max_seq s.rows)),
    record s { rows = s.rows ++ fresh_iteration (suc (max_seq s.rows)) started_at amount ∷ [] },
  )

  module _ (cfg : LoopConfig) (remotes : Remotes W) where
    unfoldable pub wait_for_balance : ℕ → ℕ → Eff (LoopState W) Unit
    wait_for_balance target zero = raise loop_error
    wait_for_balance target (suc tries) = do
      balance ← on_world remotes.buyer_balance
      (if leb target balance
          then pure tt
          else slept (remotes.sleep 2000) >> wait_for_balance target tries)

    abbrev pub from_faucet : ℕ → Option (Eff W Unit) → Eff (LoopState W) Unit
    from_faucet needed none = raise loop_error
    from_faucet needed (some drip) = do
      on_world drip
      on_metrics (λ m. record m { faucet_calls = m.faucet_calls + 1 })
      wait_for_balance needed 180

    abbrev pub from_seller : ℕ → Eff (LoopState W) Unit
    from_seller needed = do
      _ ← on_world (remotes.refill_transfer (cfg.amount * cfg.refill_multiple))
      on_metrics (λ m. record m { refills = m.refills + 1 })
      wait_for_balance needed 120

    abbrev pub fund_buyer : ℕ → Eff (LoopState W) Unit
    fund_buyer needed = do
      seller ← on_world remotes.seller_balance
      (if leb (cfg.amount * cfg.refill_multiple + cfg.fee_budget) seller
          then from_seller needed
          else from_faucet needed remotes.faucet)

    unfoldable pub ensure_buyer_funded : ℕ → Eff (LoopState W) Unit
    ensure_buyer_funded needed = do
      buyer ← on_world remotes.buyer_balance
      if leb needed buyer then pure tt else fund_buyer needed

    abbrev pub or_refused : AcceptOutcome → Eff (LoopState W) AcceptedQuote
    or_refused (AcceptOutcome.accepted quote) = pure quote
    or_refused (AcceptOutcome.rejected reason) = raise loop_error

    -- Past the promise of `onPaid`: the row's status and latency, the count, and a throw unless the quote was
    -- honored. A rejected promise is thrown on before any of that.
    abbrev pub close_row : ℕ → ℕ → Ending → Eff (LoopState W) Unit
    close_row seq honor_start (Ending.failed e) = raise e
    close_row seq honor_start (Ending.honored o) = do
      now ← at_clock remotes.now_ms
      mark_row seq (now - honor_start) IterationStatus.honored
      on_metrics (λ m. record m { honored = m.honored + 1 })
    close_row seq honor_start (Ending.declined reason) = do
      now ← at_clock remotes.now_ms
      mark_row seq (now - honor_start) IterationStatus.declined
      on_metrics (λ m. record m { declined = m.declined + 1 })
      raise loop_error
    close_row seq honor_start Ending.cancelled = do
      now ← at_clock remotes.now_ms
      mark_row seq (now - honor_start) IterationStatus.cancelled
      on_metrics (λ m. record m { declined = m.declined + 1 })
      raise loop_error

    -- Steps 3 to 5: `onPaid`, the buyer's verification and payment, and the gate.
    unfoldable pub settle_quote : ℕ → QuoteJson → AcceptedQuote → Eff (LoopState W) Unit
    settle_quote seq quote accepted = do
      honor_start ← at_clock remotes.now_ms
      on_world (remotes.on_paid accepted)
      slept (remotes.sleep 1500)
      verify ← on_world (remotes.buyer_verify quote)
      if not verify.valid then raise loop_error else do
        transfer ← on_world (remotes.settle_transfer quote.quote_id cfg.amount)
        on_rows (
            update_row seq (λ r. record r {
              settle_tx = some transfer.tx_id;
              settle_height = transfer.tip_height;
            }))
        result ← on_world (remotes.done accepted)
        close_row seq honor_start result

    -- An iteration past the INSERT of its row.
    unfoldable pub run_row : ℕ → Eff (LoopState W) Unit
    unfolding ensure_buyer_funded settle_quote
    run_row seq = do
      ensure_buyer_funded (cfg.amount + cfg.fee_budget)
      quote ← on_world (remotes.quote_issue cfg.amount)
      on_rows (update_row seq (λ r. record r { quote_id = some quote.quote_id }))
      outcome ← on_world (accept remotes.seller_verify quote SettlementFormId.plain)
      accepted ← or_refused outcome
      settle_quote seq quote accepted

    unfoldable pub run_iteration : Eff (LoopState W) Unit
    unfolding run_row
    run_iteration = do
      started ← at_clock remotes.now_ms
      seq ← insert_row (started / 1000) cfg.amount
      run_row seq

    -- The `try` of one pass.
    unfoldable pub attempt : Eff (LoopState W) Unit
    unfolding run_iteration
    attempt = do
      height ← on_world remotes.get_height
      on_metrics (λ m. record m { height = height })
      run_iteration
      now ← at_clock remotes.now_ms
      on_metrics (succeed now)

    abbrev pub read_gauges : Eff (LoopState W) Unit
    read_gauges = do
      buyer ← on_world remotes.buyer_balance
      on_metrics (λ m. record m { payer_balance = buyer })
      seller ← on_world remotes.seller_balance
      on_metrics (λ m. record m { payee_balance = seller })
      now ← at_clock remotes.now_ms
      gauged_at now

    -- The gauges of the balances, at most every fifteen seconds; a fault is ignored.
    unfoldable pub refresh_gauges : Eff (LoopState W) Unit
    refresh_gauges = do
      now ← at_clock remotes.now_ms
      last ← last_gauge
      (if ltb (last + 15000) now then try_catch read_gauges (λ _. pure tt) else pure tt)

    unfoldable pub pass : Eff (LoopState W) Unit
    unfolding attempt refresh_gauges
    pass = do
      try_catch attempt (λ _. on_metrics note_failure >> on_rows fail_open_row)
      refresh_gauges
      slept (remotes.sleep cfg.interval_ms)

-- `/healthz`.
unfoldable pub is_healthy : LoopConfig → Metrics → Bool
is_healthy cfg m = ltb m.consecutive_failures cfg.max_consecutive_failures
