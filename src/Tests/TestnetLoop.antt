-- ===== src/Tests/TestnetLoop.antt =====
-- Passes of the testnet loop at concrete inputs.
use exfer_honor.Base.{◌≡◌, refl, codes, true, none, some, [], ◌∷◌}
use exfer_honor.Spec.Errors.{Thrown}
use exfer_honor.Ports.Effect.{pure, raise}
use exfer_honor.Store.Table.{update}
use exfer_honor.Service.{Ending}
use exfer_honor.Adapters.Verifier.{QuoteJson, accept, to_accepted_quote}
use exfer_honor.Examples.TestnetLoop.{
  LoopConfig, IterationStatus, Iteration, Metrics, LoopState, Remotes, max_seq, update_row,
  fail_open_row, wait_for_balance, ensure_buyer_funded, settle_quote, run_row, run_iteration,
  attempt, refresh_gauges, pass, is_healthy,
}
use exfer_honor.Examples.TestnetLoop.Ledger.{Reached, IsAccounted, Reached-IsAccounted}
use exfer_honor.Tests.Samples.{point}

abbrev cfg : LoopConfig
cfg = record {
  amount = 1000;
  refill_multiple = 20;
  fee_budget = 10000;
  interval_ms = 15000;
  max_consecutive_failures = 2;
}

abbrev credential : QuoteJson
credential = record {
  quote_id = codes "00";
  signer_pubkey = codes "s";
  payee_pubkey = codes "ab";
  payer_pubkey = none;
  exfer_amount = 1000;
  expires_at = 100;
  issued_at = 3;
  signed_rest = [];
}

-- A buyer with means, and a gate that honors.
abbrev remotes : Remotes Unit
remotes = record {
  now_ms = λ w. (5000, w);
  sleep = λ _ w. w;
  get_height = pure 9;
  buyer_balance = pure 20000;
  seller_balance = pure 0;
  refill_transfer = λ _. pure (codes "refill");
  faucet = none;
  quote_issue = λ _. pure credential;
  seller_verify = λ _. pure (record { valid = true; reason = none });
  on_paid = λ _. pure tt;
  buyer_verify = λ _. pure (record { valid = true; reason = none });
  settle_transfer = λ _ _. pure (record { tx_id = codes "t"; tip_height = some 9 });
  done = λ _. pure (Ending.honored point);
}

-- The same with a node that does not answer.
abbrev node_down : Remotes Unit
node_down = record remotes { get_height = raise (Thrown.plain_error none []) }

abbrev zero_metrics : Metrics
zero_metrics = record {
  iterations = 0;
  honored = 0;
  declined = 0;
  failed = 0;
  consecutive_failures = 0;
  last_iteration_ts = 0;
  last_honor_latency_ms = 0;
  height = 0;
  payer_balance = 0;
  payee_balance = 0;
  faucet_calls = 0;
  refills = 0;
}

abbrev start : LoopState Unit
start = record { rows = []; metrics = zero_metrics; last_gauge_at = 0; world = tt }

abbrev paid_row : Iteration
paid_row = record {
  seq = 1;
  started_at = 5;
  quote_id = some (codes "00");
  amount = 1000;
  settle_tx = some (codes "t");
  settle_height = some 9;
  honor_status = some IterationStatus.honored;
  honor_latency_ms = some 0;
}

abbrev one_pass : LoopState Unit
one_pass = (pass cfg remotes start).1

-- A failure before the next row is inserted does not touch the row that was honored.
passes :
    (one_pass.rows ≡ paid_row ∷ [])
    × ((pass cfg node_down one_pass).1.rows ≡ paid_row ∷ [])
    × (is_healthy cfg (pass cfg node_down one_pass).1.metrics ≡ true)
unfolding pass attempt run_iteration run_row settle_quote ensure_buyer_funded wait_for_balance
    refresh_gauges update_row fail_open_row max_seq update accept to_accepted_quote is_healthy
passes = (refl, refl, refl)

Reached-IsAccounted_example : IsAccounted cfg remotes [] one_pass
Reached-IsAccounted_example =
    Reached-IsAccounted cfg remotes [] one_pass tt
      (Reached.passed start (Reached.started zero_metrics 0 tt refl refl))
