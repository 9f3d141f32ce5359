-- ===== src/Examples/Faucet/Budget.antt =====
-- The daily budget of the faucet (examples/testnet-faucet/faucet.ts), over the requests that it serves one at a
-- time.
use exfer_honor.Base.{ℕ, ◌/◌, ◌≤◌, []}
use exfer_honor.Examples.Faucet.{
  FaucetConfig, Metrics, Walletd, Faucet, Request, sum_since, day_before, serve,
}

module _ (cfg : FaucetConfig) (capped : 1 ≤ cfg.daily_budget) where
  module _ {W : Type 0} where
    -- The drips of the day before a time are within the budget.
    abbrev Kept : ℕ → Faucet W → Type 0
    Kept now f = sum_since (day_before now) f.drips ≤ cfg.daily_budget

-- The states of a faucet that serves one request at a time, each with the time in seconds of its last
-- request: the clock does not go back, walletd may change by itself, and a restart keeps the ledger only.
pub data Reached {W : Type 0} (cfg : FaucetConfig) (daemon : Walletd W)
    : ℕ → Faucet W → Type 0 where
  opened :
      (m : Metrics) (w : W) → Reached cfg daemon 0 (record { drips = []; metrics = m; walletd = w })
  served :
      (last ms : ℕ) (req : Request) (f : Faucet W)
      → last ≤ ms / 1000
      → Reached cfg daemon last f
      → Reached cfg daemon (ms / 1000) (serve cfg daemon ms req f).1
  resumed :
      (last : ℕ) (m : Metrics) (w : W) (f : Faucet W)
      → Reached cfg daemon last f
      → Reached cfg daemon last (record f { metrics = m; walletd = w })
