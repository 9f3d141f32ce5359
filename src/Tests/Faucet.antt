-- ===== src/Tests/Faucet.antt =====
-- Runs of the faucet, and its answer at concrete inputs.
use exfer_honor.Base.{◌≡◌, refl, Text, text_eq, codes, some, [], ◌++◌}
use exfer_honor.Ports.Effect.{pure}
use exfer_honor.Examples.Faucet.{
  FaucetConfig, Metrics, Walletd, Faucet, Request, Response, Rejection, Admission, sum_since,
  max_at, wait_left, day_before, rate_limit, admit, book, serve,
}

abbrev cfg : FaucetConfig
cfg = record {
  from_address = codes "faucet";
  amount = 60;
  addr_cooldown_secs = 3600;
  ip_cooldown_secs = 60;
  daily_budget = 100;
}

abbrev daemon : Walletd Unit
daemon = record { transfer = λ _. pure (codes "paid"); get_balance = λ _. pure (some 900) }

abbrev metrics : Metrics
metrics = record { started_at = 0; served = 0; rejected = 0; errors = 0; last_balance = 0 }

abbrev fresh : Faucet Unit
fresh = record { drips = []; metrics = metrics; walletd = tt }

abbrev sixteen : Text
sixteen = codes "0123456789abcdef"

abbrev first_address : Text
first_address = sixteen ++ sixteen ++ sixteen ++ sixteen

abbrev other_address : Text
other_address = codes "fedcba9876543210" ++ sixteen ++ sixteen ++ sixteen

abbrev drip_request : Text → Text → Request
drip_request address ip = record {
  method = codes "POST";
  url = codes "/faucet";
  ip = ip;
  body = some address;
}

abbrev after_one : Faucet Unit
after_one = (serve cfg daemon 200000000 (drip_request first_address (codes "one")) fresh).1

-- The first drip goes out; the same address then waits, and another one finds the budget spent.
one_drip :
    ((serve cfg daemon 200000000 (drip_request first_address (codes "one")) fresh).0
      ≡ Response.dripped (codes "paid") 60)
    × ((serve cfg daemon 200100000 (drip_request first_address (codes "two")) after_one).0
        ≡ Response.limited (Rejection.address_cooldown 3500))
    × ((serve cfg daemon 200100000 (drip_request other_address (codes "two")) after_one).0
        ≡ Response.limited Rejection.budget_exhausted)
unfolding serve admit rate_limit wait_left max_at sum_since book text_eq
one_drip = (refl, refl, refl)

-- Two requests that are admitted before either transfer is answered are both paid, past the budget.
both_admitted :
    ((admit cfg 200000 (codes "one") (some first_address) fresh).0
      ≡ Admission.transferring first_address)
    × ((admit cfg 200000 (codes "two") (some other_address) fresh).0
        ≡ Admission.transferring other_address)
    × (sum_since (day_before 200000) (
          (book cfg other_address
            (codes "two")
            200000
            (codes "paid")
            (book cfg first_address (codes "one") 200000 (codes "paid") fresh)).drips)
        ≡ 120)
unfolding admit rate_limit wait_left max_at sum_since book text_eq
both_admitted = (refl, refl, refl)
