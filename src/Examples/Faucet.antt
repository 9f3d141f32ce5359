-- ===== src/Examples/Faucet.antt =====
-- The testnet faucet (examples/testnet-faucet/faucet.ts): its ledger of drips, its rate limit and its routes. The
-- wallet daemon is a parameter, and so is what its calls do to it.
pub mod Budget
use exfer_honor.Base.{
  ℕ, ◌+◌, ◌-◌, ◌/◌, ◌<◌, Text, text_eq, codes, Bool, not, ◌&&◌, Option, none, some, List, [], ◌∷◌,
  ◌++◌, ltb, leb, ◌==◌, if◌then◌else◌, length, all,
}
use exfer_honor.Spec.Errors.{Thrown, Result, ok, throw}
use exfer_honor.Spec.Datum.{is_hex_digit}
use exfer_honor.Ports.Effect.{Eff}
use exfer_honor.Store.Amount.{amount_to_text}

pub record FaucetConfig : Type 0 where
  pub from_address : Text
  pub amount : ℕ
  pub addr_cooldown_secs : ℕ
  pub ip_cooldown_secs : ℕ
  pub daily_budget : ℕ

-- A row of `drips`; nothing reads its number.
pub record Drip : Type 0 where
  pub address : Text
  pub ip : Text
  pub amount : ℕ
  pub tx_id : Text
  pub at : ℕ

pub record Metrics : Type 0 where
  pub started_at : ℕ
  pub served : ℕ
  pub rejected : ℕ
  pub errors : ℕ
  pub last_balance : ℕ

-- The arguments of walletd's `transfer`, with its one output.
pub record Transfer : Type 0 where
  pub from : Text
  pub to : Text
  pub amount : ℕ
  pub fee_rate : ℕ
  pub client_token : Text

-- The calls on walletd, over its own state: the answer's `tx_id`, and its `balance` if there is one.
pub record Walletd (W : Type 0) : Type 0 where
  pub transfer : Transfer → Eff W Text
  pub get_balance : Text → Eff W (Option ℕ)

pub record Faucet (W : Type 0) : Type 0 where
  pub drips : List Drip
  pub metrics : Metrics
  pub walletd : W

-- A request with the address of its client. Its body is the `address` of the parsed JSON in lower case,
-- and none where `readBody` or `JSON.parse` throws.
pub record Request : Type 0 where
  pub method : Text
  pub url : Text
  pub ip : Text
  pub body : Option Text

-- Why a request waits: the seconds left of a cooldown, or the budget of the day.
pub data Rejection : Type 0 where
  address_cooldown : ℕ → Rejection
  ip_cooldown : ℕ → Rejection
  budget_exhausted : Rejection

-- The answers by their status: health (200 or 503), the metrics with the uptime in seconds, 400, 400,
-- 429, 200, 404, 500.
pub data Response : Type 0 where
  health : Bool → Metrics → Response
  report : Metrics → ℕ → Response
  bad_body : Response
  bad_address : Response
  limited : Rejection → Response
  dripped : Text → ℕ → Response
  not_found : Response
  failed : Thrown → Response

abbrev pub later : Option ℕ → ℕ → Option ℕ
later none at = some at
later (some t) at = if ltb t at then some at else some t

-- `SELECT MAX(at) … WHERE p`, over the rows after the last time found.
unfoldable pub max_at : (Drip → Bool) → List Drip → Option ℕ → Option ℕ
max_at p [] found = found
max_at p (d ∷ drips) found = max_at p drips (if p d then later found d.at else found)

-- `SELECT COALESCE(SUM(amount), 0) … WHERE at >= since`.
unfoldable pub sum_since : ℕ → List Drip → ℕ
sum_since since [] = 0
sum_since since (d ∷ drips) =
    if leb since d.at then d.amount + sum_since since drips else sum_since since drips

-- The seconds left of a cooldown since the last drip. A time of 0 counts as no drip, and a clock set back
-- lengthens the wait.
unfoldable pub wait_left : Option ℕ → ℕ → ℕ → Option ℕ
wait_left none now cooldown = none
wait_left (some t) now cooldown =
    if not (t == 0) && ltb now (t + cooldown) then some (t + cooldown - now) else none

-- `now - 86400`: below 0 in the first day of the epoch, where every row counts either way.
abbrev pub day_before : ℕ → ℕ
day_before now = now - 86400

abbrev pub over_budget : FaucetConfig → ℕ → List Drip → Option Rejection
over_budget cfg now drips =
    if ltb 0 cfg.daily_budget
      && ltb cfg.daily_budget (sum_since (day_before now) drips + cfg.amount)
    then some Rejection.budget_exhausted
    else none

abbrev pub after_ip : FaucetConfig → ℕ → List Drip → Option ℕ → Option Rejection
after_ip cfg now drips (some secs) = some (Rejection.ip_cooldown secs)
after_ip cfg now drips none = over_budget cfg now drips

abbrev pub after_address : FaucetConfig → Text → ℕ → List Drip → Option ℕ → Option Rejection
after_address cfg ip now drips (some secs) = some (Rejection.address_cooldown secs)
after_address cfg ip now drips none =
    after_ip cfg now drips
      (wait_left (max_at (λ d. text_eq d.ip ip) drips none) now cfg.ip_cooldown_secs)

unfoldable pub rate_limit : FaucetConfig → Text → Text → ℕ → List Drip → Option Rejection
rate_limit cfg address ip now drips =
    after_address cfg ip now drips
      (wait_left (max_at (λ d. text_eq d.address address) drips none) now cfg.addr_cooldown_secs)

-- `ADDR_RE.test`.
abbrev pub is_address : Text → Bool
is_address address = length address == 64 && all is_hex_digit address

abbrev pub drip_transfer : FaucetConfig → Text → ℕ → Transfer
drip_transfer cfg address now = record {
  from = cfg.from_address;
  to = address;
  amount = cfg.amount;
  fee_rate = 1;
  client_token = codes "faucet-" ++ address ++ codes "-" ++ amount_to_text now;
}

-- What a request comes to before its transfer is awaited: an answer, or the address to pay.
pub data Admission : Type 0 where
  answered : Response → Admission
  transferring : Text → Admission

module _ {W : Type 0} where
  abbrev pub reject : Response → Faucet W → Admission × Faucet W
  reject r f = (
    Admission.answered r,
    record f { metrics = record f.metrics { rejected = f.metrics.rejected + 1 } },
  )

  abbrev pub pass_limit : Text → Option Rejection → Faucet W → Admission × Faucet W
  pass_limit address none f = (Admission.transferring address, f)
  pass_limit address (some r) f = reject (Response.limited r) f

  -- `POST /faucet` up to the transfer.
  unfoldable pub admit : FaucetConfig → ℕ → Text → Option Text → Faucet W → Admission × Faucet W
  admit cfg now ip none f = reject Response.bad_body f
  admit cfg now ip (some address) f =
      if not (is_address address)
      then reject Response.bad_address f
      else pass_limit address (rate_limit cfg address ip now f.drips) f

  -- The row of a transfer that went through.
  unfoldable pub book : FaucetConfig → Text → Text → ℕ → Text → Faucet W → Faucet W
  book cfg address ip now tx_id f = record f {
    drips =
        f.drips
        ++ record { address = address; ip = ip; amount = cfg.amount; tx_id = tx_id; at = now } ∷ [];
    metrics = record f.metrics { served = f.metrics.served + 1 };
  }

  abbrev pub after_transfer :
      FaucetConfig → Text → Text → ℕ → Faucet W → Result Text × W → Response × Faucet W
  after_transfer cfg address ip now f (ok tx_id, w) =
      (Response.dripped tx_id cfg.amount, book cfg address ip now tx_id (record f { walletd = w }))
  after_transfer cfg address ip now f (throw e, w) = (
    Response.failed e,
    record f { walletd = w; metrics = record f.metrics { errors = f.metrics.errors + 1 } },
  )

  abbrev pub after_admit :
      FaucetConfig → Walletd W → Text → ℕ → Admission × Faucet W → Response × Faucet W
  after_admit cfg daemon ip now (Admission.answered r, f) = (r, f)
  after_admit cfg daemon ip now (Admission.transferring address, f) =
      after_transfer cfg address ip now f
        (daemon.transfer (drip_transfer cfg address now) f.walletd)

  abbrev pub balance_seen : Faucet W → Result (Option ℕ) × W → Faucet W
  balance_seen f (ok none, w) = record f {
    walletd = w;
    metrics = record f.metrics { last_balance = 0 };
  }
  balance_seen f (ok (some n), w) = record f {
    walletd = w;
    metrics = record f.metrics { last_balance = n };
  }
  balance_seen f (throw e, w) = record f { walletd = w }

  unfoldable pub get_balance : FaucetConfig → Walletd W → Faucet W → Faucet W
  get_balance cfg daemon f = balance_seen f (daemon.get_balance cfg.from_address f.walletd)

  abbrev pub healthz : FaucetConfig → Faucet W → Response × Faucet W
  healthz cfg f = (Response.health (leb cfg.amount f.metrics.last_balance) f.metrics, f)

  -- A request at a time in milliseconds, served to its end before the next one begins.
  unfoldable pub serve : FaucetConfig → Walletd W → ℕ → Request → Faucet W → Response × Faucet W
  unfolding admit get_balance
  serve cfg daemon ms req f =
      if text_eq req.method (codes "GET") && text_eq req.url (codes "/healthz")
      then healthz cfg (get_balance cfg daemon f)
      else if text_eq req.method (codes "GET") && text_eq req.url (codes "/metrics")
      then (Response.report f.metrics ((ms - f.metrics.started_at) / 1000), f)
      else if text_eq req.method (codes "POST") && text_eq req.url (codes "/faucet")
      then after_admit cfg daemon req.ip (ms / 1000) (admit cfg (ms / 1000) req.ip req.body f)
      else (Response.not_found, f)
