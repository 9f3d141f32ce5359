-- ===== src/Store/Sqlite/History.antt =====
-- Histories of a `SqliteStore`: the calls of its methods in the order in which they reach the one
-- connection, whichever engine, form or tick makes them.
pub mod Once
pub mod Outpoints
use exfer_honor.Base.{
  ℕ, ◌+◌, ◌≤◌, ◌≡◌, Bool, true, false, ◌&&◌, Text, List, [], ◌∷◌, arith, if◌then◌else◌, ap, refl,
  ◌∙◌, subst, sym,
}
use exfer_honor.Spec.Types.{AcceptedQuote, Outpoint, HonorKey}
use exfer_honor.Spec.Errors.{Result, ok, throw}
use exfer_honor.Ports.Store.{HonorTxnInput}
use exfer_honor.Store.Rows.{Db}
use exfer_honor.Store.Contract.{
  Gate, quote_key, same_key, same_outpoint, accept, observe, reserve, honor, swept,
}
use exfer_honor.Store.Sqlite.{
  max_safe_integer, input_key, after_deliver, upsert_accepted, mark_observed_before_expiry,
  reserve_claim_outpoint, run_honor_txn, sweep,
}
use exfer_honor.Store.Sqlite.View.{view, IsWellFormed}
use exfer_honor.Store.Sqlite.Refines.{
  view-upsert_accepted, view-mark_observed, view-reserve_claim, view-sweep,
}
use exfer_honor.Store.Sqlite.Keys.{
  upsert_accepted-IsWellFormed, mark_observed-IsWellFormed, reserve_claim-IsWellFormed,
  run_honor_txn-IsWellFormed, sweep-IsWellFormed,
}
use exfer_honor.Store.Sqlite.Honor.{shown, run_honor_txn-honor}

pub data Call (G : Type 0) : Type 0 where
  accepts : AcceptedQuote → (accepted_at retain_until : ℕ) → Call G
  observes : HonorKey → (now : ℕ) → Call G
  reserves : HonorKey → Outpoint → Text → Call G
  honors : HonorTxnInput G → Call G
  sweeps : (now : ℕ) → Call G

abbrev pub is_ok : Result (Unit {0}) → Bool
is_ok (ok _) = true
is_ok (throw _) = false

pub is_ok-true : (r : Result (Unit {0})) → is_ok r ≡ true → r ≡ ok tt
is_ok-true (ok tt) h = refl
is_ok-true (throw e) h = cc

module _ {G : Type 0} where
  unfoldable pub step : Call G → Db G → Db G
  step (Call.accepts a at retain_until) db = upsert_accepted a at retain_until db
  step (Call.observes k now) db = mark_observed_before_expiry k now db
  step (Call.reserves k o claim_tx_id) db = reserve_claim_outpoint k o claim_tx_id db
  step (Call.honors arg) db = (run_honor_txn arg db).1
  step (Call.sweeps now) db = (sweep now db).1

  unfoldable pub run : List (Call G) → Db G → Db G
  run [] db = db
  run (c ∷ cs) db = run cs (step c db)

  -- Whether a call commits an honor of a key, and how many of a history's calls do.
  unfoldable pub commits : HonorKey → Call G → Db G → Bool
  commits k (Call.honors arg) db = same_key (input_key arg) k && is_ok (run_honor_txn arg db).0
  commits k _ db = false

  unfoldable pub honored_times : HonorKey → List (Call G) → Db G → ℕ
  honored_times k [] db = 0
  honored_times k (c ∷ cs) db = (if commits k c db then 1 else 0) + honored_times k cs (step c db)

  -- The same for an outpoint.
  unfoldable pub consumes : Outpoint → Call G → Db G → Bool
  consumes o (Call.honors arg) db = same_outpoint arg.outpoint o && is_ok (run_honor_txn arg db).0
  consumes o _ db = false

  unfoldable pub consumed_times : Outpoint → List (Call G) → Db G → ℕ
  consumed_times o [] db = 0
  consumed_times o (c ∷ cs) db =
      (if consumes o c db then 1 else 0) + consumed_times o cs (step c db)

  -- What a call does to what the tables show, by the contract.
  abbrev pub effect : Call G → Gate G → Gate G
  effect (Call.accepts a at retain_until) g = accept a at retain_until g
  effect (Call.observes k now) g = observe k now g
  effect (Call.reserves k o claim_tx_id) g = reserve k o max_safe_integer g
  effect (Call.honors arg) g = (honor after_deliver arg g).1
  effect (Call.sweeps now) g = swept now g

  pub step-IsWellFormed : (c : Call G) (db : Db G) → IsWellFormed db → IsWellFormed (step c db)
  unfolding step
  step-IsWellFormed (Call.accepts a at retain_until) db u =
      upsert_accepted-IsWellFormed a at retain_until db u
  step-IsWellFormed (Call.observes k now) db u = mark_observed-IsWellFormed k now db u
  step-IsWellFormed (Call.reserves k o claim_tx_id) db u =
      reserve_claim-IsWellFormed k o claim_tx_id db u
  step-IsWellFormed (Call.honors arg) db u = run_honor_txn-IsWellFormed arg db u
  step-IsWellFormed (Call.sweeps now) db u = sweep-IsWellFormed now db u

  pub view-step : (c : Call G) (db : Db G) → IsWellFormed db → view (step c db) ≡ effect c (view db)
  unfolding step
  view-step (Call.accepts a at retain_until) db u = view-upsert_accepted a at retain_until db
  view-step (Call.observes k now) db u = view-mark_observed k now db
  view-step (Call.reserves k o claim_tx_id) db u = view-reserve_claim k o claim_tx_id db
  view-step (Call.honors arg) db u = ap (λ p. p.1) (run_honor_txn-honor arg db u)
  view-step (Call.sweeps now) db u = view-sweep now db u

  -- What holds of a call's effect holds of what the tables show after it.
  pub shows :
      (P : Gate G → Type 0) (c : Call G) (db : Db G)
      → IsWellFormed db
      → P (effect c (view db))
      → P (view (step c db))
  shows P c db u h = subst P (sym (view-step c db u)) h

  abbrev pub effects : List (Call G) → Gate G → Gate G
  effects [] g = g
  effects (c ∷ cs) g = effects cs (effect c g)

  -- From well-formed tables, after any history of calls the tables of a `SqliteStore` are well formed and
  -- show what the contract makes of that history.
  pub view-run :
      (cs : List (Call G)) (db : Db G)
      → IsWellFormed db
      → IsWellFormed (run cs db) × (view (run cs db) ≡ effects cs (view db))
  unfolding run
  view-run [] db u = (u, refl)
  view-run (c ∷ cs) db u =
      let (v, e) = view-run cs (step c db) (step-IsWellFormed c db u) in
      (v, e ∙ ap (effects cs) (view-step c db u))

  -- The answer of the gate transaction, by the contract.
  pub run_honor_txn-answer :
      (arg : HonorTxnInput G) (db : Db G)
      → IsWellFormed db
      → (run_honor_txn arg db).0 ≡ (honor after_deliver arg (view db)).0
  run_honor_txn-answer arg db u = ap (λ p. p.0) (run_honor_txn-honor arg db u)
