-- ===== src/Core/Engine/Async.antt =====
-- The last step of `honor` (src/core/engine.ts) over a `PostgresStore`, whose `deliver` is awaited.
use exfer_honor.Base.{ℕ, Bool, ◌≡◌, refl, ap, ◌∙◌, arith, none, some}
use exfer_honor.Spec.Types.{HonorKey, Outpoint, DeclineReason, HonorOutcome, SettlementCandidate}
use exfer_honor.Spec.Errors.{Thrown, GateKind, Result, ok, throw}
use exfer_honor.Ports.Store.{SeenRow, GateMode, Delivery, DeliverFn, HonorTxnInput}
use exfer_honor.Ports.World.{World}
use exfer_honor.Ports.Effect.{pure, continue, handled}
use exfer_honor.Ports.Deps.{HonorDeps}
use exfer_honor.Store.Contract as Contract
use exfer_honor.Store.Contract.{
  Gate, refusal, arg_key, arg_context, settle, honored_gate, honor_admitted,
}
use exfer_honor.Store.Sqlite.View.{IsWellFormed}
use exfer_honor.Store.Postgres.{BigintCell, PgDb, after_deliver, run_honor_txn}
use exfer_honor.Store.Postgres.Sync.{sqlite_db}
use exfer_honor.Store.Postgres.Honors.{sound_link, pg_view, run_honor_txn-honor_awaited}
use exfer_honor.Store.Postgres.Port.{postgres_store}
use exfer_honor.Core.Engine.{violation_reason, after_txn, commit_honor, txn_input, mark_throw}
use exfer_honor.Core.Engine.Commit.{answer, declined}

-- An admitted honor whose `deliver` ends in a throw changes nothing and throws it.
settle-throw :
    {G : Type 0} (arg : HonorTxnInput G) (r : SeenRow) (g : Gate G) (e : Thrown)
    → after_deliver (arg.deliver (arg_context arg) g.goods).0 ≡ throw e
    → settle after_deliver arg r g ≡ (throw e, g)
settle-throw arg r g e h =
    ap
      (λ res. elim res [
        | throw e ↦ (throw e, g)
        | ok _ ↦ (ok tt, honored_gate arg r (arg.deliver (arg_context arg) g.goods).1 g)
      ])
      h

-- A thrown value of the consumer's own: the engine's mark is no part of it.
abbrev pub IsUnmarked : Thrown → Type 0
IsUnmarked (Thrown.from_deliver e) = ⊥
IsUnmarked _ = Unit

-- What a rejection of `deliver` becomes: a decline if it is one of the library's gate violations, and otherwise a
-- throw.
abbrev pub rejection : Thrown → Result HonorOutcome
rejection (Thrown.gate_violation GateKind.seen_already_honored) =
    declined DeclineReason.already_honored
rejection (Thrown.gate_violation GateKind.expired_window) =
    declined DeclineReason.expired_unobserved
rejection (Thrown.gate_violation GateKind.outpoint_taken) = declined DeclineReason.outpoint_consumed
rejection e = throw e

answer-rejection :
    (rethrow : Bool) (o : Outpoint) (e : Thrown)
    → IsUnmarked e
    → answer rethrow o (throw e) ≡ rejection e
unfolding violation_reason
answer-rejection rethrow o (Thrown.from_deliver e) u = absurd u
answer-rejection rethrow o (Thrown.gate_violation GateKind.seen_already_honored) u = refl
answer-rejection rethrow o (Thrown.gate_violation GateKind.expired_window) u = refl
answer-rejection rethrow o (Thrown.gate_violation GateKind.outpoint_taken) u = refl
answer-rejection rethrow o (Thrown.honor_error code) u = refl
answer-rejection rethrow o (Thrown.plain_error code message) u = refl

module _ {G : Type 0} (cell : ℕ → BigintCell) (deps : HonorDeps (World (PgDb G) G) G)
    (is_postgres : deps.store ≡ postgres_store sound_link cell) where
  module _ (arg : HonorTxnInput G) (rethrow : Bool) (w : World (PgDb G) G) where
    abbrev finish : Result (Unit {0}) × PgDb G → Result HonorOutcome × World (PgDb G) G
    finish p =
        handled (after_txn rethrow)
          (continue (λ _. pure (HonorOutcome.honored arg.outpoint)) (p.0, record w { env = p.1 }))

    finish-answer :
        (r : Result (Unit {0})) (d : PgDb G)
        → finish (r, d) ≡ (answer rethrow arg.outpoint r, record w { env = d })
    finish-answer (ok _) d = refl
    finish-answer (throw (Thrown.from_deliver e)) d = ground arith
    finish-answer (throw (Thrown.gate_violation kind)) d = refl
    finish-answer (throw (Thrown.honor_error code)) d = refl
    finish-answer (throw (Thrown.plain_error code message)) d = refl

    commit_honor-run_async : commit_honor deps arg rethrow w ≡ (
      answer rethrow arg.outpoint (run_honor_txn sound_link arg w.env).0,
      record w { env = (run_honor_txn sound_link arg w.env).1 },
    )
    unfolding commit_honor
    commit_honor-run_async = rw is_postgres (finish-answer _ _)

    -- Over a `PostgresStore` with well-formed tables and a link without faults, the commit step answers
    -- what the contract's honor answers with an awaited `deliver`, and changes the tables as it does.
    pub commit_honor-contract_awaited :
        IsWellFormed (sqlite_db w.env)
        → ((commit_honor deps arg rethrow w).0
            ≡ answer rethrow arg.outpoint (Contract.honor after_deliver arg (pg_view w.env)).0)
          × (pg_view (commit_honor deps arg rethrow w).1.env
              ≡ (Contract.honor after_deliver arg (pg_view w.env)).1)
    commit_honor-contract_awaited u =
        let e = run_honor_txn-honor_awaited arg w.env u in
        (
          ap (λ p. p.0) commit_honor-run_async ∙ ap (λ p. answer rethrow arg.outpoint p.0) e,
          ap (λ p. pg_view p.1.env) commit_honor-run_async ∙ ap (λ p. p.1) e,
        )

  -- An honor that the gate admits, over a `PostgresStore` with well-formed tables and a link without faults,
  -- whose `deliver` returns a promise that is rejected: it throws what the promise is rejected with, also where
  -- the caller did not ask for a rethrow, unless that is one of the library's own gate violations, which it
  -- answers as a decline. The tables stay as they were.
  pub commit_honor-rejected :
      (key : HonorKey) (deliver : DeliverFn G) (now : ℕ) (seen r : SeenRow)
      (candidate : SettlementCandidate) (mode : GateMode) (rethrow : Bool) (w : World (PgDb G) G)
      (e : Thrown)
      → IsUnmarked e
      → IsWellFormed (sqlite_db w.env)
      → (pg_view w.env).row (arg_key (txn_input deps key deliver now seen candidate mode)) ≡ some r
      → refusal now mode
          (some r)
          ((pg_view w.env).holding (txn_input deps key deliver now seen candidate mode).outpoint)
        ≡ none
      → (deliver (arg_context (txn_input deps key deliver now seen candidate mode)) w.env.goods).0
        ≡ Delivery.rejected e
      → ((commit_honor deps (txn_input deps key deliver now seen candidate mode) rethrow w).0
          ≡ rejection e)
        × (pg_view
              (commit_honor deps
                (txn_input deps key deliver now seen candidate mode)
                rethrow
                w).1.env
            ≡ pg_view w.env)
  commit_honor-rejected key deliver now seen r candidate mode rethrow w e unmarked u known free
        rejects =
      let arg : HonorTxnInput G = txn_input deps key deliver now seen candidate mode in
      let g : Gate G = pg_view w.env in
      let contract = commit_honor-contract_awaited arg rethrow w u in
      let settled =
        honor_admitted after_deliver arg g r known free
        ∙ settle-throw arg r g _ (ap (λ d. after_deliver (mark_throw d)) rejects) in
      (
        contract.0
            ∙ ap (λ p. answer rethrow arg.outpoint p.0) settled
            ∙ answer-rejection rethrow arg.outpoint e unmarked,
        contract.1 ∙ ap (λ p. p.1) settled,
      )
