-- ===== src/Core/Engine/Commit.antt =====
-- The last step of `honor` over a `SqliteStore`: what the gate transaction and its catch answer, and
-- what they leave in the database.
use exfer_honor.Base.{
  ℕ, Bool, true, false, not, ◌&&◌, ◌||◌, ltb, Option, none, some, ◌≡◌, refl, sym, ap, ◌∙◌, arith,
  if◌then◌else◌, Option-cases, Bool-cases, inl, inr,
}
use exfer_honor.Spec.Types.{
  HonorKey, Outpoint, SettlementCandidate, DeclineReason, HonorOutcome, HonorVerdict,
}
use exfer_honor.Spec.Errors.{Thrown, GateKind, Result, ok, throw}
use exfer_honor.Ports.Store.{SeenRow, GateMode, Delivery, DeliverFn, HonorTxnInput}
use exfer_honor.Ports.World.{World}
use exfer_honor.Ports.Effect.{pure, continue, handled}
use exfer_honor.Ports.Deps.{HonorDeps}
use exfer_honor.Store.Rows.{Db}
use exfer_honor.Store.Contract.{
  Gate, Holding, refusal, row_refusal, holding_refusal, arg_key, arg_context,
}
use exfer_honor.Store.Contract
use exfer_honor.Store.Sqlite.{async_deliver_error, after_deliver, run_honor_txn}
use exfer_honor.Store.Sqlite.View.{view, IsWellFormed}
use exfer_honor.Store.Sqlite.Honor.{run_honor_txn-honor}
use exfer_honor.Store.Sqlite.Port.{sqlite_store}
use exfer_honor.Core.Engine.{violation_reason, after_txn, commit_honor, mark_throw, txn_input}

-- What `honor` answers for the way in which the gate transaction ended.
abbrev pub answer : Bool → Outpoint → Result (Unit {0}) → Result HonorOutcome
answer rethrow o (ok _) = ok (HonorOutcome.honored o)
answer rethrow o (throw (Thrown.from_deliver e)) =
    if rethrow then throw e else ok HonorOutcome.delivery_failed
answer rethrow o (throw (Thrown.gate_violation kind)) =
    ok (HonorOutcome.not_ready (HonorVerdict.decline (violation_reason kind)))
answer rethrow o (throw (Thrown.honor_error code)) = throw (Thrown.honor_error code)
answer rethrow o (throw (Thrown.plain_error code message)) = throw (Thrown.plain_error code message)

module _ {E G : Type 0} (deps : HonorDeps (World E G) G) (is_sqlite : deps.store ≡ sqlite_store)
    (input : HonorTxnInput G) (rethrow : Bool) (w : World E G) where
  abbrev finish : Result (Unit {0}) × Db G → Result HonorOutcome × World E G
  finish p =
      handled (after_txn rethrow)
        (continue (λ _. pure (HonorOutcome.honored input.outpoint)) (p.0, record w { db = p.1 }))

  finish-answer :
      (r : Result (Unit {0})) (d : Db G)
      → finish (r, d) ≡ (answer rethrow input.outpoint r, record w { db = d })
  finish-answer (ok _) d = refl
  finish-answer (throw (Thrown.from_deliver e)) d = ground arith
  finish-answer (throw (Thrown.gate_violation kind)) d = refl
  finish-answer (throw (Thrown.honor_error code)) d = refl
  finish-answer (throw (Thrown.plain_error code message)) d = refl

  -- The commit step is the gate transaction, with its answer translated.
  pub commit_honor-run : commit_honor deps input rethrow w ≡ (
    answer rethrow input.outpoint (run_honor_txn input w.db).0,
    record w { db = (run_honor_txn input w.db).1 },
  )
  unfolding commit_honor
  commit_honor-run = rw is_sqlite (finish-answer _ _)

  -- Over a `SqliteStore` with well-formed tables, the commit step answers what the contract's honor answers,
  -- translated by the engine's catch, and changes what the tables show as that honor does.
  pub commit_honor-contract :
      IsWellFormed w.db
      → ((commit_honor deps input rethrow w).0
          ≡ answer rethrow input.outpoint (Contract.honor after_deliver input (view w.db)).0)
        × (view (commit_honor deps input rethrow w).1.db
            ≡ (Contract.honor after_deliver input (view w.db)).1)
  commit_honor-contract u =
      let e = run_honor_txn-honor input w.db u in
      (
        ap (λ p. p.0) commit_honor-run ∙ ap (λ p. answer rethrow input.outpoint p.0) e,
        ap (λ p. view p.1.db) commit_honor-run ∙ ap (λ p. p.1) e,
      )

-- What a caller is told of an honor, by the row and the holding that the gate knows and by how `deliver` ended:
-- the decline of a quote that is gone, past its window or honored already, the decline of an outpoint that is
-- not free, the end of `deliver`, or the outpoint.
abbrev pub declined : DeclineReason → Result HonorOutcome
declined reason = ok (HonorOutcome.not_ready (HonorVerdict.decline reason))

abbrev pub is_free : GateMode → Option Holding → Bool
is_free GateMode.single none = true
is_free GateMode.single (some _) = false
is_free GateMode.promote none = false
is_free GateMode.promote (some h) = not h.is_honored

abbrev pub told_end : Bool → Outpoint → Delivery → Result HonorOutcome
told_end rethrow o Delivery.returned = ok (HonorOutcome.honored o)
told_end rethrow o (Delivery.threw e) = if rethrow then throw e else ok HonorOutcome.delivery_failed
told_end rethrow o Delivery.resolved = throw async_deliver_error
told_end rethrow o (Delivery.rejected e) = throw async_deliver_error

abbrev pub told :
    (rethrow : Bool)
    → (now : ℕ) → GateMode
    → Outpoint
    → Option SeenRow
    → Option Holding
    → Delivery
    → Result HonorOutcome
told rethrow now mode o none holding ended = declined DeclineReason.expired_unobserved
told rethrow now mode o (some r) holding ended = elim r.honored_at [
  | some _ ↦ declined DeclineReason.already_honored
  | none ↦
      if not (ltb now r.retain_until && (ltb now r.expires_at || r.observed_before_expiry))
      then declined DeclineReason.expired_unobserved
      else if not (is_free mode holding)
      then declined DeclineReason.outpoint_consumed
      else told_end rethrow o ended
]

told_end-answer :
    (rethrow : Bool) (o : Outpoint) (ended : Delivery)
    → told_end rethrow o ended ≡ answer rethrow o (after_deliver (mark_throw ended))
told_end-answer rethrow o Delivery.returned = refl
told_end-answer rethrow o (Delivery.threw e) = refl
told_end-answer rethrow o Delivery.resolved = refl
told_end-answer rethrow o (Delivery.rejected e) = refl

-- What the contract's refusal, or the end of `deliver`, is translated to.
abbrev translated : Bool → Outpoint → Delivery → Option GateKind → Result HonorOutcome
translated rethrow o ended none = answer rethrow o (after_deliver (mark_throw ended))
translated rethrow o ended (some kind) = answer rethrow o (throw (Thrown.gate_violation kind))

told-holding :
    (rethrow : Bool) (mode : GateMode) (o : Outpoint) (holding : Option Holding) (ended : Delivery)
    → (if not (is_free mode holding)
        then declined DeclineReason.outpoint_consumed
        else told_end rethrow o ended)
      ≡ translated rethrow o ended (holding_refusal mode holding)
unfolding violation_reason
told-holding rethrow GateMode.single o none ended = told_end-answer rethrow o ended
told-holding rethrow GateMode.single o (some h) ended = refl
told-holding rethrow GateMode.promote o none ended = refl
told-holding rethrow GateMode.promote o (some h) ended = elim (Bool-cases h.is_honored) [
  | inl e ↦ rw e refl
  | inr e ↦ rw e (told_end-answer rethrow o ended)
]

told_state :
    (rethrow : Bool) (mode : GateMode) (o : Outpoint) (holding : Option Holding) (ended : Delivery)
    (honored_at : Option ℕ) (open_window : Bool)
    → (elim honored_at [
      | some _ ↦ declined DeclineReason.already_honored
      | none ↦
          if not open_window
          then declined DeclineReason.expired_unobserved
          else if not (is_free mode holding)
          then declined DeclineReason.outpoint_consumed
          else told_end rethrow o ended
    ])
      ≡ translated rethrow o ended
          (elim (if (elim honored_at [ none ↦ open_window | some _ ↦ false ])
            then none
            else elim honored_at [
              | none ↦ some GateKind.expired_window
              | some _ ↦ some GateKind.seen_already_honored
            ]) [ none ↦ holding_refusal mode holding | some kind ↦ some kind ])
unfolding violation_reason
told_state rethrow mode o holding ended none true = told-holding rethrow mode o holding ended
told_state rethrow mode o holding ended none false = refl
told_state rethrow mode o holding ended (some t) open_window = refl

told-refusal :
    (rethrow : Bool) (now : ℕ) (mode : GateMode) (o : Outpoint) (row : Option SeenRow)
    (holding : Option Holding) (ended : Delivery)
    → told rethrow now mode o row holding ended
      ≡ translated rethrow o ended (refusal now mode row holding)
unfolding violation_reason
told-refusal rethrow now mode o none holding ended = refl
told-refusal rethrow now mode o (some r) holding ended =
    told_state rethrow mode o holding ended r.honored_at
      (ltb now r.retain_until && (ltb now r.expires_at || r.observed_before_expiry))

ended_by :
    {G : Type 0} (x : Result (Unit {0})) (g h : Gate G)
    → (elim x as (λ _. Result (Unit {0}) × Gate G) [ throw e ↦ (throw e, g) | ok _ ↦ (ok tt, h) ]).0
      ≡ x
ended_by (ok _) g h = refl
ended_by (throw e) g h = refl

translated-honor :
    {G : Type 0} (rethrow : Bool) (input : HonorTxnInput G) (g : Gate G) (ended : Delivery)
    → (input.deliver (arg_context input) g.goods).0 ≡ mark_throw ended
    → answer rethrow input.outpoint (Contract.honor after_deliver input g).0
      ≡ translated rethrow input.outpoint ended
          (refusal input.now input.mode (g.row (arg_key input)) (g.holding input.outpoint))
translated-honor rethrow input g ended e = elim (Option-cases (g.row (arg_key input))) [
  | inl gone ↦ rw (Contract.honor_gone after_deliver input g gone, gone) refl
  | inr (r, known) ↦
      elim (Option-cases (refusal input.now input.mode (some r) (g.holding input.outpoint))) [
        | inr (kind, shut) ↦
            rw (Contract.honor_refused after_deliver input g r kind known shut, known, shut) refl
        | inl free ↦
            ap (λ p. answer rethrow input.outpoint p.0)
              (Contract.honor_admitted after_deliver input g r known free)
            ∙ ap (answer rethrow input.outpoint)
                (ended_by (after_deliver (input.deliver (arg_context input) g.goods).0) g _)
            ∙ ap (λ d. answer rethrow input.outpoint (after_deliver d)) e
            ∙ rw (known, free) refl
      ]
]

module _ {E G : Type 0} (deps : HonorDeps (World E G) G) (is_sqlite : deps.store ≡ sqlite_store)
    (key : HonorKey) (deliver : DeliverFn G) (now : ℕ) (seen : SeenRow)
    (candidate : SettlementCandidate) (mode : GateMode) (rethrow : Bool) (w : World E G) where
  abbrev input : HonorTxnInput G
  input = txn_input deps key deliver now seen candidate mode

  -- Over a `SqliteStore` with well-formed tables, the commit step tells its caller by what the tables show: a
  -- decline 'expired_unobserved' if the row is gone or past its window, 'already_honored' if it is honored,
  -- 'outpoint_consumed' if the outpoint is taken, or not reserved where a promotion wants it; what `deliver`
  -- threw, if a rethrow was asked for, and otherwise 'delivery_failed'; the store's own error if it returned a
  -- promise; and 'honored' if it returned. The tables change as the contract's honor says.
  pub commit_honor-told :
      IsWellFormed w.db
      → ((commit_honor deps input rethrow w).0
          ≡ told rethrow now mode input.outpoint
              ((view w.db).row key)
              ((view w.db).holding input.outpoint)
              (deliver (arg_context input) w.db.goods).0)
        × (view (commit_honor deps input rethrow w).1.db
            ≡ (Contract.honor after_deliver input (view w.db)).1)
  commit_honor-told u =
      let (answers, shows) = commit_honor-contract deps is_sqlite input rethrow w u in
      (
        answers
            ∙ translated-honor rethrow input (view w.db) (deliver (arg_context input) w.db.goods).0
                refl
            ∙ sym (
                told-refusal rethrow now mode input.outpoint ((view w.db).row key)
                  ((view w.db).holding input.outpoint) (deliver (arg_context input) w.db.goods).0),
        shows,
      )
