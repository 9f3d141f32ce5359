-- ===== src/Core/Engine/Paid.antt =====
-- What an answer 'honored' of `honor` (src/core/engine.ts) rests on.
use exfer_honor.Base.{
  ℕ, ◌≡◌, ◌≢◌, refl, ap, ◌∙◌, Bool, true, false, Option, none, some, arith, Option-cases, inl, inr,
}
use exfer_honor.Spec.Types.{
  SettlementFormId, Outpoint, SettlementCandidate, HonorVerdict, HonorOutcome, HonorKey,
  RegisterOpts,
}
use exfer_honor.Spec.Errors.{Thrown, ok}
use exfer_honor.Ports.Store.{SeenRow, DeliverFn, HonorTxnInput}
use exfer_honor.Ports.World.{World}
use exfer_honor.Ports.Effect.{Eff, pure, ◌>>◌, >>=-eq-ok, try_catch-eq-ok}
use exfer_honor.Ports.Form.{PrepareResult, SettlementForm}
use exfer_honor.Ports.Deps.{HonorDeps}
use exfer_honor.Forms.Htlc.{outpoint_of}
use exfer_honor.Core.Registry.{get_form}
use exfer_honor.Core.Scorer.{quote_from_seen, gate_step0, score_quote}
use exfer_honor.Core.Engine.{
  after_txn, txn_input, commit_honor, now_or_clock, prepare_form, after_prepare, after_score,
  honor_seen, after_step0, honor, record_claim,
}

module _ {E G : Type 0} (deps : HonorDeps (World E G) G) where
  after_txn-no-honor :
      (rethrow : Bool) (e : Thrown) (w after : World E G) (o : Outpoint)
      → after_txn rethrow e w ≢ (ok (HonorOutcome.honored o), after)
  after_txn-no-honor true (Thrown.from_deliver e) w after o h = absurd (ground arith)
  after_txn-no-honor false (Thrown.from_deliver e) w after o h = absurd (ground arith)
  after_txn-no-honor rethrow (Thrown.gate_violation kind) w after o h = absurd (ground arith)
  after_txn-no-honor rethrow (Thrown.honor_error code) w after o h = absurd (ground arith)
  after_txn-no-honor rethrow (Thrown.plain_error code message) w after o h = absurd (ground arith)

  commit_honor-honored :
      (input : HonorTxnInput G) (rethrow : Bool) (o : Outpoint) (w after : World E G)
      → commit_honor deps input rethrow w ≡ (ok (HonorOutcome.honored o), after)
      → (o ≡ input.outpoint) × (deps.store.run_honor_txn input w ≡ (ok tt, after))
  unfolding commit_honor
  commit_honor-honored input rethrow o w after h =
      elim (try_catch-eq-ok
        (deps.store.run_honor_txn input >> pure (HonorOutcome.honored input.outpoint))
        (after_txn rethrow) w h) [
          | inr (e, w₁, thrown, f) ↦ absurd (after_txn-no-honor rethrow e w₁ after o f)
          | inl done ↦
              let (_, w₁, e, f) =
                >>=-eq-ok (deps.store.run_honor_txn input)
                  (λ _. pure (HonorOutcome.honored input.outpoint)) w done in
              (ground arith, e ∙ ap (λ p. (ok tt, p.1)) f)
        ]

  module _ (key : HonorKey) where
    -- Past step 0, the row was there and not honored.
    pub record Started (opts : RegisterOpts) (w : World E G) : Type 0 where
      pub now : ℕ
      pub past_clock : World E G
      pub reads_clock : now_or_clock deps opts.now w ≡ (ok now, past_clock)
      pub seen : SeenRow
      pub past_row : World E G
      pub reads_row : deps.store.get_seen key past_clock ≡ (ok (some seen), past_row)
      pub is_unhonored : seen.honored_at ≡ none

  module _ (key : HonorKey) (deliver : DeliverFn G) (rethrow : Bool) where
    -- The steps that an honor took: the row was open, the scorer honored a candidate, its form was
    -- ready, and the gate transaction committed as the last step.
    pub record Paid (now : ℕ) (seen : SeenRow) (o : Outpoint) (w after : World E G) : Type 0 where
      pub candidate : SettlementCandidate
      pub scored_form : SettlementFormId
      pub past_score : World E G
      pub scores :
          score_quote deps (quote_from_seen seen) now w
          ≡ (ok (HonorVerdict.honor candidate scored_form), past_score)
      pub form : SettlementForm (World E G)
      pub past_form : World E G
      pub strategy : get_form seen.form deps.forms past_score ≡ (ok form, past_form)
      pub past_prepare : World E G
      pub prepares :
          prepare_form deps form (quote_from_seen seen) now candidate past_form
          ≡ (ok PrepareResult.ready, past_prepare)
      pub commits :
          deps.store.run_honor_txn
            (txn_input deps key deliver now seen candidate form.gate_mode)
            past_prepare
          ≡ (ok tt, after)
      pub spends : o ≡ outpoint_of candidate

    module _ (now : ℕ) (seen : SeenRow) (o : Outpoint) (w after : World E G) where
      prepared-Paid :
          (candidate : SettlementCandidate) (scored_form : SettlementFormId)
          (past_score : World E G)
          → (score_quote deps (quote_from_seen seen) now w
              ≡ (ok (HonorVerdict.honor candidate scored_form), past_score))
          → (form : SettlementForm (World E G)) (past_form : World E G)
          → get_form seen.form deps.forms past_score ≡ (ok form, past_form)
          → (r : PrepareResult) (past_prepare : World E G)
          → prepare_form deps form (quote_from_seen seen) now candidate past_form
            ≡ (ok r, past_prepare)
          → after_prepare deps key deliver rethrow now seen form.gate_mode candidate r past_prepare
            ≡ (ok (HonorOutcome.honored o), after)
          → Paid now seen o w after
      unfolding after_prepare record_claim
      prepared-Paid candidate scored_form past_score s form past_form g
            (PrepareResult.claim_submitted tx) past_prepare p h =
          absurd (ground arith)
      prepared-Paid candidate scored_form past_score s form past_form g (PrepareResult.wait reason)
            past_prepare p h =
          absurd (ground arith)
      prepared-Paid candidate scored_form past_score s form past_form g PrepareResult.ready
            past_prepare p h =
          let (spends, commits) =
            commit_honor-honored (txn_input deps key deliver now seen candidate form.gate_mode)
              rethrow o past_prepare after h in
          record {
            candidate = candidate;
            scored_form = scored_form;
            past_score = past_score;
            scores = s;
            form = form;
            past_form = past_form;
            strategy = g;
            past_prepare = past_prepare;
            prepares = p;
            commits = commits;
            spends = spends;
          }

      honor_seen-Paid :
          honor_seen deps key deliver rethrow now seen w ≡ (ok (HonorOutcome.honored o), after)
          → Paid now seen o w after
      unfolding honor_seen after_score
      honor_seen-Paid h =
          let (verdict, past_score, e, f) =
            >>=-eq-ok (score_quote deps (quote_from_seen seen) now)
              (after_score deps key deliver rethrow now seen) w h in
          scored verdict past_score e f
        where
          scored :
              (verdict : HonorVerdict) (past_score : World E G)
              → score_quote deps (quote_from_seen seen) now w ≡ (ok verdict, past_score)
              → after_score deps key deliver rethrow now seen verdict past_score
                ≡ (ok (HonorOutcome.honored o), after)
              → Paid now seen o w after
          scored (HonorVerdict.wait reason) past_score e f = absurd (ground arith)
          scored (HonorVerdict.decline reason) past_score e f = absurd (ground arith)
          scored (HonorVerdict.honor candidate scored_form) past_score e f =
              let (form, past_form, g, f₁) =
                >>=-eq-ok (get_form seen.form deps.forms) _ past_score f in
              let (r, past_prepare, p, f₂) =
                >>=-eq-ok (prepare_form deps form (quote_from_seen seen) now candidate) _ past_form
                  f₁ in
              prepared-Paid candidate scored_form past_score e form past_form g r past_prepare p f₂

  abbrev past_step0 :
      HonorKey → DeliverFn G → Bool → ℕ → Option SeenRow → Eff (World E G) HonorOutcome
  past_step0 key deliver rethrow now row =
      after_step0 deps row HonorOutcome.not_ready
        (λ seen. honor_seen deps key deliver rethrow now seen)

  past_step0-Paid :
      (key : HonorKey) (deliver : DeliverFn G) (rethrow : Bool) (now : ℕ) (row : Option SeenRow)
      (o : Outpoint) (w after : World E G)
      → past_step0 key deliver rethrow now row w ≡ (ok (HonorOutcome.honored o), after)
      → (seen : SeenRow) × (row ≡ some seen)
        × (seen.honored_at ≡ none)
        × Paid key deliver rethrow now seen o w after
  unfolding after_step0 gate_step0
  past_step0-Paid key deliver rethrow now none o w after h = absurd (ground arith)
  past_step0-Paid key deliver rethrow now (some seen) o w after h =
      elim (Option-cases seen.honored_at) [
        | inr (t, e) ↦ absurd (ground arith)
        | inl e ↦
            (seen, refl, e, honor_seen-Paid key deliver rethrow now seen o w after (ground arith))
      ]

  -- Every answer 'honored' of `honor` comes from a row that was there and not honored, a candidate that the
  -- scorer honored, a form that was ready, and a gate transaction on that candidate's outpoint that
  -- committed as the last step.
  pub honor-honored :
      (key : HonorKey) (deliver : DeliverFn G) (opts : RegisterOpts) (o : Outpoint)
      (w after : World E G)
      → honor deps key deliver opts w ≡ (ok (HonorOutcome.honored o), after)
      → (s : Started key opts w) × Paid key deliver opts.rethrow_delivery_errors s.now s.seen o
          s.past_row after
  unfolding honor
  honor-honored key deliver opts o w after h =
      let (now, past_clock, e, f) = >>=-eq-ok (now_or_clock deps opts.now) _ w h in
      let (row, past_row, g, f₁) = >>=-eq-ok (deps.store.get_seen key) _ past_clock f in
      let (seen, known, open_row, paid) =
        past_step0-Paid key deliver opts.rethrow_delivery_errors now row o past_row after f₁ in
      (
        record {
          now = now;
          past_clock = past_clock;
          reads_clock = e;
          seen = seen;
          past_row = past_row;
          reads_row = g ∙ ap (λ r. (ok r, past_row)) known;
          is_unhonored = open_row;
        },
        paid,
      )
