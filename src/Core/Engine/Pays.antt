-- ===== src/Core/Engine/Pays.antt =====
-- The steps after which `honor` (src/core/engine.ts) does answer 'honored', and the plain form's payments that
-- take it through them.
use exfer_honor.Base.{ℕ, ◌≡◌, refl, sym, ap, ◌∙◌, Bool, none, some, ◌↔◌}
use exfer_honor.Spec.Types.{Outpoint, HonorOutcome, HonorKey, RegisterOpts}
use exfer_honor.Spec.Errors.{ok}
use exfer_honor.Ports.Store.{SeenRow, DeliverFn}
use exfer_honor.Ports.World.{World}
use exfer_honor.Ports.Effect.{pure, >>=-ok, handled}
use exfer_honor.Ports.Deps.{HonorDeps}
use exfer_honor.Core.Registry.{get_form}
use exfer_honor.Core.Scorer.{quote_from_seen, gate_step0, score_quote}
use exfer_honor.Core.Engine.{
  txn_input, commit_honor, now_or_clock, prepare_form, after_prepare, after_score, honor_seen,
  after_step0, honor, after_txn,
}
use exfer_honor.Core.Engine.Paid.{Started, Paid, honor-honored}

module _ {E G : Type 0} (deps : HonorDeps (World E G) G) (key : HonorKey)
    (deliver : DeliverFn G) where
  Paid-honor_seen :
      (rethrow : Bool) (now : ℕ) (seen : SeenRow) (o : Outpoint) (w after : World E G)
      → Paid deps key deliver rethrow now seen o w after
      → honor_seen deps key deliver rethrow now seen w ≡ (ok (HonorOutcome.honored o), after)
  unfolding honor_seen after_score after_prepare commit_honor
  Paid-honor_seen rethrow now seen o w after p =
      >>=-ok (score_quote deps (quote_from_seen seen) now)
        (after_score deps key deliver rethrow now seen) w p.scores
      ∙ >>=-ok (get_form seen.form deps.forms) _ p.past_score p.strategy
      ∙ >>=-ok (prepare_form deps p.form (quote_from_seen seen) now p.candidate) _ p.past_form
          p.prepares
      ∙ ap (handled (after_txn rethrow)) (
          >>=-ok
            (deps.store.run_honor_txn
              (txn_input deps key deliver now seen p.candidate p.form.gate_mode))
            (λ _. pure (HonorOutcome.honored _)) p.past_prepare p.commits)
      ∙ ap (λ q. (ok (HonorOutcome.honored q), after)) (sym p.spends)

  -- An open row passes step 0.
  step0_open :
      (rethrow : Bool) (now : ℕ) (seen : SeenRow) (w : World E G)
      → seen.honored_at ≡ none
      → after_step0 deps
          (some seen)
          HonorOutcome.not_ready
          (λ r. honor_seen deps key deliver rethrow now r)
          w
        ≡ honor_seen deps key deliver rethrow now seen w
  unfolding after_step0 gate_step0
  step0_open rethrow now seen w e = rw e refl

  Paid-honored :
      (opts : RegisterOpts) (o : Outpoint) (w after : World E G) (s : Started deps key opts w)
      → Paid deps key deliver opts.rethrow_delivery_errors s.now s.seen o s.past_row after
      → honor deps key deliver opts w ≡ (ok (HonorOutcome.honored o), after)
  unfolding honor
  Paid-honored opts o w after s p =
      >>=-ok (now_or_clock deps opts.now) _ w s.reads_clock
      ∙ >>=-ok (deps.store.get_seen key) _ s.past_clock s.reads_row
      ∙ step0_open opts.rethrow_delivery_errors s.now s.seen s.past_row s.is_unhonored
      ∙ Paid-honor_seen opts.rethrow_delivery_errors s.now s.seen o s.past_row after p

  -- `honor` answers 'honored' exactly where the row was there and not honored, the scorer honored a
  -- candidate, its form was ready, and a gate transaction on that candidate's outpoint committed as the last
  -- step.
  pub honor-Paid_iff :
      (opts : RegisterOpts) (o : Outpoint) (w after : World E G)
      → (honor deps key deliver opts w ≡ (ok (HonorOutcome.honored o), after)) ↔ (
          (s : Started deps key opts w) × Paid deps key deliver opts.rethrow_delivery_errors s.now
            s.seen o s.past_row after)
  honor-Paid_iff opts o w after = (
    λ h. honor-honored deps key deliver opts o w after h,
    λ (s, p). Paid-honored opts o w after s p,
  )
