-- ===== src/Service/Loop.antt =====
-- What the `onPaid` loop of src/service/honor-service.ts settles with.
use exfer_honor.Base.{
  ◌≡◌, ◌≢◌, refl, sym, ap, ◌∙◌, subst, Bool, false, none, some, List, [], ◌∷◌, arith, Option-cases,
  inl, inr,
}
use exfer_honor.Spec.Types.{AcceptedQuote, Outpoint, HonorVerdict, HonorOutcome, RegisterResult}
use exfer_honor.Spec.Errors.{Result, ok, throw}
use exfer_honor.Ports.Store.{DeliverFn}
use exfer_honor.Ports.World.{World}
use exfer_honor.Ports.Effect.{>>=-eq-ok}
use exfer_honor.Ports.Deps.{HonorDeps}
use exfer_honor.Core.Engine.{register, mark_observed, honor}
use exfer_honor.Service.{
  Ending, tick_ending, start_ending, Event, LoopState, quote_opts, paid_key, tick, open_step,
  loop_step, run_loop, on_paid,
}

tick_ending-honored :
    (r : Result HonorOutcome) (o : Outpoint)
    → tick_ending r ≡ some (Ending.honored o)
    → r ≡ ok (HonorOutcome.honored o)
unfolding tick_ending
tick_ending-honored (ok (HonorOutcome.honored p)) o h = ground arith
tick_ending-honored (ok HonorOutcome.delivery_failed) o h = absurd (ground arith)
tick_ending-honored (ok (HonorOutcome.not_ready (HonorVerdict.decline reason))) o h =
    absurd (ground arith)
tick_ending-honored (ok (HonorOutcome.not_ready (HonorVerdict.wait reason))) o h =
    absurd (ground arith)
tick_ending-honored (ok (HonorOutcome.not_ready (HonorVerdict.honor c form))) o h =
    absurd (ground arith)
tick_ending-honored (throw e) o h = absurd (ground arith)

start_ending-honored :
    (r : Result RegisterResult) (o : Outpoint) → start_ending r ≢ some (Ending.honored o)
unfolding start_ending
start_ending-honored (ok r) o h = absurd (ground arith)
start_ending-honored (throw e) o h = absurd (ground arith)

module _ {E G : Type 0} (deps : HonorDeps (World E G) G) (quote : AcceptedQuote)
    (deliver : DeliverFn G) (rethrow : Bool) where
  abbrev run_events : List Event → LoopState E G → LoopState E G
  run_events = run_loop deps quote deliver rethrow

  -- Once the promise is settled, no event changes anything: the state stays as it was.
  pub run_loop-settled :
      (events : List Event) (l : LoopState E G) (e : Ending)
      → l.settled ≡ some e
      → run_loop deps quote deliver rethrow events l ≡ l
  unfolding run_loop loop_step
  run_loop-settled [] l e h = refl
  run_loop-settled (event ∷ events) l e h =
      ap (run_events events) (
        ap (λ s. elim s [ none ↦ open_step deps quote deliver rethrow event l.world | some _ ↦ l ])
          h)
      ∙ run_loop-settled events l e h

  -- The state that an honor left the world in.
  abbrev pub Honored : Outpoint → World E G → Type 0
  Honored o after =
      (w : World E G) × (honor deps (paid_key deps quote deliver rethrow) deliver
          (quote_opts rethrow) w
        ≡ (ok (HonorOutcome.honored o), after))

  tick-Honored :
      (o : Outpoint) (w after : World E G)
      → tick deps quote deliver rethrow w ≡ (ok (HonorOutcome.honored o), after)
      → Honored o after
  unfolding tick
  tick-Honored o w after h =
      let (now, w₁, e, f) = >>=-eq-ok deps.clock _ w h in
      let (_, w₂, g, f₁) =
        >>=-eq-ok (mark_observed deps (paid_key deps quote deliver rethrow) now) _ w₁ f in
      (w₂, f₁)

  open_step-Honored :
      (event : Event) (o : Outpoint) (w : World E G)
      → (open_step deps quote deliver rethrow event w).settled ≡ some (Ending.honored o)
      → Honored o (open_step deps quote deliver rethrow event w).world
  unfolding open_step
  open_step-Honored Event.ticks o w h = tick-Honored o w _ (λ i. (
    tick_ending-honored (tick deps quote deliver rethrow w).0 o h i,
    (tick deps quote deliver rethrow w).1,
  ))
  open_step-Honored Event.cancels_in_tick o w h = absurd (ground arith)
  open_step-Honored Event.cancels o w h = absurd (ground arith)

  run_loop-Honored :
      (events : List Event) (o : Outpoint) (l : LoopState E G)
      → l.settled ≡ none
      → (run_events events l).settled ≡ some (Ending.honored o)
      → Honored o (run_events events l).world
  unfolding run_loop loop_step
  run_loop-Honored [] o l open_loop h = absurd (ground arith)
  run_loop-Honored (event ∷ events) o l open_loop h =
      subst (λ s. Honored o (run_events events s).world) (sym entered)
        (elim (Option-cases next.settled) [
          | inl e ↦ run_loop-Honored events o next e h₁
          | inr (ending, e) ↦
              let stays = run_loop-settled events next ending e in
              subst (λ s. Honored o s.world) (sym stays)
                (open_step-Honored event o l.world (ap (λ s. s.settled) (sym stays) ∙ h₁))
        ])
    where
      next : LoopState E G
      next = open_step deps quote deliver rethrow event l.world

      entered : elim l.settled [ none ↦ next | some _ ↦ l ] ≡ next
      entered = ap (λ s. elim s [ none ↦ next | some _ ↦ l ]) open_loop

      h₁ : (run_events events next).settled ≡ some (Ending.honored o)
      h₁ = ap (λ s. (run_events events s).settled) (sym entered) ∙ h

  -- If the promise settles with 'honored', some `honor` of the loop answered that, and it left the
  -- world as the loop leaves it.
  pub on_paid-Honored :
      (events : List Event) (o : Outpoint) (w : World E G)
      → (on_paid deps quote deliver rethrow events w).settled ≡ some (Ending.honored o)
      → Honored o (on_paid deps quote deliver rethrow events w).world
  unfolding on_paid
  on_paid-Honored events o w h =
      elim (Option-cases (start_ending (register deps quote (quote_opts false) w).0)) [
        | inl e ↦ run_loop-Honored events o begun e h
        | inr (ending, e) ↦ absurd (
            start_ending-honored (register deps quote (quote_opts false) w).0 o
              (ap (λ s. s.settled) (sym (run_loop-settled events begun ending e)) ∙ h))
      ]
    where
      begun : LoopState E G
      begun = record {
        settled = start_ending (register deps quote (quote_opts false) w).0;
        world = (register deps quote (quote_opts false) w).1;
      }
