-- ===== src/Core/Engine/Calls.antt =====
-- Sequences of calls of one engine (src/core/engine.ts), and what they answer.
use exfer_honor.Base.{ℕ, Option, List, [], ◌∷◌}
use exfer_honor.Spec.Types.{
  AcceptedQuote, HonorKey, HonorVerdict, HonorOutcome, RegisterOpts, RegisterResult, ObserveResult,
  HonorStatus,
}
use exfer_honor.Spec.Errors.{Result}
use exfer_honor.Ports.Store.{DeliverFn}
use exfer_honor.Ports.World.{World}
use exfer_honor.Ports.Deps.{HonorDeps}
use exfer_honor.Core.Engine.{register, mark_observed, can_honor, honor, status, sweep}

pub data EngineCall (G : Type 0) : Type 0 where
  registers : AcceptedQuote → RegisterOpts → EngineCall G
  observes : HonorKey → (observed_at : ℕ) → EngineCall G
  asks : HonorKey → EngineCall G
  honors : HonorKey → DeliverFn G → RegisterOpts → EngineCall G
  tells : HonorKey → EngineCall G
  sweeps : (now : ℕ) → EngineCall G

-- The counts of a sweep are left out.
pub data Answer : Type 0 where
  registered : Result RegisterResult → Answer
  observed : Result ObserveResult → Answer
  asked : Result HonorVerdict → Answer
  honored : Result HonorOutcome → Answer
  told : Result (Option HonorStatus) → Answer
  swept : Answer

abbrev pub with_answer : {A W : Type 0} → (A → Answer) → A × W → Answer × W
with_answer f (a, w) = (f a, w)

module _ {E G : Type 0} (deps : HonorDeps (World E G) G) where
  unfoldable pub call : EngineCall G → World E G → Answer × World E G
  call (EngineCall.registers quote opts) w =
      with_answer Answer.registered (register deps quote opts w)
  call (EngineCall.observes k at) w = with_answer Answer.observed (mark_observed deps k at w)
  call (EngineCall.asks k) w = with_answer Answer.asked (can_honor deps k w)
  call (EngineCall.honors k deliver opts) w =
      with_answer Answer.honored (honor deps k deliver opts w)
  call (EngineCall.tells k) w = with_answer Answer.told (status deps k w)
  call (EngineCall.sweeps now) w = (Answer.swept, (sweep deps now w).1)

  -- A call that throws does not end the sequence.
  unfoldable pub calls : List (EngineCall G) → World E G → List Answer × World E G
  calls [] w = ([], w)
  calls (c ∷ cs) w =
      let (a, after) = call c w in let (answers, last) = calls cs after in (a ∷ answers, last)
