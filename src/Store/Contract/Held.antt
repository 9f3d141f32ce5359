-- ===== src/Store/Contract/Held.antt =====
-- Over the contract: an outpoint that is honored stays so until its retention ends, and no honor takes
-- it again meanwhile.
use exfer_honor.Base.{
  ℕ, ◌≤◌, ◌≡◌, refl, true, none, some, arith, Bool-cases, Option-cases, inl, inr,
}
use exfer_honor.Spec.Types.{AcceptedQuote, Outpoint, HonorKey}
use exfer_honor.Spec.Errors.{Thrown, Result, ok, throw}
use exfer_honor.Ports.Store.{Delivery, HonorTxnInput, GateMode}
use exfer_honor.Store.Contract.Answers.{honor-cases}
use exfer_honor.Store.Contract.{
  Gate, Holding, holding_refusal, same_outpoint, same_outpoint_iff, quote_key, accept, observe,
  reserve, honor, swept, arg_key,
}

module _ {G : Type 0} where
  -- Honored, and retained at least until a time.
  abbrev pub IsHeld : Outpoint → ℕ → Gate G → Type 0
  IsHeld o horizon g =
      (h : Holding) × (g.holding o ≡ some h) × (h.is_honored ≡ true) × (horizon ≤ h.retain_until)

  pub accept-IsHeld :
      (a : AcceptedQuote) (at retain horizon : ℕ) (o : Outpoint) (g : Gate G)
      → IsHeld o horizon g
      → IsHeld o horizon (accept a at retain g)
  accept-IsHeld a at retain horizon o g (h, e, done, long) =
      (h, ground (arith, Option-cases (g.row (quote_key a))), done, long)

  pub observe-IsHeld :
      (k : HonorKey) (now horizon : ℕ) (o : Outpoint) (g : Gate G)
      → IsHeld o horizon g
      → IsHeld o horizon (observe k now g)
  observe-IsHeld k now horizon o g (h, e, done, long) =
      (h, ground (arith, Option-cases (g.row k)), done, long)

  pub reserve-IsHeld :
      (k : HonorKey) (p : Outpoint) (retain horizon : ℕ) (o : Outpoint) (g : Gate G)
      → IsHeld o horizon g
      → IsHeld o horizon (reserve k p retain g)
  reserve-IsHeld k p retain horizon o g (h, e, done, long) =
      (h, ground (arith, Option-cases (g.holding p), same_outpoint_iff p o), done, long)

  pub swept-IsHeld :
      (now horizon : ℕ) (o : Outpoint) (g : Gate G)
      → now ≤ horizon
      → IsHeld o horizon g
      → IsHeld o horizon (swept now g)
  swept-IsHeld now horizon o g early (h, e, done, long) = (h, ground arith, done, long)

  module _ (after_deliver : Delivery → Result (Unit {0})) (arg : HonorTxnInput G) (g : Gate G) where
    -- A held outpoint is refused, in either mode.
    pub honor-held :
        (horizon : ℕ)
        → IsHeld arg.outpoint horizon g
        → (e : Thrown) × (honor after_deliver arg g ≡ (throw e, g))
    honor-held horizon (h, held, done, long) = elim (honor-cases after_deliver arg g) [
      | inl fails ↦ fails
      | inr (r, known, open_row, free, e) ↦ absurd (refused arg.mode free)
    ]
      where
        refused : (m : GateMode) → holding_refusal m (g.holding arg.outpoint) ≡ none → ⊥
        refused GateMode.single f = ground arith
        refused GateMode.promote f = ground arith

    pub honor-IsHeld :
        (horizon : ℕ) (o : Outpoint)
        → IsHeld o horizon g
        → IsHeld o horizon (honor after_deliver arg g).1
    honor-IsHeld horizon o (h, held, done, long) = elim (honor-cases after_deliver arg g) [
      | inl (e, same) ↦ (h, rw same held, done, long)
      | inr (r, known, open_row, free, e) ↦ elim (Bool-cases (same_outpoint arg.outpoint o)) [
        | inl hit ↦
            absurd (refused arg.mode (ground (arith, same_outpoint_iff arg.outpoint o)) free)
        | inr miss ↦ (h, rw e (ground arith), done, long)
      ]
    ]
      where
        refused :
            (m : GateMode)
            → g.holding arg.outpoint ≡ some h
            → holding_refusal m (g.holding arg.outpoint) ≡ none
            → ⊥
        refused GateMode.single same f = ground arith
        refused GateMode.promote same f = ground arith

    -- A success holds its outpoint for as long as it was told to.
    pub honor-holds :
        (honor after_deliver arg g).0 ≡ ok tt
        → IsHeld arg.outpoint arg.retain_until (honor after_deliver arg g).1
    honor-holds done = elim (honor-cases after_deliver arg g) [
      | inl (e, same) ↦ absurd (ground arith)
      | inr (r, known, open_row, free, e) ↦ elim (Option-cases (g.holding arg.outpoint)) [
        | inl none_held ↦ (
          record { holder = arg_key arg; is_honored = true; retain_until = arg.retain_until },
          rw e (ground (arith, same_outpoint_iff arg.outpoint arg.outpoint)),
          refl,
          omega arith,
        )
        | inr (h, held) ↦ (
          record { holder = h.holder; is_honored = true; retain_until = arg.retain_until },
          rw e (ground (arith, same_outpoint_iff arg.outpoint arg.outpoint)),
          refl,
          omega arith,
        )
      ]
    ]
