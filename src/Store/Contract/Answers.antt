-- ===== src/Store/Contract/Answers.antt =====
-- The two ways in which an honor of the contract ends: it throws and changes nothing, or the gate was
-- open and it makes both gate writes.
use exfer_honor.Base.{◌≡◌, true, none, some, arith, Option-cases, inl, inr, ◌⊎◌}
use exfer_honor.Spec.Errors.{Thrown, Result, ok, throw}
use exfer_honor.Ports.Store.{SeenRow, Delivery, HonorTxnInput}
use exfer_honor.Store.Contract.{
  Gate, is_open, holding_refusal, refusal, arg_key, arg_context, honored_gate, honor, honor_gone,
  honor_refused, honor_admitted,
}

module _ {G : Type 0} (after_deliver : Delivery → Result (Unit {0})) (arg : HonorTxnInput G)
    (g : Gate G) where
  abbrev pub Fails : Type 0
  Fails = (e : Thrown) × (honor after_deliver arg g ≡ (throw e, g))

  abbrev pub Honors : Type 0
  Honors =
      (r : SeenRow) × (g.row (arg_key arg) ≡ some r)
      × (is_open arg.now r ≡ true)
      × (holding_refusal arg.mode (g.holding arg.outpoint) ≡ none)
      × (honor after_deliver arg g
          ≡ (ok tt, honored_gate arg r (arg.deliver (arg_context arg) g.goods).1 g))

  refusal-none :
      (r : SeenRow)
      → refusal arg.now arg.mode (some r) (g.holding arg.outpoint) ≡ none
      → (is_open arg.now r ≡ true) × (holding_refusal arg.mode (g.holding arg.outpoint) ≡ none)
  refusal-none r h = (ground arith, ground arith)

  settled :
      (r : SeenRow)
      → g.row (arg_key arg) ≡ some r
      → refusal arg.now arg.mode (some r) (g.holding arg.outpoint) ≡ none
      → Fails ⊎ Honors
  settled r known free =
      go (after_deliver (arg.deliver (arg_context arg) g.goods).0)
        (honor_admitted after_deliver arg g r known free)
    where
      go :
          (res : Result (Unit {0}))
          → honor after_deliver arg g ≡ elim res [
            | throw e ↦ (throw e, g)
            | ok _ ↦ (ok tt, honored_gate arg r (arg.deliver (arg_context arg) g.goods).1 g)
          ]
          → Fails ⊎ Honors
      go (throw e) h = inl (e, h)
      go (ok _) h =
          let (open_row, free_point) = refusal-none r free in
          inr (r, known, open_row, free_point, h)

  pub honor-cases : Fails ⊎ Honors
  honor-cases = elim (Option-cases (g.row (arg_key arg))) [
    | inl gone ↦ inl (_, honor_gone after_deliver arg g gone)
    | inr (r, known) ↦
        elim (Option-cases (refusal arg.now arg.mode (some r) (g.holding arg.outpoint))) [
          | inr (kind, h) ↦ inl (_, honor_refused after_deliver arg g r kind known h)
          | inl free ↦ settled r known free
        ]
  ]
