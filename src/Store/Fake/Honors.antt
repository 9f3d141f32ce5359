-- ===== src/Store/Fake/Honors.antt =====
-- `runHonorTxn` of `FakeSyncStore` (src/core/fakes.test-helpers.ts) against the contract of a store.
use mathlib.Core.Option
use exfer_honor.Base.{
  ℕ, ◌+◌, ◌≡◌, refl, sym, ap, ◌∙◌, subst, Text, Option, none, some, List, [], arith, Option-cases,
  inl, inr, ◌⊎◌,
}
use exfer_honor.Base.Dict.{lookup}
use exfer_honor.Spec.Types.{Outpoint, DeliverContext}
use exfer_honor.Spec.Errors.{Thrown, GateKind, Result, ok, throw}
use exfer_honor.Ports.Store.{SeenRow, GateMode, Delivery, DeliverFn, HonorTxnInput}
use exfer_honor.Store.Rows.{OutpointState}
use exfer_honor.Store.Contract.{
  Gate, row_refusal, holding_refusal, refusal, honored_holding, honored_gate, honor, honor_gone,
  honor_refused, honor_admitted, locked_row, settle, arg_context,
}
use exfer_honor.Store.Sqlite.{input_key, deliver_context, after_deliver}
use exfer_honor.Store.Fake.{
  OutpointRow, FakeDb, outpoint_key, publish, stage_seen, stage_outpoint, honored_row, committed,
  delivered, after_outpoint, run_honor_txn,
}
use exfer_honor.Store.Fake.Keys.{IsPlainKey}
use exfer_honor.Store.Fake.Refines.{holding_of, Shows, row_written, holding_written}

-- A `deliver` writes goods by staging keys only: what it does to a set of goods is to publish what it
-- stages in an empty one.
abbrev pub Stages : DeliverFn (List Text) → Type 0
Stages deliver =
    (ctx : DeliverContext) (goods : List Text)
    → deliver ctx goods ≡ ((deliver ctx []).0, publish (deliver ctx []).1 goods)

-- One answer, and maps that show the gate.
abbrev pub Agrees : Result (Unit {0}) × FakeDb → Result (Unit {0}) × Gate (List Text) → Type 0
Agrees p q = (p.0 ≡ q.0) × Shows p.1 q.1

stage_seen-cases :
    (now : ℕ) (o : Outpoint) (r : SeenRow)
    → ((row_refusal now (some r) ≡ none) × (stage_seen now o (some r) ≡ ok (locked_row now o r)))
      ⊎ ((kind : GateKind) × (row_refusal now (some r) ≡ some kind)
          × (stage_seen now o (some r) ≡ throw (Thrown.gate_violation kind)))
unfolding stage_seen
stage_seen-cases now o r = elim (Option-cases (row_refusal now (some r))) [
  | inl free ↦ inl (free, ground arith)
  | inr (kind, shut) ↦ inr (kind, shut, ground arith)
]

module _ (arg : HonorTxnInput (List Text)) where
  abbrev TakesPoint : GateMode → Option OutpointRow → Type 0
  TakesPoint mode x =
      (out : OutpointRow) × (holding_refusal mode (Option.map holding_of x) ≡ none)
      × (stage_outpoint arg mode x ≡ ok out)
      × (holding_of out
          ≡ honored_holding (input_key arg) arg.retain_until (Option.map holding_of x))

  abbrev KeepsPoint : GateMode → Option OutpointRow → Type 0
  KeepsPoint mode x =
      (kind : GateKind) × (holding_refusal mode (Option.map holding_of x) ≡ some kind)
      × (stage_outpoint arg mode x ≡ throw (Thrown.gate_violation kind))

  stage_outpoint-cases :
      (mode : GateMode) (x : Option OutpointRow) → TakesPoint mode x ⊎ KeepsPoint mode x
  unfolding stage_outpoint
  stage_outpoint-cases GateMode.single none =
      inl (honored_row (input_key arg) arg.outpoint arg.now arg.retain_until, refl, refl, refl)
  stage_outpoint-cases GateMode.single (some r) = inr (GateKind.outpoint_taken, refl, refl)
  stage_outpoint-cases GateMode.promote none = inr (GateKind.outpoint_taken, refl, refl)
  stage_outpoint-cases GateMode.promote (some r) = pending r r.state refl
    where
      pending :
          (r : OutpointRow) (state : OutpointState)
          → r.state ≡ state
          → TakesPoint GateMode.promote (some r) ⊎ KeepsPoint GateMode.promote (some r)
      pending r OutpointState.claim_pending e = inl (
        record r {
          state = OutpointState.honored;
          honored_at = some arg.now;
          retain_until = arg.retain_until;
        },
        ground arith,
        ground arith,
        refl,
      )
      pending r OutpointState.honored e = inr (GateKind.outpoint_taken, ground arith, ground arith)

  module _ (plain : IsPlainKey (input_key arg)) (db : FakeDb) (g : Gate (List Text))
      (s : Shows db g) where
    counted : (n : ℕ) → Shows (record db { deliver_count = n }) g
    counted n = record {
      rows = s.rows;
      holdings = s.holdings;
      goods = s.goods;
      seen_unique = s.seen_unique;
      outpoints_unique = s.outpoints_unique;
    }

    committed-Shows :
        (r : SeenRow) (out : OutpointRow) (staged : List Text)
        → holding_of out ≡ honored_holding (input_key arg) arg.retain_until (g.holding arg.outpoint)
        → Shows
            (committed arg (locked_row arg.now arg.outpoint r) out staged db)
            (honored_gate arg r (publish staged g.goods) g)
    committed-Shows r out staged e =
        let both =
          holding_written arg.outpoint out _ _
            (row_written (input_key arg) (locked_row arg.now arg.outpoint r) db g plain s) in
        record {
          rows = both.rows;
          holdings = λ o. both.holdings o ∙ rw e refl;
          goods = ap (publish staged) s.goods;
          seen_unique = both.seen_unique;
          outpoints_unique = both.outpoints_unique;
        }

    delivered-Agrees :
        (r : SeenRow) (out : OutpointRow) (p : Delivery × List Text)
        → holding_of out ≡ honored_holding (input_key arg) arg.retain_until (g.holding arg.outpoint)
        → Agrees
            (delivered arg (locked_row arg.now arg.outpoint r) out db p)
            (elim (after_deliver p.0) [
              | throw e ↦ (throw e, g)
              | ok _ ↦ (ok tt, honored_gate arg r (publish p.1 g.goods) g)
            ])
    delivered-Agrees r out (Delivery.returned, staged) e = (refl, committed-Shows r out staged e)
    delivered-Agrees r out (Delivery.threw t, staged) e = (refl, counted (db.deliver_count + 1))
    delivered-Agrees r out (Delivery.resolved, staged) e = (refl, s)
    delivered-Agrees r out (Delivery.rejected t, staged) e = (refl, s)

    settled-Agrees :
        (r : SeenRow) (out : OutpointRow)
        → Stages arg.deliver
        → holding_of out ≡ honored_holding (input_key arg) arg.retain_until (g.holding arg.outpoint)
        → Agrees
            (delivered arg
              (locked_row arg.now arg.outpoint r)
              out
              db
              (arg.deliver (deliver_context arg) []))
            (settle after_deliver arg r g)
    settled-Agrees r out stages e =
        subst
          (λ (p : Delivery × List Text).
            Agrees
              (delivered arg (locked_row arg.now arg.outpoint r) out db
                (arg.deliver (deliver_context arg) []))
              (elim (after_deliver p.0) [
                | throw e ↦ (throw e, g)
                | ok _ ↦ (ok tt, honored_gate arg r p.1 g)
              ]))
          (sym (stages (arg_context arg) g.goods))
          (delivered-Agrees r out (arg.deliver (deliver_context arg) []) e)

    outpoint-Agrees :
        (r : SeenRow)
        → Stages arg.deliver
        → g.row (input_key arg) ≡ some r
        → row_refusal arg.now (some r) ≡ none
        → Agrees
            (after_outpoint arg
              (locked_row arg.now arg.outpoint r)
              db
              (stage_outpoint arg arg.mode (lookup (outpoint_key arg.outpoint) db.outpoints)))
            (honor after_deliver arg g)
    outpoint-Agrees r stages known free =
        elim (stage_outpoint-cases arg.mode (lookup (outpoint_key arg.outpoint) db.outpoints)) [
          | inl (out, taken, staged, same) ↦
              rw
                (
                  staged,
                  honor_admitted after_deliver arg g r known (
                      rw (refusal, free)
                        (ap (holding_refusal arg.mode) (sym (s.holdings arg.outpoint)) ∙ taken)),
                )
                (settled-Agrees r out stages (
                  same
                  ∙ ap (honored_holding (input_key arg) arg.retain_until)
                      (s.holdings arg.outpoint)))
          | inr (kind, held, staged) ↦
              rw
                (
                  staged,
                  honor_refused after_deliver arg g r kind known (
                      rw (refusal, free)
                        (ap (holding_refusal arg.mode) (sym (s.holdings arg.outpoint)) ∙ held)),
                )
                (refl, s)
        ]

    -- Where the maps show a gate, the quote's id has no colon and `deliver` writes goods by staging them, the
    -- gate transaction of the fake answers as the contract's honor does on every branch, and its maps then
    -- show what that honor leaves.
    pub run_honor_txn-Agrees :
        Stages arg.deliver → Agrees (run_honor_txn arg db) (honor after_deliver arg g)
    unfolding run_honor_txn
    run_honor_txn-Agrees stages = elim (Option-cases (g.row (input_key arg))) [
      | inl gone ↦
          rw (s.rows (input_key arg) plain ∙ gone, honor_gone after_deliver arg g gone) (refl, s)
      | inr (r, known) ↦ elim (stage_seen-cases arg.now arg.outpoint r) [
        | inl (free, staged) ↦
            rw (s.rows (input_key arg) plain ∙ known, staged) (outpoint-Agrees r stages known free)
        | inr (kind, shut, staged) ↦
            rw
              (
                s.rows (input_key arg) plain ∙ known,
                staged,
                honor_refused after_deliver arg g r kind known (rw (refusal, shut) refl),
              )
              (refl, s)
      ]
    ]
