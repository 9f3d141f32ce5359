-- ===== src/Core/Engine/PlainPays.antt =====
-- A payment to a plain quote, from the chain to the gate: `honor` (src/core/engine.ts) over a `SqliteStore` and
-- the plain form (src/forms/plain.ts).
use exfer_honor.Base.{ℕ, ◌≡◌, refl, ap, ◌∙◌, Bool, true, false, none, some, List, ◌∷◌}
use exfer_honor.Spec.Types.{SettlementFormId, HonorVerdict, HonorOutcome, HonorKey, RegisterOpts}
use exfer_honor.Spec.Errors.{ok}
use exfer_honor.Ports.Store.{SeenRow, GateMode, Delivery, DeliverFn, HonorTxnInput}
use exfer_honor.Ports.World.{World}
use exfer_honor.Ports.Effect.{>>=-ok}
use exfer_honor.Ports.Chain.{RawSettlementCandidate}
use exfer_honor.Ports.Form.{ScoringCtx, PrepareResult}
use exfer_honor.Ports.Deps.{HonorDeps}
use exfer_honor.Store.Contract.{
  Gate, is_open, refusal, holding_refusal, arg_context, settle, honored_gate, honor_admitted,
}
use exfer_honor.Store.Contract
use exfer_honor.Store.Sqlite.{after_deliver}
use exfer_honor.Store.Sqlite as Sqlite
use exfer_honor.Store.Sqlite.View.{view, IsWellFormed}
use exfer_honor.Store.Sqlite.Refines.{get_seen-view}
use exfer_honor.Store.Sqlite.Honor.{run_honor_txn-honor}
use exfer_honor.Store.Sqlite.Port.{sqlite_store}
use exfer_honor.Forms.Spine.{bound_candidate}
use exfer_honor.Forms.Spine.Binding.{Binds}
use exfer_honor.Forms.Plain.{plain_form}
use exfer_honor.Forms.Plain.Scoring.{IsDeep, score-first}
use exfer_honor.Core.Registry.{find_form, or_malformed, get_form}
use exfer_honor.Core.Scorer.{quote_from_seen, context_at, score_quote}
use exfer_honor.Core.Engine.{txn_input, now_or_clock, prepare_form, honor}
use exfer_honor.Core.Engine.Paid.{Started}
use exfer_honor.Core.Engine.Pays.{honor-Paid_iff}

module _ {E G : Type 0} (deps : HonorDeps (World E G) G) (is_sqlite : deps.store ≡ sqlite_store)
    (has_plain : find_form SettlementFormId.plain deps.forms ≡ some plain_form) (key : HonorKey)
    (deliver : DeliverFn G) (rethrow : Bool) (now : ℕ) where
  abbrev pub opts_at : RegisterOpts
  opts_at = record {
    now = some now;
    pre_screen_payee_custody = false;
    rethrow_delivery_errors = rethrow;
  }

  abbrev pub ctx_at : SeenRow → ℕ → ScoringCtx (World E G)
  ctx_at seen tip = context_at deps (quote_from_seen seen) now tip

  abbrev pub input_at : SeenRow → ScoringCtx (World E G) → RawSettlementCandidate → HonorTxnInput G
  input_at seen ctx raw =
      txn_input deps key deliver now seen (bound_candidate ctx raw SettlementFormId.plain)
        GateMode.single

  -- What the reads of the chain come to, and what the tables show where the gate is reached.
  pub record Payable (w : World E G) : Type 0 where
    pub seen : SeenRow
    pub known : (view w.db).row key ≡ some seen
    pub is_plain : seen.form ≡ SettlementFormId.plain
    pub is_unhonored : seen.honored_at ≡ none
    pub tip : ℕ
    pub past_tip : World E G
    pub reads_tip : deps.chain.tip_height w ≡ (ok tip, past_tip)
    pub raw : RawSettlementCandidate
    pub raws : List RawSettlementCandidate
    pub past_find : World E G
    pub finds :
        deps.chain.find_settlements_by_quote_id seen.quote_id past_tip
        ≡ (ok (raw ∷ raws), past_find)
    pub past_binding : World E G
    pub binds : Binds (ctx_at seen tip) raw past_find past_binding
    pub deep :
        IsDeep tip deps.config.confirmation_depth
          (bound_candidate (ctx_at seen tip) raw SettlementFormId.plain)
    pub later_tip : ℕ
    pub at_gate : World E G
    pub reads_later_tip : deps.chain.tip_height past_binding ≡ (ok later_tip, at_gate)
    pub locked : SeenRow
    pub still_known : (view at_gate.db).row key ≡ some locked
    pub still_open : is_open now locked ≡ true
    pub is_free : (view at_gate.db).holding raw.outpoint ≡ none
    pub well_formed : IsWellFormed at_gate.db
    pub delivers :
        (deliver (arg_context (input_at seen (ctx_at seen tip) raw)) at_gate.db.goods).0
        ≡ Delivery.returned

  module _ (w : World E G) (p : Payable w) where
    abbrev input : HonorTxnInput G
    input = input_at p.seen (ctx_at p.seen p.tip) p.raw

    abbrev pub after : World E G
    after = record p.at_gate { db = (Sqlite.run_honor_txn input p.at_gate.db).1 }

    abbrev pub goods_after : G
    goods_after = (deliver (arg_context input) p.at_gate.db.goods).1

    strategy : (v : World E G) → get_form p.seen.form deps.forms v ≡ (ok plain_form, v)
    unfolding get_form or_malformed
    strategy v =
        ap (λ f. or_malformed f v) (ap (λ id. find_form id deps.forms) p.is_plain ∙ has_plain)

    scores : score_quote deps (quote_from_seen p.seen) now w ≡ (
      ok (
          HonorVerdict.honor
            (bound_candidate (ctx_at p.seen p.tip) p.raw SettlementFormId.plain)
            SettlementFormId.plain),
      p.past_binding,
    )
    unfolding score_quote plain_form
    scores =
        >>=-ok (get_form p.seen.form deps.forms) _ w (strategy w)
        ∙ >>=-ok deps.chain.tip_height _ w p.reads_tip
        ∙ >>=-ok (deps.chain.find_settlements_by_quote_id p.seen.quote_id) _ p.past_tip p.finds
        ∙ score-first (ctx_at p.seen p.tip) p.raw p.raws p.past_find p.past_binding p.binds p.deep

    prepares :
        prepare_form deps plain_form
          (quote_from_seen p.seen)
          now
          (bound_candidate (ctx_at p.seen p.tip) p.raw SettlementFormId.plain)
          p.past_binding
        ≡ (ok PrepareResult.ready, p.at_gate)
    unfolding prepare_form plain_form
    prepares = >>=-ok deps.chain.tip_height _ p.past_binding p.reads_later_tip

    admits :
        refusal now GateMode.single (some p.locked) ((view p.at_gate.db).holding p.raw.outpoint)
        ≡ none
    admits = rw (refusal, p.still_open, p.is_free) refl

    settles :
        settle after_deliver input p.locked (view p.at_gate.db)
        ≡ (ok tt, honored_gate input p.locked goods_after (view p.at_gate.db))
    settles = rw (settle, p.delivers) refl

    contract :
        Contract.honor after_deliver input (view p.at_gate.db)
        ≡ (ok tt, honored_gate input p.locked goods_after (view p.at_gate.db))
    contract =
        honor_admitted after_deliver input (view p.at_gate.db) p.locked p.still_known admits
        ∙ settles

    commits : deps.store.run_honor_txn input p.at_gate ≡ (ok tt, after)
    commits = rw is_sqlite (
        ap (λ r. (r, after))
          (ap (λ q. q.0) (run_honor_txn-honor input p.at_gate.db p.well_formed ∙ contract)))

    started : Started deps key (opts_at) w
    unfolding now_or_clock
    started = record {
      now = now;
      past_clock = w;
      reads_clock = refl;
      seen = p.seen;
      past_row = w;
      reads_row = rw is_sqlite (ap (λ r. (ok r, w)) (get_seen-view key w.db ∙ p.known));
      is_unhonored = p.is_unhonored;
    }

    -- Over a `SqliteStore` and the plain form, where the row is there and not honored, the first payment found
    -- binds to the quote at the confirmation depth, and where the gate is reached the row is open, the
    -- payment's outpoint is free and `deliver` returns, `honor` answers 'honored' with that outpoint, and the
    -- tables then show the row locked, the outpoint consumed and the delivered goods.
    pub honor-plain_pays :
        (honor deps key deliver opts_at w ≡ (ok (HonorOutcome.honored p.raw.outpoint), after))
        × (view after.db ≡ honored_gate input p.locked goods_after (view p.at_gate.db))
    unfolding started plain_form
    honor-plain_pays = (
      (honor-Paid_iff deps key deliver opts_at p.raw.outpoint w after).1 (
        started,
        record {
          candidate = bound_candidate (ctx_at p.seen p.tip) p.raw SettlementFormId.plain;
          scored_form = SettlementFormId.plain;
          past_score = p.past_binding;
          scores = scores;
          form = plain_form;
          past_form = p.past_binding;
          strategy = strategy p.past_binding;
          past_prepare = p.at_gate;
          prepares = prepares;
          commits = commits;
          spends = refl;
        },
      ),
      ap (λ q. q.1) (run_honor_txn-honor input p.at_gate.db p.well_formed ∙ contract),
    )
