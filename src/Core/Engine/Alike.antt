-- ===== src/Core/Engine/Alike.antt =====
-- The engine (src/core/engine.ts) over two stores, call by call.
use exfer_honor.Base.{◌≡◌, refl, subst, ap, Text, ℕ, Bool, true, false, Option, none, some, List}
use exfer_honor.Base.Dict.{lookup, insert}
use exfer_honor.Spec.Types.{
  AcceptedQuote, HonorKey, SettlementCandidate, HonorVerdict, HonorOutcome, WaitReason,
  RegisterOpts,
}
use exfer_honor.Spec.Errors.{Thrown, Result}
use exfer_honor.Ports.Store.{SeenRow, GateMode, DeliverFn, HonorTxnInput}
use exfer_honor.Ports.World.{World}
use exfer_honor.Ports.Effect.{Eff, pure, ◌>>=◌}
use exfer_honor.Ports.Alike.{
  Alike, pure-Alike, raise-Alike, >>=-Alike, try_catch-Alike, if-Alike, Option-Alike,
}
use exfer_honor.Ports.Lift.{Part, PartsAgree, lift-Alike}
use exfer_honor.Ports.Chain.{ChainSource, KeyCustody}
use exfer_honor.Ports.Form.{HonorConfig, PrepareResult, SettlementForm}
use exfer_honor.Ports.Deps.{StorePort, HonorDeps}
use exfer_honor.Forms.Alike.{Prepares, PreparesAlike}
use exfer_honor.Core.Scorer.{gate_step0, quote_from_seen, context_at}
use exfer_honor.Forms.Htlc.{row_key}
use exfer_honor.Store.Contract.{quote_key}
use exfer_honor.Store.Sqlite.{input_key}
use exfer_honor.Core.Alike.{StoreAlike, FormsAlike, lifted_deps, get_form-Alike, score_quote-Alike}
use exfer_honor.Core.Engine.{
  bridged, status_of, after_txn, read_claim, record_claim, now_or_clock, pre_screen, register,
  observe_row, mark_observed, after_step0, can_honor, txn_input, commit_honor, prepare_form,
  after_prepare, after_score, honor_seen, honor, status,
}

-- The engine's own map is the same on both sides, and stays so.
pub record MapsAgree {E₁ E₂ G : Type 0} (R : World E₁ G → World E₂ G → Type 0) : Type 0 where
  pub same : (v : World E₁ G) (w : World E₂ G) → R v w → v.claim_tx_ids ≡ w.claim_tx_ids
  pub keeps :
      (v : World E₁ G) (w : World E₂ G) (m : _)
      → R v w
      → R (record v { claim_tx_ids = m }) (record w { claim_tx_ids = m })

-- Two engines whose calls end alike, for the quotes of which `P` holds and the deliveries of which `F` does once
-- the engine has put its bridge around them.
pub record EnginesAlike {E₁ E₂ G : Type 0} (R : World E₁ G → World E₂ G → Type 0)
    (P : HonorKey → Type 0) (F : DeliverFn G → Type 0) (d : HonorDeps (World E₁ G) G)
    (e : HonorDeps (World E₂ G) G) : Type 0 where
  pub registers :
      (quote : AcceptedQuote) (opts : RegisterOpts)
      → P (quote_key quote)
      → Alike R (register d quote opts) (register e quote opts)
  pub observes :
      (k : HonorKey) (at : ℕ) → P k → Alike R (mark_observed d k at) (mark_observed e k at)
  pub asks : (k : HonorKey) → P k → Alike R (can_honor d k) (can_honor e k)
  pub honors :
      (k : HonorKey) (deliver : DeliverFn G) (opts : RegisterOpts)
      → P k
      → F (bridged deliver)
      → Alike R (honor d k deliver opts) (honor e k deliver opts)
  pub tells : (k : HonorKey) → P k → Alike R (status d k) (status e k)

module _ {E E₁ E₂ G : Type 0} (R : World E₁ G → World E₂ G → Type 0) (left : Part E (World E₁ G))
    (right : Part E (World E₂ G)) (agree : PartsAgree R left right) (maps : MapsAgree R)
    (chain : ChainSource E) (keys : KeyCustody E) (clock : Eff E ℕ) (config : HonorConfig) where
  module _ (P : HonorKey → Type 0) (F : DeliverFn G → Type 0) (s : StorePort (World E₁ G) G)
      (t : StorePort (World E₂ G) G) (stores : StoreAlike R P F s t)
      (fs : List (SettlementForm (World E₁ G))) (gs : List (SettlementForm (World E₂ G)))
      (forms : FormsAlike R left right agree chain keys config fs gs) where
    abbrev d₁ : HonorDeps (World E₁ G) G
    d₁ = lifted_deps left chain keys clock config s fs

    abbrev d₂ : HonorDeps (World E₂ G) G
    d₂ = lifted_deps right chain keys clock config t gs

    now_or_clock-Alike : (now : Option ℕ) → Alike R (now_or_clock d₁ now) (now_or_clock d₂ now)
    unfolding now_or_clock
    now_or_clock-Alike none = lift-Alike clock agree
    now_or_clock-Alike (some now) = pure-Alike R now

    pre_screen-Alike :
        (quote : AcceptedQuote) (b : Bool) → Alike R (pre_screen d₁ quote b) (pre_screen d₂ quote b)
    unfolding pre_screen
    pre_screen-Alike quote false = pure-Alike R _
    pre_screen-Alike quote true =
        >>=-Alike R
          (try_catch-Alike R (lift-Alike (keys.controls_payee quote.payee_pubkey) agree)
            (λ _. raise-Alike R _))
          (λ controls. if-Alike R controls (pure-Alike R _) (raise-Alike R _))

    register-Alike :
        (quote : AcceptedQuote) (opts : RegisterOpts)
        → P (quote_key quote)
        → Alike R (register d₁ quote opts) (register d₂ quote opts)
    unfolding register
    register-Alike quote opts p = >>=-Alike R (now_or_clock-Alike opts.now) (λ now.
        >>=-Alike R (stores.reads (quote_key quote) p) (λ existing.
          Option-Alike R existing
            (>>=-Alike R (pre_screen-Alike quote opts.pre_screen_payee_custody)
              (λ _. >>=-Alike R (stores.accepts quote now _ p) (λ _. pure-Alike R _)))
            (λ row. pure-Alike R _)))

    mark_observed-Alike :
        (k : HonorKey) (at : ℕ) → P k → Alike R (mark_observed d₁ k at) (mark_observed d₂ k at)
    unfolding mark_observed observe_row
    mark_observed-Alike k at p = >>=-Alike R (stores.reads k p) (λ row.
        Option-Alike R row (pure-Alike R _) (λ found.
          if-Alike R _ (>>=-Alike R (stores.observes k at p) (λ _. pure-Alike R _))
            (pure-Alike R _)))

    after_step0-Alike :
        {A : Type 0} (row : Option SeenRow) (stop : HonorVerdict → A)
        (go : SeenRow → Eff (World E₁ G) A) (go' : SeenRow → Eff (World E₂ G) A)
        → ((r : SeenRow) → Alike R (go r) (go' r))
        → Alike R (after_step0 d₁ row stop go) (after_step0 d₂ row stop go')
    unfolding after_step0
    after_step0-Alike none stop go go' h = pure-Alike R _
    after_step0-Alike (some r) stop go go' h =
        Option-Alike R (gate_step0 (some r)) (h r) (λ v. pure-Alike R _)

    can_honor-Alike : (k : HonorKey) → P k → Alike R (can_honor d₁ k) (can_honor d₂ k)
    unfolding can_honor
    can_honor-Alike k p = >>=-Alike R (lift-Alike clock agree) (λ now.
        >>=-Alike R (stores.reads k p) (λ row. after_step0-Alike row _ _ _ (λ seen.
          score_quote-Alike R left right agree chain keys config clock s t fs gs
            (quote_from_seen seen) now forms)))

    read_claim-Alike : (k : HonorKey) → Alike R (read_claim k) (read_claim k)
    unfolding read_claim
    read_claim-Alike k v w r = (ap (λ m. Result.ok (lookup (row_key k) m)) (maps.same v w r), r)

    record_claim-Alike :
        (k : HonorKey) (tx : Text) → Alike R (record_claim k tx) (record_claim k tx)
    unfolding record_claim
    record_claim-Alike k tx v w r = (
      refl,
      subst
          (λ m.
            R (record v { claim_tx_ids = insert (row_key k) tx v.claim_tx_ids })
              (record w { claim_tx_ids = insert (row_key k) tx m }))
          (maps.same v w r) (maps.keeps v w _ r),
    )

    status-Alike : (k : HonorKey) → P k → Alike R (status d₁ k) (status d₂ k)
    unfolding status
    status-Alike k p = >>=-Alike R (stores.reads k p) (λ row.
        Option-Alike R row (pure-Alike R _) (λ found.
          >>=-Alike R (read_claim-Alike k) (λ claim. pure-Alike R (some (status_of found claim)))))

    after_txn-Alike :
        (rethrow : Bool) (e : Thrown) → Alike R (after_txn rethrow e) (after_txn rethrow e)
    after_txn-Alike rethrow (Thrown.from_deliver e) =
        if-Alike R rethrow (raise-Alike R _) (pure-Alike R _)
    after_txn-Alike rethrow (Thrown.gate_violation kind) = pure-Alike R _
    after_txn-Alike rethrow (Thrown.honor_error code) = raise-Alike R _
    after_txn-Alike rethrow (Thrown.plain_error code message) = raise-Alike R _

    commit_honor-Alike :
        (input : HonorTxnInput G) (rethrow : Bool)
        → P (input_key input)
        → F input.deliver
        → Alike R (commit_honor d₁ input rethrow) (commit_honor d₂ input rethrow)
    unfolding commit_honor
    commit_honor-Alike input rethrow p f =
        try_catch-Alike R (>>=-Alike R (stores.honors input p f) (λ _. pure-Alike R _))
          (after_txn-Alike rethrow)

    run_alike :
        (p : Option (Prepares R left right agree chain keys config (World E₁ G)))
        (q : Option (Prepares R left right agree chain keys config (World E₂ G)))
        (quote : AcceptedQuote) (now : ℕ) (c : SettlementCandidate)
        → PreparesAlike R left right agree chain keys config p q
        → Alike R
            (elim p [
              | none ↦ pure PrepareResult.ready
              | some run ↦ do tip ← d₁.chain.tip_height; run (context_at d₁ quote now tip) c
            ])
            (elim q [
              | none ↦ pure PrepareResult.ready
              | some run ↦ do tip ← d₂.chain.tip_height; run (context_at d₂ quote now tip) c
            ])
    run_alike none none quote now c h = pure-Alike R _
    run_alike none (some q) quote now c h = absurd h
    run_alike (some p) none quote now c h = absurd h
    run_alike (some p) (some q) quote now c h =
        >>=-Alike R (lift-Alike chain.tip_height agree) (λ tip. h quote now tip c)

    module _ (k : HonorKey) (deliver : DeliverFn G) (opts : RegisterOpts) (p : P k)
        (fit : F (bridged deliver)) where
      after_prepare-Alike :
          (now : ℕ) (seen : SeenRow) (mode : GateMode) (c : SettlementCandidate)
          (prep : PrepareResult)
          → Alike R
              (after_prepare d₁ k deliver opts.rethrow_delivery_errors now seen mode c prep)
              (after_prepare d₂ k deliver opts.rethrow_delivery_errors now seen mode c prep)
      unfolding after_prepare
      after_prepare-Alike now seen mode c (PrepareResult.claim_submitted tx) =
          >>=-Alike R (record_claim-Alike k tx) (λ _.
            pure-Alike R (HonorOutcome.not_ready (HonorVerdict.wait WaitReason.htlc_claim_pending)))
      after_prepare-Alike now seen mode c (PrepareResult.wait reason) = pure-Alike R _
      after_prepare-Alike now seen mode c PrepareResult.ready =
          commit_honor-Alike (txn_input d₁ k deliver now seen c mode) opts.rethrow_delivery_errors p
            fit

      after_score-Alike :
          (now : ℕ) (seen : SeenRow) (v : HonorVerdict)
          → Alike R
              (after_score d₁ k deliver opts.rethrow_delivery_errors now seen v)
              (after_score d₂ k deliver opts.rethrow_delivery_errors now seen v)
      unfolding after_score prepare_form
      after_score-Alike now seen (HonorVerdict.wait reason) = pure-Alike R _
      after_score-Alike now seen (HonorVerdict.decline reason) = pure-Alike R _
      after_score-Alike now seen (HonorVerdict.honor c id) =
          get_form-Alike R left right agree chain keys config seen.form fs gs _ _ forms (λ f g a.
            >>=-Alike R (run_alike f.prepare g.prepare (quote_from_seen seen) now c a.prepares)
              (λ prep.
                subst
                  (λ mode.
                    Alike R
                      (after_prepare d₁ k deliver opts.rethrow_delivery_errors now seen f.gate_mode
                        c prep)
                      (after_prepare d₂ k deliver opts.rethrow_delivery_errors now seen mode c
                        prep))
                  a.same_mode (after_prepare-Alike now seen f.gate_mode c prep)))

      honor-Alike : Alike R (honor d₁ k deliver opts) (honor d₂ k deliver opts)
      unfolding honor honor_seen
      honor-Alike = >>=-Alike R (now_or_clock-Alike opts.now) (λ now.
          >>=-Alike R (stores.reads k p) (λ row. after_step0-Alike row _ _ _ (λ seen.
            >>=-Alike R
              (score_quote-Alike R left right agree chain keys config clock s t fs gs
                (quote_from_seen seen) now forms)
              (λ v. after_score-Alike now seen v))))

    pub engines_alike : EnginesAlike R P F d₁ d₂
    engines_alike = record {
      registers = register-Alike;
      observes = mark_observed-Alike;
      asks = can_honor-Alike;
      honors = λ k deliver opts p fit. honor-Alike k deliver opts p fit;
      tells = status-Alike;
    }
