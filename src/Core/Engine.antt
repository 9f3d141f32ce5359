-- ===== src/Core/Engine.antt =====
-- The engine of src/core/engine.ts over any bag of ports. Its map of submitted claims is in the state.
pub mod Commit
pub mod Async
pub mod Paid
pub mod Pays
pub mod Reads
pub mod Honors
pub mod PlainPays
pub mod Registers
pub mod Repeats
pub mod Observes
pub mod Alike
pub mod BothStores
pub mod Calls
use exfer_honor.Base.{
  ℕ, ◌+◌, Text, Bool, true, false, not, ◌||◌, ◌&&◌, Option, none, some, ltb, ◌==◌, if◌then◌else◌,
}
use exfer_honor.Base.Dict.{lookup, insert}
use exfer_honor.Spec.Types.{
  SettlementFormId, AcceptedQuote, Outpoint, SettlementCandidate, HonorVerdict, WaitReason,
  DeclineReason, HonorOutcome, HonorKey, RegisterOpts, RegisterResult, ObserveResult, HonorStatus,
  DeliverContext,
}
use exfer_honor.Spec.Errors.{Thrown, HonorErrorCode, GateKind, Result}
use exfer_honor.Ports.Store.{SeenRow, GateMode, Delivery, DeliverFn, HonorTxnInput, SweepResult}
use exfer_honor.Ports.World.{World}
use exfer_honor.Ports.Effect.{Eff, pure, raise, ◌>>=◌, ◌>>◌, try_catch}
use exfer_honor.Ports.Form.{HonorConfig, PrepareResult, ScoringCtx, SettlementForm}
use exfer_honor.Ports.Deps.{StorePort, HonorDeps}
use exfer_honor.Forms.Htlc.{row_key, outpoint_of}
use exfer_honor.Core.Registry.{get_form}
use exfer_honor.Core.Scorer.{quote_from_seen, gate_step0, context_at, score_quote}

-- The verdict that a violation of the gate is reported as.
unfoldable pub violation_reason : GateKind → DeclineReason
violation_reason GateKind.seen_already_honored = DeclineReason.already_honored
violation_reason GateKind.expired_window = DeclineReason.expired_unobserved
violation_reason GateKind.outpoint_taken = DeclineReason.outpoint_consumed

-- The bridge around the consumer's `deliver`: what it throws at once is marked and thrown on. A
-- promise that is rejected later passes unmarked.
abbrev pub mark_throw : Delivery → Delivery
mark_throw Delivery.returned = Delivery.returned
mark_throw (Delivery.threw e) = Delivery.threw (Thrown.from_deliver e)
mark_throw Delivery.resolved = Delivery.resolved
mark_throw (Delivery.rejected e) = Delivery.rejected e

abbrev pub bridged : {G : Type 0} → DeliverFn G → DeliverFn G
bridged deliver ctx goods = let (ended, after) = deliver ctx goods in (mark_throw ended, after)

-- The status of a row that is not missing; the map of claims is only a status surface.
unfoldable pub status_of : SeenRow → Option Text → HonorStatus
status_of row claim_tx_id = elim row.honored_at [
  | some t ↦ HonorStatus.honored t row.honored_outpoint
  | none ↦ elim claim_tx_id [
    | none ↦ HonorStatus.accepted
    | some tx ↦ HonorStatus.claim_submitted tx
  ]
]

module _ {E G : Type 0} where
  -- The catch around the gate transaction.
  abbrev pub after_txn : Bool → Thrown → Eff (World E G) HonorOutcome
  after_txn rethrow (Thrown.from_deliver e) =
      if rethrow then raise e else pure HonorOutcome.delivery_failed
  after_txn rethrow (Thrown.gate_violation kind) =
      pure (HonorOutcome.not_ready (HonorVerdict.decline (violation_reason kind)))
  after_txn rethrow (Thrown.honor_error code) = raise (Thrown.honor_error code)
  after_txn rethrow (Thrown.plain_error code message) = raise (Thrown.plain_error code message)

  unfoldable pub read_claim : HonorKey → Eff (World E G) (Option Text)
  read_claim key w = (Result.ok (lookup (row_key key) w.claim_tx_ids), w)

  unfoldable pub record_claim : HonorKey → Text → Eff (World E G) Unit
  record_claim key tx w =
      (Result.ok tt, record w { claim_tx_ids = insert (row_key key) tx w.claim_tx_ids })

  module _ (deps : HonorDeps (World E G) G) where
    unfoldable pub now_or_clock : Option ℕ → Eff (World E G) ℕ
    now_or_clock none = deps.clock
    now_or_clock (some now) = pure now

    -- `controlsPayeeOrThrow` and the pre-screen that uses it.
    unfoldable pub pre_screen : AcceptedQuote → Bool → Eff (World E G) Unit
    pre_screen quote false = pure tt
    pre_screen quote true = do
      controls ←
          try_catch (deps.keys.controls_payee quote.payee_pubkey)
            (λ _. raise (Thrown.honor_error HonorErrorCode.keystore_fault))
      if controls then pure tt else raise (Thrown.honor_error HonorErrorCode.malformed_quote)

    unfoldable pub register : AcceptedQuote → RegisterOpts → Eff (World E G) RegisterResult
    unfolding now_or_clock pre_screen
    register quote opts = do
      now ← now_or_clock opts.now
      existing ←
          deps.store.get_seen
            (record { signer_pubkey = quote.signer_pubkey; quote_id = quote.quote_id })
      elim existing [
        | some row ↦ pure (record { created = false; retain_until = row.retain_until })
        | none ↦ do
          pre_screen quote opts.pre_screen_payee_custody
          deps.store.upsert_accepted quote now (quote.expires_at + deps.config.max_recheck_window)
          pure (record {
            created = true;
            retain_until = quote.expires_at + deps.config.max_recheck_window;
          })
      ]

    -- The latch, on a row that is there.
    unfoldable pub observe_row : HonorKey → ℕ → SeenRow → Eff (World E G) ObserveResult
    observe_row key observed_at row =
        let within = ltb observed_at row.expires_at in
        let result : ObserveResult = record {
          observed_before_expiry = within || row.observed_before_expiry;
          within_window = within;
        } in
        if within && not row.observed_before_expiry
        then deps.store.mark_observed_before_expiry key observed_at >> pure result
        else pure result

    unfoldable pub mark_observed : HonorKey → ℕ → Eff (World E G) ObserveResult
    unfolding observe_row
    mark_observed key observed_at = do
      row ← deps.store.get_seen key
      elim row [
        | none ↦ pure (record { observed_before_expiry = false; within_window = false })
        | some found ↦ observe_row key observed_at found
      ]

    -- Past step 0 the row is there.
    unfoldable pub after_step0 :
        {A : Type 0}
        → Option SeenRow
        → (HonorVerdict → A)
        → (SeenRow → Eff (World E G) A)
        → Eff (World E G) A
    after_step0 none stop go = pure (stop (HonorVerdict.decline DeclineReason.expired_unobserved))
    after_step0 (some row) stop go = elim (gate_step0 (some row)) [
      | some v ↦ pure (stop v)
      | none ↦ go row
    ]

    unfoldable pub can_honor : HonorKey → Eff (World E G) HonorVerdict
    unfolding after_step0
    can_honor key = do
      now ← deps.clock
      row ← deps.store.get_seen key
      after_step0 row (λ v. v) (λ seen. score_quote deps (quote_from_seen seen) now)

    abbrev pub txn_input :
        HonorKey → DeliverFn G → ℕ → SeenRow → SettlementCandidate → GateMode → HonorTxnInput G
    txn_input key deliver now seen candidate mode = record {
      signer_pubkey = key.signer_pubkey;
      quote_id = key.quote_id;
      candidate = candidate;
      outpoint = outpoint_of candidate;
      now = now;
      retain_until = seen.retain_until;
      mode = mode;
      deliver = bridged deliver;
    }

    -- The gate transaction and its catch.
    unfoldable pub commit_honor : HonorTxnInput G → Bool → Eff (World E G) HonorOutcome
    commit_honor input rethrow =
        try_catch (deps.store.run_honor_txn input >> pure (HonorOutcome.honored input.outpoint))
          (after_txn rethrow)

    unfoldable pub prepare_form :
        SettlementForm (World E G)
        → AcceptedQuote
        → ℕ
        → SettlementCandidate
        → Eff (World E G) PrepareResult
    prepare_form form quote now candidate = elim form.prepare [
      | none ↦ pure PrepareResult.ready
      | some run ↦ do tip ← deps.chain.tip_height; run (context_at deps quote now tip) candidate
    ]

    module _ (key : HonorKey) (deliver : DeliverFn G) (rethrow : Bool) (now : ℕ)
        (seen : SeenRow) where
      -- What a form's preparation leads to: a wait, or the gate.
      unfoldable pub after_prepare :
          GateMode → SettlementCandidate → PrepareResult → Eff (World E G) HonorOutcome
      unfolding record_claim commit_honor
      after_prepare mode candidate (PrepareResult.claim_submitted tx) =
          record_claim key tx
          >> pure (HonorOutcome.not_ready (HonorVerdict.wait WaitReason.htlc_claim_pending))
      after_prepare mode candidate (PrepareResult.wait reason) =
          pure (HonorOutcome.not_ready (HonorVerdict.wait reason))
      after_prepare mode candidate PrepareResult.ready =
          commit_honor (txn_input key deliver now seen candidate mode) rethrow

      -- What a verdict of the scorer leads to.
      unfoldable pub after_score : HonorVerdict → Eff (World E G) HonorOutcome
      unfolding after_prepare prepare_form
      after_score (HonorVerdict.wait reason) =
          pure (HonorOutcome.not_ready (HonorVerdict.wait reason))
      after_score (HonorVerdict.decline reason) =
          pure (HonorOutcome.not_ready (HonorVerdict.decline reason))
      after_score (HonorVerdict.honor candidate _) = do
        form ← get_form seen.form deps.forms
        prep ← prepare_form form (quote_from_seen seen) now candidate
        after_prepare form.gate_mode candidate prep

      unfoldable pub honor_seen : Eff (World E G) HonorOutcome
      unfolding after_score
      honor_seen = do verdict ← score_quote deps (quote_from_seen seen) now; after_score verdict

    unfoldable pub honor : HonorKey → DeliverFn G → RegisterOpts → Eff (World E G) HonorOutcome
    unfolding now_or_clock after_step0 honor_seen
    honor key deliver opts = do
      now ← now_or_clock opts.now
      row ← deps.store.get_seen key
      after_step0 row HonorOutcome.not_ready
          (λ seen. honor_seen key deliver opts.rethrow_delivery_errors now seen)

    unfoldable pub status : HonorKey → Eff (World E G) (Option HonorStatus)
    unfolding read_claim
    status key = do
      row ← deps.store.get_seen key
      elim row [
        | none ↦ pure none
        | some found ↦ do claim ← read_claim key; pure (some (status_of found claim))
      ]

    unfoldable pub sweep : ℕ → Eff (World E G) SweepResult
    sweep now = deps.store.sweep now

    -- The claim margin must be the derived one, exactly. The tests of the API version and of the store's
    -- handle hold of every bag of these types.
    unfoldable pub create_honor_engine : Result (HonorDeps (World E G) G)
    create_honor_engine =
        if not (
          deps.config.claim_margin
          == deps.config.max_reorg_depth + deps.config.confirmation_depth + 1)
        then Result.throw (Thrown.honor_error HonorErrorCode.claim_margin_assertion)
        else Result.ok deps
