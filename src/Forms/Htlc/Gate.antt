-- ===== src/Forms/Htlc/Gate.antt =====
-- When the preparation of `HtlcForm` (src/forms/htlc.ts) lets the gate open: phase B, by the depth of
-- the claim.
use exfer_honor.Base.{
  ℕ, ◌+◌, ◌≤◌, ◌≡◌, ◌≢◌, refl, ap, ◌∙◌, Bool, true, false, Option, none, some, arith, ltb,
  if◌then◌else◌, Option-cases, inl, inr, ◌↔◌,
}
use exfer_honor.Base.Dict.{lookup}
use exfer_honor.Spec.Types.{Hex, HonorKey, Outpoint, SettlementCandidate, WaitReason}
use exfer_honor.Spec.Errors.{ok}
use exfer_honor.Ports.World.{World, ClaimRecord}
use exfer_honor.Ports.Effect.{Eff, pure, ◌>>=◌, >>=-eq-ok, Returns, pure-Returns, >>=-Returns}
use exfer_honor.Ports.Chain.{OnChainHtlc, TransactionStatus}
use exfer_honor.Ports.Form.{ScoringCtx, PrepareResult}
use exfer_honor.Forms.Htlc.{
  row_key, Reserver, outpoint_of, quote_key_of, claim_depth, remember_claim, reserve_if_given,
  submit, claim_with, claim_lock, phase_a, phase_b, prepare,
}

-- A claim is buried at a depth: its block is that deep under the tip, itself counted.
abbrev pub IsBuried : (tip claim_margin : ℕ) → Option TransactionStatus → Type 0
IsBuried tip claim_margin claim =
    (found : TransactionStatus) × (height : ℕ) × (claim ≡ some found)
    × (found.block_height ≡ some height)
    × (claim_margin + height ≤ tip + 1)

status-IsBuried :
    (tip claim_margin : ℕ) (found : TransactionStatus)
    → claim_depth tip claim_margin (some found) ≡ PrepareResult.ready
    → IsBuried tip claim_margin (some found)
unfolding claim_depth
status-IsBuried tip claim_margin found h = elim (Option-cases found.block_height) [
  | inl e ↦ absurd (ground arith)
  | inr (height, e) ↦ (found, height, refl, e, ground arith)
]

-- The gate opens for exactly the claims that are buried under the claim margin.
pub claim_depth-ready_iff :
    (tip claim_margin : ℕ) (claim : Option TransactionStatus)
    → (claim_depth tip claim_margin claim ≡ PrepareResult.ready) ↔ IsBuried tip claim_margin claim
unfolding claim_depth
claim_depth-ready_iff tip claim_margin none =
    (λ h. absurd (ground arith), λ (found, height, missing, e, deep). absurd (ground arith))
claim_depth-ready_iff tip claim_margin (some claim) =
    (status-IsBuried tip claim_margin claim, λ (found, height, same, e, deep). ground arith)

module _ {E G : Type 0} (reserver : Option (Reserver (World E G)))
    (ctx : ScoringCtx (World E G)) where
  abbrev key : HonorKey
  key = quote_key_of ctx.quote

  abbrev pub after_lock : Outpoint → Option OnChainHtlc → Eff (World E G) PrepareResult
  after_lock o lock = elim lock [
    | none ↦ pure (PrepareResult.wait WaitReason.no_candidate)
    | some found ↦ claim_lock reserver ctx found o
  ]

  -- A first pass never opens the gate.
  abbrev NotReady : PrepareResult → Type 0
  NotReady PrepareResult.ready = ⊥
  NotReady (PrepareResult.claim_submitted tx) = Unit
  NotReady (PrepareResult.wait reason) = Unit

  abbrev Withholds : Eff (World E G) PrepareResult → Type 0
  Withholds m = Returns {W = World E G} NotReady m

  waits : (reason : WaitReason) → Withholds (pure (PrepareResult.wait reason))
  waits reason = pure-Returns NotReady (PrepareResult.wait reason) tt

  submit-Withholds :
      (send : OnChainHtlc → Hex → Eff (World E G) Hex) (lock : OnChainHtlc) (o : Outpoint)
      (preimage : Hex)
      → Withholds (submit reserver ctx send lock o preimage)
  unfolding submit
  submit-Withholds send lock o preimage = >>=-Returns NotReady (send lock preimage) _ (λ tx.
      >>=-Returns NotReady (reserve_if_given reserver key o tx ctx.now) _ (λ _.
        >>=-Returns NotReady (remember_claim key (record { claim_tx_id = tx; claimed_lock = o })) _
          (λ _. pure-Returns NotReady (PrepareResult.claim_submitted tx) tt)))

  claim_with-Withholds :
      (found : Option Hex) (lock : OnChainHtlc) (o : Outpoint)
      → Withholds (claim_with reserver ctx found lock o)
  unfolding claim_with
  claim_with-Withholds none lock o = waits WaitReason.no_candidate
  claim_with-Withholds (some preimage) lock o = go ctx.chain.submit_claim
    where
      go :
          (given : Option (OnChainHtlc → Hex → Eff (World E G) Hex))
          → Withholds (elim given [
            | none ↦ pure (PrepareResult.wait WaitReason.no_candidate)
            | some send ↦ submit reserver ctx send lock o preimage
          ])
      go none = waits WaitReason.no_candidate
      go (some send) = submit-Withholds send lock o preimage

  claim_lock-Withholds :
      (lock : OnChainHtlc) (o : Outpoint) → Withholds (claim_lock reserver ctx lock o)
  unfolding claim_lock
  claim_lock-Withholds lock o =
      go (ltb lock.timeout_height (ctx.tip + ctx.config.claim_margin)) ctx.keys.htlc_preimage_for
    where
      go :
          (late : Bool) (given : Option (Hex → Hex → Eff (World E G) (Option Hex)))
          → Withholds (
              if late then pure (PrepareResult.wait WaitReason.reorg_withheld) else elim given [
                | none ↦ pure (PrepareResult.wait WaitReason.no_candidate)
                | some preimage_for ↦
                    preimage_for ctx.quote.quote_id ctx.quote.payee_pubkey >>= λ found.
                    claim_with reserver ctx found lock o
              ])
      go true given = waits WaitReason.reorg_withheld
      go false none = waits WaitReason.no_candidate
      go false (some preimage_for) =
          >>=-Returns NotReady (preimage_for ctx.quote.quote_id ctx.quote.payee_pubkey) _
            (λ found. claim_with-Withholds found lock o)

  phase_a-Withholds : (candidate : SettlementCandidate) → Withholds (phase_a reserver ctx candidate)
  unfolding phase_a
  phase_a-Withholds candidate =
      >>=-Returns NotReady (ctx.chain.get_htlc (outpoint_of candidate)) _ go
    where
      go : (lock : Option OnChainHtlc) → Withholds (after_lock (outpoint_of candidate) lock)
      go none = waits WaitReason.no_candidate
      go (some lock) = claim_lock-Withholds lock (outpoint_of candidate)

  pub phase_b-cases :
      (prior : ClaimRecord) (w after : World E G) (r : PrepareResult)
      → phase_b reserver ctx prior w ≡ (ok r, after)
      → (claim : Option TransactionStatus) × (ctx.chain.get_transaction prior.claim_tx_id w
          ≡ (ok claim, after))
        × (claim_depth ctx.tip ctx.config.claim_margin claim ≡ r)
  unfolding phase_b
  phase_b-cases prior w after r h =
      let (claim, w₁, e, f) =
        >>=-eq-ok (ctx.chain.get_transaction prior.claim_tx_id)
          (λ claim. pure (claim_depth ctx.tip ctx.config.claim_margin claim)) w h in
      (claim, e ∙ ap (λ p. (ok claim, p.1)) f, ground arith)

  pub claim_depth-no-claim :
      (tip claim_margin : ℕ) (claim : Option TransactionStatus) (tx : Hex)
      → claim_depth tip claim_margin claim ≢ PrepareResult.claim_submitted tx
  unfolding claim_depth
  claim_depth-no-claim tip claim_margin none tx h = absurd (ground arith)
  claim_depth-no-claim tip claim_margin (some claim) tx h = elim (Option-cases claim.block_height) [
    | inl e ↦ absurd (ground arith)
    | inr (height, e) ↦ absurd (ground arith)
  ]

  -- The HTLC form's preparation lets the gate open only if the form had recorded a claim for the
  -- quote whose transaction the chain shows buried under the claim margin; that reading is all
  -- that it did.
  pub prepare-ready :
      (candidate : SettlementCandidate) (w after : World E G)
      → prepare reserver ctx candidate w ≡ (ok PrepareResult.ready, after)
      → (prior : ClaimRecord) × (claim : Option TransactionStatus) × (lookup (row_key key) w.claims
          ≡ some prior)
        × (ctx.chain.get_transaction prior.claim_tx_id w ≡ (ok claim, after))
        × IsBuried ctx.tip ctx.config.claim_margin claim
  unfolding prepare
  prepare-ready candidate w after h = elim (Option-cases (lookup (row_key key) w.claims)) [
    | inl fresh ↦ absurd (phase_a-Withholds candidate w after PrepareResult.ready (ground arith))
    | inr (prior, e) ↦
        let (claim, read, buried) =
          phase_b-cases prior w after PrepareResult.ready (ground arith) in
        (prior, claim, e, read, (claim_depth-ready_iff _ _ claim).0 buried)
  ]
