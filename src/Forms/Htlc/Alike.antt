-- ===== src/Forms/Htlc/Alike.antt =====
-- `HtlcForm` (src/forms/htlc.ts) over two states that hold the same map of claims.
use exfer_honor.Base.{◌≡◌, refl, subst, ◌+◌, Text, ℕ, Option, none, some, List, [], ◌∷◌, ltb}
use exfer_honor.Base.Dict.{lookup, insert}
use exfer_honor.Spec.Types.{
  Hex, QuoteId, PubKey, AcceptedQuote, HonorKey, Outpoint, SettlementCandidate, WaitReason,
}
use exfer_honor.Ports.World.{World, ClaimRecord}
use exfer_honor.Ports.Effect.{Eff, pure, ◌>>=◌}
use exfer_honor.Ports.Alike.{EndAlike, Alike, pure-Alike, >>=-Alike, if-Alike, Option-Alike}
use exfer_honor.Ports.Lift.{Part, PartsAgree, lift, lift_given, lift-Alike}
use exfer_honor.Ports.Chain.{OnChainHtlc, ChainSource, KeyCustody, RawSettlementCandidate}
use exfer_honor.Ports.Form.{HonorConfig, ScoringCtx, PrepareResult}
use exfer_honor.Forms.Alike.{FormAlike, lifted_ctx}
use exfer_honor.Forms.Htlc.{
  row_key, Reserver, outpoint_of, quote_key_of, claim_depth, score_lock, score, remember_claim,
  reserve_if_given, submit, claim_with, claim_lock, phase_a, phase_b, prepare, htlc_form,
}

-- The form's map of claims is the same on both sides, and stays so.
pub record ClaimsAgree {E₁ E₂ G : Type 0} (R : World E₁ G → World E₂ G → Type 0) : Type 0 where
  pub same : (v : World E₁ G) (w : World E₂ G) → R v w → v.claims ≡ w.claims
  pub keeps :
      (v : World E₁ G) (w : World E₂ G) (m : _)
      → R v w
      → R (record v { claims = m }) (record w { claims = m })

module _ {E E₁ E₂ G : Type 0} (R : World E₁ G → World E₂ G → Type 0) (left : Part E (World E₁ G))
    (right : Part E (World E₂ G)) (agree : PartsAgree R left right) (maps : ClaimsAgree R)
    (chain : ChainSource E) (keys : KeyCustody E) (config : HonorConfig)
    (reserve₁ : Reserver (World E₁ G)) (reserve₂ : Reserver (World E₂ G))
    (reserves : (k : HonorKey) (o : Outpoint) (t : Text) (now : ℕ)
      → Alike R (reserve₁ k o t now) (reserve₂ k o t now)) where
  remember_claim-Alike :
      (k : HonorKey) (c : ClaimRecord) → Alike R (remember_claim k c) (remember_claim k c)
  unfolding remember_claim
  remember_claim-Alike k c v w r = (
    refl,
    subst
        (λ m.
          R (record v { claims = insert (row_key k) c v.claims })
            (record w { claims = insert (row_key k) c m }))
        (maps.same v w r) (maps.keeps v w _ r),
  )

  module _ (quote : AcceptedQuote) (now tip : ℕ) where
    abbrev lctx : ScoringCtx (World E₁ G)
    lctx = lifted_ctx left chain keys config quote now tip

    abbrev rctx : ScoringCtx (World E₂ G)
    rctx = lifted_ctx right chain keys config quote now tip

    score-Alike : (raw : List RawSettlementCandidate) → Alike R (score lctx raw) (score rctx raw)
    unfolding score score_lock
    score-Alike [] = pure-Alike R _
    score-Alike (c ∷ cs) =
        >>=-Alike R (lift-Alike (chain.get_htlc c.outpoint) agree)
          (λ htlc. pure-Alike R (score_lock lctx c htlc))

    submit-Alike :
        (f : OnChainHtlc → Hex → Eff E Hex) (htlc : OnChainHtlc) (o : Outpoint) (preimage : Hex)
        → Alike R
            (submit (some reserve₁) lctx (λ h p. lift left (f h p)) htlc o preimage)
            (submit (some reserve₂) rctx (λ h p. lift right (f h p)) htlc o preimage)
    unfolding submit reserve_if_given
    submit-Alike f htlc o preimage = >>=-Alike R (lift-Alike (f htlc preimage) agree) (λ t.
        >>=-Alike R (reserves (quote_key_of quote) o t now) (λ _.
          >>=-Alike R (remember_claim-Alike (quote_key_of quote) _)
            (λ _. pure-Alike R (PrepareResult.claim_submitted t))))

    submitter_alike :
        (x : Option (OnChainHtlc → Hex → Eff E Hex)) (htlc : OnChainHtlc) (o : Outpoint)
        (preimage : Hex)
        → Alike R
            (elim (lift_given left x) [
              | none ↦ pure (PrepareResult.wait WaitReason.no_candidate)
              | some f ↦ submit (some reserve₁) lctx f htlc o preimage
            ])
            (elim (lift_given right x) [
              | none ↦ pure (PrepareResult.wait WaitReason.no_candidate)
              | some f ↦ submit (some reserve₂) rctx f htlc o preimage
            ])
    submitter_alike none htlc o preimage = pure-Alike R _
    submitter_alike (some f) htlc o preimage = submit-Alike f htlc o preimage

    claim_with-Alike :
        (preimage : Option Hex) (htlc : OnChainHtlc) (o : Outpoint)
        → Alike R
            (claim_with (some reserve₁) lctx preimage htlc o)
            (claim_with (some reserve₂) rctx preimage htlc o)
    unfolding claim_with
    claim_with-Alike none htlc o = pure-Alike R _
    claim_with-Alike (some preimage) htlc o = submitter_alike chain.submit_claim htlc o preimage

    preimage_alike :
        (x : Option (QuoteId → PubKey → Eff E (Option Hex))) (htlc : OnChainHtlc) (o : Outpoint)
        → Alike R
            (elim (lift_given left x) [
              | none ↦ pure (PrepareResult.wait WaitReason.no_candidate)
              | some f ↦ do
                preimage ← f quote.quote_id quote.payee_pubkey
                claim_with (some reserve₁) lctx preimage htlc o
            ])
            (elim (lift_given right x) [
              | none ↦ pure (PrepareResult.wait WaitReason.no_candidate)
              | some f ↦ do
                preimage ← f quote.quote_id quote.payee_pubkey
                claim_with (some reserve₂) rctx preimage htlc o
            ])
    preimage_alike none htlc o = pure-Alike R _
    preimage_alike (some f) htlc o =
        >>=-Alike R (lift-Alike (f quote.quote_id quote.payee_pubkey) agree)
          (λ preimage. claim_with-Alike preimage htlc o)

    phase_a-Alike :
        (c : SettlementCandidate)
        → Alike R (phase_a (some reserve₁) lctx c) (phase_a (some reserve₂) rctx c)
    unfolding phase_a claim_lock
    phase_a-Alike c = >>=-Alike R (lift-Alike (chain.get_htlc (outpoint_of c)) agree) (λ htlc.
        Option-Alike R htlc (pure-Alike R _) (λ found.
          if-Alike R (ltb found.timeout_height (tip + config.claim_margin)) (pure-Alike R _)
            (preimage_alike keys.htlc_preimage_for found (outpoint_of c))))

    phase_b-Alike :
        (prior : ClaimRecord)
        → Alike R (phase_b (some reserve₁) lctx prior) (phase_b (some reserve₂) rctx prior)
    unfolding phase_b
    phase_b-Alike prior =
        >>=-Alike R (lift-Alike (chain.get_transaction prior.claim_tx_id) agree)
          (λ claim. pure-Alike R (claim_depth tip config.claim_margin claim))

    phase_alike :
        (x : Option ClaimRecord) (c : SettlementCandidate) (v : World E₁ G) (w : World E₂ G)
        → R v w
        → EndAlike R {A = PrepareResult}
            (elim x [
              | none ↦ phase_a (some reserve₁) lctx c v
              | some prior ↦ phase_b (some reserve₁) lctx prior v
            ])
            (elim x [
              | none ↦ phase_a (some reserve₂) rctx c w
              | some prior ↦ phase_b (some reserve₂) rctx prior w
            ])
    phase_alike none c v w r = phase_a-Alike c v w r
    phase_alike (some prior) c v w r = phase_b-Alike prior v w r

    prepare-Alike :
        (c : SettlementCandidate)
        → Alike R (prepare (some reserve₁) lctx c) (prepare (some reserve₂) rctx c)
    unfolding prepare
    prepare-Alike c v w r =
        subst
          (λ m.
            EndAlike R (prepare (some reserve₁) lctx c v)
              (elim (lookup (row_key (quote_key_of quote)) m) [
                | none ↦ phase_a (some reserve₂) rctx c w
                | some prior ↦ phase_b (some reserve₂) rctx prior w
              ]))
          (maps.same v w r) (phase_alike (lookup (row_key (quote_key_of quote)) v.claims) c v w r)

  pub htlc_form-Alike :
      FormAlike R left right agree chain keys config
        (htlc_form (some reserve₁))
        (htlc_form (some reserve₂))
  unfolding htlc_form
  htlc_form-Alike = record {
    same_id = refl;
    same_mode = refl;
    discovers =
        λ quote now tip. lift-Alike (chain.find_settlements_by_quote_id quote.quote_id) agree;
    scores = λ quote now tip raw. score-Alike quote now tip raw;
    prepares = λ quote now tip candidate. prepare-Alike quote now tip candidate;
  }
