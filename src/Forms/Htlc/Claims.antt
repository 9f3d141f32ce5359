-- ===== src/Forms/Htlc/Claims.antt =====
-- When phase A of `HtlcForm` (src/forms/htlc.ts) sends a claim, and what it makes of the answer. Whether a run
-- sends is said by whether its end depends on the submitter.
use exfer_honor.Base.{
  ◌+◌, ◌≤◌, ◌≡◌, refl, sym, ap, ◌∙◌, ◌⊎◌, inl, inr, Option, none, some, arith, ltb, true, false,
  Bool-cases, Option-cases,
}
use exfer_honor.Base.Dict.{lookup, insert}
use exfer_honor.Spec.Types.{Hex, HonorKey, Outpoint, SettlementCandidate, WaitReason}
use exfer_honor.Spec.Errors.{Result, ok, throw}
use exfer_honor.Ports.World.{World, ClaimRecord}
use exfer_honor.Ports.Effect.{Eff, pure, continue, ◌>>=◌, ◌>>◌, >>=-ok, >>=-throw}
use exfer_honor.Ports.Chain.{OnChainHtlc}
use exfer_honor.Ports.Form.{ScoringCtx, PrepareResult}
use exfer_honor.Forms.Htlc.{
  row_key, Reserver, outpoint_of, quote_key_of, remember_claim, reserve_if_given, submit,
  claim_with, claim_lock, phase_a, phase_b, prepare,
}

module _ {E G : Type 0} (reserver : Option (Reserver (World E G)))
    (ctx : ScoringCtx (World E G)) where
  abbrev pub Submitter : Type 0
  Submitter = OnChainHtlc → Hex → Eff (World E G) Hex

  abbrev End : Type 0
  End = Result PrepareResult × World E G

  -- The context with a submitter.
  abbrev pub sending : Submitter → ScoringCtx (World E G)
  sending f = record ctx { chain = record ctx.chain { submit_claim = some f } }

  abbrev key : HonorKey
  key = quote_key_of ctx.quote

  -- What stands when a claim may be sent: none is recorded for the quote, the lock is read, the claim margin is
  -- left before its timeout, and the keystore has the preimage.
  pub record MayClaim (candidate : SettlementCandidate) (w : World E G) : Type 0 where
    pub is_fresh : lookup (row_key key) w.claims ≡ none
    pub lock : OnChainHtlc
    pub past_lock : World E G
    pub reads_lock : ctx.chain.get_htlc (outpoint_of candidate) w ≡ (ok (some lock), past_lock)
    pub in_time : ctx.tip + ctx.config.claim_margin ≤ lock.timeout_height
    pub preimage_for : Hex → Hex → Eff (World E G) (Option Hex)
    pub has_preimages : ctx.keys.htlc_preimage_for ≡ some preimage_for
    pub preimage : Hex
    pub past_preimage : World E G
    pub knows :
        preimage_for ctx.quote.quote_id ctx.quote.payee_pubkey past_lock
        ≡ (ok (some preimage), past_preimage)

  -- The claim is recorded once it is reserved.
  abbrev pub recorded : Outpoint → Hex → Result (Unit {0}) × World E G → End
  recorded o tx (throw e, v) = (throw e, v)
  recorded o tx (ok _, v) = (
    ok (PrepareResult.claim_submitted tx),
    record v {
      claims = insert (row_key key) (record { claim_tx_id = tx; claimed_lock = o }) v.claims;
    },
  )

  abbrev pub reserved : Option (Reserver (World E G)) → Outpoint → Hex → World E G → End
  reserved none o tx v = recorded o tx (ok tt, v)
  reserved (some reserve) o tx v = recorded o tx (reserve key o tx ctx.now v)

  abbrev pub after_send : Outpoint → Result Hex × World E G → End
  after_send o (throw e, v) = (throw e, v)
  after_send o (ok tx, v) = reserved reserver o tx v

  recorded_end :
      (o : Outpoint) (tx : Hex) (p : Result (Unit {0}) × World E G)
      → continue
          (λ _.
            remember_claim key (record { claim_tx_id = tx; claimed_lock = o })
            >> pure (PrepareResult.claim_submitted tx))
          p
        ≡ recorded o tx p
  unfolding remember_claim
  recorded_end o tx (ok _, v) = refl
  recorded_end o tx (throw e, v) = refl

  reserved_end :
      (r : Option (Reserver (World E G))) (o : Outpoint) (tx : Hex) (v : World E G)
      → (reserve_if_given r key o tx ctx.now
            >> (remember_claim key (record { claim_tx_id = tx; claimed_lock = o })
                >> pure (PrepareResult.claim_submitted tx)))
          v
        ≡ reserved r o tx v
  unfolding reserve_if_given
  reserved_end none o tx v = recorded_end o tx (ok tt, v)
  reserved_end (some reserve) o tx v = recorded_end o tx (reserve key o tx ctx.now v)

  sent_end :
      (o : Outpoint) (p : Result Hex × World E G)
      → continue
          (λ tx.
            reserve_if_given reserver key o tx ctx.now
            >> (remember_claim key (record { claim_tx_id = tx; claimed_lock = o })
                >> pure (PrepareResult.claim_submitted tx)))
          p
        ≡ after_send o p
  sent_end o (throw e, v) = refl
  sent_end o (ok tx, v) = reserved_end reserver o tx v

  claim_with-send :
      (f : Submitter) (preimage : Hex) (lock : OnChainHtlc) (o : Outpoint) (w : World E G)
      → claim_with reserver (sending f) (some preimage) lock o w ≡ after_send o (f lock preimage w)
  unfolding claim_with submit
  claim_with-send f preimage lock o w = sent_end o (f lock preimage w)

  module _ (candidate : SettlementCandidate) (w : World E G) where
    abbrev o : Outpoint
    o = outpoint_of candidate

    -- The end is the same whatever the submitter is, or a claim may be sent and the end is what is made of the
    -- submitter's answer.
    abbrev pub Sends : (Submitter → End) → Type 0
    Sends run =
        ((f g : Submitter) → run f ≡ run g)
        ⊎ ((m : MayClaim candidate w) × ((f : Submitter)
              → run f ≡ after_send o (f m.lock m.preimage m.past_preimage)))

    constant : (run : Submitter → End) (end : End) → ((f : Submitter) → run f ≡ end) → Sends run
    constant run end h = inl (λ f g. h f ∙ sym (h g))

    abbrev runs : Submitter → End
    runs f = prepare reserver (sending f) candidate w

    fresh_run :
        lookup (row_key key) w.claims ≡ none
        → (f : Submitter) → runs f ≡ phase_a reserver (sending f) candidate w
    unfolding prepare
    fresh_run fresh f =
        ap
          (λ x. elim x as (λ _. End) [
            | none ↦ phase_a reserver (sending f) candidate w
            | some prior ↦ phase_b reserver (sending f) prior w
          ])
          fresh

    claimed_run :
        (prior : ClaimRecord)
        → lookup (row_key key) w.claims ≡ some prior
        → (f : Submitter) → runs f ≡ phase_b reserver ctx prior w
    unfolding prepare phase_b
    claimed_run prior known f =
        ap
          (λ x. elim x as (λ _. End) [
            | none ↦ phase_a reserver (sending f) candidate w
            | some found ↦ phase_b reserver (sending f) found w
          ])
          known

    module _ (fresh : lookup (row_key key) w.claims ≡ none) (lock : OnChainHtlc) (w₁ : World E G)
        (reads : ctx.chain.get_htlc o w ≡ (ok (some lock), w₁)) where
      locked_run : (f : Submitter) → runs f ≡ claim_lock reserver (sending f) lock o w₁
      unfolding phase_a
      locked_run f = fresh_run fresh f ∙ >>=-ok (ctx.chain.get_htlc o) _ w reads

      late_run :
          ltb lock.timeout_height (ctx.tip + ctx.config.claim_margin) ≡ true
          → (f : Submitter) → runs f ≡ (ok (PrepareResult.wait WaitReason.reorg_withheld), w₁)
      unfolding claim_lock
      late_run late f = locked_run f ∙ rw late refl

      keyless_run :
          ltb lock.timeout_height (ctx.tip + ctx.config.claim_margin) ≡ false
          → ctx.keys.htlc_preimage_for ≡ none
          → (f : Submitter) → runs f ≡ (ok (PrepareResult.wait WaitReason.no_candidate), w₁)
      unfolding claim_lock
      keyless_run early keyless f = locked_run f ∙ rw (early, keyless) refl

      module _ (early : ltb lock.timeout_height (ctx.tip + ctx.config.claim_margin) ≡ false)
          (preimage_for : Hex → Hex → Eff (World E G) (Option Hex))
          (has : ctx.keys.htlc_preimage_for ≡ some preimage_for) where
        asking_run :
            (f : Submitter)
            → runs f
              ≡ (preimage_for ctx.quote.quote_id ctx.quote.payee_pubkey >>= λ found.
                    claim_with reserver (sending f) found lock o)
                  w₁
        unfolding claim_lock
        asking_run f = locked_run f ∙ rw (early, has) refl

        abbrev asked : Eff (World E G) (Option Hex)
        asked = preimage_for ctx.quote.quote_id ctx.quote.payee_pubkey

        abbrev with_found : Submitter → Option Hex → Eff (World E G) PrepareResult
        with_found f found = claim_with reserver (sending f) found lock o

        by_preimage :
            (r : Result (Option Hex)) (w₂ : World E G)
            → preimage_for ctx.quote.quote_id ctx.quote.payee_pubkey w₁ ≡ (r, w₂)
            → Sends runs
        unfolding claim_with
        by_preimage (throw e) w₂ h =
            constant runs (throw e, w₂) (λ f. asking_run f ∙ >>=-throw asked (with_found f) w₁ h)
        by_preimage (ok none) w₂ h =
            constant runs (ok (PrepareResult.wait WaitReason.no_candidate), w₂)
              (λ f. asking_run f ∙ >>=-ok asked (with_found f) w₁ h)
        by_preimage (ok (some preimage)) w₂ h = inr (
          record {
            is_fresh = fresh;
            lock = lock;
            past_lock = w₁;
            reads_lock = reads;
            in_time = ground arith;
            preimage_for = preimage_for;
            has_preimages = has;
            preimage = preimage;
            past_preimage = w₂;
            knows = h;
          },
          λ f.
              asking_run f
              ∙ >>=-ok asked (with_found f) w₁ h
              ∙ claim_with-send f preimage lock o w₂,
        )

      by_keys : Sends runs
      by_keys = elim (Bool-cases (ltb lock.timeout_height (ctx.tip + ctx.config.claim_margin))) [
        | inl late ↦ constant runs _ (late_run late)
        | inr early ↦ elim (Option-cases ctx.keys.htlc_preimage_for) [
          | inl keyless ↦ constant runs _ (keyless_run early keyless)
          | inr (preimage_for, has) ↦ by_preimage early preimage_for has _ _ refl
        ]
      ]

    by_lock :
        (r : Result (Option OnChainHtlc)) (w₁ : World E G)
        → lookup (row_key key) w.claims ≡ none
        → ctx.chain.get_htlc o w ≡ (r, w₁)
        → Sends runs
    unfolding phase_a
    by_lock (throw e) w₁ fresh h =
        constant runs (throw e, w₁)
          (λ f. fresh_run fresh f ∙ >>=-throw (ctx.chain.get_htlc o) _ w h)
    by_lock (ok none) w₁ fresh h =
        constant runs (ok (PrepareResult.wait WaitReason.no_candidate), w₁)
          (λ f. fresh_run fresh f ∙ >>=-ok (ctx.chain.get_htlc o) _ w h)
    by_lock (ok (some lock)) w₁ fresh h = by_keys fresh lock w₁ h

    -- Either the end of the HTLC form's preparation is the same whatever the submitter does, so no claim is sent;
    -- or no claim was recorded for the quote, the lock was read with the claim margin left before its timeout,
    -- the keystore gave the preimage, and the end is what is made of the submitter's answer: its throw; the
    -- reserver's throw, with the claim sent and not recorded; or the claim reserved, recorded and reported.
    pub prepare-Sends : Sends (λ f. prepare reserver (sending f) candidate w)
    prepare-Sends = elim (Option-cases (lookup (row_key key) w.claims)) [
      | inl fresh ↦ by_lock _ _ fresh refl
      | inr (prior, known) ↦ constant runs _ (claimed_run prior known)
    ]
