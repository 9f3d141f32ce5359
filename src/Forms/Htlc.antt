-- ===== src/Forms/Htlc.antt =====
-- `HtlcForm` (src/forms/htlc.ts): the claim is submitted in phase A and gated by its depth in phase B.
pub mod Binding
pub mod Gate
pub mod Claims
pub mod Alike
use exfer_honor.Base.{
  ℕ, ◌+◌, Text, codes, text_eq, Bool, true, false, not, ◌&&◌, Option, none, some, List, [], ◌∷◌,
  ◌++◌, ltb, ◌==◌, if◌then◌else◌,
}
use exfer_honor.Base.Dict.{Dict, lookup, insert}
use exfer_honor.Spec.Types.{
  Hex, SettlementFormId, AcceptedQuote, HonorKey, Outpoint, SettlementCandidate, WaitReason,
  DeclineReason, HonorVerdict,
}
use exfer_honor.Spec.Datum.{settlement_datum_version, DecodeResult, decode_settlement_datum}
use exfer_honor.Spec.Errors.{Result}
use exfer_honor.Ports.Store.{GateMode}
use exfer_honor.Ports.World.{World, ClaimRecord}
use exfer_honor.Ports.Effect.{Eff, pure, ◌>>=◌, ◌>>◌}
use exfer_honor.Ports.Chain.{OnChainHtlc, RawSettlementCandidate, TransactionStatus}
use exfer_honor.Ports.Form.{HonorConfig, ScoringCtx, PrepareResult, SettlementForm}

-- The template `signer:quote` that keys both maps of claims.
unfoldable pub row_key : HonorKey → Text
row_key k = k.signer_pubkey ++ b':' ∷ k.quote_id

-- Whether the payer of a quote, if it names one, is the sender of the lock.
abbrev pub sender_matches : Option Hex → Hex → Bool
sender_matches none sender = true
sender_matches (some payer) sender = text_eq sender payer

-- `validateOnChain`: a decline, or `none` when the lock binds.
unfoldable pub validate_on_chain : AcceptedQuote → OnChainHtlc → Option DeclineReason
validate_on_chain quote htlc =
    elim (decode_settlement_datum quote.quote_id settlement_datum_version) [
      | DecodeResult.failed _ ↦ some DeclineReason.datum_unhonorable
      | DecodeResult.ok decoded ↦
          if not (text_eq decoded quote.quote_id)
          then some DeclineReason.datum_unhonorable
          else if not (text_eq htlc.receiver_pubkey quote.payee_pubkey)
          then some DeclineReason.address_mismatch
          else if not (htlc.value == quote.exfer_amount)
          then some DeclineReason.amount_mismatch
          else if not (sender_matches quote.payer_pubkey htlc.sender_pubkey)
          then some DeclineReason.payer_binding_failed
          else none
    ]

-- `HtlcClaimReserver`, the part of the store that phase A needs.
abbrev pub Reserver : Type 0 → Type 0
Reserver W = HonorKey → Outpoint → Text → ℕ → Eff W Unit

abbrev pub outpoint_of : SettlementCandidate → Outpoint
outpoint_of c = record { tx_id = c.tx_id; output_index = c.output_index }

abbrev quote_key_of : AcceptedQuote → HonorKey
quote_key_of q = record { signer_pubkey = q.signer_pubkey; quote_id = q.quote_id }

-- A claim is buried if `tip - height + 1` is at least the claim margin.
unfoldable pub claim_depth : (tip claim_margin : ℕ) → Option TransactionStatus → PrepareResult
claim_depth tip claim_margin none = PrepareResult.wait WaitReason.reorg_withheld
claim_depth tip claim_margin (some claim) = elim claim.block_height [
  | none ↦ PrepareResult.wait WaitReason.reorg_withheld
  | some height ↦
      if ltb (tip + 1) (claim_margin + height)
      then PrepareResult.wait WaitReason.reorg_withheld
      else PrepareResult.ready
]

module _ {E G : Type 0} where
  unfoldable pub score_lock :
      ScoringCtx (World E G) → RawSettlementCandidate → Option OnChainHtlc → HonorVerdict
  score_lock ctx c none = HonorVerdict.wait WaitReason.no_candidate
  score_lock ctx c (some htlc) = elim (validate_on_chain ctx.quote htlc) [
    | some reason ↦ HonorVerdict.decline reason
    | none ↦
        HonorVerdict.honor
          (record {
            form = SettlementFormId.htlc;
            quote_id = ctx.quote.quote_id;
            tx_id = c.outpoint.tx_id;
            output_index = c.outpoint.output_index;
            value = htlc.value;
            script_hex = c.script_hex;
            block_height = c.block_height;
            honorable = true;
          })
          SettlementFormId.htlc
  ]

  -- Only the first candidate is read.
  unfoldable pub score :
      ScoringCtx (World E G) → List RawSettlementCandidate → Eff (World E G) HonorVerdict
  unfolding score_lock
  score ctx [] = pure (HonorVerdict.wait WaitReason.no_candidate)
  score ctx (c ∷ _) = do htlc ← ctx.chain.get_htlc c.outpoint; pure (score_lock ctx c htlc)

  unfoldable pub remember_claim : HonorKey → ClaimRecord → Eff (World E G) Unit
  remember_claim k claim w = (Result.ok tt, record w { claims = insert (row_key k) claim w.claims })

  unfoldable pub reserve_if_given :
      Option (Reserver (World E G)) → HonorKey → Outpoint → Text → ℕ → Eff (World E G) Unit
  reserve_if_given none k o claim_tx_id now = pure tt
  reserve_if_given (some reserver) k o claim_tx_id now = reserver k o claim_tx_id now

  module _ (reserver : Option (Reserver (World E G))) (ctx : ScoringCtx (World E G)) where
    -- The claim itself: submitted, then reserved, then remembered.
    unfoldable pub submit :
        (OnChainHtlc → Hex → Eff (World E G) Hex)
        → OnChainHtlc
        → Outpoint
        → Hex
        → Eff (World E G) PrepareResult
    unfolding remember_claim reserve_if_given
    submit submit_claim htlc lock preimage = do
      claim_tx_id ← submit_claim htlc preimage
      reserve_if_given reserver (quote_key_of ctx.quote) lock claim_tx_id ctx.now
      remember_claim (quote_key_of ctx.quote)
          (record { claim_tx_id = claim_tx_id; claimed_lock = lock })
      pure (PrepareResult.claim_submitted claim_tx_id)

    -- A preimage in hand and a submitter are needed; each lack of one waits.
    unfoldable pub claim_with : Option Hex → OnChainHtlc → Outpoint → Eff (World E G) PrepareResult
    unfolding submit
    claim_with none htlc lock = pure (PrepareResult.wait WaitReason.no_candidate)
    claim_with (some preimage) htlc lock = elim ctx.chain.submit_claim [
      | none ↦ pure (PrepareResult.wait WaitReason.no_candidate)
      | some submit_claim ↦ submit submit_claim htlc lock preimage
    ]

    unfoldable pub claim_lock : OnChainHtlc → Outpoint → Eff (World E G) PrepareResult
    unfolding claim_with
    claim_lock htlc lock =
        if ltb htlc.timeout_height (ctx.tip + ctx.config.claim_margin)
        then pure (PrepareResult.wait WaitReason.reorg_withheld)
        else elim ctx.keys.htlc_preimage_for [
          | none ↦ pure (PrepareResult.wait WaitReason.no_candidate)
          | some preimage_for ↦ do
            preimage ← preimage_for ctx.quote.quote_id ctx.quote.payee_pubkey
            claim_with preimage htlc lock
        ]

    unfoldable pub phase_a : SettlementCandidate → Eff (World E G) PrepareResult
    unfolding claim_lock
    phase_a candidate = do
      htlc ← ctx.chain.get_htlc (outpoint_of candidate)
      elim htlc [
        | none ↦ pure (PrepareResult.wait WaitReason.no_candidate)
        | some found ↦ claim_lock found (outpoint_of candidate)
      ]

    unfoldable pub phase_b : ClaimRecord → Eff (World E G) PrepareResult
    phase_b prior = do
      claim ← ctx.chain.get_transaction prior.claim_tx_id
      pure (claim_depth ctx.tip ctx.config.claim_margin claim)

    unfoldable pub prepare : SettlementCandidate → Eff (World E G) PrepareResult
    unfolding phase_a phase_b
    prepare candidate w = elim (lookup (row_key (quote_key_of ctx.quote)) w.claims) [
      | none ↦ phase_a candidate w
      | some prior ↦ phase_b prior w
    ]

  unfoldable pub htlc_form : Option (Reserver (World E G)) → SettlementForm (World E G)
  htlc_form reserver = record {
    id = SettlementFormId.htlc;
    discover = λ ctx. ctx.chain.find_settlements_by_quote_id ctx.quote.quote_id;
    score = score;
    prepare = some (prepare reserver);
    gate_mode = GateMode.promote;
  }
