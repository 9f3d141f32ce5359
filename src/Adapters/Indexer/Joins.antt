-- ===== src/Adapters/Indexer/Joins.antt =====
-- What `IndexerChainSource` of src/adapters/indexer-chain.ts makes of the answers of the indexer and of
-- the node.
use exfer_honor.Base.{
  ℕ, ◌≡◌, refl, sym, ap, ◌∙◌, ◌↔◌, ◌⊎◌, inl, inr, false, Option, none, some, ◌++◌, arith, All,
  get_elem?, Option-cases, Bool-cases, Text, text_eq→eq, text_eq_refl, if◌then◌else◌,
}
use exfer_honor.Spec.Types.{Hex, QuoteId, Outpoint}
use exfer_honor.Spec.Errors.{Thrown, Result, ok, throw}
use exfer_honor.Spec.Datum.{DecodeResult, decode_settlement_datum, settlement_datum_version}
use exfer_honor.Spec.Datum.Laws.{decode-ok_iff}
use exfer_honor.Ports.Effect.{Eff, pure, raise, ◌>>=◌, >>=-ok, continue, handled}
use exfer_honor.Ports.Chain.{OnChainHtlc}
use exfer_honor.Forms.Spine.{DatumBinding, bind_datum}
use exfer_honor.Adapters.HexText.{bare_error, Bytes, to_hex}
use exfer_honor.Adapters.HexText.RoundTrip.{IsByte}
use exfer_honor.Adapters.Wire.{DecodedTx, DecodedOutput}
use exfer_honor.Adapters.Wire.Layout.{TxWire}
use exfer_honor.Adapters.Wire.Typed.{decode_tx_hex-to_hex}
use exfer_honor.Adapters.Indexer.{
  RawOutputDatum, RawHtlcRecord, IndexerOpts, is_no_such_htlc, output_datum, on_chain_htlc,
  named_output, returning, joined_output, settlement_at, get_tx_inputs, get_output_script, get_htlc,
}

returning-ok :
    {W A B : Type 0} (r : Result A) (f : A → Eff W B) (w : W) {a : A}
    → r ≡ ok a
    → (returning r >>= f) w ≡ f a w
returning-ok r f w h = >>=-ok (returning r) f w (ap (λ r. (r, w)) h)

named_output-ok :
    (missing : Text) (r : Result DecodedTx) (tx : DecodedTx) (output : DecodedOutput) (index : ℕ)
    → r ≡ ok tx
    → get_elem? tx.outputs index ≡ some output
    → named_output missing r index ≡ ok output
unfolding named_output
named_output-ok missing r tx output index h k =
    ap (λ r. named_output missing r index) h
    ∙ ap (λ found. elim found [ none ↦ throw (bare_error missing) | some op ↦ ok op ]) k

-- What `getHtlc` makes of the answer of the indexer's call.
abbrev htlc_answer :
    {W : Type 0} → Result (Option RawHtlcRecord) × W → Result (Option OnChainHtlc) × W
htlc_answer p =
    continue (λ found. elim found [ none ↦ pure none | some r ↦ pure (some (on_chain_htlc r)) ])
      (handled (λ e. if is_no_such_htlc e then pure none else raise e) p)

htlc_answer-throw_iff :
    {W : Type 0} (p : Result (Option RawHtlcRecord) × W) (e : Thrown) (after : W)
    → (htlc_answer p ≡ (throw e, after)) ↔ (p ≡ (throw e, after)) × (is_no_such_htlc e ≡ false)
htlc_answer-throw_iff (ok none, w) e after =
    (λ h. absurd (ground arith), λ (h, k). absurd (ground arith))
htlc_answer-throw_iff (ok (some r), w) e after =
    (λ h. absurd (ground arith), λ (h, k). absurd (ground arith))
htlc_answer-throw_iff (throw e', w) e after = elim (Bool-cases (is_no_such_htlc e')) [
  | inl miss ↦ (λ h. absurd (ground arith), λ (h, k). absurd (ground arith))
  | inr other ↦ (λ h. (ground arith, ground arith), λ (h, k). ground arith)
]

module _ {W : Type 0} (opts : IndexerOpts W) where
  -- What the node has of a transaction with these inputs and outputs: its bytes in the wire layout,
  -- in hexadecimal, and any witnesses after them.
  abbrev pub NodeHas : Hex → DecodedTx → Option ℕ → W → W → Type 0
  NodeHas tx_id tx height before after =
      (bytes : Bytes) × (witnesses : Bytes) × TxWire tx bytes
      × All IsByte (bytes ++ witnesses)
      × (opts.call_get_transaction tx_id before ≡ (
        ok (some (record { tx_hex = to_hex (bytes ++ witnesses); block_height = height })),
        after,
      ))

  -- Where the node has a transaction in the wire layout, its prevouts are its inputs, and the script
  -- of each of its outputs is that output's.
  pub get_tx_inputs-NodeHas :
      (o : Outpoint) (tx : DecodedTx) (height : Option ℕ) (before after : W)
      (output : DecodedOutput)
      → NodeHas o.tx_id tx height before after
      → get_elem? tx.outputs o.output_index ≡ some output
      → (get_tx_inputs opts o.tx_id before ≡ (ok tx.inputs, after))
        × (get_output_script opts o before ≡ (ok output.script_hex, after))
        × (settlement_at opts o before ≡ (
          ok (record {
            outpoint = o;
            value = output.value;
            script_hex = output.script_hex;
            block_height = height;
          }),
          after,
        ))
  unfolding get_tx_inputs get_output_script settlement_at joined_output named_output
  get_tx_inputs-NodeHas o tx height before after output (bytes, witnesses, w, b, e) h =
      let d = decode_tx_hex-to_hex tx bytes witnesses b w in
      (
        >>=-ok (opts.call_get_transaction o.tx_id) _ before e
            ∙ returning-ok _ (λ d. pure d.inputs) after d,
        >>=-ok (opts.call_get_transaction o.tx_id) _ before e
            ∙ returning-ok _ (λ op. pure op.script_hex) after
                (named_output-ok _ _ tx output o.output_index d h),
        >>=-ok (opts.call_get_transaction o.tx_id) _ before e
            ∙ returning-ok _ _ after (named_output-ok _ _ tx output o.output_index d h),
      )

  -- The lookup of an HTLC throws exactly what the indexer's call throws, unless that says that no HTLC
  -- is indexed there.
  pub get_htlc-throw_iff :
      (o : Outpoint) (before after : W) (e : Thrown)
      → (get_htlc opts o before ≡ (throw e, after))
        ↔ (opts.call_htlc_status o before ≡ (throw e, after)) × (is_no_such_htlc e ≡ false)
  unfolding get_htlc
  get_htlc-throw_iff o before after e =
      htlc_answer-throw_iff (opts.call_htlc_status o before) e after

decode_cases :
    (d : DecodeResult)
    → ((q : QuoteId) × (d ≡ DecodeResult.ok q)) ⊎ ((why : _) × (d ≡ DecodeResult.failed why))
decode_cases (DecodeResult.ok q) = inl (q, refl)
decode_cases (DecodeResult.failed why) = inr (why, refl)

-- The spine takes the indexer's datum for a quote's exactly when the indexer does not flag it, its quote
-- id is that quote's, and that is a strict datum.
pub bind_datum-output_datum_iff :
    (q : QuoteId) (r : RawOutputDatum)
    → (bind_datum q (output_datum r) ≡ DatumBinding.this_quote)
      ↔ (r.unhonorable ≡ false)
        × (r.quote_id ≡ some q)
        × (decode_settlement_datum q settlement_datum_version ≡ DecodeResult.ok q)
unfolding bind_datum output_datum
bind_datum-output_datum_iff q r = elim (Option-cases r.quote_id) [
  | inl e ↦ (λ h. absurd (ground arith), λ (h, k, d). absurd (ground arith))
  | inr (hex, e) ↦ (
    λ h. elim (decode_cases (decode_settlement_datum hex settlement_datum_version)) [
      | inr (why, g) ↦ absurd (ground arith)
      | inl (p, g) ↦
          let same : p ≡ q = text_eq→eq p q (ground arith) in
          let strict : hex ≡ p = ((decode-ok_iff hex settlement_datum_version p).0 g).2 in
          (
            ground arith,
            e ∙ ap some (strict ∙ same),
            ap (λ t. decode_settlement_datum t settlement_datum_version) (sym (strict ∙ same))
                ∙ g
                ∙ ap DecodeResult.ok same,
          )
    ],
    λ (h, k, d). ground (arith, text_eq_refl q),
  )
]
