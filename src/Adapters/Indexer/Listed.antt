-- ===== src/Adapters/Indexer/Listed.antt =====
-- What `findSettlementsByQuoteId` of src/adapters/indexer-chain.ts returns.
use exfer_honor.Base.{
  ℕ, zero, suc, ◌≡◌, ◌<◌, ◌^◌, refl, sym, ap, subst, Text, Option, none, some, List, [], ◌∷◌, map,
  arith, All, get_elem?,
}
use exfer_honor.Spec.Types.{QuoteId, Outpoint}
use exfer_honor.Spec.Errors.{Result, ok, throw}
use exfer_honor.Ports.Effect.{>>=-eq-ok}
use exfer_honor.Ports.Chain.{RawSettlementCandidate}
use exfer_honor.Adapters.Wire.{DecodedTx, DecodedOutput, decode_tx_hex}
use exfer_honor.Adapters.Wire.Typed.{ScriptTyped, OutputTyped, decode_tx_hex-TxTyped}
use exfer_honor.Adapters.Indexer.{
  RawTxStatus, IndexerOpts, named_output, returning, joined_output, settlement_at, settlements_at,
  find_settlements_by_quote_id,
}

abbrev pub CandidateTyped : RawSettlementCandidate → Type 0
CandidateTyped c = (c.value < 2 ^ 64) × ScriptTyped c.script_hex

All-get_elem :
    {A : Type 0} (P : A → Type 0) (xs : List A) (i : ℕ) (x : A)
    → All P xs
    → get_elem? xs i ≡ some x
    → P x
All-get_elem P [] i x h e = absurd (ground arith)
All-get_elem P (y ∷ ys) zero x (h, hs) e = subst P (ground arith) h
All-get_elem P (y ∷ ys) (suc i) x (h, hs) e = All-get_elem P ys i x hs e

named_output-Typed :
    (missing : Text) (r : Result DecodedTx) (index : ℕ) (output : DecodedOutput)
    → ((tx : DecodedTx) → r ≡ ok tx → All OutputTyped tx.outputs)
    → named_output missing r index ≡ ok output
    → OutputTyped output
unfolding named_output
named_output-Typed missing (throw e) index output typed h = absurd (ground arith)
named_output-Typed missing (ok tx) index output typed h =
    All-get_elem OutputTyped tx.outputs index output (typed tx refl) (ground arith)

pure-inj : {W A : Type 0} {a b : A} {w v : W} → ◌≡◌ {A = Result A × W} (ok a, w) (ok b, v) → a ≡ b
pure-inj h = ground arith

joined_output-Typed :
    {W : Type 0} (o : Outpoint) (found : Option RawTxStatus) (before after : W)
    (c : RawSettlementCandidate)
    → joined_output o found before ≡ (ok c, after)
    → (c.outpoint ≡ o) × CandidateTyped c
unfolding joined_output
joined_output-Typed o none before after c h = absurd (ground arith)
joined_output-Typed o (some tx) before after c h =
    let (op, w, e, f) = >>=-eq-ok (returning _) _ before h in
    let typed : OutputTyped op =
      named_output-Typed _ (decode_tx_hex tx.tx_hex) o.output_index op
        (λ d g. (decode_tx_hex-TxTyped tx.tx_hex d g).3) (ap (λ p. p.0) e) in
    let same = pure-inj f in (ap (λ c. c.outpoint) (sym same), subst CandidateTyped same typed)

module _ {W : Type 0} (opts : IndexerOpts W) where
  settlement_at-Typed :
      (o : Outpoint) (before after : W) (c : RawSettlementCandidate)
      → settlement_at opts o before ≡ (ok c, after)
      → (c.outpoint ≡ o) × CandidateTyped c
  unfolding settlement_at
  settlement_at-Typed o before after c h =
      let (found, w, e, f) =
        >>=-eq-ok (opts.call_get_transaction o.tx_id) (joined_output o) before h in
      joined_output-Typed o found w after c f

  settlements_at-Typed :
      (os : List Outpoint) (before after : W) (cs : List RawSettlementCandidate)
      → settlements_at opts os before ≡ (ok cs, after)
      → (map (λ c. c.outpoint) cs ≡ os) × All CandidateTyped cs
  unfolding settlements_at
  settlements_at-Typed [] before after cs h =
      subst (λ cs. (map (λ c. c.outpoint) cs ≡ []) × All CandidateTyped cs) (pure-inj h) (refl, tt)
  settlements_at-Typed (o ∷ os) before after cs h =
      let (c, w, e, f) = >>=-eq-ok (settlement_at opts o) _ before h in
      let (rest, w₁, g, k) = >>=-eq-ok (settlements_at opts os) _ w f in
      let (same, typed) = settlement_at-Typed o before w c e in
      let (all_same, all_typed) = settlements_at-Typed os w w₁ rest g in
      subst (λ cs. (map (λ c. c.outpoint) cs ≡ o ∷ os) × All CandidateTyped cs) (pure-inj k)
        (ground (arith, same, all_same), (typed, all_typed))

  -- A search for a quote's settlements that returns has one candidate for each outpoint that the
  -- indexer names, in that order, each with a value below 2 ^ 64 and a script in bare hexadecimal.
  pub find_settlements_by_quote_id-Typed :
      (q : QuoteId) (before after : W) (cs : List RawSettlementCandidate)
      → find_settlements_by_quote_id opts q before ≡ (ok cs, after)
      → (os : List Outpoint) × (w : W) × (opts.call_find_settlements q before ≡ (ok os, w))
        × (map (λ c. c.outpoint) cs ≡ os)
        × All CandidateTyped cs
  unfolding find_settlements_by_quote_id
  find_settlements_by_quote_id-Typed q before after cs h =
      let (os, w, e, f) = >>=-eq-ok (opts.call_find_settlements q) _ before h in
      let (same, typed) = settlements_at-Typed os w after cs f in (os, w, e, same, typed)
