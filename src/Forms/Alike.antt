-- ===== src/Forms/Alike.antt =====
-- A form (src/forms) over two states, its chain and its keystore reading only the rest of the world; the spine
-- and the plain form.
use exfer_honor.Base.{
  ◌≡◌, refl, ℕ, text_eq, true, false, not, ◌||◌, Option, none, some, List, [], ◌∷◌, ◌==◌,
}
use exfer_honor.Spec.Types.{
  Hex, SettlementFormId, AcceptedQuote, Outpoint, SettlementCandidate, WaitReason, DeclineReason,
  HonorVerdict,
}
use exfer_honor.Ports.Effect.{Eff}
use exfer_honor.Ports.Alike.{
  Alike, pure-Alike, raise-Alike, >>=-Alike, try_catch-Alike, if-Alike, Option-Alike,
}
use exfer_honor.Ports.Lift.{Part, PartsAgree, lift_chain, lift_keys, lift-Alike}
use exfer_honor.Ports.Chain.{ChainSource, KeyCustody, RawSettlementCandidate}
use exfer_honor.Ports.Form.{HonorConfig, ScoringCtx, PrepareResult, SettlementForm}
use exfer_honor.Forms.Spine.{
  SpineResult, DatumBinding, bind_datum, is_source, funded_by, check_payer_binding, custody_test,
  bind_payment, run_binding_spine,
}
use exfer_honor.Forms.Plain.{depth_gate, score_from, score, plain_form}

-- What a form is given, over the lifted chain and keystore.
abbrev pub lifted_ctx :
    {E W : Type 0}
    → Part E W
    → ChainSource E
    → KeyCustody E
    → HonorConfig
    → AcceptedQuote
    → (now tip : ℕ) → ScoringCtx W
lifted_ctx part chain keys config quote now tip = record {
  quote = quote;
  tip = tip;
  now = now;
  config = config;
  chain = lift_chain part chain;
  keys = lift_keys part keys;
}

-- A branch on a result of the spine, by its cases.
module _ {V W A : Type 0} {R : V → W → Type 0} where
  DatumBinding-Alike :
      (b : DatumBinding) (m₁ m₂ m₃ : Eff V A) (n₁ n₂ n₃ : Eff W A)
      → Alike R m₁ n₁
      → Alike R m₂ n₂
      → Alike R m₃ n₃
      → Alike R
          (elim b [
            | DatumBinding.unhonorable ↦ m₁
            | DatumBinding.other_quote ↦ m₂
            | DatumBinding.this_quote ↦ m₃
          ])
          (elim b [
            | DatumBinding.unhonorable ↦ n₁
            | DatumBinding.other_quote ↦ n₂
            | DatumBinding.this_quote ↦ n₃
          ])
  DatumBinding-Alike DatumBinding.unhonorable _ _ _ _ _ _ h₁ h₂ h₃ = h₁
  DatumBinding-Alike DatumBinding.other_quote _ _ _ _ _ _ h₁ h₂ h₃ = h₂
  DatumBinding-Alike DatumBinding.this_quote _ _ _ _ _ _ h₁ h₂ h₃ = h₃

  SpineResult-Alike :
      (s : SpineResult) (m : Eff V A) (n : Eff W A) (f : HonorVerdict → Eff V A)
      (g : HonorVerdict → Eff W A) (k : SettlementCandidate → Eff V A)
      (l : SettlementCandidate → Eff W A)
      → Alike R m n
      → ((v : HonorVerdict) → Alike R (f v) (g v))
      → ((c : SettlementCandidate) → Alike R (k c) (l c))
      → Alike R
          (elim s [
            | SpineResult.skip ↦ m
            | SpineResult.verdict v ↦ f v
            | SpineResult.bound c ↦ k c
          ])
          (elim s [
            | SpineResult.skip ↦ n
            | SpineResult.verdict v ↦ g v
            | SpineResult.bound c ↦ l c
          ])
  SpineResult-Alike SpineResult.skip _ _ _ _ _ _ h₁ h₂ h₃ = h₁
  SpineResult-Alike (SpineResult.verdict v) _ _ _ _ _ _ h₁ h₂ h₃ = h₂ v
  SpineResult-Alike (SpineResult.bound c) _ _ _ _ _ _ h₁ h₂ h₃ = h₃ c

  HonorVerdict-Alike :
      (v : HonorVerdict) (f : SettlementCandidate → SettlementFormId → Eff V A)
      (g : SettlementCandidate → SettlementFormId → Eff W A) (k : WaitReason → Eff V A)
      (l : WaitReason → Eff W A) (p : DeclineReason → Eff V A) (q : DeclineReason → Eff W A)
      → ((c : SettlementCandidate) (id : SettlementFormId) → Alike R (f c id) (g c id))
      → ((r : WaitReason) → Alike R (k r) (l r))
      → ((r : DeclineReason) → Alike R (p r) (q r))
      → Alike R
          (elim v [
            | HonorVerdict.honor c id ↦ f c id
            | HonorVerdict.wait r ↦ k r
            | HonorVerdict.decline r ↦ p r
          ])
          (elim v [
            | HonorVerdict.honor c id ↦ g c id
            | HonorVerdict.wait r ↦ l r
            | HonorVerdict.decline r ↦ q r
          ])
  HonorVerdict-Alike (HonorVerdict.honor c id) _ _ _ _ _ _ h₁ h₂ h₃ = h₁ c id
  HonorVerdict-Alike (HonorVerdict.wait r) _ _ _ _ _ _ h₁ h₂ h₃ = h₂ r
  HonorVerdict-Alike (HonorVerdict.decline r) _ _ _ _ _ _ h₁ h₂ h₃ = h₃ r

module _ {E V W : Type 0} (R : V → W → Type 0) (left : Part E V) (right : Part E W)
    (agree : PartsAgree R left right) (chain : ChainSource E) (keys : KeyCustody E)
    (config : HonorConfig) where
  abbrev pub Prepares : Type 0 → Type 0
  Prepares X = ScoringCtx X → SettlementCandidate → Eff X PrepareResult

  abbrev pub PreparesAlike : Option (Prepares V) → Option (Prepares W) → Type 0
  PreparesAlike none none = Unit
  PreparesAlike (some p) (some q) =
      (quote : AcceptedQuote) (now tip : ℕ) (candidate : SettlementCandidate)
      → Alike R (p (lifted_ctx left chain keys config quote now tip) candidate)
          (q (lifted_ctx right chain keys config quote now tip) candidate)
  PreparesAlike none (some q) = ⊥
  PreparesAlike (some p) none = ⊥

  pub record FormAlike (f : SettlementForm V) (g : SettlementForm W) : Type 0 where
    pub same_id : f.id ≡ g.id
    pub same_mode : f.gate_mode ≡ g.gate_mode
    pub discovers :
        (quote : AcceptedQuote) (now tip : ℕ)
        → Alike R
            (f.discover (lifted_ctx left chain keys config quote now tip))
            (g.discover (lifted_ctx right chain keys config quote now tip))
    pub scores :
        (quote : AcceptedQuote) (now tip : ℕ) (raw : List RawSettlementCandidate)
        → Alike R
            (f.score (lifted_ctx left chain keys config quote now tip) raw)
            (g.score (lifted_ctx right chain keys config quote now tip) raw)
    pub prepares : PreparesAlike f.prepare g.prepare

  module _ (quote : AcceptedQuote) (now tip : ℕ) where
    abbrev lctx : ScoringCtx V
    lctx = lifted_ctx left chain keys config quote now tip

    abbrev rctx : ScoringCtx W
    rctx = lifted_ctx right chain keys config quote now tip

    funded_by-Alike :
        (script : Hex) (inputs : List Outpoint)
        → Alike R (funded_by lctx.chain script inputs) (funded_by rctx.chain script inputs)
    unfolding funded_by
    funded_by-Alike script [] = pure-Alike R false
    funded_by-Alike script (prevout ∷ rest) =
        let others = funded_by-Alike script rest in
        >>=-Alike R (lift-Alike (chain.get_output_script prevout) agree)
          (λ found. if-Alike R (text_eq found script) (pure-Alike R true) others)

    check_payer_binding-Alike :
        (t : Hex) → Alike R (check_payer_binding lctx t) (check_payer_binding rctx t)
    unfolding check_payer_binding
    check_payer_binding-Alike t = Option-Alike R quote.payer_pubkey (pure-Alike R true) (λ payer.
        if-Alike R (not (is_source config.payer_binding || config.require_payer_funded))
          (pure-Alike R true)
          (>>=-Alike R (lift-Alike (chain.get_tx_inputs t) agree)
            (λ inputs. funded_by-Alike _ inputs)))

    custody_test-Alike : Alike R (custody_test lctx) (custody_test rctx)
    unfolding custody_test
    custody_test-Alike =
        try_catch-Alike R (lift-Alike (keys.controls_payee quote.payee_pubkey) agree)
          (λ _. raise-Alike R _)

    bind_payment-Alike :
        (raw : RawSettlementCandidate) (id : SettlementFormId)
        → Alike R (bind_payment lctx raw id) (bind_payment rctx raw id)
    unfolding bind_payment
    bind_payment-Alike raw id =
        if-Alike R (not (raw.value == quote.exfer_amount)) (pure-Alike R _) (
          if-Alike R _ (pure-Alike R _) (
            >>=-Alike R custody_test-Alike (λ controls. if-Alike R (not controls) (pure-Alike R _) (
              >>=-Alike R (check_payer_binding-Alike raw.outpoint.tx_id)
                (λ funded. if-Alike R (not funded) (pure-Alike R _) (pure-Alike R _))))))

    run_binding_spine-Alike :
        (raw : RawSettlementCandidate) (id : SettlementFormId)
        → Alike R (run_binding_spine lctx raw id) (run_binding_spine rctx raw id)
    unfolding run_binding_spine
    run_binding_spine-Alike raw id =
        >>=-Alike R (lift-Alike (chain.get_output_datum raw.outpoint) agree) (λ datum.
          DatumBinding-Alike (bind_datum quote.quote_id datum) _ _ _ _ _ _ (pure-Alike R _)
            (pure-Alike R _) (bind_payment-Alike raw id))

    score_from-Alike :
        (last : Option HonorVerdict) (raw : List RawSettlementCandidate)
        → Alike R (score_from lctx last raw) (score_from rctx last raw)
    unfolding score_from
    score_from-Alike last [] = pure-Alike R _
    score_from-Alike last (c ∷ cs) =
        >>=-Alike R (run_binding_spine-Alike c SettlementFormId.plain) (λ spine.
          SpineResult-Alike spine _ _ _ _ _ _ (score_from-Alike last cs)
            (λ v. score_from-Alike (some v) cs)
            (λ candidate.
              HonorVerdict-Alike (depth_gate tip config.confirmation_depth candidate) _ _ _ _ _ _
                (λ found form. pure-Alike R _)
                (λ reason. score_from-Alike (some (HonorVerdict.wait reason)) cs)
                (λ reason. score_from-Alike (some (HonorVerdict.decline reason)) cs)))

  pub plain_form-Alike : FormAlike plain_form plain_form
  unfolding plain_form score
  plain_form-Alike = record {
    same_id = refl;
    same_mode = refl;
    discovers =
        λ quote now tip. lift-Alike (chain.find_settlements_by_quote_id quote.quote_id) agree;
    scores = λ quote now tip raw. score_from-Alike quote now tip none raw;
    prepares = λ quote now tip candidate. pure-Alike R _;
  }
