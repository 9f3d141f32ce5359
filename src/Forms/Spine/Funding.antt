-- ===== src/Forms/Spine/Funding.antt =====
-- The payer binding of src/forms/spine.ts: which settlements pass where it is demanded.
use exfer_honor.Base.{
  ℕ, suc, ◌≡◌, refl, ◌∙◌, true, ◌||◌, some, List, [], ◌∷◌, arith, if◌then◌else◌, Bool-cases, inl,
  inr, text_eq, text_eq_iff, get_elem?,
}
use exfer_honor.Spec.Types.{Hex, PubKey, Outpoint}
use exfer_honor.Spec.Errors.{ok}
use exfer_honor.Ports.Effect.{pure, >>=-eq-ok}
use exfer_honor.Ports.Chain.{ChainSource}
use exfer_honor.Ports.Form.{ScoringCtx}
use exfer_honor.Forms.Address.{domain_hash_addr}
use exfer_honor.Forms.Spine.{is_source, funded_by, check_payer_binding}

module _ {W : Type 0} (chain : ChainSource W) where
  -- One of the prevouts is scripted to the payer.
  pub record Spends (script : Hex) (prevouts : List Outpoint) (after : W) : Type 0 where
    pub index : ℕ
    pub prevout : Outpoint
    pub spent : get_elem? prevouts index ≡ some prevout
    pub before : W
    pub scripted : chain.get_output_script prevout before ≡ (ok script, after)

  further :
      (script : Hex) (prevout : Outpoint) (rest : List Outpoint) (after : W)
      → Spends script rest after
      → Spends script (prevout ∷ rest) after
  further script prevout rest after s = record {
    index = suc s.index;
    prevout = s.prevout;
    spent = s.spent;
    before = s.before;
    scripted = s.scripted;
  }

  funded_by-true :
      (script : Hex) (prevouts : List Outpoint) (w after : W)
      → funded_by chain script prevouts w ≡ (ok true, after)
      → Spends script prevouts after
  unfolding funded_by
  funded_by-true script [] w after h = absurd (ground arith)
  funded_by-true script (prevout ∷ rest) w after h =
      let (found, w₁, e, f) =
        >>=-eq-ok (chain.get_output_script prevout)
          (λ found. if text_eq found script then pure true else funded_by chain script rest) w h in
      elim (Bool-cases (text_eq found script)) [
        | inl own ↦ record {
          index = 0;
          prevout = prevout;
          spent = refl;
          before = w;
          scripted = e ∙ ground (arith, text_eq_iff found script);
        }
        | inr other ↦
            further script prevout rest after (funded_by-true script rest w₁ after (ground arith))
      ]

-- Where the binding is demanded of a quote that names its payer, a settlement passes only if it spends
-- a prevout that is scripted to the payer's address.
pub check_payer_binding-Spends :
    {W : Type 0} (ctx : ScoringCtx W) (tx_id : Hex) (payer : PubKey) (w after : W)
    → ctx.quote.payer_pubkey ≡ some payer
    → (is_source ctx.config.payer_binding || ctx.config.require_payer_funded) ≡ true
    → check_payer_binding ctx tx_id w ≡ (ok true, after)
    → (inputs : List Outpoint) × (w₁ : W) × (ctx.chain.get_tx_inputs tx_id w ≡ (ok inputs, w₁))
      × Spends ctx.chain (domain_hash_addr payer ctx.config.address_deriver) inputs after
unfolding check_payer_binding
check_payer_binding-Spends ctx tx_id payer w after named demanded h =
    let (inputs, w₁, e, f) =
      >>=-eq-ok (ctx.chain.get_tx_inputs tx_id)
        (funded_by ctx.chain (domain_hash_addr payer ctx.config.address_deriver)) w
        (ground arith) in
    (inputs, w₁, e, funded_by-true ctx.chain _ inputs w₁ after f)
