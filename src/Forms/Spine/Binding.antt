-- ===== src/Forms/Spine/Binding.antt =====
-- What steps 2 to 6 of the spine of src/forms/spine.ts ask of a payment before it binds it to a quote.
use exfer_honor.Base.{
  ◌≡◌, refl, sym, ap, ◌∙◌, subst, Bool, true, not, arith, ◌==◌, if◌then◌else◌, Bool-cases, inl, inr,
  ◌↔◌, text_eq, text_eq_iff, ==_iff,
}
use exfer_honor.Spec.Types.{SettlementFormId, SettlementCandidate, DeclineReason}
use exfer_honor.Spec.Errors.{Thrown, HonorErrorCode, ok}
use exfer_honor.Ports.Effect.{Eff, pure, raise, ◌>>=◌, >>=-eq-ok, >>=-ok, try_catch-eq-ok, handled}
use exfer_honor.Ports.Chain.{RawSettlementCandidate, OutputDatum}
use exfer_honor.Ports.Form.{ScoringCtx}
use exfer_honor.Forms.Address.{domain_hash_addr}
use exfer_honor.Forms.Spine.{
  SpineResult, DatumBinding, declined, bind_datum, check_payer_binding, custody_test,
  bound_candidate, bind_payment, run_binding_spine,
}
use exfer_honor.Forms.Spine.Datum.{Names, bind_datum-this_quote_iff}

-- The calls and tests that a payment passes on the way from one state to another.
pub record Binds {W : Type 0} (ctx : ScoringCtx W) (raw : RawSettlementCandidate) (w after : W)
    : Type 0 where
  pub datum : OutputDatum
  pub past_datum : W
  pub reads : ctx.chain.get_output_datum raw.outpoint w ≡ (ok datum, past_datum)
  pub names : Names ctx.quote.quote_id datum
  pub amount : raw.value ≡ ctx.quote.exfer_amount
  pub address : raw.script_hex ≡ domain_hash_addr ctx.quote.payee_pubkey ctx.config.address_deriver
  pub past_keys : W
  pub controls : ctx.keys.controls_payee ctx.quote.payee_pubkey past_datum ≡ (ok true, past_keys)
  pub funded : check_payer_binding ctx raw.outpoint.tx_id past_keys ≡ (ok true, after)

module _ {W : Type 0} (ctx : ScoringCtx W) (raw : RawSettlementCandidate)
    (form_id : SettlementFormId) where
  custody_test-true :
      (w after : W)
      → custody_test ctx w ≡ (ok true, after)
      → ctx.keys.controls_payee ctx.quote.payee_pubkey w ≡ (ok true, after)
  unfolding custody_test
  custody_test-true w after h =
      elim (try_catch-eq-ok (ctx.keys.controls_payee ctx.quote.payee_pubkey)
        (λ _. raise (Thrown.honor_error HonorErrorCode.keystore_fault)) w h) [
          | inl e ↦ e
          | inr (e, w₁, thrown, f) ↦ absurd (ground arith)
        ]

  abbrev Funded : SettlementCandidate → W → W → Type 0
  Funded c w after =
      (past_keys : W) × (ctx.keys.controls_payee ctx.quote.payee_pubkey w ≡ (ok true, past_keys))
      × (check_payer_binding ctx raw.outpoint.tx_id past_keys ≡ (ok true, after))
      × (c ≡ bound_candidate ctx raw form_id)

  abbrev after_funded : Bool → Eff W SpineResult
  after_funded funded =
      if not funded
      then pure (declined DeclineReason.payer_binding_failed)
      else pure (SpineResult.bound (bound_candidate ctx raw form_id))

  abbrev after_custody : Bool → Eff W SpineResult
  after_custody controls =
      if not controls
      then pure (declined DeclineReason.payee_not_controlled)
      else check_payer_binding ctx raw.outpoint.tx_id >>= after_funded

  -- Past the amount and the address: custody and funding.
  custody-bound :
      (c : SettlementCandidate) (w after : W)
      → (custody_test ctx >>= after_custody) w ≡ (ok (SpineResult.bound c), after)
      → Funded c w after
  custody-bound c w after h =
      let (controls, past_keys, e, f) = >>=-eq-ok (custody_test ctx) after_custody w h in
      elim (Bool-cases controls) [
        | inr off ↦ absurd (ground arith)
        | inl on ↦
            funded_bound past_keys
              (custody_test-true w past_keys (e ∙ ap (λ b. (ok b, past_keys)) on))
              (subst (λ b. after_custody b past_keys ≡ (ok (SpineResult.bound c), after)) on f)
      ]
    where
      funded_bound :
          (past_keys : W)
          → ctx.keys.controls_payee ctx.quote.payee_pubkey w ≡ (ok true, past_keys)
          → (check_payer_binding ctx raw.outpoint.tx_id >>= after_funded) past_keys
            ≡ (ok (SpineResult.bound c), after)
          → Funded c w after
      funded_bound past_keys e h =
          let (funded, past_all, e₂, f) =
            >>=-eq-ok (check_payer_binding ctx raw.outpoint.tx_id) after_funded past_keys h in
          elim (Bool-cases funded) [
            | inr off ↦ absurd (ground arith)
            | inl on ↦ (past_keys, e, ground arith, ground arith)
          ]

  -- With the amount and the address right, the rest of the spine decides.
  bind_payment-past :
      (w : W)
      → raw.value ≡ ctx.quote.exfer_amount
      → raw.script_hex ≡ domain_hash_addr ctx.quote.payee_pubkey ctx.config.address_deriver
      → bind_payment ctx raw form_id w ≡ (custody_test ctx >>= after_custody) w
  unfolding bind_payment
  bind_payment-past w amount address = rw ((==_iff _ _).1 amount, (text_eq_iff _ _).1 address) refl

  bind_payment-bound :
      (c : SettlementCandidate) (w after : W)
      → bind_payment ctx raw form_id w ≡ (ok (SpineResult.bound c), after)
      → (raw.value ≡ ctx.quote.exfer_amount)
        × (raw.script_hex ≡ domain_hash_addr ctx.quote.payee_pubkey ctx.config.address_deriver)
        × Funded c w after
  unfolding bind_payment
  bind_payment-bound c w after h = elim (Bool-cases (raw.value == ctx.quote.exfer_amount)) [
    | inr off ↦ absurd (ground arith)
    | inl amount ↦
        elim (Bool-cases (
          text_eq raw.script_hex
            (domain_hash_addr ctx.quote.payee_pubkey ctx.config.address_deriver))) [
              | inr off ↦ absurd (ground arith)
              | inl address ↦ (
                (==_iff _ _).0 amount,
                (text_eq_iff _ _).0 address,
                custody-bound c w after (
                    sym (bind_payment-past w ((==_iff _ _).0 amount) ((text_eq_iff _ _).0 address))
                    ∙ h),
              )
            ]
  ]

  past_reading :
      (c : SettlementCandidate) (datum : OutputDatum) (w past_datum after : W)
      → ctx.chain.get_output_datum raw.outpoint w ≡ (ok datum, past_datum)
      → bind_datum ctx.quote.quote_id datum ≡ DatumBinding.this_quote
      → bind_payment ctx raw form_id past_datum ≡ (ok (SpineResult.bound c), after)
      → (c ≡ bound_candidate ctx raw form_id) × Binds ctx raw w after
  past_reading c datum w past_datum after reads names h =
      let (amount, address, rest) = bind_payment-bound c past_datum after h in
      let (past_keys, controls, funded, same) = rest in
      (
        same,
        record {
          datum = datum;
          past_datum = past_datum;
          reads = reads;
          names = (bind_datum-this_quote_iff ctx.quote.quote_id datum).0 names;
          amount = amount;
          address = address;
          past_keys = past_keys;
          controls = controls;
          funded = funded;
        },
      )

  abbrev after_datum : OutputDatum → Eff W SpineResult
  after_datum datum = elim (bind_datum ctx.quote.quote_id datum) [
    | DatumBinding.unhonorable ↦ pure (declined DeclineReason.datum_unhonorable)
    | DatumBinding.other_quote ↦ pure SpineResult.skip
    | DatumBinding.this_quote ↦ bind_payment ctx raw form_id
  ]

  run_binding_spine-bound :
      (c : SettlementCandidate) (w after : W)
      → run_binding_spine ctx raw form_id w ≡ (ok (SpineResult.bound c), after)
      → (c ≡ bound_candidate ctx raw form_id) × Binds ctx raw w after
  unfolding run_binding_spine
  run_binding_spine-bound c w after h =
      let (datum, past_datum, reads, f) =
        >>=-eq-ok (ctx.chain.get_output_datum raw.outpoint) after_datum w h in
      go datum past_datum reads (bind_datum ctx.quote.quote_id datum) refl f
    where
      go :
          (datum : OutputDatum) (past_datum : W)
          → ctx.chain.get_output_datum raw.outpoint w ≡ (ok datum, past_datum)
          → (b : DatumBinding) → bind_datum ctx.quote.quote_id datum ≡ b
          → after_datum datum past_datum ≡ (ok (SpineResult.bound c), after)
          → (c ≡ bound_candidate ctx raw form_id) × Binds ctx raw w after
      go datum past_datum reads DatumBinding.this_quote e f =
          past_reading c datum w past_datum after reads e (ground arith)
      go datum past_datum reads DatumBinding.other_quote e f = absurd (ground arith)
      go datum past_datum reads DatumBinding.unhonorable e f = absurd (ground arith)

  -- A payment that passed is bound, and as what it is.
  Binds-bound :
      (w after : W)
      → Binds ctx raw w after
      → run_binding_spine ctx raw form_id w
        ≡ (ok (SpineResult.bound (bound_candidate ctx raw form_id)), after)
  unfolding run_binding_spine custody_test
  Binds-bound w after b =
      >>=-ok (ctx.chain.get_output_datum raw.outpoint) after_datum w b.reads
      ∙ rw (after_datum, (bind_datum-this_quote_iff ctx.quote.quote_id b.datum).1 b.names)
          (bind_payment-past b.past_datum b.amount b.address
            ∙ >>=-ok (custody_test ctx) after_custody b.past_datum (
                ap (handled (λ _. raise (Thrown.honor_error HonorErrorCode.keystore_fault)))
                  b.controls)
            ∙ >>=-ok (check_payer_binding ctx raw.outpoint.tx_id) after_funded b.past_keys b.funded)

  -- The spine binds a raw payment as a candidate exactly when the candidate is the payment's own and
  -- the payment names the quote by a strict datum, pays its exact amount to its payee's address, is
  -- under the keystore's control and passes the payer binding.
  pub run_binding_spine-bound_iff :
      (c : SettlementCandidate) (w after : W)
      → (run_binding_spine ctx raw form_id w ≡ (ok (SpineResult.bound c), after))
        ↔ ((c ≡ bound_candidate ctx raw form_id) × Binds ctx raw w after)
  run_binding_spine-bound_iff c w after =
      (run_binding_spine-bound c w after, λ (same, b). rw same (Binds-bound w after b))
