-- ===== src/Core/Scorer.antt =====
-- The scoring driver of src/core/scorer.ts.
use exfer_honor.Base.{ℕ, Option, none, some}
use exfer_honor.Spec.Types.{AcceptedQuote, DeclineReason, HonorVerdict}
use exfer_honor.Ports.Store.{SeenRow}
use exfer_honor.Ports.Effect.{Eff, ◌>>=◌}
use exfer_honor.Ports.Form.{ScoringCtx}
use exfer_honor.Ports.Deps.{HonorDeps}
use exfer_honor.Core.Registry.{get_form}

-- The quote as the row kept it; its `issuedAt` is the time of acceptance.
abbrev pub quote_from_seen : SeenRow → AcceptedQuote
quote_from_seen row = record {
  quote_id = row.quote_id;
  signer_pubkey = row.signer_pubkey;
  payee_pubkey = row.payee_pubkey;
  payer_pubkey = row.payer_pubkey;
  exfer_amount = row.exfer_amount;
  expires_at = row.expires_at;
  issued_at = row.accepted_at;
  form = row.form;
}

-- Step 0: a verdict that stops the scoring, or `none` to go on.
unfoldable pub gate_step0 : Option SeenRow → Option HonorVerdict
gate_step0 none = some (HonorVerdict.decline DeclineReason.expired_unobserved)
gate_step0 (some row) = elim row.honored_at [
  | none ↦ none
  | some _ ↦ some (HonorVerdict.decline DeclineReason.already_honored)
]

module _ {W G : Type 0} (deps : HonorDeps W G) where
  abbrev pub context_at : AcceptedQuote → (now tip : ℕ) → ScoringCtx W
  context_at quote now tip = record {
    quote = quote;
    tip = tip;
    now = now;
    config = deps.config;
    chain = deps.chain;
    keys = deps.keys;
  }

  unfoldable pub score_quote : AcceptedQuote → ℕ → Eff W HonorVerdict
  score_quote quote now = do
    form ← get_form quote.form deps.forms
    tip ← deps.chain.tip_height
    raw ← form.discover (context_at quote now tip)
    form.score (context_at quote now tip) raw
