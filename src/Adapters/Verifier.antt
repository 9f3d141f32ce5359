-- ===== src/Adapters/Verifier.antt =====
-- `WalletdVerifier` (src/adapters/walletd-verifier.ts): the wallet daemon's verdict on a quote credential.
-- Its `quote_verify` is a parameter; the members of the credential that only the daemon reads are one
-- text.
pub mod Faults
use exfer_honor.Base.{
  ℕ, ◌≡◌, refl, ◌↔◌, Text, codes, Bool, true, false, not, ◌&&◌, ◌||◌, Option, none, some, List, [],
  ◌∷◌, arith, ◌==◌, if◌then◌else◌, Bool-cases, inl, inr,
}
use exfer_honor.Spec.Types.{QuoteId, PubKey, SettlementFormId, AcceptedQuote}
use exfer_honor.Spec.Errors.{Thrown, HonorErrorCode, Result, ok, throw}
use exfer_honor.Ports.Effect.{Eff, pure, raise, ◌>>=◌, try_catch, continue, handled}
use exfer_honor.Adapters.Messages.{to_lower_case, includes_any, message_test, code_of}

-- An absent `payer_pubkey` and one that is null are both `none`.
pub record QuoteJson : Type 0 where
  pub quote_id : QuoteId
  pub signer_pubkey : PubKey
  pub payee_pubkey : PubKey
  pub payer_pubkey : Option PubKey
  pub exfer_amount : ℕ
  pub expires_at : ℕ
  pub issued_at : ℕ
  pub signed_rest : Text

pub record QuoteVerifyResult : Type 0 where
  pub valid : Bool
  pub reason : Option Text

pub data AcceptOutcome : Type 0 where
  accepted : AcceptedQuote → AcceptOutcome
  rejected : Text → AcceptOutcome

abbrev strict_decode_phrases : List Text
strict_decode_phrases =
    codes "-32602"
    ∷ codes "bad hex"
    ∷ codes "badhex"
    ∷ codes "bad params"
    ∷ codes "badparams"
    ∷ codes "invalid params"
    ∷ codes "strict decode"
    ∷ codes "wrong length"
    ∷ codes "expected"
    ∷ []

-- A JSON-RPC code is its absolute value, so 32602 is the code -32602.
abbrev pub is_invalid_params : Option ℕ → Bool
is_invalid_params none = false
is_invalid_params (some code) = code == 32602

unfoldable pub is_strict_decode_fault : Thrown → Bool
is_strict_decode_fault e =
    is_invalid_params (code_of e)
    || message_test (λ message. includes_any strict_decode_phrases (to_lower_case message)) e

unfoldable pub to_accepted_quote : QuoteJson → SettlementFormId → AcceptedQuote
to_accepted_quote q form = record {
  quote_id = q.quote_id;
  signer_pubkey = q.signer_pubkey;
  payee_pubkey = q.payee_pubkey;
  payer_pubkey = q.payer_pubkey;
  exfer_amount = q.exfer_amount;
  expires_at = q.expires_at;
  issued_at = q.issued_at;
  form = form;
}

abbrev or_not_valid : Option Text → Text
or_not_valid none = codes "quote_verify: not valid"
or_not_valid (some reason) = reason

-- The fault that a throw of the daemon becomes: the credential's if it does not decode, else the chain's.
unfoldable pub accept_fault : Thrown → Thrown
unfolding is_strict_decode_fault
accept_fault e =
    if is_strict_decode_fault e
    then Thrown.honor_error HonorErrorCode.malformed_quote
    else Thrown.honor_error HonorErrorCode.chain_fault

abbrev pub verdict_outcome : QuoteJson → SettlementFormId → QuoteVerifyResult → AcceptOutcome
verdict_outcome quote form res =
    if not res.valid
    then AcceptOutcome.rejected (or_not_valid res.reason)
    else AcceptOutcome.accepted (to_accepted_quote quote form)

module _ {W : Type 0} (quote_verify : QuoteJson → Eff W QuoteVerifyResult) where
  unfoldable pub accept : QuoteJson → SettlementFormId → Eff W AcceptOutcome
  unfolding accept_fault to_accepted_quote
  accept quote form = do
    res ← try_catch (quote_verify quote) (λ e. raise (accept_fault e))
    pure (verdict_outcome quote form res)
