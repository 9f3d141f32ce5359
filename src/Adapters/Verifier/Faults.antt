-- ===== src/Adapters/Verifier/Faults.antt =====
-- What `WalletdVerifier.accept` of src/adapters/walletd-verifier.ts makes of the daemon's answer.
use exfer_honor.Base.{
  ◌≡◌, ◌↔◌, ◌⊎◌, ℕ, Text, codes, true, Option, none, some, List, [], ◌∷◌, arith, Bool-cases, inl,
  inr,
}
use exfer_honor.Spec.Types.{SettlementFormId, AcceptedQuote}
use exfer_honor.Spec.Errors.{Thrown, HonorErrorCode, Result, ok, throw}
use exfer_honor.Ports.Effect.{Eff, pure, raise, continue, handled}
use exfer_honor.Adapters.Messages.{code_of, Says, message_test-Says}
use exfer_honor.Adapters.Verifier.{
  QuoteJson, QuoteVerifyResult, AcceptOutcome, is_invalid_params, is_strict_decode_fault,
  to_accepted_quote, accept_fault, verdict_outcome, accept,
}

-- What `accept` makes of the daemon's answer.
abbrev accept_answer :
    {W : Type 0}
    → QuoteJson
    → SettlementFormId
    → Result QuoteVerifyResult × W
    → Result AcceptOutcome × W
accept_answer quote form p =
    continue (λ res. pure (verdict_outcome quote form res))
      (handled (λ e. raise (accept_fault e)) p)

accept_answer-accepted_iff :
    {W : Type 0} (quote : QuoteJson) (form : SettlementFormId) (p : Result QuoteVerifyResult × W)
    (a : AcceptedQuote) (after : W)
    → (accept_answer quote form p ≡ (ok (AcceptOutcome.accepted a), after)) ↔ (
        (res : QuoteVerifyResult) × (p ≡ (ok res, after))
        × (res.valid ≡ true)
        × (a ≡ to_accepted_quote quote form))
accept_answer-accepted_iff quote form (ok res, w) a after = elim (Bool-cases res.valid) [
  | inl valid ↦ (λ h. (res, ground arith, valid, ground arith), λ (r, e, v, f). ground arith)
  | inr refused ↦ (λ h. absurd (ground arith), λ (r, e, v, f). absurd (ground arith))
]
accept_answer-accepted_iff quote form (throw e, w) a after =
    (λ h. absurd (ground arith), λ (r, e, v, f). absurd (ground arith))

accept_answer-throw_iff :
    {W : Type 0} (quote : QuoteJson) (form : SettlementFormId) (p : Result QuoteVerifyResult × W)
    (fault : Thrown) (after : W)
    → (accept_answer quote form p ≡ (throw fault, after))
      ↔ ((e : Thrown) × (p ≡ (throw e, after)) × (fault ≡ accept_fault e))
accept_answer-throw_iff quote form (ok res, w) fault after =
    (λ h. absurd (ground arith), λ (e, f, g). absurd (ground arith))
accept_answer-throw_iff quote form (throw e, w) fault after =
    (λ h. (e, ground arith, ground arith), λ (e', f, g). ground arith)

-- The words of a fault that is the credential's.
abbrev pub decode_words : List Text
decode_words =
    codes "-32602"
    ∷ codes "bad hex"
    ∷ codes "badhex"
    ∷ codes "bad params"
    ∷ codes "badparams"
    ∷ codes "invalid params"
    ∷ codes "strict decode"
    ∷ codes "wrong length"
    ∷ codes "expected"
    ∷ []

-- The code -32602, or one of the words.
abbrev pub IsDecodeFault : Thrown → Type 0
IsDecodeFault e = (code_of e ≡ some 32602) ⊎ Says decode_words e

is_invalid_params_iff : (code : Option ℕ) → (is_invalid_params code ≡ true) ↔ (code ≡ some 32602)
is_invalid_params_iff none = (λ h. absurd (ground arith), λ h. absurd (ground arith))
is_invalid_params_iff (some c) = (λ h. ground arith, λ h. ground arith)

is_strict_decode_fault_iff : (e : Thrown) → (is_strict_decode_fault e ≡ true) ↔ IsDecodeFault e
unfolding is_strict_decode_fault
is_strict_decode_fault_iff e =
    let by_code = is_invalid_params_iff (code_of e) in
    let by_words = message_test-Says decode_words e in
    (
      λ h. elim (Bool-cases (is_invalid_params (code_of e))) [
        | inl coded ↦ inl (by_code.0 coded)
        | inr other ↦ inr (by_words.0 (ground arith))
      ],
      λ d. elim d [
        | inl c ↦ let coded = by_code.1 c in ground arith
        | inr w ↦ let worded = by_words.1 w in ground arith
      ],
    )

-- The two faults that `accept` throws: of the credential, which is final, and of the node, which the `onPaid`
-- loop may retry.
abbrev pub Faults : Thrown → Thrown → Type 0
Faults e fault =
    (IsDecodeFault e × (fault ≡ Thrown.honor_error HonorErrorCode.malformed_quote))
    ⊎ ((¬ IsDecodeFault e) × (fault ≡ Thrown.honor_error HonorErrorCode.chain_fault))

accept_fault-Faults : (e fault : Thrown) → (fault ≡ accept_fault e) ↔ Faults e fault
unfolding accept_fault
accept_fault-Faults e fault =
    let decodes = is_strict_decode_fault_iff e in
    elim (Bool-cases (is_strict_decode_fault e)) [
      | inl final ↦ (
        λ h. inl (decodes.0 final, ground arith),
        λ d. elim d [ inl (i, f) ↦ ground arith | inr (n, f) ↦ absurd (n (decodes.0 final)) ],
      )
      | inr passing ↦ (
        λ h. inr (λ i. (let final = decodes.1 i in ground arith), ground arith),
        λ d. elim d [
          | inl (i, f) ↦ let final = decodes.1 i in absurd (ground arith)
          | inr (n, f) ↦ ground arith
        ],
      )
    ]

-- A credential is accepted exactly when the daemon's verdict is valid, as the quote that it spells. The call
-- throws exactly when the daemon does: `malformed_quote` where the daemon's fault has the code -32602 or a
-- message that holds, in lower case, one of the nine words of a decoding fault ("expected" among them),
-- and `chain_fault` on every other.
pub accept_answers :
    {W : Type 0} (quote_verify : QuoteJson → Eff W QuoteVerifyResult) (quote : QuoteJson)
    (form : SettlementFormId) (a : AcceptedQuote) (fault : Thrown) (before after : W)
    → ((accept quote_verify quote form before ≡ (ok (AcceptOutcome.accepted a), after)) ↔ (
        (res : QuoteVerifyResult) × (quote_verify quote before ≡ (ok res, after))
        × (res.valid ≡ true)
        × (a ≡ record {
          quote_id = quote.quote_id;
          signer_pubkey = quote.signer_pubkey;
          payee_pubkey = quote.payee_pubkey;
          payer_pubkey = quote.payer_pubkey;
          exfer_amount = quote.exfer_amount;
          expires_at = quote.expires_at;
          issued_at = quote.issued_at;
          form = form;
        })))
      × ((accept quote_verify quote form before ≡ (throw fault, after))
          ↔ ((e : Thrown) × (quote_verify quote before ≡ (throw e, after)) × Faults e fault))
unfolding accept to_accepted_quote
accept_answers quote_verify quote form a fault before after =
    let throws = accept_answer-throw_iff quote form (quote_verify quote before) fault after in
    (
      accept_answer-accepted_iff quote form (quote_verify quote before) a after,
      (
        λ h. let (e, f, g) = throws.0 h in (e, f, (accept_fault-Faults e fault).0 g),
        λ (e, f, g). throws.1 (e, f, (accept_fault-Faults e fault).1 g),
      ),
    )
