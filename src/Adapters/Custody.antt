-- ===== src/Adapters/Custody.antt =====
-- `KeystoreKeyCustody` (src/adapters/keystore-custody.ts): a payee is controlled if the wallet daemon signs
-- a probe with its key. The daemon's `sign_message` is a parameter; its answer is the signature, `none` if
-- that is no text.
use exfer_honor.Base.{
  ◌≡◌, refl, ap, ◌∙◌, ◌↔◌, ◌⊎◌, inl, inr, Text, codes, Bool, true, false, Option, none, some, List,
  [], ◌∷◌, arith, if◌then◌else◌, Bool-cases,
}
use exfer_honor.Spec.Types.{Hex, QuoteId, PubKey}
use exfer_honor.Spec.Errors.{Thrown, HonorErrorCode, Result, ok, throw}
use exfer_honor.Ports.Effect.{Eff, pure, raise, ◌>>=◌, try_catch, continue, handled}
use exfer_honor.Ports.Chain.{KeyCustody}
use exfer_honor.Forms.Address.{AddressDeriver, domain_hash_addr}
use exfer_honor.Adapters.Messages.{
  to_lower_case, includes_any, message_test, Says, message_test-Says,
}

abbrev default_probe : Text
default_probe = codes "exfer-honor:payee-custody-probe"

pub record KeystoreOpts (W : Type 0) : Type 0 where
  pub sign_message : (address : Hex) → (message : Text) → Eff W (Option Text)
  pub address_deriver : Option AddressDeriver
  pub probe_message : Option Text
  pub preimage_lookup : Option (QuoteId → PubKey → Eff W (Option Hex))

abbrev no_such_key_phrases : List Text
no_such_key_phrases =
    codes "no such" ∷ codes "not found" ∷ codes "unknown address" ∷ codes "no wallet" ∷ []

unfoldable pub is_no_such_key : Thrown → Bool
is_no_such_key e =
    message_test (λ message. includes_any no_such_key_phrases (to_lower_case message)) e

abbrev pub is_signature : Option Text → Bool
is_signature none = false
is_signature (some []) = false
is_signature (some (c ∷ s)) = true

abbrev or_default : Option Text → Text
or_default none = default_probe
or_default (some message) = message

module _ {W : Type 0} (opts : KeystoreOpts W) where
  -- The test-sign that `controlsPayee` asks for.
  abbrev pub signs : PubKey → Eff W (Option Text)
  signs payee =
      opts.sign_message (domain_hash_addr payee opts.address_deriver)
        (or_default opts.probe_message)

  unfoldable pub controls_payee : PubKey → Eff W Bool
  controls_payee payee =
      try_catch (do signature ← signs payee; pure (is_signature signature))
        (λ e.
          if is_no_such_key e
          then pure false
          else raise (Thrown.honor_error HonorErrorCode.keystore_fault))

  unfoldable pub keystore_key_custody : KeyCustody W
  keystore_key_custody = record {
    controls_payee = controls_payee;
    htlc_preimage_for = opts.preimage_lookup;
  }

-- What `controlsPayee` makes of the daemon's answer.
abbrev custody_answer : {W : Type 0} → Result (Option Text) × W → Result Bool × W
custody_answer p =
    handled
      (λ e.
        if is_no_such_key e
        then pure false
        else raise (Thrown.honor_error HonorErrorCode.keystore_fault))
      (continue (λ signature. pure (is_signature signature)) p)

custody_answer-false_iff :
    {W : Type 0} (p : Result (Option Text) × W) (after : W)
    → (custody_answer p ≡ (ok false, after))
      ↔ ((e : Thrown) × (p ≡ (throw e, after)) × (is_no_such_key e ≡ true))
        ⊎ ((s : Option Text) × (p ≡ (ok s, after)) × (is_signature s ≡ false))
custody_answer-false_iff (ok s, w) after = (
  λ h. inr (s, ground arith, ground arith),
  λ d. elim d [ inl (e, f, g) ↦ absurd (ground arith) | inr (t, f, g) ↦ ground arith ],
)
custody_answer-false_iff (throw e, w) after = elim (Bool-cases (is_no_such_key e)) [
  | inl gone ↦ (
    λ h. inl (e, ground arith, gone),
    λ d. elim d [ inl (e', f, g) ↦ ground arith | inr (t, f, g) ↦ absurd (ground arith) ],
  )
  | inr other ↦ (
    λ h. absurd (ground arith),
    λ d. elim d [ inl (e', f, g) ↦ absurd (ground arith) | inr (t, f, g) ↦ absurd (ground arith) ],
  )
]

custody_answer-throw_iff :
    {W : Type 0} (p : Result (Option Text) × W) (fault : Thrown) (after : W)
    → (custody_answer p ≡ (throw fault, after)) ↔ (
        (e : Thrown) × (p ≡ (throw e, after))
        × (is_no_such_key e ≡ false)
        × (fault ≡ Thrown.honor_error HonorErrorCode.keystore_fault))
custody_answer-throw_iff (ok s, w) fault after =
    (λ h. absurd (ground arith), λ (e, f, g, k). absurd (ground arith))
custody_answer-throw_iff (throw e, w) fault after = elim (Bool-cases (is_no_such_key e)) [
  | inl gone ↦ (λ h. absurd (ground arith), λ (e', f, g, k). absurd (ground arith))
  | inr other ↦ (λ h. (e, ground arith, other, ground arith), λ (e', f, g, k). ground arith)
]

-- What the daemon says of a key that it does not have.
abbrev pub no_key_words : List Text
no_key_words =
    codes "no such" ∷ codes "not found" ∷ codes "unknown address" ∷ codes "no wallet" ∷ []

is_no_such_key_iff : (e : Thrown) → (is_no_such_key e ≡ true) ↔ Says no_key_words e
unfolding is_no_such_key
is_no_such_key_iff e = message_test-Says no_key_words e

is_signature-false : (s : Option Text) → (is_signature s ≡ false) ↔ (s ≡ none) ⊎ (s ≡ some [])
is_signature-false none = (λ h. inl refl, λ h. refl)
is_signature-false (some []) = (λ h. inr refl, λ h. refl)
is_signature-false (some (c ∷ s)) = (
  λ h. absurd (ground arith),
  λ d. elim d [ inl e ↦ absurd (ground arith) | inr e ↦ absurd (ground arith) ],
)

-- The payee is not controlled exactly when the daemon throws a message that holds, in lower case, "no such",
-- "not found", "unknown address" or "no wallet", or answers with no signature or an empty one. The call
-- throws exactly when the daemon throws anything else: it then throws `keystore_fault`.
pub controls_payee_answers :
    {W : Type 0} (opts : KeystoreOpts W) (payee : PubKey) (before after : W) (fault : Thrown)
    → ((controls_payee opts payee before ≡ (ok false, after))
        ↔ ((e : Thrown) × (signs opts payee before ≡ (throw e, after)) × Says no_key_words e)
          ⊎ (signs opts payee before ≡ (ok none, after))
          ⊎ (signs opts payee before ≡ (ok (some []), after)))
      × ((controls_payee opts payee before ≡ (throw fault, after)) ↔ (
          (e : Thrown) × (signs opts payee before ≡ (throw e, after))
          × (¬ Says no_key_words e)
          × (fault ≡ Thrown.honor_error HonorErrorCode.keystore_fault)))
unfolding controls_payee
controls_payee_answers opts payee before after fault =
    let denies = custody_answer-false_iff (signs opts payee before) after in
    let faults = custody_answer-throw_iff (signs opts payee before) fault after in
    (
      (
        λ h. elim (denies.0 h) [
          | inl (e, f, g) ↦ inl (e, f, (is_no_such_key_iff e).0 g)
          | inr (s, f, g) ↦ inr (elim ((is_signature-false s).0 g) [
            | inl n ↦ inl (f ∙ ap (λ t. (ok t, after)) n)
            | inr n ↦ inr (f ∙ ap (λ t. (ok t, after)) n)
          ])
        ],
        λ d. denies.1 (elim d [
          | inl (e, f, g) ↦ inl (e, f, (is_no_such_key_iff e).1 g)
          | inr (inl f) ↦ inr (none, f, refl)
          | inr (inr f) ↦ inr (some [], f, refl)
        ]),
      ),
      (
        λ h.
            let (e, f, g, k) = faults.0 h in
            (e, f, λ says. let said = (is_no_such_key_iff e).1 says in ground arith, k),
        λ (e, f, g, k). faults.1 (e, f, unsaid e g, k),
      ),
    )
  where
    unsaid : (e : Thrown) → ¬ Says no_key_words e → is_no_such_key e ≡ false
    unsaid e g = elim (Bool-cases (is_no_such_key e)) [
      | inl said ↦ absurd (g ((is_no_such_key_iff e).0 said))
      | inr silent ↦ silent
    ]
