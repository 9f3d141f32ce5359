-- ===== src/Store/Fake/Keys.antt =====
-- The string keys of `FakeSyncStore` (src/core/fakes.test-helpers.ts): a colon joins the two parts of a key,
-- and the second part of a row's key is a quote id, which has none.
use exfer_honor.Base.{
  ◌≡◌, refl, Text, text_eq, Bool, true, false, not, ◌&&◌, [], ◌∷◌, ◌++◌, arith, ◌==◌, all, ◌∙◌, ap,
}
use exfer_honor.Spec.Types.{Outpoint, HonorKey}
use exfer_honor.Store.Amount.{
  amount_to_text, is_digit, all_digits-amount_to_text, text_eq-amount_to_text,
}
use exfer_honor.Store.Contract.{same_key, same_outpoint}
use exfer_honor.Store.Fake.{row_key, outpoint_key}

abbrev is_plain : Text → Bool
is_plain = all (λ c. not (c == b':'))

-- The quote id of the key has no colon.
abbrev pub IsPlainKey : HonorKey → Type 0
IsPlainKey k = is_plain k.quote_id ≡ true

plain_ne : (q t r : Text) → is_plain q ≡ true → text_eq q (t ++ b':' ∷ r) ≡ false
unfolding text_eq
plain_ne [] [] r h = refl
plain_ne [] (c ∷ t) r h = refl
plain_ne (d ∷ q) [] r h = ground arith
plain_ne (d ∷ q) (c ∷ t) r h = ground (arith, plain_ne q t r)

ne_plain : (q t r : Text) → is_plain q ≡ true → text_eq (t ++ b':' ∷ r) q ≡ false
unfolding text_eq
ne_plain [] [] r h = refl
ne_plain [] (c ∷ t) r h = refl
ne_plain (d ∷ q) [] r h = ground arith
ne_plain (d ∷ q) (c ∷ t) r h = ground (arith, ne_plain q t r)

-- A joined text is equal to another exactly where both parts are.
text_eq-joined :
    (s t q r : Text)
    → is_plain q ≡ true
    → is_plain r ≡ true
    → text_eq (s ++ b':' ∷ q) (t ++ b':' ∷ r) ≡ (text_eq s t && text_eq q r)
unfolding text_eq
text_eq-joined [] [] q r hq hr = refl
text_eq-joined [] (c ∷ t) q r hq hr = ground (arith, plain_ne q t r hq)
text_eq-joined (c ∷ s) [] q r hq hr = ground (arith, ne_plain r s q hr)
text_eq-joined (c ∷ s) (d ∷ t) q r hq hr = ground (arith, text_eq-joined s t q r hq hr)

digits-plain : (s : Text) → all is_digit s ≡ true → is_plain s ≡ true
digits-plain [] h = refl
digits-plain (c ∷ s) h = ground (arith, digits-plain s)

pub row_key-same :
    (k j : HonorKey) → IsPlainKey k → IsPlainKey j → text_eq (row_key k) (row_key j) ≡ same_key k j
unfolding row_key same_key
row_key-same k j hk hj = text_eq-joined k.signer_pubkey j.signer_pubkey k.quote_id j.quote_id hk hj

pub outpoint_key-same :
    (o p : Outpoint) → text_eq (outpoint_key o) (outpoint_key p) ≡ same_outpoint o p
unfolding outpoint_key same_outpoint
outpoint_key-same o p =
    text_eq-joined o.tx_id p.tx_id (amount_to_text o.output_index) (amount_to_text p.output_index)
      (digits-plain (amount_to_text o.output_index) (all_digits-amount_to_text o.output_index))
      (digits-plain (amount_to_text p.output_index) (all_digits-amount_to_text p.output_index))
    ∙ ap (λ b. text_eq o.tx_id p.tx_id && b) (text_eq-amount_to_text o.output_index p.output_index)
