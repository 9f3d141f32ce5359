-- ===== src/Store/Amount.antt =====
-- Amounts cross the persistence boundary as decimal text: `amountToText` of
-- src/adapters/sqlite-store.ts, and the `BigInt` of its `rowFromSql` on such a text.
use exfer_honor.Base.{
  ℕ, zero, suc, ◌+◌, ◌-◌, ◌*◌, ◌/◌, ◌%◌, ◌<◌, ◌≡◌, Text, [], ◌∷◌, ◌++◌, arith, ltb, if◌then◌else◌,
  Bool, true, ◌&&◌, Bool-cases, inl, inr, leb, ◌==◌, ==_iff, text_eq, text_eq_iff, all, ap, sym,
  ◌∙◌, refl,
}

abbrev digit : ℕ → ℕ
digit d = d + 48

-- The digits of a number, most significant first; the first argument is fuel.
digits : ℕ → ℕ → Text
digits zero n = []
digits (suc fuel) n =
    let leading = digits fuel (n / 10) in
    if ltb n 10 then digit n ∷ [] else leading ++ digit (n % 10) ∷ []

unfoldable pub amount_to_text : ℕ → Text
unfolding digits
amount_to_text v = digits (suc v) v

read_digits : ℕ → Text → ℕ
read_digits acc [] = acc
read_digits acc (c ∷ s) = read_digits (acc * 10 + (c - 48)) s

unfoldable pub text_to_amount : Text → ℕ
unfolding read_digits
text_to_amount s = read_digits 0 s

read_digits-append :
    (acc : ℕ) (s : Text) (d : ℕ) → read_digits acc (s ++ digit d ∷ []) ≡ read_digits acc s * 10 + d
unfolding read_digits
read_digits-append acc [] d = omega arith
read_digits-append acc (c ∷ s) d = read_digits-append (acc * 10 + (c - 48)) s d

read_digits-digits : (fuel n : ℕ) → n < fuel → read_digits 0 (digits fuel n) ≡ n
unfolding digits
read_digits-digits zero n h = absurd (omega arith)
read_digits-digits (suc fuel) n h = elim (Bool-cases (ltb n 10)) [
  | inl small ↦ rw small (unfold read_digits in omega arith)
  | inr large ↦ rw large (
      omega (
        arith,
        read_digits-append 0 (digits fuel (n / 10)) (n % 10),
        read_digits-digits fuel (n / 10) (ground arith),
      ))
]

-- An amount of any size is read back as it was written.
pub text_to_amount-amount_to_text : (v : ℕ) → text_to_amount (amount_to_text v) ≡ v
unfolding text_to_amount amount_to_text
text_to_amount-amount_to_text v = read_digits-digits (suc v) v (omega arith)

abbrev pub is_digit : ℕ → Bool
is_digit c = leb b'0' c && leb c b'9'

all_digits-append :
    (s t : Text) → all is_digit s ≡ true → all is_digit t ≡ true → all is_digit (s ++ t) ≡ true
all_digits-append [] t hs ht = ht
all_digits-append (c ∷ s) t hs ht = ground (arith, all_digits-append s t)

all-digits : (fuel n : ℕ) → all is_digit (digits fuel n) ≡ true
unfolding digits
all-digits zero n = refl
all-digits (suc fuel) n = elim (Bool-cases (ltb n 10)) [
  | inl small ↦ rw small (ground arith)
  | inr large ↦ rw large (
      all_digits-append (digits fuel (n / 10)) (digit (n % 10) ∷ []) (all-digits fuel (n / 10))
        (ground arith))
]

-- An amount is written in decimal digits.
pub all_digits-amount_to_text : (v : ℕ) → all is_digit (amount_to_text v) ≡ true
unfolding amount_to_text
all_digits-amount_to_text v = all-digits (suc v) v

pub text_eq-amount_to_text : (v w : ℕ) → text_eq (amount_to_text v) (amount_to_text w) ≡ (v == w)
text_eq-amount_to_text v w = elim (Bool-cases (v == w)) [
  | inl same ↦ rw same ((text_eq_iff _ _).1 (ap amount_to_text ((==_iff v w).0 same)))
  | inr other ↦ ground (arith, text_eq_iff (amount_to_text v) (amount_to_text w), amounts_eq v w)
]
  where
    amounts_eq : (v w : ℕ) → amount_to_text v ≡ amount_to_text w → v ≡ w
    amounts_eq v w e =
        sym (text_to_amount-amount_to_text v)
        ∙ ap text_to_amount e
        ∙ text_to_amount-amount_to_text w
