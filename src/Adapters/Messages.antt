-- ===== src/Adapters/Messages.antt =====
-- What the adapters read of a thrown value: its `message`, in lower case, and the phrases in it.
use exfer_honor.Base.{
  ℕ, ◌+◌, Text, Bool, true, false, ◌&&◌, ◌||◌, Option, none, some, [], ◌∷◌, leb, ◌==◌,
  if◌then◌else◌, List, ◌++◌, ◌≡◌, ◌↔◌, ◌⊎◌, inl, inr, refl, subst, arith, Bool-cases,
}
use exfer_honor.Spec.Errors.{Thrown}

-- The lower case of a code unit: of an ASCII letter, of the Kelvin sign, which is "k", and of the
-- capital I with a dot, which is two code units. Every other letter has a lower case beyond ASCII and
-- is left as it is: no phrase that the adapters look for holds one.
abbrev pub lower_code : ℕ → Text
lower_code c =
    if leb b'A' c && leb c b'Z'
    then (c + 32) ∷ []
    else if c == 8490
    then b'k' ∷ []
    else if c == 304
    then 105 ∷ 775 ∷ []
    else c ∷ []

append_text : Text → Text → Text
append_text [] t = t
append_text (c ∷ s) t = c ∷ append_text s t

-- `toLowerCase()`.
unfoldable pub to_lower_case : Text → Text
unfolding append_text
to_lower_case [] = []
to_lower_case (c ∷ s) = append_text (lower_code c) (to_lower_case s)

-- `startsWith`.
unfoldable pub starts_with : Text → Text → Bool
starts_with s [] = true
starts_with [] (d ∷ t) = false
starts_with (c ∷ s) (d ∷ t) = c == d && starts_with s t

-- `includes`.
unfoldable pub includes : Text → Text → Bool
unfolding starts_with
includes [] t = starts_with [] t
includes (c ∷ s) t = starts_with (c ∷ s) t || includes s t

-- One of the phrases stands in the text.
abbrev pub includes_any : List Text → Text → Bool
includes_any [] s = false
includes_any (t ∷ phrases) s = includes s t || includes_any phrases s

-- The `message` of what a transport throws; the texts of the library's own errors are left out, and a
-- transport throws none of them.
abbrev pub message_of : Thrown → Option Text
message_of (Thrown.plain_error code message) = some message
message_of (Thrown.honor_error code) = none
message_of (Thrown.gate_violation kind) = none
message_of (Thrown.from_deliver e) = message_of e

abbrev pub code_of : Thrown → Option ℕ
code_of (Thrown.plain_error code message) = code
code_of (Thrown.honor_error code) = none
code_of (Thrown.gate_violation kind) = none
code_of (Thrown.from_deliver e) = code_of e

-- A test of the message, which fails where there is none.
abbrev pub message_test : (Text → Bool) → Thrown → Bool
message_test p e = elim (message_of e) [ none ↦ false | some message ↦ p message ]

-- A phrase stands in a text.
abbrev pub Contains : Text → Text → Type 0
Contains t s = (before after : Text) × (s ≡ before ++ t ++ after)

starts_with_iff : (s t : Text) → (starts_with s t ≡ true) ↔ ((after : Text) × (s ≡ t ++ after))
unfolding starts_with
starts_with_iff s [] = (λ h. (s, refl), λ h. refl)
starts_with_iff [] (d ∷ t) = (λ h. absurd (ground arith), λ (after, e). absurd (ground arith))
starts_with_iff (c ∷ s) (d ∷ t) =
    let rest = starts_with_iff s t in
    (
      λ h. let (after, e) = rest.0 (ground arith) in (after, ground arith),
      λ (after, e). let tail = rest.1 (after, ground arith) in ground arith,
    )

includes_start : (s t : Text) → starts_with s t ≡ true → includes s t ≡ true
unfolding includes
includes_start [] t h = h
includes_start (c ∷ s) t h = ground arith

includes_within : (before s t after : Text) → s ≡ before ++ t ++ after → includes s t ≡ true
unfolding includes
includes_within [] s t after e = includes_start s t ((starts_with_iff s t).1 (after, e))
includes_within (b ∷ before) [] t after e = absurd (ground arith)
includes_within (b ∷ before) (c ∷ s) t after e =
    let tail = includes_within before s t after (ground arith) in ground arith

includes_iff : (s t : Text) → (includes s t ≡ true) ↔ Contains t s
unfolding includes
includes_iff [] t = (
  λ h. let (after, e) = (starts_with_iff [] t).0 h in ([], after, e),
  λ (before, after, e). includes_within before [] t after e,
)
includes_iff (c ∷ s) t = (
  λ h. elim (Bool-cases (starts_with (c ∷ s) t)) [
    | inl found ↦ let (after, e) = (starts_with_iff (c ∷ s) t).0 found in ([], after, e)
    | inr other ↦
        let (before, after, e) = (includes_iff s t).0 (ground arith) in
        (c ∷ before, after, ground arith)
  ],
  λ (before, after, e). includes_within before (c ∷ s) t after e,
)

-- One of the phrases stands in a text, and in the lower case of the message of what was thrown.
abbrev pub HoldsOne : List Text → Text → Type 0
HoldsOne [] s = ⊥
HoldsOne (t ∷ phrases) s = Contains t s ⊎ HoldsOne phrases s

abbrev pub Says : List Text → Thrown → Type 0
Says phrases e =
    (message : Text) × (message_of e ≡ some message) × HoldsOne phrases (to_lower_case message)

includes_any_iff :
    (phrases : List Text) (s : Text) → (includes_any phrases s ≡ true) ↔ HoldsOne phrases s
includes_any_iff [] s = (λ h. absurd (ground arith), λ h. absurd h)
includes_any_iff (t ∷ phrases) s = (
  λ h. elim (Bool-cases (includes s t)) [
    | inl found ↦ inl ((includes_iff s t).0 found)
    | inr other ↦ inr ((includes_any_iff phrases s).0 (ground arith))
  ],
  λ d. elim d [
    | inl c ↦ let found = (includes_iff s t).1 c in ground arith
    | inr rest ↦ let found = (includes_any_iff phrases s).1 rest in ground arith
  ],
)

pub message_test-Says :
    (phrases : List Text) (e : Thrown)
    → (message_test (λ message. includes_any phrases (to_lower_case message)) e ≡ true)
      ↔ Says phrases e
message_test-Says phrases (Thrown.plain_error code message) = (
  λ h. (message, refl, (includes_any_iff phrases (to_lower_case message)).0 h),
  λ (m, f, g).
      (includes_any_iff phrases (to_lower_case message)).1
        (subst (λ x. HoldsOne phrases (to_lower_case x)) (ground arith) g),
)
message_test-Says phrases (Thrown.honor_error code) =
    (λ h. absurd (ground arith), λ (m, f, g). absurd (ground arith))
message_test-Says phrases (Thrown.gate_violation kind) =
    (λ h. absurd (ground arith), λ (m, f, g). absurd (ground arith))
message_test-Says phrases (Thrown.from_deliver e) = message_test-Says phrases e
