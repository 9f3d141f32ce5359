-- ===== src/Ports/Effect.antt =====
-- An asynchronous call: it reads and changes the state, and ends with a value or a throw. What other
-- tasks do while a call is awaited is part of what the call does to the state.
use exfer_honor.Base.{◌≡◌, ap, refl, subst, arith, ◌⊎◌, inl, inr}
use exfer_honor.Spec.Errors.{Thrown, Result, ok, throw}

abbrev pub Eff : Type 0 → Type 0 → Type 0
Eff W A = W → Result A × W

abbrev pub pure : {W A : Type 0} → A → Eff W A
pure a w = (ok a, w)

abbrev pub raise : {W A : Type 0} → Thrown → Eff W A
raise e w = (throw e, w)

abbrev pub continue : {W A B : Type 0} → (A → Eff W B) → Result A × W → Result B × W
continue f (ok a, w) = f a w
continue f (throw e, w) = (throw e, w)

infixl 5 ◌>>=◌ ◌>>◌
abbrev pub ◌>>=◌ : {W A B : Type 0} → Eff W A → (A → Eff W B) → Eff W B
◌>>=◌ m f w = continue f (m w)

abbrev pub ◌>>◌ : {W B : Type 0} → Eff W Unit → Eff W B → Eff W B
m >> k = m >>= λ _. k

abbrev pub handled : {W A : Type 0} → (Thrown → Eff W A) → Result A × W → Result A × W
handled h (ok a, w) = (ok a, w)
handled h (throw e, w) = h e w

-- `try { m } catch (e) { h(e) }`.
abbrev pub try_catch : {W A : Type 0} → Eff W A → (Thrown → Eff W A) → Eff W A
try_catch m h w = handled h (m w)

module _ {W A B : Type 0} (m : Eff W A) (f : A → Eff W B) (w : W) where
  pub >>=-throw : {e : Thrown} {after : W} → m w ≡ (throw e, after) → (m >>= f) w ≡ (throw e, after)
  >>=-throw h = ap (continue f) h

  pub >>=-ok : {a : A} {after : W} → m w ≡ (ok a, after) → (m >>= f) w ≡ f a after
  >>=-ok h = ap (continue f) h

-- What a sequence that succeeds went through.
continue-eq-ok :
    {W A B : Type 0} (f : A → Eff W B) (p : Result A × W) {b : B} {after : W}
    → continue f p ≡ (ok b, after)
    → (a : A) × (w : W) × (p ≡ (ok a, w)) × (f a w ≡ (ok b, after))
continue-eq-ok f (ok a, w) h = (a, w, refl, h)
continue-eq-ok f (throw e, w) h = absurd (ground arith)

pub >>=-eq-ok :
    {W A B : Type 0} (m : Eff W A) (f : A → Eff W B) (w : W) {b : B} {after : W}
    → (m >>= f) w ≡ (ok b, after)
    → (a : A) × (w₁ : W) × (m w ≡ (ok a, w₁)) × (f a w₁ ≡ (ok b, after))
>>=-eq-ok m f w h = continue-eq-ok f (m w) h

handled-eq-ok :
    {W A : Type 0} (f : Thrown → Eff W A) (p : Result A × W) {a : A} {after : W}
    → handled f p ≡ (ok a, after)
    → (p ≡ (ok a, after)) ⊎ ((e : Thrown) × (w : W) × (p ≡ (throw e, w)) × (f e w ≡ (ok a, after)))
handled-eq-ok f (ok a, w) h = inl h
handled-eq-ok f (throw e, w) h = inr (e, w, refl, h)

pub try_catch-eq-ok :
    {W A : Type 0} (m : Eff W A) (f : Thrown → Eff W A) (w : W) {a : A} {after : W}
    → try_catch m f w ≡ (ok a, after)
    → (m w ≡ (ok a, after))
      ⊎ ((e : Thrown) × (w₁ : W) × (m w ≡ (throw e, w₁)) × (f e w₁ ≡ (ok a, after)))
try_catch-eq-ok m f w h = handled-eq-ok f (m w) h

-- What a call that succeeds may return.
abbrev pub Returns : {W A : Type 0} → (A → Type 0) → Eff W A → Type 0
Returns {W = W} P m = (w after : W) (a : _) → m w ≡ (ok a, after) → P a

pub pure-Returns : {W A : Type 0} (P : A → Type 0) (a : A) → P a → Returns {W = W} P (pure a)
pure-Returns P a p w after b h = subst P (ground arith) p

pub >>=-Returns :
    {W A B : Type 0} (P : B → Type 0) (m : Eff W A) (f : A → Eff W B)
    → ((a : A) → Returns P (f a))
    → Returns P (m >>= f)
>>=-Returns P m f k w after b h = let (a, w₁, e, g) = >>=-eq-ok m f w h in k a w₁ after b g
