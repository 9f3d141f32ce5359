-- ===== src/Ports/Alike.antt =====
-- Two renderings of a call over different states (an engine over one store and over another): from related
-- states they end alike, in related states.
use exfer_honor.Base.{◌≡◌, refl, subst, Bool, true, false, Option, none, some, if◌then◌else◌}
use exfer_honor.Spec.Errors.{Thrown, Result, ok, throw}
use exfer_honor.Ports.Effect.{Eff, pure, raise, continue, ◌>>=◌, handled, try_catch}

module _ {V W : Type 0} (R : V → W → Type 0) where
  abbrev pub EndAlike : {A : Type 0} → Result A × V → Result A × W → Type 0
  EndAlike p q = (p.0 ≡ q.0) × R p.1 q.1

  abbrev pub Alike : {A : Type 0} → Eff V A → Eff W A → Type 0
  Alike m n = (v : V) (w : W) → R v w → EndAlike (m v) (n w)

  pub pure-Alike : {A : Type 0} (a : A) → Alike (pure a) (pure a)
  pure-Alike a v w r = (refl, r)

  pub raise-Alike : {A : Type 0} (e : Thrown) → Alike {A = A} (raise e) (raise e)
  raise-Alike e v w r = (refl, r)

  continue_alike :
      {A B : Type 0} (f : A → Eff V B) (g : A → Eff W B) (x y : Result A) (v : V) (w : W)
      → x ≡ y
      → R v w
      → ((a : A) → Alike (f a) (g a))
      → EndAlike (continue f (x, v)) (continue g (y, w))
  continue_alike f g (ok a) y v w e r k =
      subst (λ z. EndAlike (f a v) (continue g (z, w))) e (k a v w r)
  continue_alike f g (throw t) y v w e r k =
      subst (λ z. EndAlike (throw t, v) (continue g (z, w))) e (refl, r)

  pub >>=-Alike :
      {A B : Type 0} {m : Eff V A} {n : Eff W A} {f : A → Eff V B} {g : A → Eff W B}
      → Alike m n
      → ((a : A) → Alike (f a) (g a))
      → Alike (m >>= f) (n >>= g)
  >>=-Alike {m} {n} {f} {g} h k v w r =
      let (e, s) = h v w r in continue_alike f g (m v).0 (n w).0 (m v).1 (n w).1 e s k

  handled_alike :
      {A : Type 0} (f : Thrown → Eff V A) (g : Thrown → Eff W A) (x y : Result A) (v : V) (w : W)
      → x ≡ y
      → R v w
      → ((e : Thrown) → Alike (f e) (g e))
      → EndAlike (handled f (x, v)) (handled g (y, w))
  handled_alike f g (ok a) y v w e r k =
      subst (λ z. EndAlike (ok a, v) (handled g (z, w))) e (refl, r)
  handled_alike f g (throw t) y v w e r k =
      subst (λ z. EndAlike (f t v) (handled g (z, w))) e (k t v w r)

  pub try_catch-Alike :
      {A : Type 0} {m : Eff V A} {n : Eff W A} {f : Thrown → Eff V A} {g : Thrown → Eff W A}
      → Alike m n
      → ((e : Thrown) → Alike (f e) (g e))
      → Alike (try_catch m f) (try_catch n g)
  try_catch-Alike {m} {n} {f} {g} h k v w r =
      let (e, s) = h v w r in handled_alike f g (m v).0 (n w).0 (m v).1 (n w).1 e s k

  pub if-Alike :
      {A : Type 0} (b : Bool) {m m' : Eff V A} {n n' : Eff W A}
      → Alike m n
      → Alike m' n'
      → Alike (if b then m else m') (if b then n else n')
  if-Alike true h k = h
  if-Alike false h k = k

  pub Option-Alike :
      {A B : Type 0} (x : Option B) {m : Eff V A} {n : Eff W A} {f : B → Eff V A} {g : B → Eff W A}
      → Alike m n
      → ((b : B) → Alike (f b) (g b))
      → Alike (elim x [ none ↦ m | some b ↦ f b ]) (elim x [ none ↦ n | some b ↦ g b ])
  Option-Alike none h k = h
  Option-Alike (some b) h k = k b
