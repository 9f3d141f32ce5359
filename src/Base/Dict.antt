-- ===== src/Base/Dict.antt =====
-- A JavaScript `Map` with string keys, in insertion order.
use mathlib.Core.Path.{◌≡◌, refl, ap, sym, ◌∙◌}
use mathlib.Core.Option.{Option, none, some}
use mathlib.Core.List.{List, [], ◌∷◌}
use mathlib.Core.Bool.{Bool, true}
use Prim.Native.Nat.{ℕ, suc}
use native.Mathlib.Omega.{arith}
use exfer_honor.Base.Tests.{if◌then◌else◌}
use exfer_honor.Base.Strings.{Text, text_eq, text_eq_iff}

abbrev pub Dict {ℓ} : Type ℓ → Type ℓ
Dict V = List (Text × V)

module _ {ℓ} {V : Type ℓ} where
  unfoldable pub lookup : Text → Dict V → Option V
  lookup k [] = none
  lookup k ((j, v) ∷ d) = if text_eq j k then some v else lookup k d

  unfoldable pub insert : Text → V → Dict V → Dict V
  insert k v [] = (k, v) ∷ []
  insert k v ((j, w) ∷ d) = if text_eq j k then (j, v) ∷ d else (j, w) ∷ insert k v d

  pub lookup-insert :
      (k j : Text) (v : V) (d : Dict V)
      → lookup j (insert k v d) ≡ (if text_eq k j then some v else lookup j d)
  unfolding lookup insert
  lookup-insert k j v [] = refl
  lookup-insert k j v ((i, w) ∷ d) =
      ground (arith, text_eq_iff k j, text_eq_iff i k, text_eq_iff i j, lookup-insert k j v d)

  -- No key stands twice.
  abbrev pub HasUniqueKeys : Dict V → Type ℓ
  HasUniqueKeys [] = Unit
  HasUniqueKeys ((k, v) ∷ d) = (lookup k d ≡ none) × HasUniqueKeys d

  -- The loop that deletes the entries whose value meets a condition, and how many it deletes.
  unfoldable pub delete_if : (V → Bool) → Dict V → Dict V
  delete_if p [] = []
  delete_if p ((k, v) ∷ d) = if p v then delete_if p d else (k, v) ∷ delete_if p d

  unfoldable pub count_values : (V → Bool) → Dict V → ℕ
  count_values p [] = 0
  count_values p ((k, v) ∷ d) = if p v then suc (count_values p d) else count_values p d

  abbrev pub values : Dict V → List V
  values [] = []
  values ((k, v) ∷ d) = v ∷ values d

  pub insert-HasUniqueKeys :
      (k : Text) (v : V) (d : Dict V) → HasUniqueKeys d → HasUniqueKeys (insert k v d)
  unfolding lookup insert
  insert-HasUniqueKeys k v [] u = (refl, tt)
  insert-HasUniqueKeys k v ((j, w) ∷ d) u = ground (
    arith,
    text_eq_iff j k,
    text_eq_iff k j,
    lookup-insert k j v d,
    insert-HasUniqueKeys k v d u.1,
  )

  lookup-delete_if-none :
      (k : Text) (p : V → Bool) (d : Dict V) → lookup k d ≡ none → lookup k (delete_if p d) ≡ none
  unfolding lookup delete_if
  lookup-delete_if-none k p [] h = refl
  lookup-delete_if-none k p ((j, v) ∷ d) h = ground (arith, lookup-delete_if-none k p d)

  pub delete_if-HasUniqueKeys :
      (p : V → Bool) (d : Dict V) → HasUniqueKeys d → HasUniqueKeys (delete_if p d)
  unfolding delete_if
  delete_if-HasUniqueKeys p [] u = tt
  delete_if-HasUniqueKeys p ((k, v) ∷ d) u =
      ground (arith, lookup-delete_if-none k p d, delete_if-HasUniqueKeys p d u.1)

  -- A value that the deletion keeps.
  abbrev pub kept : (V → Bool) → Option V → Option V
  kept p none = none
  kept p (some v) = if p v then none else some v

  lookup_at : (j k : Text) (d : Dict V) → text_eq j k ≡ true → lookup j d ≡ none → lookup k d ≡ none
  lookup_at j k d e h = sym (ap (λ i. lookup i d) ((text_eq_iff j k).0 e)) ∙ h

  pub lookup-delete_if :
      (k : Text) (p : V → Bool) (d : Dict V)
      → HasUniqueKeys d
      → lookup k (delete_if p d) ≡ kept p (lookup k d)
  unfolding lookup delete_if
  lookup-delete_if k p [] u = refl
  lookup-delete_if k p ((j, v) ∷ d) u =
      ground (arith, lookup-delete_if k p d u.1, lookup-delete_if-none k p d, lookup_at j k d)
