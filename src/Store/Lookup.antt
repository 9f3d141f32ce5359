-- ===== src/Store/Lookup.antt =====
-- A keyed table seen as a function of the key, with each row shown as a value: what an insert, an
-- update by key and a delete make of that function.
use mathlib.Core.Option
use mathlib.Core.Path.{fun_ext}
use exfer_honor.Base.{
  ◌≡◌, ap, Bool, true, false, ◌&&◌, Option, none, some, List, [], ◌∷◌, ◌++◌, ◌↔◌, arith,
  if◌then◌else◌, ◌∙◌, Bool-cases, inl, inr, ◌⊎◌,
}
use exfer_honor.Store.Table.{first, update, delete, updated, first-append}
use exfer_honor.Store.Keyed.{
  HasUniqueKeys, first-delete, kept, first_at, first-update_self, first-update_ne,
}

module _ {A K B : Type 0} (key_of : A → K) (has : K → A → Bool)
    (has_iff : (k : K) (r : A) → (has k r ≡ true) ↔ (key_of r ≡ k)) (same : K → K → Bool)
    (same_iff : (k j : K) → (same k j ≡ true) ↔ (k ≡ j))
    (has-same : (k : K) (r : A) → has k r ≡ same (key_of r) k) (value : A → B) where
  abbrev pub lookup : List A → K → Option B
  lookup rows = λ k. Option.map value (first (has k) rows)

  lookup-insert_at :
      (rows : List A) (r : A) (j : K)
      → first (has (key_of r)) rows ≡ none
      → lookup (rows ++ r ∷ []) j ≡ (if same (key_of r) j then some (value r) else lookup rows j)
  lookup-insert_at rows r j fresh = ground (
    arith,
    first-append (has j) rows r,
    has-same j r,
    same_iff (key_of r) j,
    first_at key_of has has_iff (key_of r) j rows,
  )

  -- A row with a fresh key shows at its key alone.
  pub lookup-insert :
      (rows : List A) (r : A)
      → first (has (key_of r)) rows ≡ none
      → ◌≡◌ {A = K → Option B}
          (lookup (rows ++ r ∷ []))
          (λ j. if same (key_of r) j then some (value r) else lookup rows j)
  lookup-insert rows r fresh = fun_ext λ j. lookup-insert_at rows r j fresh

  module _ (k : K) (c : A → Bool) (f : A → A) (keep : (j : K) (r : A) → has j (f r) ≡ has j r)
      (rows : List A) where
    lookup-update_at :
        (j : K)
        → lookup (update (λ r. has k r && c r) f rows) j ≡ (
            if same k j
            then Option.map value (Option.map (updated c f) (first (has k) rows))
            else lookup rows j)
    lookup-update_at j = elim (Bool-cases (same k j)) [
      | inl hit ↦
          rw (hit, ← (same_iff k j).0 hit)
            (ap (Option.map value) (first-update_self key_of has has_iff k c f rows (keep k)))
      | inr miss ↦ rw miss (
          ap (Option.map value) (
            first-update_ne key_of has has_iff k j c f rows (keep j)
              (λ e. ground (arith, same_iff k j))))
    ]

    -- An update by a key shows at that key alone.
    pub lookup-update : ◌≡◌ {A = K → Option B} (lookup (update (λ r. has k r && c r) f rows)) (λ j.
        if same k j
        then Option.map value (Option.map (updated c f) (first (has k) rows))
        else lookup rows j)
    lookup-update = fun_ext lookup-update_at

    unchanged :
        (first (has k) rows ≡ none) ⊎ ((r : A) × (first (has k) rows ≡ some r) × (c r ≡ false))
        → (j : K)
        → (if same k j
            then Option.map value (Option.map (updated c f) (first (has k) rows))
            else lookup rows j)
          ≡ lookup rows j
    unchanged h j = elim (Bool-cases (same k j)) [
      | inl hit ↦ rw (hit, ← (same_iff k j).0 hit) (ground arith)
      | inr miss ↦ rw miss
    ]

    -- An update whose row is missing or fails the condition changes nothing that shows.
    pub lookup-update_idle :
        (first (has k) rows ≡ none) ⊎ ((r : A) × (first (has k) rows ≡ some r) × (c r ≡ false))
        → ◌≡◌ {A = K → Option B} (lookup (update (λ r. has k r && c r) f rows)) (lookup rows)
    lookup-update_idle h = lookup-update ∙ fun_ext (unchanged h)

  -- A delete by a condition on the value hides the rows that meet it.
  pub lookup-delete :
      (d : A → Bool) (rows : List A)
      → HasUniqueKeys key_of has has_iff rows
      → ◌≡◌ {A = K → Option B}
          (lookup (delete d rows))
          (λ j. Option.map value (kept key_of has has_iff d (first (has j) rows)))
  lookup-delete d rows u =
      fun_ext λ j. ap (Option.map value) (first-delete key_of has has_iff j d rows u)
