-- ===== src/Store/Keyed.antt =====
-- A table with a primary key: what a lookup by key finds after each statement, and the uniqueness
-- of the keys that the statements keep.
use mathlib.Core.Option
use exfer_honor.Base.{
  ◌≢◌, ℕ, ◌≡◌, refl, Bool, true, false, ◌&&◌, Option, none, some, List, [], ◌∷◌, ◌++◌, arith,
  if◌then◌else◌, ◌↔◌, ap, sym, ◌∙◌,
}
use exfer_honor.Store.Table.{first, count_if, update, delete, updated, first-append}

module _ {A K : Type 0} (key_of : A → K) (has : K → A → Bool)
    (has_iff : (k : K) (r : A) → (has k r ≡ true) ↔ (key_of r ≡ k)) where
  -- No two rows have one key.
  abbrev pub HasUniqueKeys : List A → Type 0
  HasUniqueKeys [] = Unit
  HasUniqueKeys (r ∷ rows) = (first (has (key_of r)) rows ≡ none) × HasUniqueKeys rows

  has_self : (r : A) → has (key_of r) r ≡ true
  has_self r = (has_iff (key_of r) r).1 refl

  count_if_absent :
      (k : K) (c : A → Bool) (rows : List A)
      → first (has k) rows ≡ none
      → count_if (λ r. has k r && c r) rows ≡ 0
  unfolding first count_if
  count_if_absent k c [] h = refl
  count_if_absent k c (r ∷ rows) h = ground (arith, count_if_absent k c rows)

  first_of_key :
      (k : K) (r : A) (rows : List A)
      → has k r ≡ true
      → first (has (key_of r)) rows ≡ none
      → first (has k) rows ≡ none
  first_of_key k r rows h e = ap (λ j. first (has j) rows) (sym ((has_iff k r).0 h)) ∙ e

  abbrev pub as_count : Bool → ℕ
  as_count b = if b then 1 else 0

  -- How many rows a statement changes that names a key and a condition: one, if the row of that key
  -- meets the condition, and none otherwise.
  pub count_if-first :
      (k : K) (c : A → Bool) (rows : List A)
      → HasUniqueKeys rows
      → count_if (λ r. has k r && c r) rows
        ≡ elim (first (has k) rows) [ none ↦ 0 | some r ↦ as_count (c r) ]
  unfolding first count_if
  count_if-first k c [] u = refl
  count_if-first k c (r ∷ rows) u =
      ground (arith, count_if-first k c rows u.1, first_of_key k r rows, count_if_absent k c rows)

  -- Rows that keep their keys keep them unique.
  first-update-none :
      (k : K) (p : A → Bool) (f : A → A) (rows : List A)
      → ((r : A) → has k (f r) ≡ has k r)
      → first (has k) rows ≡ none
      → first (has k) (update p f rows) ≡ none
  unfolding first update
  first-update-none k p f [] keep h = refl
  first-update-none k p f (r ∷ rows) keep h =
      ground (arith, keep r, first-update-none k p f rows keep)

  pub update-HasUniqueKeys :
      (p : A → Bool) (f : A → A) (rows : List A)
      → ((r : A) → key_of (f r) ≡ key_of r)
      → ((k : K) (r : A) → has k (f r) ≡ has k r)
      → HasUniqueKeys rows
      → HasUniqueKeys (update p f rows)
  unfolding update
  update-HasUniqueKeys p f [] same keep u = tt
  update-HasUniqueKeys p f (r ∷ rows) same keep u = ground (
    arith,
    same r,
    first-update-none (key_of r) p f rows (keep (key_of r)),
    update-HasUniqueKeys p f rows same keep u.1,
  )

  pub append-HasUniqueKeys :
      (rows : List A) (r : A)
      → HasUniqueKeys rows
      → first (has (key_of r)) rows ≡ none
      → HasUniqueKeys (rows ++ r ∷ [])
  unfolding first
  append-HasUniqueKeys [] r u e = (refl, tt)
  append-HasUniqueKeys (x ∷ rows) r u e = ground (
    arith,
    first-append (has (key_of x)) rows r,
    has_iff (key_of x) r,
    has_iff (key_of r) x,
    append-HasUniqueKeys rows r u.1,
  )

  first-delete-none :
      (k : K) (d : A → Bool) (rows : List A)
      → first (has k) rows ≡ none
      → first (has k) (delete d rows) ≡ none
  unfolding first delete
  first-delete-none k d [] h = refl
  first-delete-none k d (r ∷ rows) h = ground (arith, first-delete-none k d rows)

  pub delete-HasUniqueKeys :
      (d : A → Bool) (rows : List A) → HasUniqueKeys rows → HasUniqueKeys (delete d rows)
  unfolding delete
  delete-HasUniqueKeys d [] u = tt
  delete-HasUniqueKeys d (r ∷ rows) u =
      ground (arith, first-delete-none (key_of r) d rows, delete-HasUniqueKeys d rows u.1)

  -- A row that is kept, or `none`.
  abbrev pub kept : (A → Bool) → Option A → Option A
  kept d none = none
  kept d (some r) = if d r then none else some r

  -- After a delete a lookup finds the row of that key if it was kept, and nothing otherwise.
  pub first-delete :
      (k : K) (d : A → Bool) (rows : List A)
      → HasUniqueKeys rows
      → first (has k) (delete d rows) ≡ kept d (first (has k) rows)
  unfolding first delete
  first-delete k d [] u = refl
  first-delete k d (r ∷ rows) u =
      ground (arith, first-delete k d rows u.1, first_of_key k r rows, first-delete-none k d rows)

  -- What an update by a key and a condition makes of the row of that key.
  pub first-update_self :
      (k : K) (c : A → Bool) (f : A → A) (rows : List A)
      → ((r : A) → has k (f r) ≡ has k r)
      → first (has k) (update (λ r. has k r && c r) f rows)
        ≡ Option.map (updated c f) (first (has k) rows)
  unfolding first update
  first-update_self k c f [] keep = refl
  first-update_self k c f (r ∷ rows) keep =
      ground (arith, keep r, first-update_self k c f rows keep)

  -- It leaves the row of any other key alone.
  pub first-update_ne :
      (k j : K) (c : A → Bool) (f : A → A) (rows : List A)
      → ((r : A) → has j (f r) ≡ has j r)
      → k ≢ j
      → first (has j) (update (λ r. has k r && c r) f rows) ≡ first (has j) rows
  unfolding first update
  first-update_ne k j c f [] keep ne = refl
  first-update_ne k j c f (r ∷ rows) keep ne =
      ground (arith, keep r, has_iff k r, has_iff j r, first-update_ne k j c f rows keep)

  pub first_at :
      (k j : K) (rows : List A) → k ≡ j → first (has k) rows ≡ none → first (has j) rows ≡ none
  first_at k j rows e h = sym (ap (λ i. first (has i) rows) e) ∙ h

  first_and-none :
      (k : K) (q : A → Bool) (rows : List A)
      → first (has k) rows ≡ none
      → first (λ r. has k r && q r) rows ≡ none
  unfolding first
  first_and-none k q [] h = refl
  first_and-none k q (r ∷ rows) h = ground (arith, first_and-none k q rows)

  -- Whether a row of a key meets a condition, by the row of that key.
  abbrev pub is_met : (A → Bool) → Option A → Bool
  is_met q none = false
  is_met q (some r) = q r

  pub is_met-first_and :
      (k : K) (q : A → Bool) (rows : List A)
      → HasUniqueKeys rows
      → is_met (λ _. true) (first (λ r. has k r && q r) rows) ≡ is_met q (first (has k) rows)
  unfolding first
  is_met-first_and k q [] u = refl
  is_met-first_and k q (r ∷ rows) u =
      ground (arith, is_met-first_and k q rows u.1, first_and-none k q rows, first_of_key k r rows)
