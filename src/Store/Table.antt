-- ===== src/Store/Table.antt =====
-- A table as the list of its rows, and what the SQL statements of the stores do to one. A statement
-- that changes rows reports how many it changed.
use exfer_honor.Base.{
  ℕ, suc, ◌≡◌, refl, Bool, Option, none, some, List, [], ◌∷◌, ◌++◌, arith, if◌then◌else◌,
}
use mathlib.Core.Option

module _ {A : Type 0} where
  -- `SELECT … WHERE p`, all rows.
  unfoldable pub select : (A → Bool) → List A → List A
  select p [] = []
  select p (r ∷ rows) = if p r then r ∷ select p rows else select p rows

  -- `SELECT … WHERE p`, the first row.
  unfoldable pub first : (A → Bool) → List A → Option A
  first p [] = none
  first p (r ∷ rows) = if p r then some r else first p rows

  unfoldable pub count_if : (A → Bool) → List A → ℕ
  count_if p [] = 0
  count_if p (r ∷ rows) = if p r then suc (count_if p rows) else count_if p rows

  -- `UPDATE … SET f WHERE p`.
  unfoldable pub update : (A → Bool) → (A → A) → List A → List A
  update p f [] = []
  update p f (r ∷ rows) = (if p r then f r else r) ∷ update p f rows

  -- `DELETE … WHERE p`.
  unfoldable pub delete : (A → Bool) → List A → List A
  delete p [] = []
  delete p (r ∷ rows) = if p r then delete p rows else r ∷ delete p rows

  -- `a` if there is one, else `b`.
  abbrev pub or_else : Option A → Option A → Option A
  or_else none b = b
  or_else (some a) b = some a

  pub first-append :
      (p : A → Bool) (rows : List A) (r : A)
      → first p (rows ++ r ∷ []) ≡ or_else (first p rows) (if p r then some r else none)
  unfolding first
  first-append p [] r = refl
  first-append p (x ∷ rows) r = ground (arith, first-append p rows r)

  -- What an update makes of one row.
  abbrev pub updated : (A → Bool) → (A → A) → A → A
  updated p f r = if p r then f r else r

  -- A lookup by a condition that the update leaves alone finds the updated row.
  pub first-update :
      (q p : A → Bool) (f : A → A) (rows : List A)
      → ((r : A) → q (f r) ≡ q r)
      → first q (update p f rows) ≡ Option.map (updated p f) (first q rows)
  unfolding first update
  first-update q p f [] keep = refl
  first-update q p f (r ∷ rows) keep = ground (arith, keep r, first-update q p f rows keep)
