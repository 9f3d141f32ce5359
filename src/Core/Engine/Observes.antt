-- ===== src/Core/Engine/Observes.antt =====
-- `markObserved` of src/core/engine.ts over a `SqliteStore`: what it answers, and what it leaves in the
-- tables.
use mathlib.Core.Path.{fun_ext}
use exfer_honor.Base.{
  ℕ, ◌≡◌, refl, sym, ap, ◌∙◌, Bool, true, false, not, ◌&&◌, ◌||◌, Option, none, some, if◌then◌else◌,
  ltb, Bool-cases, Option-cases, inl, inr,
}
use exfer_honor.Spec.Types.{HonorKey, ObserveResult}
use exfer_honor.Spec.Errors.{ok}
use exfer_honor.Ports.Store.{SeenRow}
use exfer_honor.Ports.World.{World}
use exfer_honor.Ports.Effect.{Eff, pure, ◌>>=◌, ◌>>◌, >>=-ok}
use exfer_honor.Ports.Deps.{HonorDeps}
use exfer_honor.Store.Contract.{Gate, same_key, same_key_iff, put_row, observe}
use exfer_honor.Store.Sqlite.{mark_observed_before_expiry}
use exfer_honor.Store.Sqlite.View.{view}
use exfer_honor.Store.Sqlite.Refines.{get_seen-view, view-mark_observed}
use exfer_honor.Store.Sqlite.Port.{sqlite_store}
use exfer_honor.Core.Engine.{mark_observed, observe_row}

-- Putting a row back changes nothing.
put_row-known :
    {G : Type 0} (k : HonorKey) (r : SeenRow) (g : Gate G) → g.row k ≡ some r → put_row k r g ≡ g
put_row-known k r g e = ap (λ f. record g { row = f }) (fun_ext same)
  where
    same : (j : HonorKey) → (if same_key k j then some r else g.row j) ≡ g.row j
    same j = elim (Bool-cases (same_key k j)) [
      | inl hit ↦ rw hit (sym e ∙ ap g.row ((same_key_iff k j).0 hit))
      | inr miss ↦ rw miss refl
    ]

-- What `markObserved` answers of a row.
abbrev pub observation : ℕ → Option SeenRow → ObserveResult
observation observed_at none = record { observed_before_expiry = false; within_window = false }
observation observed_at (some r) = record {
  observed_before_expiry = ltb observed_at r.expires_at || r.observed_before_expiry;
  within_window = ltb observed_at r.expires_at;
}

module _ {E G : Type 0} (deps : HonorDeps (World E G) G) (is_sqlite : deps.store ≡ sqlite_store)
    (key : HonorKey) (observed_at : ℕ) (w : World E G) where
  writes :
      deps.store.mark_observed_before_expiry key observed_at w
      ≡ (ok tt, record w { db = mark_observed_before_expiry key observed_at w.db })
  writes = ap (λ s. s.mark_observed_before_expiry key observed_at w) is_sqlite

  observe_row-run :
      (r : SeenRow)
      → observe_row deps key observed_at r w ≡ (
        ok (observation observed_at (some r)),
        if ltb observed_at r.expires_at && not r.observed_before_expiry
            then record w { db = mark_observed_before_expiry key observed_at w.db }
            else w,
      )
  unfolding observe_row
  observe_row-run r = go (ltb observed_at r.expires_at) r.observed_before_expiry
    where
      go :
          (early latched : Bool)
          → (if early && not latched
                then deps.store.mark_observed_before_expiry key observed_at
                  >> pure (observation observed_at (some r))
                else pure (observation observed_at (some r)))
              w
            ≡ (
              ok (observation observed_at (some r)),
              if early && not latched
                  then record w { db = mark_observed_before_expiry key observed_at w.db }
                  else w,
            )
      go true false =
          >>=-ok (deps.store.mark_observed_before_expiry key observed_at)
            (λ _. pure (observation observed_at (some r))) w writes
      go true true = refl
      go false latched = refl

  observe_late :
      (g : Gate G) (r : SeenRow)
      → g.row key ≡ some r
      → ltb observed_at r.expires_at ≡ false
      → observe key observed_at g ≡ g
  observe_late g r e late = rw (observe, e) (rw late refl)

  observe_latched :
      (g : Gate G) (r : SeenRow)
      → g.row key ≡ some r
      → r.observed_before_expiry ≡ true
      → ltb observed_at r.expires_at ≡ true
      → observe key observed_at g ≡ g
  observe_latched g r e latched early =
      rw (observe, e)
        (rw early (
          put_row-known key (record r { observed_before_expiry = true }) g
            (e ∙ ap (λ b. some (record r { observed_before_expiry = b })) latched)))

  observed_view :
      (r : SeenRow)
      → (view w.db).row key ≡ some r
      → view
          (if ltb observed_at r.expires_at && not r.observed_before_expiry
            then record w { db = mark_observed_before_expiry key observed_at w.db }
            else w).db
        ≡ observe key observed_at (view w.db)
  observed_view r e = elim (Bool-cases (ltb observed_at r.expires_at)) [
    | inr late ↦
        ap (λ b. view (if b && not r.observed_before_expiry then marked else w).db) late
        ∙ sym (observe_late (view w.db) r e late)
    | inl early ↦
        ap (λ b. view (if b && not r.observed_before_expiry then marked else w).db) early
        ∙ elim (Bool-cases r.observed_before_expiry) [
          | inl latched ↦
              ap (λ b. view (if not b then marked else w).db) latched
              ∙ sym (observe_latched (view w.db) r e latched early)
          | inr fresh ↦
              ap (λ b. view (if not b then marked else w).db) fresh
              ∙ view-mark_observed key observed_at w.db
        ]
  ]
    where
      marked : World E G
      marked = record w { db = mark_observed_before_expiry key observed_at w.db }

  -- Over a `SqliteStore`, `markObserved` answers whether the time lies before the expiry of the row and
  -- whether the row is observed now, and leaves what the contract's observation leaves, a missing row
  -- included.
  pub mark_observed-observe :
      ((mark_observed deps key observed_at w).0
        ≡ ok (observation observed_at ((view w.db).row key)))
      × (view (mark_observed deps key observed_at w).1.db ≡ observe key observed_at (view w.db))
  unfolding mark_observed
  mark_observed-observe = elim (Option-cases ((view w.db).row key)) [
    | inl gone ↦
        let run = reads none gone in
        (
          ap (λ p. p.0) run ∙ ap (λ row. ok (observation observed_at row)) (sym gone),
          ap (λ p. view p.1.db) run ∙ sym (observe_gone gone),
        )
    | inr (r, e) ↦
        let run = reads (some r) e ∙ observe_row-run r in
        (
          ap (λ p. p.0) run ∙ ap (λ row. ok (observation observed_at row)) (sym e),
          ap (λ p. view p.1.db) run ∙ observed_view r e,
        )
  ]
    where
      after_row : Option SeenRow → Eff (World E G) ObserveResult
      after_row none = pure (record { observed_before_expiry = false; within_window = false })
      after_row (some r) = observe_row deps key observed_at r

      reads :
          (row : Option SeenRow)
          → (view w.db).row key ≡ row
          → (deps.store.get_seen key >>= after_row) w ≡ after_row row w
      reads row e = >>=-ok (deps.store.get_seen key) after_row w (
          ap (λ s. s.get_seen key w) is_sqlite
          ∙ ap (λ found. (ok found, w)) (get_seen-view key w.db ∙ e))

      observe_gone : (view w.db).row key ≡ none → observe key observed_at (view w.db) ≡ view w.db
      observe_gone gone = rw (observe, gone) refl
