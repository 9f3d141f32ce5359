-- ===== src/Store/Sqlite/History/Outpoints.antt =====
-- One to one: over any history a `SqliteStore` commits at most one honor on an outpoint, while the
-- outpoint is retained.
use exfer_honor.Base.{
  ℕ, ◌≤◌, ◌≡◌, refl, true, false, List, [], ◌∷◌, arith, Bool-cases, &&_true, inl, inr, ◌∙◌, subst,
  sym,
}
use exfer_honor.Spec.Types.{Outpoint}
use exfer_honor.Store.Rows.{Db}
use exfer_honor.Store.Contract.{Gate, same_outpoint, same_outpoint_iff, honor}
use exfer_honor.Store.Contract.Held.{
  IsHeld, accept-IsHeld, observe-IsHeld, reserve-IsHeld, swept-IsHeld, honor-held, honor-IsHeld,
  honor-holds,
}
use exfer_honor.Store.Sqlite.{max_safe_integer, after_deliver}
use exfer_honor.Store.Sqlite.View.{view, IsWellFormed}
use exfer_honor.Store.Sqlite.History.{
  Call, is_ok-true, step, consumes, consumed_times, effect, step-IsWellFormed, shows,
  run_honor_txn-answer,
}

module _ {G : Type 0} (horizon : ℕ) where
  -- Honors retain their outpoint at least to the horizon, and sweeps come no later than it.
  abbrev pub IsWithin : Call G → Type 0
  IsWithin (Call.honors arg) = horizon ≤ arg.retain_until
  IsWithin (Call.sweeps now) = now ≤ horizon
  IsWithin _ = Unit

  abbrev pub AreWithin : List (Call G) → Type 0
  AreWithin [] = Unit
  AreWithin (c ∷ cs) = IsWithin c × AreWithin cs

  effect-IsHeld :
      (c : Call G) (o : Outpoint) (g : Gate G)
      → IsWithin c
      → IsHeld o horizon g
      → IsHeld o horizon (effect c g)
  effect-IsHeld (Call.accepts a at retain_until) o g w h =
      accept-IsHeld a at retain_until horizon o g h
  effect-IsHeld (Call.observes k now) o g w h = observe-IsHeld k now horizon o g h
  effect-IsHeld (Call.reserves k p claim_tx_id) o g w h =
      reserve-IsHeld k p max_safe_integer horizon o g h
  effect-IsHeld (Call.honors arg) o g w h = honor-IsHeld after_deliver arg g horizon o h
  effect-IsHeld (Call.sweeps now) o g w h = swept-IsHeld now horizon o g w h

  consumes-held :
      (c : Call G) (o : Outpoint) (db : Db G)
      → IsWellFormed db
      → IsHeld o horizon (view db)
      → consumes o c db ≡ false
  unfolding consumes
  consumes-held (Call.honors arg) o db u h = elim (Bool-cases (same_outpoint arg.outpoint o)) [
    | inr other ↦ rw other
    | inl same ↦
        let (e, fails) = honor-held after_deliver arg (view db) horizon (
          subst (λ p. IsHeld p horizon (view db)) (sym ((same_outpoint_iff arg.outpoint o).0 same))
            h) in
        rw (same, run_honor_txn-answer arg db u, fails)
  ]
  consumes-held c o db u h = refl

  consumes-holds :
      (c : Call G) (o : Outpoint) (db : Db G)
      → IsWellFormed db
      → IsWithin c
      → consumes o c db ≡ true
      → IsHeld o horizon (effect c (view db))
  unfolding consumes
  consumes-holds (Call.honors arg) o db u w h =
      let (same, done) = &&_true _ _ h in
      let (held, e, settled, long) =
        honor-holds after_deliver arg (view db)
          (sym (run_honor_txn-answer arg db u) ∙ is_ok-true _ done) in
      subst (λ p. IsHeld p horizon (honor after_deliver arg (view db)).1)
        ((same_outpoint_iff arg.outpoint o).0 same) (held, e, settled, omega arith)
  consumes-holds c o db u w h = cc

  consumed_times-held :
      (cs : List (Call G)) (o : Outpoint) (db : Db G)
      → IsWellFormed db
      → AreWithin cs
      → IsHeld o horizon (view db)
      → consumed_times o cs db ≡ 0
  unfolding consumed_times
  consumed_times-held [] o db u w h = refl
  consumed_times-held (c ∷ cs) o db u w h = rw (consumes-held c o db u h) (
      omega (
        arith,
        consumed_times-held cs o (step c db) (step-IsWellFormed c db u) w.1
            (shows (IsHeld o horizon) c db u (effect-IsHeld c o (view db) w.0 h)),
      ))

  -- Over a history whose sweeps come no later than a horizon to which every honor retains its outpoint,
  -- at most one honor on an outpoint commits, whichever keys ask for it.
  pub consumed_times-le-one :
      (cs : List (Call G)) (o : Outpoint) (db : Db G)
      → IsWellFormed db
      → AreWithin cs
      → consumed_times o cs db ≤ 1
  unfolding consumed_times
  consumed_times-le-one [] o db u w = omega arith
  consumed_times-le-one (c ∷ cs) o db u w =
      let v = step-IsWellFormed c db u in
      elim (Bool-cases (consumes o c db)) [
        | inr later_ones ↦
            rw later_ones (omega (arith, consumed_times-le-one cs o (step c db) v w.1))
        | inl now_one ↦ rw now_one (
            omega (
              arith,
              consumed_times-held cs o (step c db) v w.1
                  (shows (IsHeld o horizon) c db u (consumes-holds c o db u w.0 now_one)),
            ))
      ]
