-- ===== src/Core/Engine/Registers.antt =====
-- `register` and `markObserved` of src/core/engine.ts over a `SqliteStore`: what they answer, and what
-- they leave in the tables.
use exfer_honor.Base.{
  ℕ, ◌+◌, ◌≡◌, refl, sym, ap, ◌∙◌, Bool, true, false, Option, none, some, Option-cases, inl, inr,
}
use exfer_honor.Spec.Types.{AcceptedQuote, RegisterOpts, RegisterResult}
use exfer_honor.Spec.Errors.{ok}
use exfer_honor.Ports.Store.{SeenRow}
use exfer_honor.Ports.World.{World}
use exfer_honor.Ports.Effect.{Eff, pure, ◌>>◌, >>=-ok}
use exfer_honor.Ports.Deps.{HonorDeps}
use exfer_honor.Store.Rows.{Db}
use exfer_honor.Store.Contract.{Gate, quote_key, same_key_iff, fresh_row, accept}
use exfer_honor.Store.Sqlite.{get_seen, upsert_accepted}
use exfer_honor.Store.Sqlite.View.{view}
use exfer_honor.Store.Sqlite.Refines.{get_seen-view, view-upsert_accepted}
use exfer_honor.Store.Sqlite.Port.{sqlite_store}
use exfer_honor.Core.Engine.{register, now_or_clock, pre_screen}

accept_known :
    {G : Type 0} (quote : AcceptedQuote) (now retain_until : ℕ) (g : Gate G) (row : SeenRow)
    → g.row (quote_key quote) ≡ some row
    → accept quote now retain_until g ≡ g
accept_known quote now retain_until g row e = rw (accept, e) refl

accept_fresh :
    {G : Type 0} (quote : AcceptedQuote) (now retain_until : ℕ) (g : Gate G)
    → g.row (quote_key quote) ≡ none
    → (accept quote now retain_until g).row (quote_key quote)
      ≡ some (fresh_row quote now retain_until)
accept_fresh quote now retain_until g e =
    rw (accept, e) (rw ((same_key_iff (quote_key quote) (quote_key quote)).1 refl) refl)

module _ {E G : Type 0} (deps : HonorDeps (World E G) G)
    (is_sqlite : deps.store ≡ sqlite_store) where
  -- The time until which a quote that is registered now is kept.
  abbrev pub deadline : AcceptedQuote → ℕ
  deadline quote = quote.expires_at + deps.config.max_recheck_window

  abbrev pub registered : AcceptedQuote → Option SeenRow → RegisterResult
  registered quote none = record { created = true; retain_until = deadline quote }
  registered quote (some row) = record { created = false; retain_until = row.retain_until }

  abbrev pub plain_opts : ℕ → Bool → RegisterOpts
  plain_opts now rethrow = record {
    now = some now;
    pre_screen_payee_custody = false;
    rethrow_delivery_errors = rethrow;
  }

  abbrev registered_db : AcceptedQuote → ℕ → Option SeenRow → Db G → Db G
  registered_db quote now none db = upsert_accepted quote now (deadline quote) db
  registered_db quote now (some _) db = db

  register-run :
      (quote : AcceptedQuote) (now : ℕ) (rethrow : Bool) (w : World E G)
      → register deps quote (plain_opts now rethrow) w ≡ (
        ok (registered quote (get_seen (quote_key quote) w.db)),
        record w { db = registered_db quote now (get_seen (quote_key quote) w.db) w.db },
      )
  unfolding register now_or_clock pre_screen
  register-run quote now rethrow w =
      >>=-ok (deps.store.get_seen (quote_key quote)) after_row w
        (ap (λ s. s.get_seen (quote_key quote) w) is_sqlite)
      ∙ go (get_seen (quote_key quote) w.db)
    where
      answer : Eff (World E G) RegisterResult
      answer = pure (record { created = true; retain_until = deadline quote })

      after_row : Option SeenRow → Eff (World E G) RegisterResult
      after_row (some row) = pure (record { created = false; retain_until = row.retain_until })
      after_row none = deps.store.upsert_accepted quote now (deadline quote) >> answer

      go :
          (row : Option SeenRow)
          → after_row row w
            ≡ (ok (registered quote row), record w { db = registered_db quote now row w.db })
      go (some row) = refl
      go none =
          >>=-ok (deps.store.upsert_accepted quote now (deadline quote)) (λ _. answer) w
            (ap (λ s. s.upsert_accepted quote now (deadline quote) w) is_sqlite)

  -- Over a `SqliteStore`, registering a quote at a given time with no pre-screen answers whether
  -- its row is new and until when the row is kept; the tables then show the first acceptance, and
  -- nothing else that they show has changed.
  pub register-accept :
      (quote : AcceptedQuote) (now : ℕ) (rethrow : Bool) (w : World E G)
      → ((register deps quote (plain_opts now rethrow) w).0
          ≡ ok (registered quote ((view w.db).row (quote_key quote))))
        × (view (register deps quote (plain_opts now rethrow) w).1.db
            ≡ accept quote now (deadline quote) (view w.db))
  register-accept quote now rethrow w = (
    ap (λ p. p.0) (register-run quote now rethrow w)
        ∙ ap (λ row. ok (registered quote row)) (get_seen-view (quote_key quote) w.db),
    ap (λ p. view p.1.db) (register-run quote now rethrow w) ∙ accepted,
  )
    where
      accepted :
          view (registered_db quote now (get_seen (quote_key quote) w.db) w.db)
          ≡ accept quote now (deadline quote) (view w.db)
      accepted = elim (Option-cases (get_seen (quote_key quote) w.db)) [
        | inl e ↦
            ap (λ row. view (registered_db quote now row w.db)) e
            ∙ view-upsert_accepted quote now (deadline quote) w.db
        | inr (row, e) ↦
            ap (λ row. view (registered_db quote now row w.db)) e
            ∙ sym (
                accept_known quote now (deadline quote) (view w.db) row
                  (sym (get_seen-view (quote_key quote) w.db) ∙ e))
      ]

  -- Over a `SqliteStore` and with no pre-screen: once a key with no row is registered, registering
  -- it again, with whatever quote and at whatever time, changes nothing that the tables show and
  -- answers that the row is not new, with the time until which the first registration keeps it.
  pub register_again :
      (first second : AcceptedQuote) (now later : ℕ) (rethrow : Bool) (w : World E G)
      → quote_key second ≡ quote_key first
      → (view w.db).row (quote_key first) ≡ none
      → let once = (register deps first (plain_opts now rethrow) w).1 in
        let again = register deps second (plain_opts later rethrow) once in
        (again.0 ≡ ok (record { created = false; retain_until = deadline first }))
        × (view again.1.db ≡ view once.db)
  register_again first second now later rethrow w same fresh =
      let once = (register deps first (plain_opts now rethrow) w).1 in
      let e = (register-accept first now rethrow w).1 in
      let known : (view once.db).row (quote_key second)
          ≡ some (fresh_row first now (deadline first)) =
        ap (view once.db).row same
        ∙ ap (λ g. g.row (quote_key first)) e
        ∙ accept_fresh first now (deadline first) (view w.db) fresh in
      let (answers, shows) = register-accept second later rethrow once in
      (
        answers ∙ ap (λ row. ok (registered second row)) known,
        shows ∙ accept_known second later (deadline second) (view once.db) _ known,
      )
