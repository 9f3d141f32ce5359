-- ===== src/Core/Engine/Repeats.antt =====
-- What the operations of src/core/engine.ts answer of a quote that was honored over a `SqliteStore`.
use exfer_honor.Base.{ℕ, ◌≡◌, ◌≢◌, refl, sym, ap, ◌∙◌, Bool, true, false, some, arith, inl, inr}
use exfer_honor.Spec.Types.{Outpoint, HonorOutcome, HonorVerdict, HonorStatus, DeclineReason}
use exfer_honor.Spec.Errors.{Thrown, ok, throw}
use exfer_honor.Ports.Store.{SeenRow, HonorTxnInput, DeliverFn}
use exfer_honor.Ports.World.{World}
use exfer_honor.Ports.Effect.{>>=-ok}
use exfer_honor.Ports.Deps.{HonorDeps}
use exfer_honor.Store.Contract.{Gate, same_key_iff, locked_row, arg_key, arg_context, honored_gate}
use exfer_honor.Store.Contract.Answers.{honor-cases}
use exfer_honor.Store.Sqlite.{after_deliver, get_seen}
use exfer_honor.Store.Sqlite.View.{view, IsWellFormed}
use exfer_honor.Store.Sqlite.Refines.{get_seen-view}
use exfer_honor.Store.Sqlite.Port.{sqlite_store}
use exfer_honor.Core.Scorer.{gate_step0}
use exfer_honor.Core.Engine.{
  commit_honor, status, status_of, read_claim, honor, now_or_clock, after_step0,
}
use exfer_honor.Core.Engine.Commit.{answer, commit_honor-contract}

answer-throw :
    (rethrow : Bool) (o p : Outpoint) (e : Thrown)
    → answer rethrow o (throw e) ≢ ok (HonorOutcome.honored p)
answer-throw true o p (Thrown.from_deliver e) h = absurd (ground arith)
answer-throw false o p (Thrown.from_deliver e) h = absurd (ground arith)
answer-throw rethrow o p (Thrown.gate_violation kind) h = absurd (ground arith)
answer-throw rethrow o p (Thrown.honor_error code) h = absurd (ground arith)
answer-throw rethrow o p (Thrown.plain_error code message) h = absurd (ground arith)

honored_gate-row :
    {G : Type 0} (input : HonorTxnInput G) (r : SeenRow) (goods : G) (g : Gate G)
    → (honored_gate input r goods g).row (arg_key input)
      ≡ some (locked_row input.now input.outpoint r)
honored_gate-row input r goods g = rw ((same_key_iff (arg_key input) (arg_key input)).1 refl) refl

module _ {E G : Type 0} (deps : HonorDeps (World E G) G) (is_sqlite : deps.store ≡ sqlite_store)
    (input : HonorTxnInput G) (rethrow : Bool) (o : Outpoint) (w after : World E G)
    (u : IsWellFormed w.db)
    (honors : commit_honor deps input rethrow w ≡ (ok (HonorOutcome.honored o), after)) where
  -- The row that the commit left.
  abbrev Locked : Type 0
  Locked =
      (r : SeenRow) × (get_seen (arg_key input) after.db
        ≡ some (locked_row input.now input.outpoint r))

  committed_row : Locked
  committed_row =
      let (answers, shows) = commit_honor-contract deps is_sqlite input rethrow w u in
      let answered = sym answers ∙ ap (λ p. p.0) honors in
      let shown_after = ap (λ p. view p.1.db) (sym honors) ∙ shows in
      elim (honor-cases after_deliver input (view w.db)) [
        | inl fails ↦ absurd (
            answer-throw rethrow input.outpoint o fails.0
              (ap (λ p. answer rethrow input.outpoint p.0) (sym fails.1) ∙ answered))
        | inr done ↦ locked done.0 (shown_after ∙ ap (λ p. p.1) done.4)
      ]
    where
      locked :
          (r : SeenRow)
          → view after.db
            ≡ honored_gate input r
                (input.deliver (arg_context input) (view w.db).goods).1
                (view w.db)
          → Locked
      locked r e = (
        r,
        get_seen-view (arg_key input) after.db
            ∙ ap (λ g. g.row (arg_key input)) e
            ∙ honored_gate-row input r (input.deliver (arg_context input) (view w.db).goods).1
                (view w.db),
      )

  reads_row :
      deps.store.get_seen (arg_key input) after
      ≡ (ok (some (locked_row input.now input.outpoint committed_row.0)), after)
  reads_row =
      ap (λ s. s.get_seen (arg_key input) after) is_sqlite
      ∙ ap (λ row. (ok row, after)) committed_row.1

  -- Over a `SqliteStore` with well-formed tables, once a commit step has answered 'honored', `status` of
  -- its key reports the time and the outpoint of that honor.
  pub status-honored :
      status deps (arg_key input) after
      ≡ (ok (some (HonorStatus.honored input.now (some input.outpoint))), after)
  unfolding status status_of read_claim
  status-honored = >>=-ok (deps.store.get_seen (arg_key input)) _ after reads_row

  -- Over a `SqliteStore` with well-formed tables, once a commit step has answered 'honored', another
  -- `honor` of its key at a given time declines with 'already_honored' and changes nothing.
  pub honor_again :
      (deliver : DeliverFn G) (now : ℕ) (rethrow_again : Bool)
      → honor deps
          (arg_key input)
          deliver
          (record {
            now = some now;
            pre_screen_payee_custody = false;
            rethrow_delivery_errors = rethrow_again;
          })
          after
        ≡ (ok (HonorOutcome.not_ready (HonorVerdict.decline DeclineReason.already_honored)), after)
  unfolding honor now_or_clock after_step0 gate_step0
  honor_again deliver now rethrow_again =
      >>=-ok (deps.store.get_seen (arg_key input)) _ after reads_row
