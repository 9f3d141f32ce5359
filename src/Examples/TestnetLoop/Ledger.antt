-- ===== src/Examples/TestnetLoop/Ledger.antt =====
-- The ledger and the counts over the passes of the testnet loop (examples/testnet-loop/loop.ts).
use exfer_honor.Base.{
  ℕ, suc, ◌+◌, ◌≡◌, refl, sym, ap, ◌∙◌, subst, Bool, true, false, Option, List, [], ◌∷◌, ◌++◌,
  arith, All, All-append, ltb, if◌then◌else◌, ◌⊎◌, inl, inr,
}
use mathlib.Core.List.{append-nil, append_assoc}
use exfer_honor.Spec.Errors.{Result, ok, throw}
use exfer_honor.Ports.Effect.{Eff, ◌>>=◌, ◌>>◌, continue, handled, pure, try_catch}
use exfer_honor.Store.Table.{count_if}
use exfer_honor.Examples.TestnetLoop.{
  LoopConfig, IterationStatus, Iteration, Metrics, LoopState, Remotes, max_seq, fail_open_row,
  on_world, at_clock, slept, on_rows, on_metrics, succeed, note_failure, run_iteration, attempt,
  read_gauges, refresh_gauges, pass, fresh_iteration,
}
use exfer_honor.Examples.TestnetLoop.Row.{is_honored, Row, Ends, run_row-Runs}
use exfer_honor.Examples.TestnetLoop.Rows.{
  IsClosed, honored_rows, below_next, failed_last, fail_open_row-last, fail_open_row-closed,
  honored_rows-append, failed_last-closed, failed_last-unhonored,
}

module _ {W : Type 0} (old : List Iteration) (h i : ℕ) where
  -- The ledger has grown by closed rows, and the counts by those that are honored.
  pub record Grown (s : LoopState W) : Type 0 where
    pub added : List Iteration
    pub rows : s.rows ≡ old ++ added
    pub closed : All IsClosed added
    pub counted : s.metrics.honored ≡ h + honored_rows added
    pub iterations : s.metrics.iterations ≡ i + honored_rows added

  pub record Idle (s : LoopState W) : Type 0 where
    pub rows : s.rows ≡ old
    pub counted : s.metrics.honored ≡ h
    pub iterations : s.metrics.iterations ≡ i

  abbrev Attempted : Result (Unit {0}) → LoopState W → Type 0
  Attempted (ok _) s = Grown s
  Attempted (throw e) s =
      Idle s
      ⊎ ((status : Option IterationStatus) × (is_honored status ≡ false)
          × Row old (suc (max_seq old)) h i (below_next old) status h s)

  module _ (cfg : LoopConfig) (remotes : Remotes W) where
    finished :
        (p : Result (Unit {0}) × LoopState W)
        → Ends old (suc (max_seq old)) h i (below_next old) p.0 p.1
        → Attempted
            (continue (λ _. at_clock remotes.now_ms >>= λ now. on_metrics (succeed now)) p).0
            (continue (λ _. at_clock remotes.now_ms >>= λ now. on_metrics (succeed now)) p).1
    unfolding count_if
    finished (ok _, s) r = record {
      added = r.row ∷ [];
      rows = r.rows;
      closed = (ground (arith, r.has_status), tt);
      counted = ground (arith, r.has_status, r.counted);
      iterations = ground (arith, r.has_status, r.iterations);
    }
    finished (throw e, s) r = inr r

    caught :
        (p : Result (Unit {0}) × LoopState W)
        → All IsClosed old
        → Attempted p.0 p.1
        → Grown (handled (λ _. on_metrics note_failure >> on_rows fail_open_row) p).1
    unfolding count_if
    caught (ok _, s) closed g = g
    caught (throw e, s) closed (inl idle) = record {
      added = [];
      rows = ap fail_open_row idle.rows ∙ fail_open_row-closed old closed ∙ sym (append-nil old);
      closed = tt;
      counted = omega (arith, idle.counted);
      iterations = omega (arith, idle.iterations);
    }
    caught (throw e, s) closed (inr (status, unhonored, r)) =
        let zero_more : is_honored (failed_last r.row).honor_status ≡ false =
          failed_last-unhonored r.row (ap is_honored r.has_status ∙ unhonored) in
        record {
          added = failed_last r.row ∷ [];
          rows =
              ap fail_open_row r.rows
              ∙ fail_open_row-last (suc (max_seq old)) old r.row closed (below_next old) r.numbered;
          closed = (failed_last-closed r.row, tt);
          counted = rw zero_more (omega (arith, r.counted));
          iterations = rw zero_more (omega (arith, r.iterations));
        }

module _ {W : Type 0} (cfg : LoopConfig) (remotes : Remotes W) where
  abbrev From : LoopState W → LoopState W → Type 0
  From s = Grown s.rows s.metrics.honored s.metrics.iterations

  attempted :
      (s : LoopState W)
      → Attempted s.rows s.metrics.honored s.metrics.iterations
          (attempt cfg remotes s).0
          (attempt cfg remotes s).1
  unfolding attempt run_iteration
  attempted s = go (remotes.get_height s.world).0 (remotes.get_height s.world).1
    where
      go :
          (r : Result ℕ) (w : W)
          → Attempted s.rows s.metrics.honored s.metrics.iterations
              (continue
                (λ height.
                  on_metrics (λ m. record m { height = height })
                  >> (run_iteration cfg remotes
                      >> (at_clock remotes.now_ms >>= λ now. on_metrics (succeed now))))
                (r, record s { world = w })).0
              (continue
                (λ height.
                  on_metrics (λ m. record m { height = height })
                  >> (run_iteration cfg remotes
                      >> (at_clock remotes.now_ms >>= λ now. on_metrics (succeed now))))
                (r, record s { world = w })).1
      go (throw e) w = inl (record { rows = refl; counted = refl; iterations = refl })
      go (ok height) w = finished s.rows s.metrics.honored s.metrics.iterations cfg remotes _ (
          run_row-Runs s.rows (suc (max_seq s.rows)) s.metrics.honored s.metrics.iterations
            (below_next s.rows) cfg remotes _
            (record {
              row = fresh_iteration (suc (max_seq s.rows)) _ cfg.amount;
              rows = refl;
              numbered = refl;
              has_status = refl;
              counted = refl;
              iterations = refl;
            }))

  -- A call that leaves the rows and the two counts alone, whether or not it throws.
  abbrev Quiet : LoopState W → LoopState W → Type 0
  Quiet s t =
      (t.rows ≡ s.rows)
      × (t.metrics.honored ≡ s.metrics.honored)
      × (t.metrics.iterations ≡ s.metrics.iterations)

  continue-Quiet :
      {A B : Type 0} (f : A → Eff (LoopState W) B) (s : LoopState W)
      → ((a : A) (t : LoopState W) → Quiet t (f a t).1)
      → (p : Result A × LoopState W) → Quiet s p.1
      → Quiet s (continue f p).1
  continue-Quiet f s quiet (ok a, t) q =
      let after : Quiet t (f a t).1 = quiet a t in (after.0 ∙ q.0, after.1 ∙ q.1, after.2 ∙ q.2)
  continue-Quiet f s quiet (throw e, t) q = q

  handled-Quiet :
      (s : LoopState W) (p : Result (Unit {0}) × LoopState W)
      → Quiet s p.1
      → Quiet s (handled (λ _. pure tt) p).1
  handled-Quiet s (ok _, t) q = q
  handled-Quiet s (throw e, t) q = q

  read_gauges-Quiet : (s : LoopState W) → Quiet s (read_gauges cfg remotes s).1
  read_gauges-Quiet s =
      continue-Quiet _ s
        (λ buyer t.
          continue-Quiet _ t (λ seller v. (refl, refl, refl))
            (on_world remotes.seller_balance
              (record t { metrics = record t.metrics { payer_balance = buyer } }))
            (refl, refl, refl))
        (on_world remotes.buyer_balance s) (refl, refl, refl)

  refresh_gauges-Quiet : (s : LoopState W) → Quiet s (refresh_gauges cfg remotes s).1
  unfolding refresh_gauges
  refresh_gauges-Quiet s = chosen (ltb (s.last_gauge_at + 15000) (remotes.now_ms s.world).0)
    where
      chosen :
          (b : Bool)
          → Quiet s
              ((if b then try_catch (read_gauges cfg remotes) (λ _. pure tt) else pure tt)
                (record s { world = (remotes.now_ms s.world).1 })).1
      chosen true = handled-Quiet s _ (read_gauges-Quiet (record s { world = _ }))
      chosen false = (refl, refl, refl)

  Quiet-Grown : (s t u : LoopState W) → From s t → Quiet t u → From s u
  Quiet-Grown s t u g q = record {
    added = g.added;
    rows = q.0 ∙ g.rows;
    closed = g.closed;
    counted = q.1 ∙ g.counted;
    iterations = q.2 ∙ g.iterations;
  }

  abbrev past_catch : LoopState W → Result (Unit {0}) × LoopState W
  past_catch s =
      handled (λ _. on_metrics note_failure >> on_rows fail_open_row) (attempt cfg remotes s)

  pass-Grown : (s : LoopState W) → All IsClosed s.rows → From s (pass cfg remotes s).1
  unfolding pass
  pass-Grown s closed =
      Quiet-Grown s (past_catch s).1 (pass cfg remotes s).1
        (caught s.rows s.metrics.honored s.metrics.iterations cfg remotes (attempt cfg remotes s)
          closed (attempted s))
        (continue-Quiet (λ _. refresh_gauges cfg remotes >> slept (remotes.sleep cfg.interval_ms))
          (past_catch s).1
          (λ _ t.
            continue-Quiet (λ _. slept (remotes.sleep cfg.interval_ms)) t
              (λ _ v. (refl, refl, refl)) (refresh_gauges cfg remotes t) (refresh_gauges-Quiet t))
          (past_catch s) (refl, refl, refl))

  -- The states between two passes of a process that started on a ledger, with its counts at zero.
  pub data Reached (base : List Iteration) : LoopState W → Type 0 where
    started :
        (m : Metrics) (g : ℕ) (w : W)
        → m.honored ≡ 0
        → m.iterations ≡ 0
        → Reached base (record { rows = base; metrics = m; last_gauge_at = g; world = w })
    passed : (s : LoopState W) → Reached base s → Reached base (pass cfg remotes s).1

  -- The ledger is the old one and rows with a status, and both counts are the number of new rows that are
  -- honored.
  pub record IsAccounted (base : List Iteration) (s : LoopState W) : Type 0 where
    pub added : List Iteration
    pub rows : s.rows ≡ base ++ added
    pub closed : All IsClosed added
    pub counted : s.metrics.honored ≡ honored_rows added
    pub iterations : s.metrics.iterations ≡ honored_rows added

  passed-IsAccounted :
      (base : List Iteration) (s : LoopState W)
      → All IsClosed base
      → IsAccounted base s
      → IsAccounted base (pass cfg remotes s).1
  passed-IsAccounted base s closed a =
      let g =
        pass-Grown s
          (subst (All IsClosed) (sym a.rows) (All-append IsClosed base a.added closed a.closed)) in
      record {
        added = a.added ++ g.added;
        rows = g.rows ∙ ap (λ l. l ++ g.added) a.rows ∙ append_assoc base a.added g.added;
        closed = All-append IsClosed a.added g.added a.closed g.closed;
        counted = omega (arith, g.counted, a.counted, honored_rows-append a.added g.added);
        iterations = omega (arith, g.iterations, a.iterations, honored_rows-append a.added g.added);
      }

  -- On a ledger whose rows all have a status, whatever the remote calls answer, after any number of passes each
  -- old row is as it was, each new row has a status, and the counts of honored and of completed iterations
  -- are both the number of new rows that are honored.
  pub Reached-IsAccounted :
      (base : List Iteration) (s : LoopState W)
      → All IsClosed base
      → Reached base s
      → IsAccounted base s
  unfolding count_if
  Reached-IsAccounted base s closed (started m g w no_honored no_iterations) = record {
    added = [];
    rows = sym (append-nil base);
    closed = tt;
    counted = no_honored;
    iterations = no_iterations;
  }
  Reached-IsAccounted base s closed (passed t r) =
      passed-IsAccounted base t closed (Reached-IsAccounted base t closed r)
