-- ===== src/Examples/TestnetLoop/Row.antt =====
-- One iteration of the testnet loop (examples/testnet-loop/loop.ts) and the row of the ledger that it inserts.
use exfer_honor.Base.{
  ℕ, zero, suc, ◌+◌, ◌*◌, ◌<◌, ◌≡◌, refl, ap, ◌∙◌, Bool, true, false, not, Option, none, some, List,
  [], ◌∷◌, ◌++◌, arith, All, leb, if◌then◌else◌,
}
use exfer_honor.Spec.Types.{SettlementFormId, AcceptedQuote}
use exfer_honor.Spec.Errors.{Result, ok, throw}
use exfer_honor.Ports.Effect.{Eff, pure, raise, ◌>>=◌, ◌>>◌, continue}
use exfer_honor.Store.Table.{update}
use exfer_honor.Service.{Ending}
use exfer_honor.Adapters.Verifier.{QuoteJson, AcceptOutcome, accept}
use exfer_honor.Examples.TestnetLoop.{
  LoopConfig, IterationStatus, Iteration, LoopState, Remotes, update_row, on_world, at_clock, slept,
  on_rows, on_metrics, mark_row, wait_for_balance, from_faucet, from_seller, fund_buyer,
  ensure_buyer_funded, or_refused, close_row, settle_quote, run_row, loop_error,
}

abbrev pub is_honored : Option IterationStatus → Bool
is_honored (some IterationStatus.honored) = true
is_honored _ = false

pub update_row-last :
    (n : ℕ) (f : Iteration → Iteration) (old : List Iteration) (r : Iteration)
    → All (λ x. x.seq < n) old
    → r.seq ≡ n
    → update_row n f (old ++ r ∷ []) ≡ old ++ f r ∷ []
unfolding update_row update
update_row-last n f [] r h e = ground arith
update_row-last n f (x ∷ old) r h e = ground (arith, update_row-last n f old r h.1 e)

module _ {W : Type 0} (old : List Iteration) (n h i : ℕ) (below : All (λ x. x.seq < n) old) where
  -- The ledger is the old rows and one more, numbered and with a status, and the counts are as given.
  pub record Row (status : Option IterationStatus) (honored : ℕ) (s : LoopState W) : Type 0 where
    pub row : Iteration
    pub rows : s.rows ≡ old ++ row ∷ []
    pub numbered : row.seq ≡ n
    pub has_status : row.honor_status ≡ status
    pub counted : s.metrics.honored ≡ honored
    pub iterations : s.metrics.iterations ≡ i

  abbrev pub Running : LoopState W → Type 0
  Running = Row none h

  -- How an iteration ends: its row is honored and counted, or it throws and its row is not honored.
  abbrev pub Ends : Result (Unit {0}) → LoopState W → Type 0
  Ends (ok _) s = Row (some IterationStatus.honored) (suc h) s
  Ends (throw e) s =
      (status : Option IterationStatus) × (is_honored status ≡ false) × Row status h s

  abbrev Keeps : {A : Type 0} → Eff (LoopState W) A → Type 0
  Keeps m = (s : LoopState W) → Running s → Running (m s).1

  abbrev pub Runs : Eff (LoopState W) (Unit {0}) → Type 0
  Runs m = (s : LoopState W) → Running s → Ends (m s).0 (m s).1

  continue-Keeps :
      {A B : Type 0} (f : A → Eff (LoopState W) B)
      → ((a : A) → Keeps (f a))
      → (p : Result A × LoopState W) → Running p.1
      → Running (continue f p).1
  continue-Keeps f keep (ok a, s) r = keep a s r
  continue-Keeps f keep (throw e, s) r = r

  >>=-Keeps :
      {A B : Type 0} (m : Eff (LoopState W) A) (f : A → Eff (LoopState W) B)
      → Keeps m
      → ((a : A) → Keeps (f a))
      → Keeps (m >>= f)
  >>=-Keeps m f km kf s r = continue-Keeps f kf (m s) (km s r)

  continue-Runs :
      {A : Type 0} (f : A → Eff (LoopState W) Unit)
      → ((a : A) → Runs (f a))
      → (p : Result A × LoopState W) → Running p.1
      → Ends (continue f p).0 (continue f p).1
  continue-Runs f run (ok a, s) r = run a s r
  continue-Runs f run (throw e, s) r = (none, refl, r)

  >>=-Runs :
      {A : Type 0} (m : Eff (LoopState W) A) (f : A → Eff (LoopState W) Unit)
      → Keeps m
      → ((a : A) → Runs (f a))
      → Runs (m >>= f)
  >>=-Runs m f km kf s r = continue-Runs f kf (m s) (km s r)

  if-Keeps :
      {A : Type 0} (b : Bool) (m k : Eff (LoopState W) A)
      → Keeps m
      → Keeps k
      → Keeps (if b then m else k)
  if-Keeps true m k km kk = km
  if-Keeps false m k km kk = kk

  -- A call that leaves the rows and the two counts alone.
  same :
      (s t : LoopState W)
      → t.rows ≡ s.rows
      → t.metrics.honored ≡ s.metrics.honored
      → t.metrics.iterations ≡ s.metrics.iterations
      → {status : Option IterationStatus} {honored : ℕ} → Row status honored s
      → Row status honored t
  same s t e f g r = record {
    row = r.row;
    rows = e ∙ r.rows;
    numbered = r.numbered;
    has_status = r.has_status;
    counted = f ∙ r.counted;
    iterations = g ∙ r.iterations;
  }

  on_world-Keeps : {A : Type 0} (m : Eff W A) → Keeps (on_world m)
  on_world-Keeps m s r = same s _ refl refl refl r

  at_clock-Keeps : (f : W → ℕ × W) → Keeps (at_clock f)
  at_clock-Keeps f s r = same s _ refl refl refl r

  slept-Keeps : (f : W → W) → Keeps (slept f)
  slept-Keeps f s r = same s _ refl refl refl r

  -- An UPDATE of the row that keeps its number.
  row_updated :
      (f : Iteration → Iteration) (status after : Option IterationStatus) (honored : ℕ)
      (s : LoopState W)
      → ((r : Iteration) → (f r).seq ≡ r.seq)
      → ((r : Iteration) → r.honor_status ≡ status → (f r).honor_status ≡ after)
      → Row status honored s
      → Row after honored (on_rows (update_row n f) s).1
  row_updated f status after honored s keep sets r = record {
    row = f r.row;
    rows = ap (update_row n f) r.rows ∙ update_row-last n f old r.row below r.numbered;
    numbered = keep r.row ∙ r.numbered;
    has_status = sets r.row r.has_status;
    counted = r.counted;
    iterations = r.iterations;
  }

  module _ (cfg : LoopConfig) (remotes : Remotes W) where
    wait-Keeps : (target tries : ℕ) → Keeps (wait_for_balance cfg remotes target tries)
    unfolding wait_for_balance
    wait-Keeps target zero = λ s r. r
    wait-Keeps target (suc tries) =
        >>=-Keeps (on_world remotes.buyer_balance) _ (on_world-Keeps remotes.buyer_balance)
          λ balance.
            if-Keeps (leb target balance) (pure tt)
              (slept (remotes.sleep 2000) >> wait_for_balance cfg remotes target tries) (λ s r. r)
              (>>=-Keeps (slept (remotes.sleep 2000))
                (λ _. wait_for_balance cfg remotes target tries) (slept-Keeps (remotes.sleep 2000))
                λ _. wait-Keeps target tries)

    from_faucet-Keeps :
        (needed : ℕ) (faucet : Option (Eff W Unit)) → Keeps (from_faucet cfg remotes needed faucet)
    from_faucet-Keeps needed none = λ s r. r
    from_faucet-Keeps needed (some drip) = >>=-Keeps (on_world drip) _ (on_world-Keeps drip) λ _.
        >>=-Keeps (on_metrics (λ m. record m { faucet_calls = m.faucet_calls + 1 }))
          (λ _. wait_for_balance cfg remotes needed 180) (λ s r. same s _ refl refl refl r)
          λ _. wait-Keeps needed 180

    from_seller-Keeps : (needed : ℕ) → Keeps (from_seller cfg remotes needed)
    from_seller-Keeps needed =
        >>=-Keeps (on_world (remotes.refill_transfer (cfg.amount * cfg.refill_multiple))) _
          (on_world-Keeps (remotes.refill_transfer (cfg.amount * cfg.refill_multiple)))
          λ _.
            >>=-Keeps (on_metrics (λ m. record m { refills = m.refills + 1 }))
              (λ _. wait_for_balance cfg remotes needed 120) (λ s r. same s _ refl refl refl r)
              λ _. wait-Keeps needed 120

    ensure-Keeps : (needed : ℕ) → Keeps (ensure_buyer_funded cfg remotes needed)
    unfolding ensure_buyer_funded
    ensure-Keeps needed =
        >>=-Keeps (on_world remotes.buyer_balance) _ (on_world-Keeps remotes.buyer_balance) λ buyer.
          if-Keeps (leb needed buyer) (pure tt) (fund_buyer cfg remotes needed) (λ s r. r)
            (>>=-Keeps (on_world remotes.seller_balance) _ (on_world-Keeps remotes.seller_balance)
              λ seller.
                if-Keeps (leb (cfg.amount * cfg.refill_multiple + cfg.fee_budget) seller)
                  (from_seller cfg remotes needed) (from_faucet cfg remotes needed remotes.faucet)
                  (from_seller-Keeps needed) (from_faucet-Keeps needed remotes.faucet))

    marked :
        (latency : ℕ) (status : IterationStatus) (s : LoopState W)
        → Running s
        → Row (some status) h (mark_row n latency status s).1
    marked latency status s r =
        row_updated _ none (some status) h _ (λ x. refl) (λ x e. refl) (same s _ refl refl refl r)

    close_row-Runs :
        (honor_start : ℕ) (ending : Ending) → Runs (close_row cfg remotes n honor_start ending)
    close_row-Runs honor_start (Ending.failed e) s r = (none, refl, r)
    close_row-Runs honor_start (Ending.honored o) s r =
        let m = marked _ IterationStatus.honored _ (at_clock-Keeps remotes.now_ms s r) in
        record {
          row = m.row;
          rows = m.rows;
          numbered = m.numbered;
          has_status = m.has_status;
          counted = omega (arith, m.counted);
          iterations = m.iterations;
        }
    close_row-Runs honor_start (Ending.declined reason) s r = (
      some IterationStatus.declined,
      refl,
      same _ _ refl refl refl
          (marked _ IterationStatus.declined _ (at_clock-Keeps remotes.now_ms s r)),
    )
    close_row-Runs honor_start Ending.cancelled s r = (
      some IterationStatus.cancelled,
      refl,
      same _ _ refl refl refl
          (marked _ IterationStatus.cancelled _ (at_clock-Keeps remotes.now_ms s r)),
    )

    updates-Keeps :
        (f : Iteration → Iteration)
        → ((r : Iteration) → (f r).seq ≡ r.seq)
        → ((r : Iteration) → (f r).honor_status ≡ r.honor_status)
        → Keeps (on_rows (update_row n f))
    updates-Keeps f keep status s r = row_updated f none none h s keep (λ x e. status x ∙ e) r

    paid-Runs :
        (quote : QuoteJson) (accepted : AcceptedQuote) (honor_start : ℕ)
        → Runs (do
          transfer ← on_world (remotes.settle_transfer quote.quote_id cfg.amount)
          on_rows (
              update_row n (λ r. record r {
                settle_tx = some transfer.tx_id;
                settle_height = transfer.tip_height;
              }))
          result ← on_world (remotes.done accepted)
          close_row cfg remotes n honor_start result)
    paid-Runs quote accepted honor_start =
        >>=-Runs (on_world (remotes.settle_transfer quote.quote_id cfg.amount)) _
          (on_world-Keeps (remotes.settle_transfer quote.quote_id cfg.amount))
          λ transfer.
            >>=-Runs (on_rows (update_row n _)) _ (updates-Keeps _ (λ x. refl) (λ x. refl)) λ _.
              >>=-Runs (on_world (remotes.done accepted)) _ (on_world-Keeps (remotes.done accepted))
                λ result. close_row-Runs honor_start result

    verified-Runs :
        (quote : QuoteJson) (accepted : AcceptedQuote) (honor_start : ℕ) (valid : Bool)
        → Runs (
            if not valid then raise loop_error else do
              transfer ← on_world (remotes.settle_transfer quote.quote_id cfg.amount)
              on_rows (
                  update_row n (λ r. record r {
                    settle_tx = some transfer.tx_id;
                    settle_height = transfer.tip_height;
                  }))
              result ← on_world (remotes.done accepted)
              close_row cfg remotes n honor_start result)
    verified-Runs quote accepted honor_start true = paid-Runs quote accepted honor_start
    verified-Runs quote accepted honor_start false = λ s r. (none, refl, r)

    settle_quote-Runs :
        (quote : QuoteJson) (accepted : AcceptedQuote)
        → Runs (settle_quote cfg remotes n quote accepted)
    unfolding settle_quote
    settle_quote-Runs quote accepted =
        >>=-Runs (at_clock remotes.now_ms) _ (at_clock-Keeps remotes.now_ms) λ honor_start.
          >>=-Runs (on_world (remotes.on_paid accepted)) _
            (on_world-Keeps (remotes.on_paid accepted))
            λ _. >>=-Runs (slept (remotes.sleep 1500)) _ (slept-Keeps (remotes.sleep 1500)) λ _.
              >>=-Runs (on_world (remotes.buyer_verify quote)) _
                (on_world-Keeps (remotes.buyer_verify quote))
                λ verify. verified-Runs quote accepted honor_start verify.valid

    or_refused-Keeps : (outcome : AcceptOutcome) → Keeps (or_refused cfg remotes outcome)
    or_refused-Keeps (AcceptOutcome.accepted quote) = λ s r. r
    or_refused-Keeps (AcceptOutcome.rejected reason) = λ s r. r

    -- From its row on, an iteration ends with that row honored and counted, or throws and has not honored it;
    -- the older rows stay as they are.
    pub run_row-Runs : Runs (run_row cfg remotes n)
    unfolding run_row
    run_row-Runs =
        >>=-Runs (ensure_buyer_funded cfg remotes (cfg.amount + cfg.fee_budget)) _
          (ensure-Keeps (cfg.amount + cfg.fee_budget))
          λ _.
            >>=-Runs (on_world (remotes.quote_issue cfg.amount)) _
              (on_world-Keeps (remotes.quote_issue cfg.amount))
              λ quote.
                >>=-Runs (on_rows (update_row n _)) _ (updates-Keeps _ (λ x. refl) (λ x. refl)) λ _.
                  >>=-Runs (on_world (accept remotes.seller_verify quote SettlementFormId.plain)) _
                    (on_world-Keeps (accept remotes.seller_verify quote SettlementFormId.plain))
                    λ outcome.
                      >>=-Runs (or_refused cfg remotes outcome) _ (or_refused-Keeps outcome)
                        λ accepted. settle_quote-Runs quote accepted
