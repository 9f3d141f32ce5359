-- ===== src/Examples/Merchant/Fulfils.antt =====
-- What `fulfilOnPayment` (src/examples/merchant/merchant.ts) answers when the loop settles with 'honored'.
use exfer_honor.Base.{
  ◌≡◌, refl, sym, ap, ◌∙◌, Bool, true, text_eq→eq, text_eq_refl, Option, none, some, List, [], ◌∷◌,
  arith,
}
use exfer_honor.Spec.Types.{AcceptedQuote, Outpoint, DeliverContext}
use exfer_honor.Spec.Errors.{Result, ok, throw}
use exfer_honor.Ports.Store.{HonorTxnInput}
use exfer_honor.Ports.World.{World}
use exfer_honor.Ports.Deps.{HonorDeps}
use exfer_honor.Store.Table.{first, first-append}
use exfer_honor.Store.Rows.{Db}
use exfer_honor.Store.Txn.{Txn, continue, committed, ◌>>◌}
use exfer_honor.Store.Sqlite.{
  insert_unless, deliver_context, lock_seen, consume, deliver_goods, run_honor_txn,
}
use exfer_honor.Store.Sqlite.Port.{sqlite_store, on_db}
use exfer_honor.Core.Engine.{txn_input}
use exfer_honor.Core.Engine.Paid.{honor-honored}
use exfer_honor.Service.{Ending, Event, on_paid, paid_key, quote_opts}
use exfer_honor.Service.Loop.{on_paid-Honored}
use exfer_honor.Examples.Merchant.{Goods, ApiKey, Fulfilment, of_key, issue, deliver, fulfilment}

continue-eq-ok :
    {G A B : Type 0} (f : A → Txn G B) (p : Result A × Db G) {b : B} {after : Db G}
    → continue f p ≡ (ok b, after)
    → (a : A) × (db : Db G) × (f a db ≡ (ok b, after))
continue-eq-ok f (ok a, db) h = (a, db, h)
continue-eq-ok f (throw e, db) h = absurd (ground arith)

committed-eq-ok :
    {G A : Type 0} (before : Db G) (p : Result A × Db G) {a : A} {after : Db G}
    → committed before p ≡ (ok a, after)
    → p ≡ (ok a, after)
committed-eq-ok before (ok a, db) h = h
committed-eq-ok before (throw e, db) h = absurd (ground arith)

-- A gate transaction that commits leaves the goods as its `deliver` left them.
run_honor_txn-goods :
    {G : Type 0} (arg : HonorTxnInput G) (db after : Db G)
    → run_honor_txn arg db ≡ (ok tt, after)
    → (goods : G) × (after.goods ≡ (arg.deliver (deliver_context arg) goods).1)
unfolding run_honor_txn deliver_goods
run_honor_txn-goods arg db after h =
    let (_, locked, f) =
      continue-eq-ok (λ _. consume arg >> deliver_goods arg) (lock_seen arg db)
        (committed-eq-ok db _ h) in
    let (_, taken, g) = continue-eq-ok (λ _. deliver_goods arg) (consume arg locked) f in
    (taken.goods, ap (λ p. p.1.goods) (sym g))

first-holds :
    {A : Type 0} (p : A → Bool) (rows : List A) (r : A) → first p rows ≡ some r → p r ≡ true
unfolding first
first-holds p [] r h = absurd (ground arith)
first-holds p (x ∷ rows) r h = ground (arith, first-holds p rows r)

insert_unless-first :
    {A : Type 0} (p : A → Bool) (rows : List A) (r : A) (o : Option A)
    → first p rows ≡ o
    → p r ≡ true
    → (k : A) × (first p (insert_unless o r rows) ≡ some k) × (p k ≡ true)
insert_unless-first p rows r none h own = (r, first-append p rows r ∙ ground arith, own)
insert_unless-first p rows r (some k) h own = (k, h, first-holds p rows k h)

issue-key :
    (ctx : DeliverContext) (goods : Goods)
    → (k : ApiKey) × (first (of_key ctx.key.quote_id) (issue ctx goods).api_keys ≡ some k)
      × (of_key ctx.key.quote_id k ≡ true)
unfolding issue
issue-key ctx goods =
    insert_unless-first (of_key ctx.key.quote_id) goods.api_keys _
      (first (of_key ctx.key.quote_id) goods.api_keys) refl (text_eq_refl ctx.key.quote_id)

module _ {E : Type 0} (deps : HonorDeps (World E Goods) Goods)
    (is_sqlite : deps.store ≡ sqlite_store) (quote : AcceptedQuote) (rethrow : Bool) where
  -- Where the loop over a `SqliteStore` settles with 'honored', the merchant answers with a key of the
  -- quote.
  pub fulfilment-issue :
      (events : List Event) (o : Outpoint) (w : World E Goods)
      → (on_paid deps quote deliver rethrow events w).settled ≡ some (Ending.honored o)
      → (k : ApiKey) × (fulfilment quote.quote_id
            (on_paid deps quote deliver rethrow events w).settled
            (on_paid deps quote deliver rethrow events w).world.db.goods
          ≡ some (Fulfilment.honored (some k)))
        × (k.quote_id ≡ quote.quote_id)
  unfolding fulfilment deliver
  fulfilment-issue events o w h =
      let after : World E Goods = (on_paid deps quote deliver rethrow events w).world in
      let (before, e) = on_paid-Honored deps quote deliver rethrow events o w h in
      let (s, paid) =
        honor-honored deps (paid_key deps quote deliver rethrow) deliver (quote_opts rethrow) o
          before after e in
      let arg : HonorTxnInput Goods =
        txn_input deps (paid_key deps quote deliver rethrow) deliver s.now s.seen paid.candidate
          paid.form.gate_mode in
      let commits : on_db (run_honor_txn arg) paid.past_prepare ≡ (ok tt, after) =
        ap (λ store. store.run_honor_txn arg paid.past_prepare) (sym is_sqlite) ∙ paid.commits in
      let (goods, left) =
        run_honor_txn-goods arg paid.past_prepare.db after.db (ap (λ p. (p.0, p.1.db)) commits) in
      let (k, found, own) = issue-key (deliver_context arg) goods in
      (
        k,
        ap (λ s. fulfilment quote.quote_id s after.db.goods) h
            ∙ ap
                (λ (g : Goods).
                  some (Fulfilment.honored (first (of_key quote.quote_id) g.api_keys)))
                left
            ∙ ap (λ f. some (Fulfilment.honored f)) found,
        text_eq→eq k.quote_id quote.quote_id own,
      )
