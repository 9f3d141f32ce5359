-- ===== src/Store/Postgres/Honors.antt =====
-- The gate transaction of `PostgresStore` (src/adapters/postgres-store.ts): it does to its tables what that
-- of `SqliteStore` does, and it keeps the contract of a store.
use exfer_honor.Base.{◌≡◌, refl, sym, ap, ◌∙◌, inl, inr, none, some, Option-cases}
use exfer_honor.Spec.Errors.{Result, ok, throw}
use exfer_honor.Ports.Store.{SeenRow, HonorTxnInput}
use exfer_honor.Ports.Effect as Effect
use exfer_honor.Store.Txn as Txn
use exfer_honor.Store.Contract.{
  Gate, arg_key, arg_context, honored_gate, refusal, settle, honor, honor_gone, honor_refused,
  honor_admitted,
}
use exfer_honor.Store.Sqlite as Sqlite
use exfer_honor.Store.Sqlite.View.{view, IsWellFormed}
use exfer_honor.Store.Sqlite.Honor.{shown, run_honor_txn-honor}
use exfer_honor.Store.Postgres as Pg
use exfer_honor.Store.Postgres.{PgDb, CommitEnd, Link, closed, begun}
use exfer_honor.Store.Postgres.Sync.{
  sqlite_db, sqlite_end, sync_input, after_deliver-awaited, sqlite_end-lock_seen,
  sqlite_end-consume, sqlite_end-deliver,
}

-- A link without faults.
abbrev pub sound_link : Link
sound_link = record { connect = none; begin = none; commit = CommitEnd.taken }

module _ {G : Type 0} where
  -- One step after another, each as the other store's.
  sqlite_end-continue :
      {A B : Type 0} (f : A → Effect.Eff (PgDb G) B) (g : A → Txn.Txn G B) (p : Result A × PgDb G)
      → ((a : A) (db : PgDb G) → sqlite_end (f a db) ≡ g a (sqlite_db db))
      → sqlite_end (Effect.continue f p) ≡ Txn.continue g (sqlite_end p)
  sqlite_end-continue f g (ok a, db) h = h a db
  sqlite_end-continue f g (throw e, db) h = refl

  sqlite_end-closed :
      {A : Type 0} (db : PgDb G) (p : Result A × PgDb G)
      → sqlite_end (closed CommitEnd.taken db p) ≡ Txn.committed (sqlite_db db) (sqlite_end p)
  sqlite_end-closed db (ok a, after) = refl
  sqlite_end-closed db (throw e, after) = refl

  -- The steps after the first.
  abbrev pg_rest : HonorTxnInput G → Effect.Eff (PgDb G) Unit
  pg_rest arg = Effect.◌>>◌ (Pg.consume arg) (Pg.deliver_goods arg)

  sqlite_end-rest :
      (arg : HonorTxnInput G) (db : PgDb G)
      → sqlite_end (pg_rest arg db)
        ≡ Txn.◌>>◌
            (Sqlite.consume (sync_input arg))
            (Sqlite.deliver_goods (sync_input arg))
            (sqlite_db db)
  sqlite_end-rest arg db =
      sqlite_end-continue (λ _. Pg.deliver_goods arg) (λ _. Sqlite.deliver_goods (sync_input arg))
        (Pg.consume arg db) (λ _. sqlite_end-deliver arg)
      ∙ ap (Txn.continue (λ _. Sqlite.deliver_goods (sync_input arg))) (sqlite_end-consume arg db)

  -- Over a link without faults, an honor of the Postgres store ends as the SQLite store's does on the
  -- same rows, given a synchronous `deliver` that ends as the awaited one; it leaves the same rows.
  pub sqlite_end-run_honor_txn :
      (arg : HonorTxnInput G) (db : PgDb G)
      → sqlite_end (Pg.run_honor_txn sound_link arg db)
        ≡ Sqlite.run_honor_txn (sync_input arg) (sqlite_db db)
  unfolding Pg.run_honor_txn Sqlite.run_honor_txn
  sqlite_end-run_honor_txn arg db =
      sqlite_end-closed db _
      ∙ ap (Txn.committed (sqlite_db db)) (
          sqlite_end-continue (λ _. pg_rest arg) _ (Pg.lock_seen arg db) (λ _. sqlite_end-rest arg)
          ∙ ap (Txn.continue _) (sqlite_end-lock_seen arg db))

  -- The gate that the tables of the Postgres store show.
  abbrev pub pg_view : PgDb G → Gate G
  pg_view db = view (sqlite_db db)

  abbrev pub pg_shown : {A : Type 0} → Result A × PgDb G → Result A × Gate G
  pg_shown (r, db) = (r, pg_view db)

  settle-awaited :
      (arg : HonorTxnInput G) (r : SeenRow) (g : Gate G)
      → settle Sqlite.after_deliver (sync_input arg) r g ≡ settle Pg.after_deliver arg r g
  settle-awaited arg r g =
      let (ended, goods) = arg.deliver (arg_context arg) g.goods in
      ap (λ res. elim res [ throw e ↦ (throw e, g) | ok _ ↦ (ok tt, honored_gate arg r goods g) ])
        (after_deliver-awaited ended)

  honor-awaited :
      (arg : HonorTxnInput G) (g : Gate G)
      → honor Sqlite.after_deliver (sync_input arg) g ≡ honor Pg.after_deliver arg g
  honor-awaited arg g = elim (Option-cases (g.row (arg_key arg))) [
    | inl gone ↦
        honor_gone Sqlite.after_deliver (sync_input arg) g gone
        ∙ sym (honor_gone Pg.after_deliver arg g gone)
    | inr (r, known) ↦
        elim (Option-cases (refusal arg.now arg.mode (some r) (g.holding arg.outpoint))) [
          | inr (kind, shut) ↦
              honor_refused Sqlite.after_deliver (sync_input arg) g r kind known shut
              ∙ sym (honor_refused Pg.after_deliver arg g r kind known shut)
          | inl free ↦
              honor_admitted Sqlite.after_deliver (sync_input arg) g r known free
              ∙ settle-awaited arg r g
              ∙ sym (honor_admitted Pg.after_deliver arg g r known free)
        ]
  ]

  -- Over a link without faults, and with unique keys in both tables, an honor of the Postgres store is the
  -- contract's, with a `deliver` that is awaited.
  pub run_honor_txn-honor_awaited :
      (arg : HonorTxnInput G) (db : PgDb G)
      → IsWellFormed (sqlite_db db)
      → pg_shown (Pg.run_honor_txn sound_link arg db) ≡ honor Pg.after_deliver arg (pg_view db)
  run_honor_txn-honor_awaited arg db u =
      ap shown (sqlite_end-run_honor_txn arg db)
      ∙ run_honor_txn-honor (sync_input arg) (sqlite_db db) u
      ∙ honor-awaited arg (pg_view db)
