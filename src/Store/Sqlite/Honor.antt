-- ===== src/Store/Sqlite/Honor.antt =====
-- `runHonorTxn` of src/adapters/sqlite-store.ts against the contract's honor.
use mathlib.Core.Option
use exfer_honor.Base.{
  ◌≡◌, refl, ap, ◌∙◌, sym, true, false, Option, some, arith, Bool-cases, Option-cases, inl, inr,
}
use exfer_honor.Spec.Errors.{Thrown, Result, ok, throw}
use exfer_honor.Ports.Store.{HonorTxnInput}
use exfer_honor.Store.Table.{first}
use exfer_honor.Store.Rows.{SeenRowSql, Db, row_from_sql, has_key}
use exfer_honor.Store.Contract.{
  Gate, is_open, row_refusal, holding_refusal, honor, honored_gate, settle, arg_context, honor_gone,
  honor_refused, honor_admitted, same_outpoint, same_outpoint_iff, honored_holding,
}
use exfer_honor.Store.Contract
use exfer_honor.Store.Txn.{Txn, ◌>>◌, committed, >>=-throw, >>=-ok, transaction-throw}
use exfer_honor.Store.Sqlite.{
  input_key, is_lockable, lock, refusal, lock_seen, consume, deliver_goods, after_deliver,
  run_honor_txn,
}
use exfer_honor.Store.Sqlite.Refines.{rows_of-update}
use exfer_honor.Store.Sqlite.View.{holdings_of, view, IsWellFormed}
use exfer_honor.Store.Sqlite.Lock.{
  has_key-lock, is_lockable-is_open, locked_db, lock_seen_gone, lock_seen_shut, lock_seen_open,
}
use exfer_honor.Store.Sqlite.Consume.{Takes, consume_refused, consume_taken}

abbrev pub shown : {G A : Type 0} → Result A × Db G → Result A × Gate G
shown (r, db) = (r, view db)

module _ {G : Type 0} (arg : HonorTxnInput G) (db : Db G) (u : IsWellFormed db) where
  abbrev rest : Txn G Unit
  rest = consume arg >> deliver_goods arg

  -- A throw of any step rolls the tables back.
  refused_by_lock :
      (e : Thrown) {after : Db G}
      → lock_seen arg db ≡ (throw e, after)
      → run_honor_txn arg db ≡ (throw e, db)
  unfolding run_honor_txn
  refused_by_lock e h =
      transaction-throw (lock_seen arg >> rest) db (>>=-throw (lock_seen arg) (λ _. rest) db h)

  past_lock :
      lock_seen arg db ≡ (ok tt, locked_db arg db u)
      → run_honor_txn arg db ≡ committed db (rest (locked_db arg db u))
  unfolding run_honor_txn
  past_lock h = ap (committed db) (>>=-ok (lock_seen arg) (λ _. rest) db h)

  refused_by_consume :
      (e : Thrown)
      → lock_seen arg db ≡ (ok tt, locked_db arg db u)
      → (consume arg (locked_db arg db u)).0 ≡ throw e
      → run_honor_txn arg db ≡ (throw e, db)
  refused_by_consume e h c =
      past_lock h
      ∙ ap (committed db) (
          >>=-throw (consume arg) (λ _. deliver_goods arg) (locked_db arg db u)
            (λ i. (c i, (consume arg (locked_db arg db u)).1)))

  past_consume :
      {after : Db G}
      → lock_seen arg db ≡ (ok tt, locked_db arg db u)
      → consume arg (locked_db arg db u) ≡ (ok tt, after)
      → run_honor_txn arg db ≡ committed db (deliver_goods arg after)
  past_consume h c =
      past_lock h
      ∙ ap (committed db) (>>=-ok (consume arg) (λ _. deliver_goods arg) (locked_db arg db u) c)

  row_at :
      {o : Option SeenRowSql}
      → first (has_key (input_key arg)) db.seen ≡ o
      → (view db).row (input_key arg) ≡ Option.map row_from_sql o
  row_at h = ap (Option.map row_from_sql) h

  shut_refusal :
      (r : SeenRowSql)
      → is_lockable arg.now r ≡ false
      → Contract.refusal arg.now arg.mode
          (some (row_from_sql r))
          (holdings_of db.consumed arg.outpoint)
        ≡ some (refusal (some r))
  unfolding row_from_sql
  shut_refusal r shut = ground (arith, is_lockable-is_open arg.now r)

  open_refusal :
      (r : SeenRowSql)
      → is_lockable arg.now r ≡ true
      → Contract.refusal arg.now arg.mode
          (some (row_from_sql r))
          (holdings_of db.consumed arg.outpoint)
        ≡ holding_refusal arg.mode (holdings_of db.consumed arg.outpoint)
  unfolding row_from_sql
  open_refusal r free =
      elim (Option-cases (holding_refusal arg.mode (holdings_of db.consumed arg.outpoint))) [
        | inl e ↦ ground (arith, is_lockable-is_open arg.now r)
        | inr (kind, e) ↦ ground (arith, is_lockable-is_open arg.now r)
      ]

  -- What the committed tables show, once both gate writes are made.
  honored_view :
      (r : SeenRowSql) (after : Db G) (goods : G)
      → first (has_key (input_key arg)) db.seen ≡ some r
      → is_lockable arg.now r ≡ true
      → Takes arg (locked_db arg db u) u.consumed_unique after
      → view (record after { goods = goods }) ≡ honored_gate arg (row_from_sql r) goods (view db)
  unfolding row_from_sql
  honored_view r after goods known free (held, same_seen, _) =
      rw (held, same_seen)
        (ap (λ f. record (honored_gate arg (row_from_sql r) goods (view db)) { row = f })
          (rows_of-update (input_key arg) (is_lockable arg.now) (lock arg.now arg.outpoint)
              (has_key-lock arg.now arg.outpoint) db.seen
            ∙ rw (known, free)))

  delivered :
      (r : SeenRowSql) (after : Db G)
      → first (has_key (input_key arg)) db.seen ≡ some r
      → is_lockable arg.now r ≡ true
      → Takes arg (locked_db arg db u) u.consumed_unique after
      → shown (committed db (deliver_goods arg after))
        ≡ settle after_deliver arg (row_from_sql r) (view db)
  unfolding deliver_goods
  delivered r after known free takes =
      rw takes.2 (ended (after_deliver (arg.deliver (arg_context arg) db.goods).0))
    where
      ended :
          (res : Result (Unit {0}))
          → shown (
              committed db
                (res, record after { goods = (arg.deliver (arg_context arg) db.goods).1 }))
            ≡ elim res [
              | throw e ↦ (throw e, view db)
              | ok _ ↦ (
                ok tt,
                honored_gate arg
                    (row_from_sql r)
                    (arg.deliver (arg_context arg) db.goods).1
                    (view db),
              )
            ]
      ended (ok _) = ap (λ g. (ok tt, g)) (honored_view r after _ known free takes)
      ended (throw e) = refl

  -- On well-formed tables, the gate transaction answers and changes the tables as the contract says of an
  -- honor, on every branch: refused by the row, refused by the outpoint, failed by `deliver`, or honored.
  pub run_honor_txn-honor : shown (run_honor_txn arg db) ≡ honor after_deliver arg (view db)
  run_honor_txn-honor = elim (Option-cases (first (has_key (input_key arg)) db.seen)) [
    | inl gone ↦
        rw (refused_by_lock _ (lock_seen_gone arg db u gone))
          (sym (honor_gone after_deliver arg (view db) (row_at gone)))
    | inr (r, known) ↦ elim (Bool-cases (is_lockable arg.now r)) [
      | inr shut ↦
          rw (refused_by_lock _ (lock_seen_shut arg db u r known shut)) (
            sym
              (honor_refused after_deliver arg (view db) _ _ (row_at known) (shut_refusal r shut)))
      | inl free ↦
          let locked = lock_seen_open arg db u r known free in
          elim (Option-cases (holding_refusal arg.mode (holdings_of db.consumed arg.outpoint))) [
            | inl open_point ↦
                let (after, c, takes) =
                  consume_taken arg (locked_db arg db u) u.consumed_unique open_point in
                rw (past_consume locked c) (
                  delivered r after known free takes
                  ∙ sym (
                      honor_admitted after_deliver arg (view db) _ (row_at known)
                        (open_refusal r free ∙ open_point)))
            | inr (kind, held) ↦
                rw
                  (refused_by_consume _ locked
                    (consume_refused arg (locked_db arg db u) u.consumed_unique kind held))
                  (sym (
                    honor_refused after_deliver arg (view db) _ _ (row_at known)
                      (open_refusal r free ∙ held)))
          ]
    ]
  ]
