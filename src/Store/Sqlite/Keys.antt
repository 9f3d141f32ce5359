-- ===== src/Store/Sqlite/Keys.antt =====
-- Every method of `SqliteStore` keeps the primary keys of both tables.
use exfer_honor.Base.{ℕ, refl, Text, ◌&&◌, List, arith, ltb, Option-cases, inl, inr}
use exfer_honor.Spec.Types.{AcceptedQuote, Outpoint, HonorKey}
use exfer_honor.Spec.Errors.{Result, ok, throw}
use exfer_honor.Ports.Store.{HonorTxnInput}
use exfer_honor.Store.Table.{first, update}
use exfer_honor.Store.Keyed.{
  HasUniqueKeys, append-HasUniqueKeys, update-HasUniqueKeys, delete-HasUniqueKeys,
}
use exfer_honor.Store.Rows.{
  SeenRowSql, ConsumedRowSql, Db, seen_key, has_key, has_key_iff, consumed_key, has_outpoint,
  has_outpoint_iff,
}
use exfer_honor.Store.Txn.{Txn, ◌>>◌, continue, committed}
use exfer_honor.Store.Sqlite.Lock.{has_key-lock}
use exfer_honor.Store.Sqlite.Consume.{has_outpoint-promote, GateMode-cases}
use exfer_honor.Store.Sqlite.{
  input_key, is_lockable, is_pending, insert_unless, accepted_row, observed, lock, promote_row,
  reserved_row, honored_row, upsert_accepted, mark_observed_before_expiry, reserve_claim_outpoint,
  lock_seen, consume, deliver_goods, run_honor_txn, sweep,
}
use exfer_honor.Store.Sqlite.View.{IsWellFormed}
use exfer_honor.Store.Sqlite.Refines.{has_key-observed}

abbrev SeenUnique : List SeenRowSql → Type 0
SeenUnique = HasUniqueKeys seen_key has_key has_key_iff

abbrev ConsumedUnique : List ConsumedRowSql → Type 0
ConsumedUnique = HasUniqueKeys consumed_key has_outpoint has_outpoint_iff

insert_seen :
    (rows : List SeenRowSql) (r : SeenRowSql)
    → SeenUnique rows
    → SeenUnique (insert_unless (first (has_key (seen_key r)) rows) r rows)
insert_seen rows r u = elim (Option-cases (first (has_key (seen_key r)) rows)) [
  | inl fresh ↦ rw fresh (append-HasUniqueKeys seen_key has_key has_key_iff rows r u fresh)
  | inr (_, known) ↦ rw known u
]

insert_consumed :
    (rows : List ConsumedRowSql) (r : ConsumedRowSql)
    → ConsumedUnique rows
    → ConsumedUnique (insert_unless (first (has_outpoint (consumed_key r)) rows) r rows)
insert_consumed rows r u = elim (Option-cases (first (has_outpoint (consumed_key r)) rows)) [
  | inl fresh ↦
      rw fresh (append-HasUniqueKeys consumed_key has_outpoint has_outpoint_iff rows r u fresh)
  | inr (_, known) ↦ rw known u
]

module _ {G : Type 0} where
  pub upsert_accepted-IsWellFormed :
      (a : AcceptedQuote) (accepted_at retain_until : ℕ) (db : Db G)
      → IsWellFormed db
      → IsWellFormed (upsert_accepted a accepted_at retain_until db)
  unfolding upsert_accepted
  upsert_accepted-IsWellFormed a accepted_at retain_until db u = record {
    seen_unique = insert_seen db.seen (accepted_row a accepted_at retain_until) u.seen_unique;
    consumed_unique = u.consumed_unique;
  }

  pub mark_observed-IsWellFormed :
      (k : HonorKey) (now : ℕ) (db : Db G)
      → IsWellFormed db
      → IsWellFormed (mark_observed_before_expiry k now db)
  unfolding mark_observed_before_expiry
  mark_observed-IsWellFormed k now db u = record {
    seen_unique =
        update-HasUniqueKeys seen_key has_key has_key_iff (λ r. has_key k r && ltb now r.expires_at)
          observed db.seen (λ r. refl) has_key-observed u.seen_unique;
    consumed_unique = u.consumed_unique;
  }

  pub reserve_claim-IsWellFormed :
      (k : HonorKey) (o : Outpoint) (claim_tx_id : Text) (db : Db G)
      → IsWellFormed db
      → IsWellFormed (reserve_claim_outpoint k o claim_tx_id db)
  unfolding reserve_claim_outpoint
  reserve_claim-IsWellFormed k o claim_tx_id db u = record {
    seen_unique = u.seen_unique;
    consumed_unique = insert_consumed db.consumed (reserved_row k o claim_tx_id) u.consumed_unique;
  }

  pub sweep-IsWellFormed : (now : ℕ) (db : Db G) → IsWellFormed db → IsWellFormed (sweep now db).1
  unfolding sweep
  sweep-IsWellFormed now db u = record {
    seen_unique = delete-HasUniqueKeys seen_key has_key has_key_iff _ db.seen u.seen_unique;
    consumed_unique =
        delete-HasUniqueKeys consumed_key has_outpoint has_outpoint_iff _ db.consumed
          u.consumed_unique;
  }

-- A step keeps the primary keys, however it ends.
abbrev pub Keeps : {G A : Type 0} → Txn G A → Type 0
Keeps {G} m = (db : Db G) → IsWellFormed db → IsWellFormed (m db).1

continue-IsWellFormed :
    {G A B : Type 0} (f : A → Txn G B) (p : Result A × Db G)
    → ((a : A) → Keeps (f a))
    → IsWellFormed p.1
    → IsWellFormed (continue f p).1
continue-IsWellFormed f (ok a, db) keep u = keep a db u
continue-IsWellFormed f (throw e, db) keep u = u

committed-IsWellFormed :
    {G A : Type 0} (before : Db G) (p : Result A × Db G)
    → IsWellFormed before
    → IsWellFormed p.1
    → IsWellFormed (committed before p).1
committed-IsWellFormed before (ok a, db) h u = u
committed-IsWellFormed before (throw e, db) h u = h

lock_rows :
    (k : HonorKey) (now : ℕ) (o : Outpoint) (rows : List SeenRowSql)
    → SeenUnique rows
    → SeenUnique (update (λ r. has_key k r && is_lockable now r) (lock now o) rows)
lock_rows k now o rows u =
    update-HasUniqueKeys seen_key has_key has_key_iff (λ r. has_key k r && is_lockable now r)
      (lock now o) rows (λ r. refl) (has_key-lock now o) u

promote_rows :
    (o : Outpoint) (now retain_until : ℕ) (rows : List ConsumedRowSql)
    → ConsumedUnique rows
    → ConsumedUnique
        (update (λ r. has_outpoint o r && is_pending r.state) (promote_row now retain_until) rows)
promote_rows o now retain_until rows u =
    update-HasUniqueKeys consumed_key has_outpoint has_outpoint_iff
      (λ r. has_outpoint o r && is_pending r.state) (promote_row now retain_until) rows (λ r. refl)
      (has_outpoint-promote now retain_until) u

module _ {G : Type 0} (arg : HonorTxnInput G) where
  lock_seen-Keeps : Keeps (lock_seen arg)
  unfolding lock_seen
  lock_seen-Keeps db u =
      ground (arith, lock_rows (input_key arg) arg.now arg.outpoint db.seen u.seen_unique)

  consume-Keeps : Keeps (consume arg)
  unfolding consume
  consume-Keeps db u = elim (GateMode-cases arg.mode) [
    | inl e ↦ elim (Option-cases (first (has_outpoint arg.outpoint) db.consumed)) [
      | inl free ↦ ground (
        arith,
        append-HasUniqueKeys consumed_key has_outpoint has_outpoint_iff db.consumed
            (honored_row (input_key arg) arg.outpoint arg.now arg.retain_until) u.consumed_unique
            free,
      )
      | inr (r, held) ↦ ground arith
    ]
    | inr e ↦
        ground
          (arith, promote_rows arg.outpoint arg.now arg.retain_until db.consumed u.consumed_unique)
  ]

  deliver_goods-Keeps : Keeps (deliver_goods arg)
  unfolding deliver_goods
  deliver_goods-Keeps db u = record {
    seen_unique = u.seen_unique;
    consumed_unique = u.consumed_unique;
  }

  pub run_honor_txn-IsWellFormed : Keeps (run_honor_txn arg)
  unfolding run_honor_txn
  run_honor_txn-IsWellFormed db u = committed-IsWellFormed db _ u (
      continue-IsWellFormed (λ _. consume arg >> deliver_goods arg) (lock_seen arg db)
        (λ _ d v.
          continue-IsWellFormed (λ _. deliver_goods arg) (consume arg d) (λ _. deliver_goods-Keeps)
            (consume-Keeps d v))
        (lock_seen-Keeps db u))
