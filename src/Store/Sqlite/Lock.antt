-- ===== src/Store/Sqlite/Lock.antt =====
-- Step 1 of `runHonorTxn` of src/adapters/sqlite-store.ts: how the lock on the row ends, and when the
-- row was open.
use mathlib.Core.Option
use exfer_honor.Base.{ℕ, ◌≡◌, refl, true, false, ◌&&◌, none, some, arith, if◌then◌else◌}
use exfer_honor.Spec.Types.{Outpoint, HonorKey}
use exfer_honor.Spec.Errors.{Thrown, GateKind, ok, throw}
use exfer_honor.Ports.Store.{HonorTxnInput}
use exfer_honor.Store.Table.{first, update, updated, count_if}
use exfer_honor.Store.Keyed.{count_if-first, first-update_self}
use exfer_honor.Store.Rows.{SeenRowSql, Db, row_from_sql, seen_key, has_key, has_key_iff}
use exfer_honor.Store.Contract.{is_open}
use exfer_honor.Store.Sqlite.{input_key, is_lockable, lock, refusal, lock_seen}
use exfer_honor.Store.Sqlite.View.{IsWellFormed}

pub has_key-lock :
    (now : ℕ) (o : Outpoint) (j : HonorKey) (r : SeenRowSql)
    → has_key j (lock now o r) ≡ has_key j r
unfolding has_key
has_key-lock now o j r = refl

pub is_lockable-is_open :
    (now : ℕ) (r : SeenRowSql) → is_lockable now r ≡ is_open now (row_from_sql r)
unfolding is_lockable row_from_sql
is_lockable-is_open now r = ground arith

module _ {G : Type 0} (arg : HonorTxnInput G) (db : Db G) (u : IsWellFormed db) where
  abbrev pub locked_db : Db G
  locked_db = record db {
    seen =
        update (λ r. has_key (input_key arg) r && is_lockable arg.now r) (lock arg.now arg.outpoint)
          db.seen;
  }

  -- How many rows the lock changes.
  lock_count :
      count_if (λ r. has_key (input_key arg) r && is_lockable arg.now r) db.seen
      ≡ elim (first (has_key (input_key arg)) db.seen) [
        | none ↦ 0
        | some r ↦ if is_lockable arg.now r then 1 else 0
      ]
  lock_count =
      count_if-first seen_key has_key has_key_iff (input_key arg) (is_lockable arg.now) db.seen
        u.seen_unique

  -- The row of the key after the attempt.
  row_after_lock :
      first (has_key (input_key arg)) locked_db.seen
      ≡ Option.map
          (updated (is_lockable arg.now) (lock arg.now arg.outpoint))
          (first (has_key (input_key arg)) db.seen)
  row_after_lock =
      first-update_self seen_key has_key has_key_iff (input_key arg) (is_lockable arg.now)
        (lock arg.now arg.outpoint) db.seen (has_key-lock arg.now arg.outpoint (input_key arg))

  pub lock_seen_gone :
      first (has_key (input_key arg)) db.seen ≡ none
      → lock_seen arg db ≡ (throw (Thrown.gate_violation GateKind.expired_window), locked_db)
  unfolding lock_seen
  lock_seen_gone e = ground (arith, lock_count, row_after_lock)

  pub lock_seen_shut :
      (r : SeenRowSql)
      → first (has_key (input_key arg)) db.seen ≡ some r
      → is_lockable arg.now r ≡ false
      → lock_seen arg db ≡ (throw (Thrown.gate_violation (refusal (some r))), locked_db)
  unfolding lock_seen
  lock_seen_shut r e shut = ground (arith, lock_count, row_after_lock)

  pub lock_seen_open :
      (r : SeenRowSql)
      → first (has_key (input_key arg)) db.seen ≡ some r
      → is_lockable arg.now r ≡ true
      → lock_seen arg db ≡ (ok tt, locked_db)
  unfolding lock_seen
  lock_seen_open r e free = ground (arith, lock_count, row_after_lock)
