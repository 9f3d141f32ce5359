-- ===== src/Store/Sqlite/View.antt =====
-- What the tables of `SqliteStore` say of each quote and each outpoint.
use mathlib.Core.Option
use exfer_honor.Base.{◌≡◌, refl, Option, List, not}
use exfer_honor.Spec.Types.{Outpoint, HonorKey}
use exfer_honor.Ports.Store.{SeenRow}
use exfer_honor.Store.Table.{first}
use exfer_honor.Store.Keyed.{HasUniqueKeys}
use exfer_honor.Store.Rows.{
  SeenRowSql, ConsumedRowSql, Db, row_from_sql, seen_key, has_key, has_key_iff, consumed_key,
  has_outpoint, has_outpoint_iff,
}
use exfer_honor.Store.Contract.{Gate, Holding, same_key, same_outpoint}
use exfer_honor.Store.Sqlite.{is_pending}

abbrev pub holding_of : ConsumedRowSql → Holding
holding_of r = record {
  holder = record { signer_pubkey = r.signer_pubkey; quote_id = r.quote_id };
  is_honored = not (is_pending r.state);
  retain_until = r.retain_until;
}

abbrev pub rows_of : List SeenRowSql → HonorKey → Option SeenRow
rows_of rows = λ k. Option.map row_from_sql (first (has_key k) rows)

abbrev pub holdings_of : List ConsumedRowSql → Outpoint → Option Holding
holdings_of rows = λ o. Option.map holding_of (first (has_outpoint o) rows)

abbrev pub view : {G : Type 0} → Db G → Gate G
view db = record { row = rows_of db.seen; holding = holdings_of db.consumed; goods = db.goods }

-- The primary keys of both tables.
pub record IsWellFormed {G : Type 0} (db : Db G) : Type 0 where
  pub seen_unique : HasUniqueKeys seen_key has_key has_key_iff db.seen
  pub consumed_unique : HasUniqueKeys consumed_key has_outpoint has_outpoint_iff db.consumed

pub has_key-same_key : (k : HonorKey) (r : SeenRowSql) → has_key k r ≡ same_key (seen_key r) k
unfolding has_key same_key
has_key-same_key k r = refl

pub has_outpoint-same_outpoint :
    (o : Outpoint) (r : ConsumedRowSql) → has_outpoint o r ≡ same_outpoint (consumed_key r) o
unfolding has_outpoint same_outpoint
has_outpoint-same_outpoint o r = refl
