-- ===== src/Store/Postgres/Reads.antt =====
-- What the other methods of `PostgresStore` (src/adapters/postgres-store.ts) return, against those of
-- `SqliteStore` on the same rows.
use exfer_honor.Base.{
  ℕ, ◌≡◌, refl, sym, ap, ◌∙◌, ◌⊎◌, inl, inr, Bool, ◌&&◌, Option, none, some, List, [], ◌∷◌, map,
  arith, ltb, text_eq,
}
use mathlib.Core.Option
use exfer_honor.Spec.Types.{PubKey, HonorKey}
use exfer_honor.Spec.Errors.{ok}
use exfer_honor.Store.Amount.{amount_to_text, text_to_amount-amount_to_text}
use exfer_honor.Store.Table.{select, first}
use exfer_honor.Store.Rows as Rows
use exfer_honor.Store.Rows.{SeenRowSql}
use exfer_honor.Store.Sqlite as Sqlite
use exfer_honor.Store.Sqlite.{is_none}
use exfer_honor.Store.Postgres as Pg
use exfer_honor.Store.Postgres.{PgSeenRow, PgDb, BigintCell, num}
use exfer_honor.Store.Postgres.Sync.{
  sqlite_row, sqlite_db, sqlite_end, first-map, select-map, count_if-map, delete-map, has_key-row,
}
use exfer_honor.Store.Postgres.Honors.{sound_link}

-- The driver reads a BIGINT column as its decimal text, or as the number if it is told to.
abbrev pub IsDriver : (ℕ → BigintCell) → Type 0
IsDriver cell =
    (n : ℕ) → (cell n ≡ BigintCell.decimal (amount_to_text n)) ⊎ (cell n ≡ BigintCell.number n)

abbrev listed : PubKey → ℕ → PgSeenRow → Bool
listed s now r = text_eq r.signer_pubkey s && is_none r.honored_at && ltb now r.retain_until

module _ (cell : ℕ → BigintCell) (driver : IsDriver cell) where
  num-cell : (n : ℕ) → num (cell n) ≡ n
  unfolding num
  num-cell n = elim (driver n) [
    | inl e ↦ ap num e ∙ text_to_amount-amount_to_text n
    | inr e ↦ ap num e
  ]

  num-cell_option : (o : Option ℕ) → Option.map (λ n. num (cell n)) o ≡ o
  num-cell_option none = refl
  num-cell_option (some n) = ap some (num-cell n)

  row_from_sql-sqlite_row :
      (r : PgSeenRow) → Pg.row_from_sql cell r ≡ Rows.row_from_sql (sqlite_row r)
  unfolding Pg.row_from_sql Rows.row_from_sql
  row_from_sql-sqlite_row r = ground (
    arith,
    num-cell r.accepted_at,
    num-cell r.expires_at,
    num-cell_option r.honored_at,
    num-cell r.retain_until,
  )

  seen_row-sqlite_row :
      (o : Option PgSeenRow)
      → Option.map (Pg.row_from_sql cell) o ≡ Option.map Rows.row_from_sql (Option.map sqlite_row o)
  seen_row-sqlite_row none = refl
  seen_row-sqlite_row (some r) = ap some (row_from_sql-sqlite_row r)

  seen_rows-sqlite_row :
      (rows : List PgSeenRow)
      → map (Pg.row_from_sql cell) rows ≡ map Rows.row_from_sql (map sqlite_row rows)
  seen_rows-sqlite_row [] = refl
  seen_rows-sqlite_row (r ∷ rows) =
      ground (arith, row_from_sql-sqlite_row r, seen_rows-sqlite_row rows)

  -- Where the driver reads the numbers as it says, a row is read as from the SQLite table.
  pub get_seen-sqlite_db :
      {G : Type 0} (k : HonorKey) (db : PgDb G)
      → Pg.get_seen cell k db ≡ Sqlite.get_seen k (sqlite_db db)
  unfolding Pg.get_seen Sqlite.get_seen
  get_seen-sqlite_db k db =
      seen_row-sqlite_row (first (Pg.has_key k) db.seen)
      ∙ ap (Option.map Rows.row_from_sql)
          (sym (first-map sqlite_row (Rows.has_key k) (Pg.has_key k) (has_key-row k) db.seen))

  pub list_honorable-sqlite_db :
      {G : Type 0} (s : PubKey) (now : ℕ) (db : PgDb G)
      → Pg.list_honorable cell s now db ≡ Sqlite.list_honorable s now (sqlite_db db)
  unfolding Pg.list_honorable Sqlite.list_honorable
  list_honorable-sqlite_db s now db =
      seen_rows-sqlite_row (select (listed s now) db.seen)
      ∙ ap (map Rows.row_from_sql) (
          sym (
            select-map sqlite_row
              (λ r. text_eq r.signer_pubkey s && is_none r.honored_at && ltb now r.retain_until)
              (listed s now) (λ r. refl) db.seen))

-- Over a link without faults a sweep deletes the same rows and reports the same counts.
pub sweep-sqlite_db :
    {G : Type 0} (now : ℕ) (db : PgDb G)
    → sqlite_end (Pg.sweep sound_link now db)
      ≡ (ok (Sqlite.sweep now (sqlite_db db)).0, (Sqlite.sweep now (sqlite_db db)).1)
unfolding Pg.sweep Sqlite.sweep
sweep-sqlite_db now db = sym (
    ground (
      arith,
      count_if-map sqlite_row (λ r. ltb r.retain_until now) (λ r. ltb r.retain_until now)
          (λ r. refl) db.seen,
      delete-map sqlite_row (λ r. ltb r.retain_until now) (λ r. ltb r.retain_until now) (λ r. refl)
          db.seen,
    ))
