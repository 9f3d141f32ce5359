-- ===== src/Store/Postgres/Sync.antt =====
-- `PostgresStore` (src/adapters/postgres-store.ts) does to its tables what `SqliteStore`
-- (src/adapters/sqlite-store.ts) does to the same rows, where no link fails.
use exfer_honor.Base.{
  ℕ, ◌≡◌, refl, sym, ap, ◌∙◌, Text, Bool, true, false, ◌&&◌, Option, none, some, List, [], ◌∷◌, map,
  arith, ltb, ◌==◌, if◌then◌else◌,
}
use mathlib.Core.Option
use mathlib.Core.List.{map-append}
use exfer_honor.Spec.Types.{AcceptedQuote, Outpoint, HonorKey}
use exfer_honor.Spec.Errors.{Thrown, Result, ok, throw}
use exfer_honor.Ports.Store.{Delivery, HonorTxnInput}
use exfer_honor.Store.Table.{select, first, count_if, update, delete}
use exfer_honor.Store.Rows as Rows
use exfer_honor.Store.Rows.{SeenRowSql, ConsumedRowSql, Db}
use exfer_honor.Store.Sqlite as Sqlite
use exfer_honor.Store.Sqlite.{insert_unless, input_key}
use exfer_honor.Store.Postgres as Pg
use exfer_honor.Store.Postgres.{PgSeenRow, PgDb, CommitEnd, Link}

abbrev flag : Bool → ℕ
flag true = 1
flag false = 0

-- A row of the one dialect as a row of the other.
abbrev pub sqlite_row : PgSeenRow → SeenRowSql
sqlite_row r = record {
  signer_pubkey = r.signer_pubkey;
  quote_id = r.quote_id;
  payee_pubkey = r.payee_pubkey;
  payer_pubkey = r.payer_pubkey;
  exfer_amount = r.exfer_amount;
  form = r.form;
  accepted_at = r.accepted_at;
  expires_at = r.expires_at;
  observed_before_expiry = flag r.observed_before_expiry;
  honored_at = r.honored_at;
  honored_tx_id = r.honored_tx_id;
  honored_output_index = r.honored_output_index;
  retain_until = r.retain_until;
}

abbrev pub sqlite_db : {G : Type 0} → PgDb G → Db G
sqlite_db db = record { seen = map sqlite_row db.seen; consumed = db.consumed; goods = db.goods }

-- A synchronous `deliver` that ends as an awaited one does.
abbrev pub awaited : Delivery → Delivery
awaited Delivery.returned = Delivery.returned
awaited (Delivery.threw e) = Delivery.threw e
awaited Delivery.resolved = Delivery.returned
awaited (Delivery.rejected e) = Delivery.threw e

abbrev pub sync_input : {G : Type 0} → HonorTxnInput G → HonorTxnInput G
sync_input arg = record arg {
  deliver = λ ctx goods. let (ended, after) = arg.deliver ctx goods in (awaited ended, after);
}

abbrev pub sqlite_end : {G A : Type 0} → Result A × PgDb G → Result A × Db G
sqlite_end (r, db) = (r, sqlite_db db)

-- Statements on a table whose rows are mapped.
module _ {A B : Type 0} (f : A → B) (p : B → Bool) (q : A → Bool)
    (same : (r : A) → p (f r) ≡ q r) where
  pub first-map : (rows : List A) → first p (map f rows) ≡ Option.map f (first q rows)
  unfolding first
  first-map [] = refl
  first-map (r ∷ rows) = ground (arith, same r, first-map rows)

  pub count_if-map : (rows : List A) → count_if p (map f rows) ≡ count_if q rows
  unfolding count_if
  count_if-map [] = refl
  count_if-map (r ∷ rows) = ground (arith, same r, count_if-map rows)

  pub select-map : (rows : List A) → select p (map f rows) ≡ map f (select q rows)
  unfolding select
  select-map [] = refl
  select-map (r ∷ rows) = ground (arith, same r, select-map rows)

  pub delete-map : (rows : List A) → delete p (map f rows) ≡ map f (delete q rows)
  unfolding delete
  delete-map [] = refl
  delete-map (r ∷ rows) = ground (arith, same r, delete-map rows)

  update-map :
      (g : B → B) (h : A → A) (rows : List A)
      → ((r : A) → g (f r) ≡ f (h r))
      → update p g (map f rows) ≡ map f (update q h rows)
  unfolding update
  update-map g h [] step = refl
  update-map g h (r ∷ rows) step = ground (arith, same r, step r, update-map g h rows step)

pub has_key-row : (k : HonorKey) (r : PgSeenRow) → Rows.has_key k (sqlite_row r) ≡ Pg.has_key k r
unfolding Rows.has_key Pg.has_key
has_key-row k r = refl

is_lockable-row :
    (now : ℕ) (r : PgSeenRow) → Sqlite.is_lockable now (sqlite_row r) ≡ Pg.is_lockable now r
unfolding Sqlite.is_lockable Pg.is_lockable
is_lockable-row now r = ground arith

insert_unless-map :
    {A B : Type 0} (f : A → B) (o : Option A) (r : A) (rows : List A)
    → insert_unless (Option.map f o) (f r) (map f rows) ≡ map f (insert_unless o r rows)
insert_unless-map f none r rows = sym (map-append f rows (r ∷ []))
insert_unless-map f (some s) r rows = refl

refusal-map : (o : Option PgSeenRow) → Sqlite.refusal (Option.map sqlite_row o) ≡ Pg.refusal o
refusal-map none = refl
refusal-map (some r) = refl

pub after_deliver-awaited :
    (ended : Delivery) → Sqlite.after_deliver (awaited ended) ≡ Pg.after_deliver ended
after_deliver-awaited Delivery.returned = refl
after_deliver-awaited (Delivery.threw e) = refl
after_deliver-awaited Delivery.resolved = refl
after_deliver-awaited (Delivery.rejected e) = refl

module _ {G : Type 0} where
  abbrev with_seen : Db G → List SeenRowSql → Db G
  with_seen db rows = record db { seen = rows }

  -- The two methods that write single rows, and the reservation of an outpoint.
  pub sqlite_db-upsert_accepted :
      (a : AcceptedQuote) (accepted_at retain_until : ℕ) (db : PgDb G)
      → sqlite_db (Pg.upsert_accepted a accepted_at retain_until db)
        ≡ Sqlite.upsert_accepted a accepted_at retain_until (sqlite_db db)
  unfolding Pg.upsert_accepted Sqlite.upsert_accepted
  sqlite_db-upsert_accepted a accepted_at retain_until db =
      let k : HonorKey = record { signer_pubkey = a.signer_pubkey; quote_id = a.quote_id } in
      let row = Sqlite.accepted_row a accepted_at retain_until in
      ap (with_seen (sqlite_db db)) (
        sym (
          ap (λ o. insert_unless o row (map sqlite_row db.seen))
            (first-map sqlite_row (Rows.has_key k) (Pg.has_key k) (has_key-row k) db.seen)
          ∙ insert_unless-map sqlite_row (first (Pg.has_key k) db.seen)
              (Pg.accepted_row a accepted_at retain_until) db.seen))

  pub sqlite_db-mark_observed :
      (k : HonorKey) (now : ℕ) (db : PgDb G)
      → sqlite_db (Pg.mark_observed_before_expiry k now db)
        ≡ Sqlite.mark_observed_before_expiry k now (sqlite_db db)
  unfolding Pg.mark_observed_before_expiry Sqlite.mark_observed_before_expiry
  sqlite_db-mark_observed k now db = ap (with_seen (sqlite_db db)) (
      sym (
        update-map sqlite_row (λ r. Rows.has_key k r && ltb now r.expires_at)
          (λ r. Pg.has_key k r && ltb now r.expires_at)
          (λ r. ap (λ b. b && ltb now r.expires_at) (has_key-row k r)) Sqlite.observed Pg.observed
          db.seen (λ r. refl)))

  pub sqlite_db-reserve_claim :
      (k : HonorKey) (o : Outpoint) (claim_tx_id : Text) (db : PgDb G)
      → sqlite_db (Pg.reserve_claim_outpoint k o claim_tx_id db)
        ≡ Sqlite.reserve_claim_outpoint k o claim_tx_id (sqlite_db db)
  unfolding Pg.reserve_claim_outpoint Sqlite.reserve_claim_outpoint
  sqlite_db-reserve_claim k o claim_tx_id db = refl

  pub sqlite_end-consume :
      (arg : HonorTxnInput G) (db : PgDb G)
      → sqlite_end (Pg.consume arg db) ≡ Sqlite.consume (sync_input arg) (sqlite_db db)
  unfolding Pg.consume Sqlite.consume
  sqlite_end-consume arg db = ground arith

  pub sqlite_end-deliver :
      (arg : HonorTxnInput G) (db : PgDb G)
      → sqlite_end (Pg.deliver_goods arg db) ≡ Sqlite.deliver_goods (sync_input arg) (sqlite_db db)
  unfolding Pg.deliver_goods Sqlite.deliver_goods
  sqlite_end-deliver arg db =
      let (ended, goods) = arg.deliver (Sqlite.deliver_context arg) db.goods in
      ap (λ r. (r, record (sqlite_db db) { goods = goods })) (sym (after_deliver-awaited ended))

  -- What step 1 makes of the count and of the updated table.
  abbrev locked_end : Db G → HonorKey → ℕ → List SeenRowSql → Result (Unit {0}) × Db G
  locked_end db k row_count rows = if row_count == 1 then (ok tt, record db { seen = rows }) else (
    throw (Thrown.gate_violation (Sqlite.refusal (first (Rows.has_key k) rows))),
    record db { seen = rows },
  )

  locked_end-map :
      (db : PgDb G) (k : HonorKey) (row_count : ℕ) (rows : List PgSeenRow)
      → sqlite_end (
          if row_count == 1 then (ok tt, record db { seen = rows }) else (
            throw (Thrown.gate_violation (Pg.refusal (first (Pg.has_key k) rows))),
            record db { seen = rows },
          ))
        ≡ locked_end (sqlite_db db) k row_count (map sqlite_row rows)
  locked_end-map db k row_count rows = ground (
    arith,
    ap Sqlite.refusal (first-map sqlite_row (Rows.has_key k) (Pg.has_key k) (has_key-row k) rows)
        ∙ refusal-map (first (Pg.has_key k) rows),
  )

  pub sqlite_end-lock_seen :
      (arg : HonorTxnInput G) (db : PgDb G)
      → sqlite_end (Pg.lock_seen arg db) ≡ Sqlite.lock_seen (sync_input arg) (sqlite_db db)
  unfolding Pg.lock_seen Sqlite.lock_seen
  sqlite_end-lock_seen arg db =
      let k : HonorKey = input_key arg in
      let old : SeenRowSql → Bool = λ r. Rows.has_key k r && Sqlite.is_lockable arg.now r in
      let new : PgSeenRow → Bool = λ r. Pg.has_key k r && Pg.is_lockable arg.now r in
      let same : (r : PgSeenRow) → old (sqlite_row r) ≡ new r =
        λ r. ground (arith, has_key-row k r, is_lockable-row arg.now r) in
      let rows : List PgSeenRow = update new (Pg.lock arg.now arg.outpoint) db.seen in
      locked_end-map db k (count_if new db.seen) rows
      ∙ ap (λ n. locked_end (sqlite_db db) k n (map sqlite_row rows))
          (sym (count_if-map sqlite_row old new same db.seen))
      ∙ ap (locked_end (sqlite_db db) k (count_if old (map sqlite_row db.seen))) (
          sym (
            update-map sqlite_row old new same (Sqlite.lock arg.now arg.outpoint)
              (Pg.lock arg.now arg.outpoint) db.seen (λ r. refl)))
