-- ===== src/Store/Sqlite/Refines.antt =====
-- Every method of `SqliteStore` does to what its tables show what the contract says, and keeps the
-- primary keys.
use mathlib.Core.Option
use mathlib.Core.Path.{fun_ext}
use exfer_honor.Base.{
  ℕ, ◌≡◌, refl, ap, ◌∙◌, Bool, false, ◌&&◌, Option, none, some, List, [], ◌∷◌, ◌++◌, arith,
  if◌then◌else◌, ltb, Text, Bool-cases, Option-cases, inl, inr, ◌⊎◌,
}
use exfer_honor.Spec.Types.{AcceptedQuote, Outpoint, HonorKey}
use exfer_honor.Ports.Store.{SeenRow}
use exfer_honor.Store.Amount.{text_to_amount-amount_to_text}
use exfer_honor.Store.Table.{first, update, updated}
use exfer_honor.Store.Keyed.{kept}
use exfer_honor.Store.Lookup.{lookup-insert, lookup-update, lookup-update_idle, lookup-delete}
use exfer_honor.Store.Rows.{
  SeenRowSql, ConsumedRowSql, Db, row_from_sql, seen_key, has_key, has_key_iff, consumed_key,
  has_outpoint, has_outpoint_iff,
}
use exfer_honor.Store.Contract.{
  Gate, same_key, same_key_iff, same_outpoint, same_outpoint_iff, accept, observe, reserve, swept,
  quote_key, kept_row, kept_holding,
}
use exfer_honor.Store.Sqlite.{
  accepted_row, observed, reserved_row, max_safe_integer, upsert_accepted, get_seen,
  mark_observed_before_expiry, reserve_claim_outpoint, sweep,
}
use exfer_honor.Store.Sqlite.View.{
  holding_of, rows_of, holdings_of, view, IsWellFormed, has_key-same_key,
  has_outpoint-same_outpoint,
}

rows_of-insert :
    (rows : List SeenRowSql) (r : SeenRowSql)
    → first (has_key (seen_key r)) rows ≡ none
    → rows_of (rows ++ r ∷ [])
      ≡ (λ j. if same_key (seen_key r) j then some (row_from_sql r) else rows_of rows j)
rows_of-insert =
    lookup-insert seen_key has_key has_key_iff same_key same_key_iff has_key-same_key row_from_sql

pub holdings_of-insert :
    (rows : List ConsumedRowSql) (r : ConsumedRowSql)
    → first (has_outpoint (consumed_key r)) rows ≡ none
    → holdings_of (rows ++ r ∷ [])
      ≡ (λ j. if same_outpoint (consumed_key r) j then some (holding_of r) else holdings_of rows j)
holdings_of-insert =
    lookup-insert consumed_key has_outpoint has_outpoint_iff same_outpoint same_outpoint_iff
      has_outpoint-same_outpoint holding_of

module _ (k : HonorKey) (c : SeenRowSql → Bool) (f : SeenRowSql → SeenRowSql)
    (keep : (j : HonorKey) (r : SeenRowSql) → has_key j (f r) ≡ has_key j r)
    (rows : List SeenRowSql) where
  pub rows_of-update : rows_of (update (λ r. has_key k r && c r) f rows) ≡ (λ j.
      if same_key k j
      then Option.map row_from_sql (Option.map (updated c f) (first (has_key k) rows))
      else rows_of rows j)
  rows_of-update =
      lookup-update seen_key has_key has_key_iff same_key same_key_iff has_key-same_key row_from_sql
        k c f keep rows

  pub rows_of-update_idle :
      (first (has_key k) rows ≡ none)
        ⊎ ((r : SeenRowSql) × (first (has_key k) rows ≡ some r) × (c r ≡ false))
      → rows_of (update (λ r. has_key k r && c r) f rows) ≡ rows_of rows
  rows_of-update_idle =
      lookup-update_idle seen_key has_key has_key_iff same_key same_key_iff has_key-same_key
        row_from_sql k c f keep rows

pub has_key-observed : (j : HonorKey) (r : SeenRowSql) → has_key j (observed r) ≡ has_key j r
unfolding has_key
has_key-observed j r = refl

map-kept_row :
    (now : ℕ) (o : Option SeenRowSql)
    → Option.map row_from_sql (kept seen_key has_key has_key_iff (λ r. ltb r.retain_until now) o)
      ≡ kept_row now (Option.map row_from_sql o)
unfolding row_from_sql
map-kept_row now none = refl
map-kept_row now (some r) = ground arith

map-kept_holding :
    (now : ℕ) (o : Option ConsumedRowSql)
    → Option.map holding_of
        (kept consumed_key has_outpoint has_outpoint_iff (λ r. ltb r.retain_until now) o)
      ≡ kept_holding now (Option.map holding_of o)
map-kept_holding now none = refl
map-kept_holding now (some r) = ground arith

module _ {G : Type 0} where
  pub get_seen-view : (k : HonorKey) (db : Db G) → get_seen k db ≡ (view db).row k
  unfolding get_seen
  get_seen-view k db = refl

  pub view-upsert_accepted :
      (a : AcceptedQuote) (accepted_at retain_until : ℕ) (db : Db G)
      → view (upsert_accepted a accepted_at retain_until db)
        ≡ accept a accepted_at retain_until (view db)
  unfolding upsert_accepted row_from_sql
  view-upsert_accepted a accepted_at retain_until db =
      elim (Option-cases (first (has_key (quote_key a)) db.seen)) [
        | inl fresh ↦ rw (
          fresh,
          accept,
          rows_of-insert db.seen (accepted_row a accepted_at retain_until) fresh,
          text_to_amount-amount_to_text,
        )
        | inr (r, known) ↦ rw (known, accept)
      ]

  pub view-mark_observed :
      (k : HonorKey) (now : ℕ) (db : Db G)
      → view (mark_observed_before_expiry k now db) ≡ observe k now (view db)
  unfolding mark_observed_before_expiry row_from_sql
  view-mark_observed k now db = elim (Option-cases (first (has_key k) db.seen)) [
    | inl gone ↦
        rw (gone, observe)
          (with_rows (
            rows_of-update_idle k (λ r. ltb now r.expires_at) observed has_key-observed db.seen
              (inl gone)))
    | inr (r, known) ↦ elim (Bool-cases (ltb now r.expires_at)) [
      | inl early ↦
          rw (known, observe, early)
            (with_rows (
              rows_of-update k (λ r. ltb now r.expires_at) observed has_key-observed db.seen
              ∙ rw (known, early)))
      | inr late ↦
          rw (known, observe, late)
            (with_rows (
              rows_of-update_idle k (λ r. ltb now r.expires_at) observed has_key-observed db.seen
                (inr (r, known, late))))
    ]
  ]
    where
      with_rows :
          {f g : HonorKey → Option SeenRow}
          → f ≡ g
          → ◌≡◌ {A = Gate G} (record (view db) { row = f }) (record (view db) { row = g })
      with_rows e = ap (λ f. record (view db) { row = f }) e

  pub view-reserve_claim :
      (k : HonorKey) (o : Outpoint) (claim_tx_id : Text) (db : Db G)
      → view (reserve_claim_outpoint k o claim_tx_id db) ≡ reserve k o max_safe_integer (view db)
  unfolding reserve_claim_outpoint
  view-reserve_claim k o claim_tx_id db = elim (Option-cases (first (has_outpoint o) db.consumed)) [
    | inl free ↦
        rw (free, reserve, holdings_of-insert db.consumed (reserved_row k o claim_tx_id) free)
    | inr (r, taken) ↦ rw (taken, reserve)
  ]

  pub view-sweep :
      (now : ℕ) (db : Db G) → IsWellFormed db → view (sweep now db).1 ≡ swept now (view db)
  unfolding sweep
  view-sweep now db u = rw (
    lookup-delete seen_key has_key has_key_iff same_key same_key_iff has_key-same_key row_from_sql
        (λ r. ltb r.retain_until now) db.seen u.seen_unique,
    lookup-delete consumed_key has_outpoint has_outpoint_iff same_outpoint same_outpoint_iff
        has_outpoint-same_outpoint holding_of (λ r. ltb r.retain_until now) db.consumed
        u.consumed_unique,
    fun_ext (λ k. map-kept_row now (first (has_key k) db.seen)),
    fun_ext (λ o. map-kept_holding now (first (has_outpoint o) db.consumed)),
  )
