-- ===== src/Store/Fake/Refines.antt =====
-- What the maps of `FakeSyncStore` (src/core/fakes.test-helpers.ts) show of each quote and each outpoint, and
-- that every method does to it what the contract of a store says.
use mathlib.Core.Option
use exfer_honor.Base.{
  ℕ, ◌≡◌, refl, sym, ap, ◌∙◌, Text, Bool, true, not, Option, none, some, List, arith, if◌then◌else◌,
  ltb, Option-cases, Bool-cases, inl, inr,
}
use exfer_honor.Base.Dict.{
  lookup, insert, lookup-insert, HasUniqueKeys, insert-HasUniqueKeys, delete_if-HasUniqueKeys,
  lookup-delete_if, kept,
}
use exfer_honor.Spec.Types.{AcceptedQuote, Outpoint, HonorKey}
use exfer_honor.Ports.Store.{SeenRow}
use exfer_honor.Store.Contract.{
  Gate, Holding, put_row, put_holding, accept, observe, reserve, swept, kept_row, kept_holding,
  quote_key,
}
use exfer_honor.Store.Sqlite.{is_pending, max_safe_integer}
use exfer_honor.Store.Fake.{
  OutpointRow, FakeDb, row_key, outpoint_key, accepted_row, reserved_row, upsert_accepted,
  mark_observed_before_expiry, reserve_claim_outpoint, sweep,
}
use exfer_honor.Store.Fake.Keys.{IsPlainKey, row_key-same, outpoint_key-same}

abbrev pub holding_of : OutpointRow → Holding
holding_of r = record {
  holder = record { signer_pubkey = r.signer_pubkey; quote_id = r.quote_id };
  is_honored = not (is_pending r.state);
  retain_until = r.retain_until;
}

abbrev pub holding_at : FakeDb → Outpoint → Option Holding
holding_at db o = Option.map holding_of (lookup (outpoint_key o) db.outpoints)

-- The maps show a gate: at each key whose quote id has no colon its row, and each outpoint.
pub record Shows (db : FakeDb) (g : Gate (List Text)) : Type 0 where
  pub rows : (k : HonorKey) → IsPlainKey k → lookup (row_key k) db.seen ≡ g.row k
  pub holdings : (o : Outpoint) → holding_at db o ≡ g.holding o
  pub goods : db.goods ≡ g.goods
  pub seen_unique : HasUniqueKeys db.seen
  pub outpoints_unique : HasUniqueKeys db.outpoints

insert_at :
    (b c : Bool) (r : SeenRow) (x y : Option SeenRow)
    → b ≡ c
    → x ≡ y
    → (if b then some r else x) ≡ (if c then some r else y)
insert_at b c r x y e f = rw (e, f) refl

pub row_written :
    (k : HonorKey) (r : SeenRow) (db : FakeDb) (g : Gate (List Text))
    → IsPlainKey k
    → Shows db g
    → Shows (record db { seen = insert (row_key k) r db.seen }) (put_row k r g)
row_written k r db g plain s = record {
  rows = λ j h.
      lookup-insert (row_key k) (row_key j) r db.seen
      ∙ insert_at _ _ r _ _ (row_key-same k j plain h) (s.rows j h);
  holdings = s.holdings;
  goods = s.goods;
  seen_unique = insert-HasUniqueKeys (row_key k) r db.seen s.seen_unique;
  outpoints_unique = s.outpoints_unique;
}

holding_inserted :
    (b c : Bool) (r : OutpointRow) (x : Option OutpointRow) (y : Option Holding)
    → b ≡ c
    → Option.map holding_of x ≡ y
    → Option.map holding_of (if b then some r else x) ≡ (if c then some (holding_of r) else y)
holding_inserted b c r x y e f = ground arith

pub holding_written :
    (o : Outpoint) (r : OutpointRow) (db : FakeDb) (g : Gate (List Text))
    → Shows db g
    → Shows
        (record db { outpoints = insert (outpoint_key o) r db.outpoints })
        (put_holding o (holding_of r) g)
holding_written o r db g s = record {
  rows = s.rows;
  holdings = λ p.
      ap (Option.map holding_of) (lookup-insert (outpoint_key o) (outpoint_key p) r db.outpoints)
      ∙ holding_inserted _ _ r _ _ (outpoint_key-same o p) (s.holdings p);
  goods = s.goods;
  seen_unique = s.seen_unique;
  outpoints_unique = insert-HasUniqueKeys (outpoint_key o) r db.outpoints s.outpoints_unique;
}

pub upsert_accepted-Shows :
    (a : AcceptedQuote) (accepted_at retain_until : ℕ) (db : FakeDb) (g : Gate (List Text))
    → IsPlainKey (quote_key a)
    → Shows db g
    → Shows (upsert_accepted a accepted_at retain_until db) (accept a accepted_at retain_until g)
unfolding upsert_accepted
upsert_accepted-Shows a accepted_at retain_until db g plain s =
    elim (Option-cases (g.row (quote_key a))) [
      | inl fresh ↦
          rw (s.rows (quote_key a) plain ∙ fresh, fresh, accept)
            (row_written (quote_key a) (accepted_row a accepted_at retain_until) db g plain s)
      | inr (r, known) ↦ rw (s.rows (quote_key a) plain ∙ known, known, accept) s
    ]

pub mark_observed-Shows :
    (k : HonorKey) (now : ℕ) (db : FakeDb) (g : Gate (List Text))
    → IsPlainKey k
    → Shows db g
    → Shows (mark_observed_before_expiry k now db) (observe k now g)
unfolding mark_observed_before_expiry
mark_observed-Shows k now db g plain s = elim (Option-cases (g.row k)) [
  | inl gone ↦ rw (s.rows k plain ∙ gone, gone, observe) s
  | inr (r, known) ↦ elim (Bool-cases (ltb now r.expires_at)) [
    | inl early ↦
        rw (s.rows k plain ∙ known, known, observe)
          (rw early (row_written k (record r { observed_before_expiry = true }) db g plain s))
    | inr late ↦ rw (s.rows k plain ∙ known, known, observe) (rw late s)
  ]
]

pub reserve_claim-Shows :
    (k : HonorKey) (o : Outpoint) (db : FakeDb) (g : Gate (List Text))
    → Shows db g
    → Shows (reserve_claim_outpoint k o db) (reserve k o max_safe_integer g)
unfolding reserve_claim_outpoint
reserve_claim-Shows k o db g s = elim (Option-cases (lookup (outpoint_key o) db.outpoints)) [
  | inl free ↦
      rw (free, sym (s.holdings o) ∙ ap (Option.map holding_of) free, reserve)
        (holding_written o (reserved_row k o) db g s)
  | inr (r, taken) ↦ rw (taken, sym (s.holdings o) ∙ ap (Option.map holding_of) taken, reserve) s
]

kept-kept_row :
    (now : ℕ) (x : Option SeenRow) → kept (λ r. ltb r.retain_until now) x ≡ kept_row now x
kept-kept_row now none = refl
kept-kept_row now (some r) = refl

kept-kept_holding :
    (now : ℕ) (x : Option OutpointRow)
    → Option.map holding_of (kept (λ r. ltb r.retain_until now) x)
      ≡ kept_holding now (Option.map holding_of x)
kept-kept_holding now none = refl
kept-kept_holding now (some r) = ground arith

pub sweep-Shows :
    (now : ℕ) (db : FakeDb) (g : Gate (List Text))
    → Shows db g
    → Shows (sweep now db).1 (swept now g)
unfolding sweep
sweep-Shows now db g s = record {
  rows = λ k h.
      lookup-delete_if (row_key k) (λ r. ltb r.retain_until now) db.seen s.seen_unique
      ∙ kept-kept_row now (lookup (row_key k) db.seen)
      ∙ ap (kept_row now) (s.rows k h);
  holdings = λ o.
      ap (Option.map holding_of) (
        lookup-delete_if (outpoint_key o) (λ r. ltb r.retain_until now) db.outpoints
          s.outpoints_unique)
      ∙ kept-kept_holding now (lookup (outpoint_key o) db.outpoints)
      ∙ ap (kept_holding now) (s.holdings o);
  goods = s.goods;
  seen_unique = delete_if-HasUniqueKeys (λ r. ltb r.retain_until now) db.seen s.seen_unique;
  outpoints_unique =
      delete_if-HasUniqueKeys (λ r. ltb r.retain_until now) db.outpoints s.outpoints_unique;
}
