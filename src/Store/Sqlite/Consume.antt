-- ===== src/Store/Sqlite/Consume.antt =====
-- Step 2 of `runHonorTxn` of src/adapters/sqlite-store.ts: when the outpoint is taken, and what that
-- leaves.
use mathlib.Core.Option
use exfer_honor.Base.{
  ℕ, ◌≡◌, refl, ◌∙◌, Bool, ◌&&◌, none, some, [], ◌∷◌, ◌++◌, arith, if◌then◌else◌, Bool-cases,
  Option-cases, inl, inr, ◌⊎◌,
}
use exfer_honor.Spec.Types.{Outpoint}
use exfer_honor.Spec.Errors.{Thrown, GateKind, ok, throw}
use exfer_honor.Ports.Store.{GateMode, HonorTxnInput}
use exfer_honor.Store.Table.{first, update, updated, count_if}
use exfer_honor.Store.Keyed.{HasUniqueKeys, count_if-first}
use exfer_honor.Store.Lookup.{lookup-update}
use exfer_honor.Store.Rows.{ConsumedRowSql, Db, consumed_key, has_outpoint, has_outpoint_iff}
use exfer_honor.Store.Contract.{holding_refusal, same_outpoint, same_outpoint_iff, honored_holding}
use exfer_honor.Store.Sqlite.{input_key, promote_row, honored_row, is_pending, consume}
use exfer_honor.Store.Sqlite.Refines.{holdings_of-insert}
use exfer_honor.Store.Sqlite.View.{holding_of, has_outpoint-same_outpoint, holdings_of}

pub has_outpoint-promote :
    (now retain_until : ℕ) (o : Outpoint) (r : ConsumedRowSql)
    → has_outpoint o (promote_row now retain_until r) ≡ has_outpoint o r
unfolding has_outpoint
has_outpoint-promote now retain_until o r = refl

pub GateMode-cases : (m : GateMode) → (m ≡ GateMode.single) ⊎ (m ≡ GateMode.promote)
GateMode-cases GateMode.single = inl refl
GateMode-cases GateMode.promote = inr refl

module _ {G : Type 0} (arg : HonorTxnInput G) (db : Db G)
    (u : HasUniqueKeys consumed_key has_outpoint has_outpoint_iff db.consumed) where
  abbrev target : ConsumedRowSql → Bool
  target r = has_outpoint arg.outpoint r && is_pending r.state

  promote_count :
      count_if target db.consumed ≡ elim (first (has_outpoint arg.outpoint) db.consumed) [
        | none ↦ 0
        | some r ↦ if is_pending r.state then 1 else 0
      ]
  promote_count =
      count_if-first consumed_key has_outpoint has_outpoint_iff arg.outpoint
        (λ r. is_pending r.state) db.consumed u

  pub consume_refused :
      (kind : GateKind)
      → holding_refusal arg.mode (holdings_of db.consumed arg.outpoint) ≡ some kind
      → (consume arg db).0 ≡ throw (Thrown.gate_violation kind)
  unfolding consume
  consume_refused kind h = elim (GateMode-cases arg.mode) [
    | inl e ↦ elim (Option-cases (first (has_outpoint arg.outpoint) db.consumed)) [
      | inl free ↦ ground arith
      | inr (r, held) ↦ ground arith
    ]
    | inr e ↦ elim (Option-cases (first (has_outpoint arg.outpoint) db.consumed)) [
      | inl free ↦ ground (arith, promote_count)
      | inr (r, held) ↦ ground (arith, promote_count)
    ]
  ]

  -- What a taken outpoint leaves: only its holding is new.
  abbrev pub Takes : Db G → Type 0
  Takes after =
      (holdings_of after.consumed ≡ (λ p.
        if same_outpoint arg.outpoint p
        then some (
            honored_holding (input_key arg) arg.retain_until (holdings_of db.consumed arg.outpoint))
        else holdings_of db.consumed p))
      × (after.seen ≡ db.seen)
      × (after.goods ≡ db.goods)

  pub consume_taken :
      holding_refusal arg.mode (holdings_of db.consumed arg.outpoint) ≡ none
      → (after : Db G) × (consume arg db ≡ (ok tt, after)) × Takes after
  unfolding consume
  consume_taken h = elim (GateMode-cases arg.mode) [
    | inl e ↦ elim (Option-cases (first (has_outpoint arg.outpoint) db.consumed)) [
      | inl free ↦ (inserted, ground arith, (rw free (inserted_holding free), refl, refl))
      | inr (r, held) ↦ absurd (ground arith)
    ]
    | inr e ↦ elim (Option-cases (first (has_outpoint arg.outpoint) db.consumed)) [
      | inl free ↦ absurd (ground arith)
      | inr (r, held) ↦ elim (Bool-cases (is_pending r.state)) [
        | inl pending ↦ (
          promoted,
          ground (arith, promote_count),
          (holdings_of-promoted ∙ rw (held, pending), refl, refl),
        )
        | inr settled ↦ absurd (ground arith)
      ]
    ]
  ]
    where
      inserted : Db G
      inserted = record db {
        consumed =
            db.consumed ++ honored_row (input_key arg) arg.outpoint arg.now arg.retain_until ∷ [];
      }

      promoted : Db G
      promoted = record db {
        consumed = update target (promote_row arg.now arg.retain_until) db.consumed;
      }

      inserted_holding :
          first (has_outpoint arg.outpoint) db.consumed ≡ none
          → holdings_of inserted.consumed ≡ (λ p.
            if same_outpoint arg.outpoint p
            then some (honored_holding (input_key arg) arg.retain_until none)
            else holdings_of db.consumed p)
      inserted_holding free =
          holdings_of-insert db.consumed
            (honored_row (input_key arg) arg.outpoint arg.now arg.retain_until) free

      holdings_of-promoted : holdings_of promoted.consumed ≡ (λ p.
          if same_outpoint arg.outpoint p
          then Option.map holding_of (
              Option.map
                (updated (λ r. is_pending r.state) (promote_row arg.now arg.retain_until))
                (first (has_outpoint arg.outpoint) db.consumed))
          else holdings_of db.consumed p)
      holdings_of-promoted =
          lookup-update consumed_key has_outpoint has_outpoint_iff same_outpoint same_outpoint_iff
            has_outpoint-same_outpoint holding_of arg.outpoint (λ r. is_pending r.state)
            (promote_row arg.now arg.retain_until) (has_outpoint-promote arg.now arg.retain_until)
            db.consumed

-- The contract's answer and change, read off a run.
