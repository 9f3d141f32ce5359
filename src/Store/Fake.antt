-- ===== src/Store/Fake.antt =====
-- `FakeSyncStore` (src/core/fakes.test-helpers.ts): the in-memory store that the engine's tests and the
-- conformance run use beside `SqliteStore`. Its maps have string keys, and its goods are a set of keys that
-- a `deliver` stages and a commit publishes.
pub mod Keys
pub mod Refines
pub mod Honors
pub mod History
pub mod Port
use exfer_honor.Base.{
  ℕ, suc, ◌+◌, Text, codes, text_eq, Bool, true, false, not, ◌&&◌, ◌||◌, Option, none, some, List,
  [], ◌∷◌, ◌++◌, ltb, if◌then◌else◌, length,
}
use exfer_honor.Base.Dict.{Dict, lookup, insert, delete_if, count_values, values}
use exfer_honor.Spec.Types.{PubKey, QuoteId, AcceptedQuote, Outpoint, HonorKey, DeliverContext}
use exfer_honor.Spec.Errors.{Thrown, GateKind, Result, ok, throw}
use exfer_honor.Ports.Store.{SeenRow, GateMode, Delivery, HonorTxnInput, SweepResult}
use exfer_honor.Ports.Effect.{Eff, ◌>>=◌}
use exfer_honor.Store.Amount.{amount_to_text}
use exfer_honor.Store.Table.{select}
use exfer_honor.Store.Rows.{OutpointState}
use exfer_honor.Store.Sqlite.{is_pending, is_none, max_safe_integer, input_key, deliver_context}

pub record OutpointRow : Type 0 where
  pub tx_id : Text
  pub output_index : ℕ
  pub signer_pubkey : PubKey
  pub quote_id : QuoteId
  pub state : OutpointState
  pub honored_at : Option ℕ
  pub retain_until : ℕ

-- The set of goods keys is the list of its members in insertion order.
pub record FakeDb : Type 0 where
  pub seen : Dict SeenRow
  pub outpoints : Dict OutpointRow
  pub goods : List Text
  pub deliver_count : ℕ

-- `rk` and `outpointKey`.
unfoldable pub row_key : HonorKey → Text
row_key k = k.signer_pubkey ++ b':' ∷ k.quote_id

unfoldable pub outpoint_key : Outpoint → Text
outpoint_key o = o.tx_id ++ b':' ∷ amount_to_text o.output_index

-- `Set.add`.
unfoldable pub add : Text → List Text → List Text
add g [] = g ∷ []
add g (h ∷ goods) = if text_eq h g then h ∷ goods else h ∷ add g goods

-- `for (const g of stagedGoods) this.goods.add(g)`.
unfoldable pub publish : List Text → List Text → List Text
publish [] goods = goods
publish (g ∷ staged) goods = publish staged (add g goods)

abbrev pub quote_key : AcceptedQuote → HonorKey
quote_key a = record { signer_pubkey = a.signer_pubkey; quote_id = a.quote_id }

abbrev pub accepted_row : AcceptedQuote → ℕ → ℕ → SeenRow
accepted_row a accepted_at retain_until = record {
  signer_pubkey = a.signer_pubkey;
  quote_id = a.quote_id;
  payee_pubkey = a.payee_pubkey;
  payer_pubkey = a.payer_pubkey;
  exfer_amount = a.exfer_amount;
  form = a.form;
  accepted_at = accepted_at;
  expires_at = a.expires_at;
  observed_before_expiry = false;
  honored_at = none;
  honored_outpoint = none;
  retain_until = retain_until;
}

unfoldable pub goods_count : FakeDb → ℕ
goods_count db = length db.goods

abbrev accepted : Text → SeenRow → FakeDb → Option SeenRow → FakeDb
accepted k row db (some _) = db
accepted k row db none = record db { seen = insert k row db.seen }

unfoldable pub upsert_accepted : AcceptedQuote → ℕ → ℕ → FakeDb → FakeDb
upsert_accepted a accepted_at retain_until db =
    accepted (row_key (quote_key a)) (accepted_row a accepted_at retain_until) db
      (lookup (row_key (quote_key a)) db.seen)

unfoldable pub get_seen : HonorKey → FakeDb → Option SeenRow
get_seen k db = lookup (row_key k) db.seen

unfoldable pub list_honorable : PubKey → ℕ → FakeDb → List SeenRow
list_honorable s now db =
    select (λ r. text_eq r.signer_pubkey s && is_none r.honored_at && ltb now r.retain_until)
      (values db.seen)

abbrev observed_at : Text → ℕ → FakeDb → Option SeenRow → FakeDb
observed_at k now db none = db
observed_at k now db (some r) =
    if ltb now r.expires_at
    then record db { seen = insert k (record r { observed_before_expiry = true }) db.seen }
    else db

unfoldable pub mark_observed_before_expiry : HonorKey → ℕ → FakeDb → FakeDb
mark_observed_before_expiry k now db = observed_at (row_key k) now db (lookup (row_key k) db.seen)

abbrev pub is_honored_row : Option OutpointRow → Bool
is_honored_row none = false
is_honored_row (some r) = not (is_pending r.state)

unfoldable pub is_outpoint_consumed : Outpoint → FakeDb → Bool
is_outpoint_consumed o db = is_honored_row (lookup (outpoint_key o) db.outpoints)

abbrev pub reserved_row : HonorKey → Outpoint → OutpointRow
reserved_row k o = record {
  tx_id = o.tx_id;
  output_index = o.output_index;
  signer_pubkey = k.signer_pubkey;
  quote_id = k.quote_id;
  state = OutpointState.claim_pending;
  honored_at = none;
  retain_until = max_safe_integer;
}

abbrev reserved : HonorKey → Outpoint → FakeDb → Option OutpointRow → FakeDb
reserved k o db (some _) = db
reserved k o db none = record db {
  outpoints = insert (outpoint_key o) (reserved_row k o) db.outpoints;
}

unfoldable pub reserve_claim_outpoint : HonorKey → Outpoint → FakeDb → FakeDb
reserve_claim_outpoint k o db = reserved k o db (lookup (outpoint_key o) db.outpoints)

-- Step 1 of `runHonorTxn`: the staged copy of the live row, locked.
unfoldable pub stage_seen : ℕ → Outpoint → Option SeenRow → Result SeenRow
stage_seen now o none = throw (Thrown.gate_violation GateKind.expired_window)
stage_seen now o (some r) =
    if not (is_none r.honored_at)
    then throw (Thrown.gate_violation GateKind.seen_already_honored)
    else if not (ltb now r.retain_until) || not (ltb now r.expires_at || r.observed_before_expiry)
    then throw (Thrown.gate_violation GateKind.expired_window)
    else ok (record r { honored_at = some now; honored_outpoint = some o })

abbrev pub honored_row : HonorKey → Outpoint → ℕ → ℕ → OutpointRow
honored_row k o now retain_until = record {
  tx_id = o.tx_id;
  output_index = o.output_index;
  signer_pubkey = k.signer_pubkey;
  quote_id = k.quote_id;
  state = OutpointState.honored;
  honored_at = some now;
  retain_until = retain_until;
}

-- Step 2: the staged row of the outpoint, new or promoted.
unfoldable pub stage_outpoint :
    HonorTxnInput (List Text) → GateMode → Option OutpointRow → Result OutpointRow
stage_outpoint arg GateMode.single none =
    ok (honored_row (input_key arg) arg.outpoint arg.now arg.retain_until)
stage_outpoint arg GateMode.single (some _) = throw (Thrown.gate_violation GateKind.outpoint_taken)
stage_outpoint arg GateMode.promote none = throw (Thrown.gate_violation GateKind.outpoint_taken)
stage_outpoint arg GateMode.promote (some r) =
    if is_pending r.state
    then ok (record r {
      state = OutpointState.honored;
      honored_at = some arg.now;
      retain_until = arg.retain_until;
    })
    else throw (Thrown.gate_violation GateKind.outpoint_taken)

-- The message of the runtime guard is left out.
abbrev pub async_deliver_error : Thrown
async_deliver_error = Thrown.plain_error none []

-- COMMIT.
abbrev pub committed :
    HonorTxnInput (List Text) → SeenRow → OutpointRow → List Text → FakeDb → FakeDb
committed arg row outpoint staged db = record {
  seen = insert (row_key (input_key arg)) row db.seen;
  outpoints = insert (outpoint_key arg.outpoint) outpoint db.outpoints;
  goods = publish staged db.goods;
  deliver_count = db.deliver_count + 1;
}

-- Step 3: `deliver` over an empty buffer of staged goods. The count of deliveries keeps a call that
-- throws, and not one that returns a promise.
abbrev pub delivered :
    HonorTxnInput (List Text)
    → SeenRow
    → OutpointRow
    → FakeDb
    → Delivery × List Text
    → Result (Unit {0}) × FakeDb
delivered arg row outpoint db (Delivery.returned, staged) =
    (ok tt, committed arg row outpoint staged db)
delivered arg row outpoint db (Delivery.threw e, staged) =
    (throw e, record db { deliver_count = db.deliver_count + 1 })
delivered arg row outpoint db (Delivery.resolved, staged) = (throw async_deliver_error, db)
delivered arg row outpoint db (Delivery.rejected e, staged) = (throw async_deliver_error, db)

abbrev pub after_outpoint :
    HonorTxnInput (List Text) → SeenRow → FakeDb → Result OutpointRow → Result (Unit {0}) × FakeDb
after_outpoint arg row db (throw e) = (throw e, db)
after_outpoint arg row db (ok outpoint) =
    delivered arg row outpoint db (arg.deliver (deliver_context arg) [])

abbrev pub after_seen :
    HonorTxnInput (List Text) → FakeDb → Result SeenRow → Result (Unit {0}) × FakeDb
after_seen arg db (throw e) = (throw e, db)
after_seen arg db (ok row) =
    after_outpoint arg row db
      (stage_outpoint arg arg.mode (lookup (outpoint_key arg.outpoint) db.outpoints))

unfoldable pub run_honor_txn : HonorTxnInput (List Text) → Eff FakeDb Unit
unfolding stage_seen stage_outpoint
run_honor_txn arg db =
    after_seen arg db (stage_seen arg.now arg.outpoint (lookup (row_key (input_key arg)) db.seen))

unfoldable pub sweep : ℕ → FakeDb → SweepResult × FakeDb
sweep now db =
    let old_seen : SeenRow → Bool = λ r. ltb r.retain_until now in
    let old_outpoint : OutpointRow → Bool = λ r. ltb r.retain_until now in
    (
      record {
        seen_deleted = count_values old_seen db.seen;
        outpoints_deleted = count_values old_outpoint db.outpoints;
      },
      record db {
        seen = delete_if old_seen db.seen;
        outpoints = delete_if old_outpoint db.outpoints;
      },
    )
