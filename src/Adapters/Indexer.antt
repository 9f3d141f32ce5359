-- ===== src/Adapters/Indexer.antt =====
-- `IndexerChainSource` (src/adapters/indexer-chain.ts): the chain as the indexer and the node report it.
-- The remote calls are parameters, one for each JSON-RPC method that the source calls.
pub mod Joins
pub mod Listed
use exfer_honor.Base.{
  ℕ, Text, codes, text_eq, Bool, true, not, ◌&&◌, Option, none, some, List, [], ◌∷◌, map, get_elem?,
  if◌then◌else◌,
}
use exfer_honor.Spec.Types.{Hex, QuoteId, PubKey, Outpoint}
use exfer_honor.Spec.Errors.{Thrown, Result, ok, throw}
use exfer_honor.Ports.Effect.{Eff, pure, raise, ◌>>=◌, try_catch}
use exfer_honor.Ports.Chain.{
  RawSettlementCandidate, OutputDatum, HtlcState, OnChainHtlc, TransactionStatus, ChainSource,
}
use exfer_honor.Store.Amount.{text_to_amount}
use exfer_honor.Adapters.HexText.{bare_error}
use exfer_honor.Adapters.Messages.{to_lower_case, includes, message_test}
use exfer_honor.Adapters.Wire.{DecodedOutput, DecodedTx, decode_tx_hex}

pub record RawOutputDatum : Type 0 where
  pub quote_id : Option QuoteId
  pub unhonorable : Bool

-- A `TxStatus` of the node.
pub record RawTxStatus : Type 0 where
  pub tx_hex : Hex
  pub block_height : Option ℕ

-- The JSON number or decimal text of an amount.
pub data RawAmount : Type 0 where
  number : ℕ → RawAmount
  decimal : Text → RawAmount

pub record RawHtlcParams : Type 0 where
  pub sender : PubKey
  pub receiver : PubKey
  pub hash_lock : Hex
  pub timeout_height : ℕ

pub record RawHtlcRecord : Type 0 where
  pub lock_outpoint : Outpoint
  pub params : RawHtlcParams
  pub amount : RawAmount
  pub lock_block_height : Option ℕ
  pub state : Text

-- `IndexerChainSourceOpts`: the two transports, and the submitter of a claim if there is one.
pub record IndexerOpts (W : Type 0) : Type 0 where
  pub call_get_output_datum : Outpoint → Eff W RawOutputDatum
  pub call_find_settlements : QuoteId → Eff W (List Outpoint)
  pub call_htlc_status : Outpoint → Eff W (Option RawHtlcRecord)
  pub call_get_block_height : Eff W ℕ
  pub call_get_transaction : Hex → Eff W (Option RawTxStatus)
  pub claim_submit : Option (OnChainHtlc → Hex → Eff W Hex)

abbrev pub to_big_int : RawAmount → ℕ
to_big_int (RawAmount.number n) = n
to_big_int (RawAmount.decimal t) = text_to_amount t

unfoldable pub normalise_htlc_state : Text → HtlcState
normalise_htlc_state s =
    let v = to_lower_case s in
    if text_eq v (codes "claimed")
    then HtlcState.claimed
    else if text_eq v (codes "reclaimed")
    then HtlcState.reclaimed
    else HtlcState.locked

unfoldable pub is_no_such_htlc : Thrown → Bool
is_no_such_htlc e = message_test (λ message. includes message (codes "no indexed HTLC")) e

abbrev pub is_some {ℓ} : {A : Type ℓ} → Option A → Bool
is_some none = Bool.false
is_some (some _) = true

unfoldable pub output_datum : RawOutputDatum → OutputDatum
output_datum r = record {
  quote_id_hex = r.quote_id;
  honorable = not r.unhonorable && is_some r.quote_id;
}

unfoldable pub on_chain_htlc : RawHtlcRecord → OnChainHtlc
unfolding normalise_htlc_state
on_chain_htlc r = record {
  htlc_lock = r.lock_outpoint;
  receiver_pubkey = r.params.receiver;
  sender_pubkey = r.params.sender;
  hash_lock = r.params.hash_lock;
  timeout_height = r.params.timeout_height;
  value = to_big_int r.amount;
  lock_block_height = r.lock_block_height;
  state = normalise_htlc_state r.state;
}

-- The output at an index of a decoded transaction: `undefined` throws.
unfoldable pub named_output : Text → Result DecodedTx → ℕ → Result DecodedOutput
named_output missing (throw e) index = throw e
named_output missing (ok tx) index = elim (get_elem? tx.outputs index) [
  | none ↦ throw (bare_error missing)
  | some output ↦ ok output
]

module _ {W : Type 0} where
  -- A value that is there already, or a throw.
  abbrev pub returning : {A : Type 0} → Result A → Eff W A
  returning r w = (r, w)

  unfoldable pub joined_output : Outpoint → Option RawTxStatus → Eff W RawSettlementCandidate
  joined_output o none =
      raise (bare_error (codes "get_transaction returned null for settlement tx"))
  joined_output o (some tx) = do
    op ← returning (
        named_output (codes "settlement tx has no output at index") (decode_tx_hex tx.tx_hex)
          o.output_index)
    pure record {
      outpoint = o;
      value = op.value;
      script_hex = op.script_hex;
      block_height = tx.block_height;
    }

  module _ (opts : IndexerOpts W) where
    unfoldable pub get_output_datum : Outpoint → Eff W OutputDatum
    get_output_datum o = do r ← opts.call_get_output_datum o; pure (output_datum r)

    -- The loop body of `findSettlementsByQuoteId`: one outpoint joined with what the node has of it.
    unfoldable pub settlement_at : Outpoint → Eff W RawSettlementCandidate
    unfolding joined_output
    settlement_at o = do found ← opts.call_get_transaction o.tx_id; joined_output o found

    unfoldable pub settlements_at : List Outpoint → Eff W (List RawSettlementCandidate)
    unfolding settlement_at
    settlements_at [] = pure []
    settlements_at (o ∷ rest) = do
      candidate ← settlement_at o
      candidates ← settlements_at rest
      pure (candidate ∷ candidates)

    unfoldable pub find_settlements_by_quote_id : QuoteId → Eff W (List RawSettlementCandidate)
    unfolding settlements_at
    find_settlements_by_quote_id q = do
      settlements ← opts.call_find_settlements q
      settlements_at settlements

    unfoldable pub get_transaction : Hex → Eff W (Option TransactionStatus)
    get_transaction tx_id = do
      found ← opts.call_get_transaction tx_id
      elim found [
        | none ↦ pure none
        | some tx ↦ pure (some (record { block_height = tx.block_height }))
      ]

    unfoldable pub get_tx_inputs : Hex → Eff W (List Outpoint)
    get_tx_inputs tx_id = do
      found ← opts.call_get_transaction tx_id
      elim found [
        | none ↦ pure []
        | some tx ↦ do decoded ← returning (decode_tx_hex tx.tx_hex); pure decoded.inputs
      ]

    unfoldable pub get_output_script : Outpoint → Eff W Hex
    get_output_script o = do
      found ← opts.call_get_transaction o.tx_id
      elim found [
        | none ↦ raise (bare_error (codes "get_transaction returned null for prevout tx"))
        | some tx ↦ do
          op ← returning (
              named_output (codes "prevout tx has no output at index") (decode_tx_hex tx.tx_hex)
                o.output_index)
          pure op.script_hex
      ]

    unfoldable pub get_htlc : Outpoint → Eff W (Option OnChainHtlc)
    get_htlc o = do
      found ←
          try_catch (opts.call_htlc_status o)
            (λ e. if is_no_such_htlc e then pure none else raise e)
      elim found [ none ↦ pure none | some r ↦ pure (some (on_chain_htlc r)) ]

    -- The source that the forms are given.
    unfoldable pub indexer_chain_source : ChainSource W
    indexer_chain_source = record {
      tip_height = opts.call_get_block_height;
      get_output_datum = get_output_datum;
      find_settlements_by_quote_id = find_settlements_by_quote_id;
      get_transaction = get_transaction;
      get_tx_inputs = get_tx_inputs;
      get_output_script = get_output_script;
      get_htlc = get_htlc;
      submit_claim = opts.claim_submit;
    }
