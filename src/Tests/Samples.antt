-- ===== src/Tests/Samples.antt =====
-- One quote, its payment and a host, at concrete values.
use exfer_honor.Base.{ℕ, ◌+◌, codes, true, false, none, some, [], ◌∷◌}
use exfer_honor.Spec.Types.{
  QuoteId, SettlementFormId, AcceptedQuote, Outpoint, SettlementCandidate, HonorKey, RegisterOpts,
}
use exfer_honor.Spec.Errors.{Thrown}
use exfer_honor.Ports.Store.{GateMode, Delivery, DeliverFn, HonorTxnInput}
use exfer_honor.Ports.World.{World}
use exfer_honor.Ports.Effect.{pure}
use exfer_honor.Ports.Chain.{
  RawSettlementCandidate, HtlcState, OnChainHtlc, ChainSource, KeyCustody,
}
use exfer_honor.Ports.Form.{PayerBinding, HonorConfig, ScoringCtx}
use exfer_honor.Ports.Deps.{HonorDeps}
use exfer_honor.Store.Rows.{Db}
use exfer_honor.Store.Sqlite.{accepted_row}
use exfer_honor.Store.Sqlite.Port.{sqlite_store}
use exfer_honor.Forms.Plain.{plain_form}
use exfer_honor.Forms.Htlc.{htlc_form}

abbrev pub Host : Type 0
Host = World Unit ℕ

abbrev pub quote_id : QuoteId
quote_id = codes "00112233445566778899aabbccddeeff"

abbrev pub key : HonorKey
key = record { signer_pubkey = codes "s"; quote_id = quote_id }

abbrev pub quote : AcceptedQuote
quote = record {
  quote_id = quote_id;
  signer_pubkey = codes "s";
  payee_pubkey = codes "ab";
  payer_pubkey = some (codes "cd");
  exfer_amount = 50;
  expires_at = 100;
  issued_at = 3;
  form = SettlementFormId.plain;
}

abbrev pub point : Outpoint
point = record { tx_id = codes "t"; output_index = 1 }

abbrev pub payment : RawSettlementCandidate
payment = record { outpoint = point; value = 50; script_hex = codes "ab"; block_height = some 7 }

-- A payment in the tip's block, and one of the wrong amount.
abbrev pub shallow_payment : RawSettlementCandidate
shallow_payment = record payment { block_height = some 9 }

abbrev pub wrong_payment : RawSettlementCandidate
wrong_payment = record payment { value = 49 }

abbrev pub candidate : SettlementCandidate
candidate = record {
  form = SettlementFormId.plain;
  quote_id = quote_id;
  tx_id = codes "t";
  output_index = 1;
  value = 50;
  script_hex = codes "ab";
  block_height = some 7;
  honorable = true;
}

abbrev pub config : HonorConfig
config = record {
  confirmation_depth = 3;
  max_reorg_depth = 2;
  claim_margin = 6;
  max_recheck_window = 1000;
  payer_binding = PayerBinding.source;
  require_payer_funded = false;
  address_deriver = some (λ k. k);
}

abbrev pub htlc_lock : OnChainHtlc
htlc_lock = record {
  htlc_lock = point;
  receiver_pubkey = codes "ab";
  sender_pubkey = codes "cd";
  hash_lock = [];
  timeout_height = 15;
  value = 50;
  lock_block_height = some 7;
  state = HtlcState.locked;
}

-- A chain that shows the payment, over any state.
abbrev pub chain_over : {W : Type 0} → ChainSource W
chain_over = record {
  tip_height = pure 9;
  get_output_datum = λ _. pure (record { quote_id_hex = some quote_id; honorable = true });
  find_settlements_by_quote_id = λ _. pure (payment ∷ []);
  get_transaction = λ _. pure (some (record { block_height = some 4 }));
  get_tx_inputs = λ _. pure (point ∷ []);
  get_output_script = λ _. pure (codes "cd");
  get_htlc = λ _. pure (some htlc_lock);
  submit_claim = some (λ _ _. pure (codes "claim"));
}

abbrev pub chain : ChainSource Host
chain = chain_over

abbrev pub keys_over : {W : Type 0} → KeyCustody W
keys_over = record {
  controls_payee = λ _. pure true;
  htlc_preimage_for = some (λ _ _. pure (some (codes "ff")));
}

abbrev pub keys : KeyCustody Host
keys = keys_over

abbrev pub deps : HonorDeps Host ℕ
deps = record {
  store = sqlite_store;
  chain = chain;
  keys = keys;
  clock = pure 20;
  forms = plain_form ∷ htlc_form none ∷ [];
  config = config;
}

abbrev pub empty_db : Db ℕ
empty_db = record { seen = []; consumed = []; goods = 0 }

abbrev pub accepted_db : Db ℕ
accepted_db = record empty_db { seen = accepted_row quote 10 1100 ∷ [] }

abbrev pub host : Host
host = record { db = accepted_db; claim_tx_ids = []; claims = []; env = tt }

abbrev pub empty_host : Host
empty_host = record host { db = empty_db }

abbrev pub opts : RegisterOpts
opts = record { now = some 20; pre_screen_payee_custody = false; rethrow_delivery_errors = false }

-- Writes one piece of goods.
abbrev pub deliver : DeliverFn ℕ
deliver _ goods = (Delivery.returned, goods + 1)

-- Writes, and then throws.
abbrev pub failing_deliver : DeliverFn ℕ
failing_deliver _ goods = (Delivery.threw (Thrown.plain_error none []), goods + 1)

abbrev pub input : HonorTxnInput ℕ
input = record {
  signer_pubkey = codes "s";
  quote_id = quote_id;
  candidate = candidate;
  outpoint = point;
  now = 20;
  retain_until = 1100;
  mode = GateMode.single;
  deliver = deliver;
}

abbrev pub ctx : ScoringCtx Host
ctx = record { quote = quote; tip = 9; now = 20; config = config; chain = chain; keys = keys }
