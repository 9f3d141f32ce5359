-- ===== src/Tests/Adapters.antt =====
-- The adapters' theorems at concrete inputs, and runs of the decoder.
use exfer_honor.Base.{
  ℕ, zero, suc, ◌≡◌, ◌↔◌, ◌⊎◌, inl, refl, codes, true, false, none, some, List, [], ◌∷◌, ◌++◌, map,
  All,
}
use exfer_honor.Spec.Types.{Hex, Outpoint, SettlementFormId}
use exfer_honor.Spec.Errors.{Thrown, HonorErrorCode, ok, throw}
use exfer_honor.Ports.Effect.{Eff, pure, raise, >>=-ok}
use exfer_honor.Ports.Chain.{RawSettlementCandidate}
use exfer_honor.Adapters.HexText.{
  Bytes, to_hex, hex_to_bytes, pairs_to_bytes, parse_byte, digit_value, is_white_space,
  negated_byte, bare_error,
}
use exfer_honor.Adapters.HexText.RoundTrip.{IsByte, hex_to_bytes-IsByte}
use exfer_honor.Adapters.Wire.{DecodedTx, decode_tx_bytes}
use exfer_honor.Adapters.Wire.Layout.{TxWire}
use exfer_honor.Adapters.Wire.Exact.{decode_tx_bytes-ok_iff, decode_tx_bytes-prefix-throw}
use exfer_honor.Adapters.Wire.Typed.{TxTyped, decode_tx_hex-TxTyped, decode_tx_hex-to_hex}
use exfer_honor.Adapters.Indexer.{
  IndexerOpts, settlement_at, find_settlements_by_quote_id, settlements_at, get_tx_inputs,
  get_output_script,
}
use exfer_honor.Adapters.Indexer.Joins.{get_tx_inputs-NodeHas}
use exfer_honor.Adapters.Indexer.Listed.{CandidateTyped, find_settlements_by_quote_id-Typed}
use exfer_honor.Adapters.Custody.{
  KeystoreOpts, is_no_such_key, no_key_words, signs, controls_payee, controls_payee_answers,
}
use exfer_honor.Adapters.Verifier.{
  QuoteJson, QuoteVerifyResult, AcceptOutcome, is_strict_decode_fault, to_accepted_quote, accept,
}
use exfer_honor.Adapters.Verifier.Faults.{Faults, accept_answers}
use exfer_honor.Adapters.Messages.{Says, to_lower_case, includes}

abbrev copies : ℕ → ℕ → Bytes
copies zero b = []
copies (suc n) b = b ∷ copies n b

abbrev prev_id : Bytes
prev_id = copies 32 17

-- One input, and one output of 5 units with the script "ab", and a witness after them.
abbrev tx : DecodedTx
tx = record {
  inputs = record { tx_id = to_hex prev_id; output_index = 1 } ∷ [];
  outputs = record { value = 5; script_hex = codes "ab" } ∷ [];
}

abbrev head_bytes : Bytes
head_bytes = 1 ∷ 0 ∷ 1 ∷ 0 ∷ prev_id

abbrev rest_bytes : Bytes
rest_bytes = 0 ∷ 0 ∷ 0 ∷ 5 ∷ 0 ∷ 0 ∷ 0 ∷ 0 ∷ 0 ∷ 0 ∷ 0 ∷ 1 ∷ 0 ∷ 171 ∷ 0 ∷ 0 ∷ []

abbrev tx_bytes : Bytes
tx_bytes = head_bytes ++ 1 ∷ rest_bytes

tx-TxWire : TxWire tx tx_bytes
tx-TxWire = (
  1 ∷ 0 ∷ [],
  _,
  (refl, refl),
  (
    1 ∷ 0 ∷ [],
    _,
    (refl, refl),
    (
      prev_id ++ 1 ∷ 0 ∷ 0 ∷ 0 ∷ [],
      _,
      (
        prev_id ++ 1 ∷ 0 ∷ 0 ∷ 0 ∷ [],
        [],
        (prev_id, 1 ∷ 0 ∷ 0 ∷ 0 ∷ [], (refl, refl), (refl, refl), refl),
        refl,
        refl,
      ),
      (
        _,
        [],
        (
          5 ∷ 0 ∷ 0 ∷ 0 ∷ 0 ∷ 0 ∷ 0 ∷ 0 ∷ [],
          _,
          (refl, refl),
          (
            1 ∷ 0 ∷ 171 ∷ [],
            _,
            (1, (1 ∷ 0 ∷ [], 171 ∷ [], (refl, refl), (refl, refl), refl)),
            (0 ∷ [], 0 ∷ [], inl (refl, refl), inl (refl, refl), refl),
            refl,
          ),
          refl,
        ),
        refl,
        refl,
      ),
      refl,
    ),
    refl,
  ),
  refl,
)

abbrev witness_bytes : Bytes
witness_bytes = 7 ∷ 8 ∷ []

decode_tx_bytes-ok_iff_example :
    (decode_tx_bytes (tx_bytes ++ witness_bytes) ≡ (ok tx, witness_bytes))
    ↔ (xs : Bytes) × TxWire tx xs × (tx_bytes ++ witness_bytes ≡ xs ++ witness_bytes)
decode_tx_bytes-ok_iff_example = decode_tx_bytes-ok_iff (tx_bytes ++ witness_bytes) witness_bytes tx

decodes : decode_tx_bytes (tx_bytes ++ witness_bytes) ≡ (ok tx, witness_bytes)
decodes =
    (decode_tx_bytes-ok_iff (tx_bytes ++ witness_bytes) witness_bytes tx).1
      (tx_bytes, tx-TxWire, refl)

-- A text that starts with a space is read as a byte, against the comment on `hexToBytes`.
reads_space : hex_to_bytes (codes " 7") ≡ ok (7 ∷ [])
unfolding hex_to_bytes pairs_to_bytes parse_byte digit_value is_white_space
reads_space = refl

-- The output count says one output and none follows.
decode_tx_bytes-prefix-throw_example : (e : Thrown) × ((decode_tx_bytes head_bytes).0 ≡ throw e)
decode_tx_bytes-prefix-throw_example =
    decode_tx_bytes-prefix-throw tx head_bytes 1 rest_bytes tx-TxWire

abbrev tx_hex : Hex
tx_hex = to_hex (tx_bytes ++ witness_bytes)

tx_bytes-IsByte : All IsByte (tx_bytes ++ witness_bytes)
unfolding hex_to_bytes pairs_to_bytes parse_byte digit_value is_white_space negated_byte
tx_bytes-IsByte = hex_to_bytes-IsByte tx_hex (tx_bytes ++ witness_bytes) refl

decode_tx_hex-TxTyped_example : TxTyped tx
decode_tx_hex-TxTyped_example =
    decode_tx_hex-TxTyped tx_hex tx
      (decode_tx_hex-to_hex tx tx_bytes witness_bytes tx_bytes-IsByte tx-TxWire)

abbrev point : Outpoint
point = record { tx_id = codes "t"; output_index = 0 }

-- A host whose node has one transaction, in block 4.
abbrev indexer : IndexerOpts ℕ
indexer = record {
  call_get_output_datum = λ _. pure (record { quote_id = none; unhonorable = false });
  call_find_settlements = λ _. pure (point ∷ []);
  call_htlc_status = λ _. pure none;
  call_get_block_height = pure 9;
  call_get_transaction = λ _. pure (some (record { tx_hex = tx_hex; block_height = some 4 }));
  claim_submit = none;
}

get_tx_inputs-NodeHas_example :
    (get_tx_inputs indexer (codes "t") 0 ≡ (ok tx.inputs, 0))
    × (get_output_script indexer point 0 ≡ (ok (codes "ab"), 0))
    × (settlement_at indexer point 0 ≡ (
      ok (record { outpoint = point; value = 5; script_hex = codes "ab"; block_height = some 4 }),
      0,
    ))
get_tx_inputs-NodeHas_example =
    get_tx_inputs-NodeHas indexer point tx (some 4) 0 0
      (record { value = 5; script_hex = codes "ab" })
      (tx_bytes, witness_bytes, tx-TxWire, tx_bytes-IsByte, refl) refl

abbrev settled : RawSettlementCandidate
settled = record { outpoint = point; value = 5; script_hex = codes "ab"; block_height = some 4 }

found : find_settlements_by_quote_id indexer (codes "q") 0 ≡ (ok (settled ∷ []), 0)
unfolding find_settlements_by_quote_id settlements_at
found =
    >>=-ok (settlement_at indexer point) _ 0
      (get_tx_inputs-NodeHas indexer point tx (some 4) 0 0
        (record { value = 5; script_hex = codes "ab" })
        (tx_bytes, witness_bytes, tx-TxWire, tx_bytes-IsByte, refl) refl).2

settlements_are_typed :
    (os : List Outpoint) × (w : ℕ) × (indexer.call_find_settlements (codes "q") 0 ≡ (ok os, w))
    × (map (λ (c : RawSettlementCandidate). c.outpoint) (settled ∷ []) ≡ os)
    × All CandidateTyped (settled ∷ [])
settlements_are_typed =
    find_settlements_by_quote_id-Typed indexer (codes "q") 0 0 (settled ∷ []) found

-- A keystore that answers that it has no wallet for the address.
abbrev keystore : KeystoreOpts ℕ
keystore = record {
  sign_message = λ _ _. raise (bare_error (codes "Wallet NOT FOUND"));
  address_deriver = some (λ k. k);
  probe_message = none;
  preimage_lookup = none;
}

controls_payee_answers_example :
    ((controls_payee keystore (codes "ab") 0 ≡ (ok false, 0))
      ↔ ((e : Thrown) × (signs keystore (codes "ab") 0 ≡ (throw e, 0)) × Says no_key_words e)
        ⊎ (signs keystore (codes "ab") 0 ≡ (ok none, 0))
        ⊎ (signs keystore (codes "ab") 0 ≡ (ok (some []), 0)))
    × ((controls_payee keystore (codes "ab") 0
          ≡ (throw (Thrown.honor_error HonorErrorCode.keystore_fault), 0))
        ↔ ((e : Thrown) × (signs keystore (codes "ab") 0 ≡ (throw e, 0))
            × (¬ Says no_key_words e)
            × (Thrown.honor_error HonorErrorCode.keystore_fault
                ≡ Thrown.honor_error HonorErrorCode.keystore_fault)))
controls_payee_answers_example =
    controls_payee_answers keystore (codes "ab") 0 0
      (Thrown.honor_error HonorErrorCode.keystore_fault)

abbrev credential : QuoteJson
credential = record {
  quote_id = codes "00";
  signer_pubkey = codes "s";
  payee_pubkey = codes "ab";
  payer_pubkey = none;
  exfer_amount = 50;
  expires_at = 100;
  issued_at = 3;
  signed_rest = [];
}

-- A daemon that finds every credential valid.
abbrev verify : QuoteJson → Eff ℕ QuoteVerifyResult
verify _ = pure (record { valid = true; reason = none })

abbrev node_down : Thrown
node_down = bare_error (codes "connection refused")

accept_answers_example :
    ((accept verify credential SettlementFormId.plain 0
        ≡ (ok (AcceptOutcome.accepted (to_accepted_quote credential SettlementFormId.plain)), 0))
      ↔ ((res : QuoteVerifyResult) × (verify credential 0 ≡ (ok res, 0))
          × (res.valid ≡ true)
          × (to_accepted_quote credential SettlementFormId.plain
              ≡ to_accepted_quote credential SettlementFormId.plain)))
    × ((accept verify credential SettlementFormId.plain 0 ≡ (throw node_down, 0))
        ↔ ((e : Thrown) × (verify credential 0 ≡ (throw e, 0)) × Faults e node_down))
unfolding to_accepted_quote
accept_answers_example =
    accept_answers verify credential SettlementFormId.plain
      (to_accepted_quote credential SettlementFormId.plain) node_down 0 0

-- The transient fault that walletd-verifier.ts names is taken for a decoding fault, by its last word.
upstream_is_final : is_strict_decode_fault (bare_error (codes "UpstreamUnexpected")) ≡ true
unfolding is_strict_decode_fault to_lower_case includes
upstream_is_final = refl

-- A daemon without the method is taken for one without the key.
no_method_is_no_key : is_no_such_key (bare_error (codes "Method not found")) ≡ true
unfolding is_no_such_key to_lower_case includes
no_method_is_no_key = refl
