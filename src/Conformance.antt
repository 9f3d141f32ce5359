-- ===== src/Conformance.antt =====
-- The conformance harness (src/conformance/harness.ts): its chain, keys and clock, which a test sets, its
-- configuration, its quote and candidate, and the engine that it builds over either reference store.
pub mod BothStores
use exfer_honor.Base.{
  ℕ, ◌+◌, Text, codes, Bool, true, false, Option, none, some, List, [], ◌∷◌, ◌++◌,
}
use exfer_honor.Base.Dict.{Dict, lookup}
use exfer_honor.Spec.Types.{
  Hex, QuoteId, PubKey, SettlementFormId, AcceptedQuote, HonorKey, Outpoint,
}
use exfer_honor.Spec.Errors.{Thrown, Result}
use exfer_honor.Ports.World.{World}
use exfer_honor.Ports.Effect.{Eff, pure, raise}
use exfer_honor.Ports.Lift.{Part}
use exfer_honor.Ports.Chain.{
  RawSettlementCandidate, OutputDatum, OnChainHtlc, TransactionStatus, ChainSource, KeyCustody,
}
use exfer_honor.Ports.Form.{PayerBinding, HonorConfig}
use exfer_honor.Ports.Deps.{StorePort, HonorDeps}
use exfer_honor.Store.Amount.{amount_to_text}
use exfer_honor.Forms.Address.{domain_hash_addr}
use exfer_honor.Forms.Plain.{plain_form}
use exfer_honor.Forms.Htlc.{htlc_form}
use exfer_honor.Core.Registry.{create_form_registry}
use exfer_honor.Core.Engine.{create_honor_engine}
use exfer_honor.Core.Alike.{lifted_deps}

-- `HarnessKeys.controls`.
pub data Controls : Type 0 where
  answers : Bool → Controls
  throws : Controls

pub record HarnessKeys : Type 0 where
  pub controls : Controls
  pub preimage : Option Text

pub record HarnessChain : Type 0 where
  pub tip : ℕ
  pub candidates : List RawSettlementCandidate
  pub datums : Dict OutputDatum
  pub default_datum : OutputDatum
  pub tx_heights : Dict (Option ℕ)
  pub htlcs : Dict OnChainHtlc
  pub tx_inputs : Dict (List Outpoint)
  pub scripts : Dict Hex
  pub claim_tx_id_to_return : Hex
  pub submitted_claims : ℕ

-- What the fields of a `ConformanceEnv` other than its store and its configuration hold.
pub record Harness : Type 0 where
  pub chain : HarnessChain
  pub keys : HarnessKeys
  pub t : ℕ

unfoldable pub op_key : Outpoint → Text
op_key o = o.tx_id ++ b':' ∷ amount_to_text o.output_index

abbrev or_else : {A : Type 0} → A → Option A → A
or_else a none = a
or_else a (some b) = b

abbrev reads : {A : Type 0} → (HarnessChain → A) → Eff Harness A
reads f h = (Result.ok (f h.chain), h)

abbrev status_at : Option (Option ℕ) → Option TransactionStatus
status_at none = none
status_at (some height) = some (record { block_height = height })

unfoldable pub harness_chain : ChainSource Harness
unfolding op_key
harness_chain = record {
  tip_height = reads (λ c. c.tip);
  get_output_datum = λ o. reads (λ c. or_else c.default_datum (lookup (op_key o) c.datums));
  find_settlements_by_quote_id = λ _. reads (λ c. c.candidates);
  get_transaction = λ tx_id. reads (λ c. status_at (lookup tx_id c.tx_heights));
  get_tx_inputs = λ tx_id. reads (λ c. or_else [] (lookup tx_id c.tx_inputs));
  get_output_script = λ o. reads (λ c. or_else (codes "00") (lookup (op_key o) c.scripts));
  get_htlc = λ o. reads (λ c. lookup (op_key o) c.htlcs);
  submit_claim = some (λ _ _ h. (
    Result.ok h.chain.claim_tx_id_to_return,
    record h { chain = record h.chain { submitted_claims = h.chain.submitted_claims + 1 } },
  ));
}

abbrev controlled : Controls → Eff Harness Bool
controlled (Controls.answers b) = pure b
controlled Controls.throws = raise (Thrown.plain_error none (codes "keystore unavailable"))

unfoldable pub harness_keys : KeyCustody Harness
harness_keys = record {
  controls_payee = λ _ h. controlled h.keys.controls h;
  htlc_preimage_for = some (λ _ _ h. (Result.ok h.keys.preimage, h));
}

unfoldable pub harness_clock : Eff Harness ℕ
harness_clock h = (Result.ok h.t, h)

abbrev pub signer : PubKey
signer = codes "1111111111111111111111111111111111111111111111111111111111111111"

abbrev pub payee : PubKey
payee = codes "2222222222222222222222222222222222222222222222222222222222222222"

abbrev pub canon_qid : QuoteId
canon_qid = codes "0123456789abcdef0123456789abcdef"

abbrev pub key : HonorKey
key = record { signer_pubkey = signer; quote_id = canon_qid }

-- `quote` and `candidate` with no override.
abbrev pub default_quote : AcceptedQuote
default_quote = record {
  quote_id = canon_qid;
  signer_pubkey = signer;
  payee_pubkey = payee;
  payer_pubkey = none;
  exfer_amount = 100000000;
  expires_at = 10000;
  issued_at = 1000;
  form = SettlementFormId.plain;
}

abbrev pub default_candidate : RawSettlementCandidate
default_candidate = record {
  outpoint = record { tx_id = codes "aa00"; output_index = 0 };
  value = 100000000;
  script_hex = domain_hash_addr payee none;
  block_height = some 100;
}

abbrev pub fresh_chain : HarnessChain
fresh_chain = record {
  tip = 120;
  candidates = [];
  datums = [];
  default_datum = record { quote_id_hex = none; honorable = true };
  tx_heights = [];
  htlcs = [];
  tx_inputs = [];
  scripts = [];
  claim_tx_id_to_return = codes "claim01";
  submitted_claims = 0;
}

abbrev pub fresh_keys : HarnessKeys
fresh_keys = record { controls = Controls.answers true; preimage = some (codes "preimage00") }

-- The fields that `defaultConfig` is given.
pub record ConfigOver : Type 0 where
  pub max_reorg_depth : Option ℕ
  pub confirmation_depth : Option ℕ
  pub claim_margin : Option ℕ
  pub max_recheck_window : Option ℕ
  pub payer_binding : Option PayerBinding
  pub require_payer_funded : Option Bool
  pub address_deriver : Option (PubKey → Hex)

unfoldable pub default_config : ConfigOver → HonorConfig
default_config over =
    let max_reorg_depth = or_else 12 over.max_reorg_depth in
    let confirmation_depth = or_else 6 over.confirmation_depth in
    record {
      max_reorg_depth = max_reorg_depth;
      confirmation_depth = confirmation_depth;
      claim_margin = or_else (max_reorg_depth + confirmation_depth + 1) over.claim_margin;
      max_recheck_window = or_else 3600 over.max_recheck_window;
      payer_binding = or_else PayerBinding.consent over.payer_binding;
      require_payer_funded = or_else false over.require_payer_funded;
      address_deriver = over.address_deriver;
    }

module _ {E X G : Type 0} (part : Part E (World X G)) (chain : ChainSource E) (keys : KeyCustody E)
    (clock : Eff E ℕ) (config : HonorConfig) (store : StorePort (World X G) G) where
  -- What `buildEngine` gives to `createHonorEngine`: the two built-in forms, the HTLC form with the store as
  -- its reserver.
  abbrev pub engine_deps : HonorDeps (World X G) G
  engine_deps =
      lifted_deps part chain keys clock config store
        (create_form_registry (plain_form ∷ htlc_form (some store.reserve_claim_outpoint) ∷ []))

  unfoldable pub build_engine : Result (HonorDeps (World X G) G)
  build_engine = create_honor_engine engine_deps
