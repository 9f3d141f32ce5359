-- ===== src/Service/Create.antt =====
-- `createHonorService` (src/service/honor-service.ts) and `builtinForms` (src/forms/index.ts): the service's
-- configuration, its defaults, and the bag of ports that its engine is given. The three transports are the
-- calls that the adapters make of them, the system's clock is a parameter, and the logger is left out.
use exfer_honor.Base.{ℕ, ◌+◌, ◌≡◌, Bool, false, Option, none, some, List, [], ◌∷◌, arith}
use exfer_honor.Spec.Types.{Hex, PubKey}
use exfer_honor.Spec.Errors.{Result, ok, throw}
use exfer_honor.Ports.World.{World}
use exfer_honor.Ports.Effect.{Eff}
use exfer_honor.Ports.Chain.{ChainSource, KeyCustody}
use exfer_honor.Ports.Form.{PayerBinding, HonorConfig, SettlementForm}
use exfer_honor.Ports.Deps.{HonorDeps}
use exfer_honor.Store.Sqlite.Port.{sqlite_store}
use exfer_honor.Forms.Plain.{plain_form}
use exfer_honor.Forms.Htlc.{Reserver, htlc_form}
use exfer_honor.Core.Registry.{create_form_registry}
use exfer_honor.Core.Engine.{create_honor_engine}
use exfer_honor.Adapters.Indexer.{IndexerOpts, indexer_chain_source}
use exfer_honor.Adapters.Custody.{KeystoreOpts, keystore_key_custody}

abbrev default_confirmation_depth : ℕ
default_confirmation_depth = 6

abbrev default_max_reorg_depth : ℕ
default_max_reorg_depth = 12

abbrev default_max_recheck_window : ℕ
default_max_recheck_window = 3600

abbrev default_poll_interval_ms : ℕ
default_poll_interval_ms = 5000

-- `??`.
abbrev pub or_default {ℓ} : {A : Type ℓ} → Option A → A → A
or_default none a = a
or_default (some b) a = b

pub record HonorServiceConfig (W : Type 0) : Type 0 where
  pub claim_margin : Option ℕ
  pub confirmation_depth : Option ℕ
  pub max_reorg_depth : Option ℕ
  pub max_recheck_window : Option ℕ
  pub payer_binding : Option PayerBinding
  pub require_payer_funded : Option Bool
  pub poll_interval_ms : Option ℕ
  pub address_deriver : Option (PubKey → Hex)
  pub chain_source : Option (ChainSource W)
  pub key_custody : Option (KeyCustody W)
  pub clock : Option (Eff W ℕ)

pub record HonorService (W G : Type 0) : Type 0 where
  pub deps : HonorDeps W G
  pub default_poll_interval : ℕ

-- The depths are the configured ones or the defaults, and so is the rest; a margin that is not set is
-- derived from the depths.
unfoldable pub honor_config : {W : Type 0} → HonorServiceConfig W → HonorConfig
honor_config config =
    let confirmation_depth : ℕ = or_default config.confirmation_depth default_confirmation_depth in
    let max_reorg_depth : ℕ = or_default config.max_reorg_depth default_max_reorg_depth in
    record {
      confirmation_depth = confirmation_depth;
      max_reorg_depth = max_reorg_depth;
      claim_margin = or_default config.claim_margin (max_reorg_depth + confirmation_depth + 1);
      max_recheck_window = or_default config.max_recheck_window default_max_recheck_window;
      payer_binding = or_default config.payer_binding PayerBinding.consent;
      require_payer_funded = or_default config.require_payer_funded false;
      address_deriver = config.address_deriver;
    }

module _ {E G : Type 0} where
  unfoldable pub builtin_forms : Option (Reserver (World E G)) → List (SettlementForm (World E G))
  builtin_forms reserver = plain_form ∷ htlc_form reserver ∷ []

  module _ (indexer : IndexerOpts (World E G)) (walletd : KeystoreOpts (World E G))
      (system_clock : Eff (World E G) ℕ) where
    unfoldable pub service_deps : HonorServiceConfig (World E G) → HonorDeps (World E G) G
    unfolding honor_config builtin_forms
    service_deps config = record {
      store = sqlite_store;
      chain = or_default config.chain_source (indexer_chain_source indexer);
      keys =
          or_default config.key_custody
            (keystore_key_custody (record walletd { address_deriver = config.address_deriver }));
      clock = or_default config.clock system_clock;
      forms = create_form_registry (builtin_forms (some sqlite_store.reserve_claim_outpoint));
      config = honor_config config;
    }

    unfoldable pub create_honor_service :
        HonorServiceConfig (World E G) → Result (HonorService (World E G) G)
    unfolding service_deps
    create_honor_service config = elim (create_honor_engine (service_deps config)) [
      | throw e ↦ throw e
      | ok deps ↦ ok record {
        deps = deps;
        default_poll_interval = or_default config.poll_interval_ms default_poll_interval_ms;
      }
    ]

    -- A service whose margin is not set is created, whatever its depths: the engine's startup test of the
    -- margin passes.
    pub create_honor_service-derived :
        (config : HonorServiceConfig (World E G))
        → config.claim_margin ≡ none
        → create_honor_service config
          ≡ ok (record {
            deps = service_deps config;
            default_poll_interval = or_default config.poll_interval_ms default_poll_interval_ms;
          })
    unfolding create_honor_service create_honor_engine service_deps honor_config
    create_honor_service-derived config h = ground arith
