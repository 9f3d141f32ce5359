-- ===== src/Tests/Conformance.antt =====
-- Runs of the harness's engine over both reference stores.
use exfer_honor.Base.{◌≡◌, refl, sym, text_eq, true, false, none, some, Text, List, [], ◌∷◌}
use exfer_honor.Base.Dict.{lookup, insert}
use exfer_honor.Spec.Types.{HonorVerdict, DeclineReason, HonorOutcome, RegisterOpts, HonorStatus}
use exfer_honor.Spec.Errors.{ok}
use exfer_honor.Ports.World.{World}
use exfer_honor.Ports.Form.{HonorConfig}
use exfer_honor.Core.Engine.{register, mark_observed, honor, status, status_of}
use exfer_honor.Core.Scorer.{score_quote, gate_step0}
use exfer_honor.Core.Registry.{get_form, find_form, create_form_registry, register_all, set_form}
use exfer_honor.Forms.Plain.{plain_form, score, depth_gate}
use exfer_honor.Forms.Htlc.{htlc_form}
use exfer_honor.Forms.Spine.{run_binding_spine, bind_datum}
use exfer_honor.Spec.Datum.{decode_settlement_datum}
use exfer_honor.Forms.Address.{reference_address_deriver}
use exfer_honor.Store.Fake as Fake
use exfer_honor.Store.Amount.{amount_to_text}
use exfer_honor.Store.Fake.{add, publish, row_key, outpoint_key, stage_seen, stage_outpoint}
use exfer_honor.Store.Fake.Port.{FakeWorld}
use exfer_honor.Core.Engine.Calls.{EngineCall, Answer, call, calls}
use exfer_honor.Core.Engine.BothStores.{Both}
use exfer_honor.Conformance.{
  Harness, harness_chain, harness_keys, harness_clock, default_config, key, canon_qid,
  default_quote, default_candidate, fresh_chain, fresh_keys,
}
use exfer_honor.Conformance.BothStores.{AnswerAlike, fake_deps, sqlite_deps, calls-Both}
use exfer_honor.Tests.Fake.{
  empty_fake, empty_db, empty_Shows, empty_IsWellFormed, stage, stage-Stages,
}

abbrev config : HonorConfig
config = default_config (record {
  max_reorg_depth = none;
  confirmation_depth = none;
  claim_margin = none;
  max_recheck_window = none;
  payer_binding = none;
  require_payer_funded = none;
  address_deriver = none;
})

abbrev paid : Harness
paid = record {
  chain = record fresh_chain {
    candidates = default_candidate ∷ [];
    default_datum = record { quote_id_hex = some canon_qid; honorable = true };
  };
  keys = fresh_keys;
  t = 5000;
}

abbrev no_opts : RegisterOpts
no_opts = record { now = none; pre_screen_payee_custody = false; rethrow_delivery_errors = false }

-- `plain/happy`, and then a second honor.
abbrev happy : List (EngineCall (List Text))
happy =
    EngineCall.registers default_quote no_opts
    ∷ EngineCall.observes key 5000
    ∷ EngineCall.honors key stage no_opts
    ∷ EngineCall.tells key
    ∷ EngineCall.honors key stage no_opts
    ∷ []

abbrev fake_world : FakeWorld Harness
fake_world = record {
  db = record { seen = []; consumed = []; goods = [] };
  claim_tx_ids = [];
  claims = [];
  env = (empty_fake, paid);
}

abbrev sqlite_world : World Harness (List Text)
sqlite_world = record { db = empty_db; claim_tx_ids = []; claims = []; env = paid }

both_empty : Both fake_world sqlite_world
both_empty = record {
  shows = empty_Shows;
  well_formed = empty_IsWellFormed;
  claim_tx_ids = refl;
  claims = refl;
  rest = refl;
}

calls-Both_example :
    AnswerAlike harness_chain harness_keys harness_clock config
      (calls (fake_deps harness_chain harness_keys harness_clock config) happy fake_world)
      (calls (sqlite_deps harness_chain harness_keys harness_clock config) happy sqlite_world)
calls-Both_example =
    calls-Both harness_chain harness_keys harness_clock config happy fake_world sqlite_world
      (refl, (refl, ((refl, stage-Stages), (refl, ((refl, stage-Stages), tt))))) both_empty

-- What `plain/happy` expects, and that the second honor declines.
happy_answers :
    (calls (fake_deps harness_chain harness_keys harness_clock config) happy fake_world).0
    ≡ Answer.registered (ok (record { created = true; retain_until = 13600 }))
      ∷ Answer.observed (ok (record { observed_before_expiry = true; within_window = true }))
      ∷ Answer.honored (ok (HonorOutcome.honored default_candidate.outpoint))
      ∷ Answer.told (ok (some (HonorStatus.honored 5000 (some default_candidate.outpoint))))
      ∷ Answer.honored
          (ok (HonorOutcome.not_ready (HonorVerdict.decline DeclineReason.already_honored)))
      ∷ []
unfolding calls call register mark_observed honor status harness_clock harness_chain harness_keys
    Fake.get_seen lookup default_config Fake.upsert_accepted insert text_eq row_key
    Fake.mark_observed_before_expiry score_quote gate_step0 get_form find_form create_form_registry
    register_all set_form plain_form htlc_form score run_binding_spine bind_datum
    decode_settlement_datum depth_gate Fake.run_honor_txn stage_outpoint stage_seen outpoint_key
    amount_to_text publish add reference_address_deriver status_of
happy_answers = refl

-- Over `SqliteStore` the answers are the same, by the theorem.
happy_answers_again :
    (calls (sqlite_deps harness_chain harness_keys harness_clock config) happy sqlite_world).0
    ≡ (calls (fake_deps harness_chain harness_keys harness_clock config) happy fake_world).0
happy_answers_again =
    sym
      (calls-Both harness_chain harness_keys harness_clock config happy fake_world sqlite_world
        (refl, (refl, ((refl, stage-Stages), (refl, ((refl, stage-Stages), tt))))) both_empty).0
