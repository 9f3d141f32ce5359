-- ===== src/Tests/Merchant.antt =====
-- A run of the merchant's goods, and its answer at concrete inputs.
use exfer_honor.Base.{◌≡◌, refl, text_eq, codes, none, some, false, [], ◌∷◌}
use exfer_honor.Spec.Types.{DeliverContext}
use exfer_honor.Spec.Datum.{decode_settlement_datum}
use exfer_honor.Ports.World.{World}
use exfer_honor.Ports.Effect.{pure}
use exfer_honor.Ports.Deps.{HonorDeps}
use exfer_honor.Store.Table.{first, count_if, update}
use exfer_honor.Store.Rows.{row_from_sql, has_key, has_outpoint}
use exfer_honor.Store.Amount.{amount_to_text, text_to_amount}
use exfer_honor.Store.Sqlite.{
  upsert_accepted, mark_observed_before_expiry, get_seen, lock_seen, is_lockable, consume,
  deliver_goods, run_honor_txn,
}
use exfer_honor.Store.Sqlite.Port.{sqlite_store}
use exfer_honor.Forms.Spine.{
  run_binding_spine, bind_datum, bind_payment, custody_test, check_payer_binding, funded_by,
}
use exfer_honor.Forms.Plain.{score_from, score, plain_form, depth_gate}
use exfer_honor.Core.Registry.{find_form, or_malformed, get_form}
use exfer_honor.Core.Scorer.{score_quote, gate_step0}
use exfer_honor.Core.Engine.{
  register, pre_screen, mark_observed, observe_row, honor, now_or_clock, after_step0, honor_seen,
  after_score, prepare_form, after_prepare, commit_honor,
}
use exfer_honor.Service.{
  Event, LoopState, tick_ending, start_ending, tick, open_step, loop_step, run_loop, on_paid,
}
use exfer_honor.Adapters.Messages.{to_lower_case}
use exfer_honor.Examples.Merchant.{
  Goods, OrderState, ApiKey, Fulfilment, place_order, mint_api_key, issue, deliver, fulfilment,
}
use exfer_honor.Examples.Merchant.Fulfils.{fulfilment-issue}
use exfer_honor.Examples.PriceFeed.{format_usd, demo_price_feed}
use exfer_honor.Tests.Samples.{
  key, quote, quote_id, point, candidate, config, chain_over, keys_over,
}

abbrev no_goods : Goods
no_goods = record { orders = []; api_keys = [] }

abbrev ctx : DeliverContext
ctx = record { key = key; candidate = candidate; honored_at = 20 }

-- Two deliveries of one order leave one key, with the credits of the order.
issued_once :
    issue ctx (issue ctx (place_order quote_id (codes "inference-api") 1000 no_goods))
    ≡ issue ctx (place_order quote_id (codes "inference-api") 1000 no_goods)
unfolding place_order issue mint_api_key to_lower_case text_eq first update
issued_once = refl

prices : (format_usd 1250 ≡ codes "$12.50") × (demo_price_feed 1250 ≡ 50000000000)
unfolding format_usd demo_price_feed amount_to_text
prices = (refl, refl)

abbrev Shop : Type 0
Shop = World Unit Goods

abbrev shop_deps : HonorDeps Shop Goods
shop_deps = record {
  store = sqlite_store;
  chain = chain_over;
  keys = keys_over;
  clock = pure 20;
  forms = plain_form ∷ [];
  config = config;
}

-- The shop with one order and no row of its quote.
abbrev shop : Shop
shop = record {
  db = record {
    seen = [];
    consumed = [];
    goods = record {
      orders =
          record {
            quote_id = quote_id;
            sku = codes "inference-api";
            credits = 1000;
            state = OrderState.pending;
            fulfilled_at = none;
          }
          ∷ [];
      api_keys = [];
    };
  };
  claim_tx_ids = [];
  claims = [];
  env = tt;
}

abbrev paid_shop : LoopState Unit Goods
paid_shop = on_paid shop_deps quote deliver false (Event.ticks ∷ []) shop

fulfilment-issue_example :
    (k : ApiKey) × (fulfilment quote_id paid_shop.settled paid_shop.world.db.goods
      ≡ some (Fulfilment.honored (some k)))
    × (k.quote_id ≡ quote_id)
unfolding on_paid run_loop loop_step open_step tick tick_ending start_ending register pre_screen
    mark_observed observe_row upsert_accepted mark_observed_before_expiry honor now_or_clock
    after_step0 gate_step0 honor_seen after_score prepare_form after_prepare commit_honor
    score_quote find_form or_malformed get_form score_from score plain_form depth_gate
    run_binding_spine bind_datum bind_payment custody_test check_payer_binding funded_by
    decode_settlement_datum get_seen lock_seen is_lockable consume deliver_goods run_honor_txn
    text_eq amount_to_text text_to_amount row_from_sql has_key has_outpoint first count_if update
    deliver
fulfilment-issue_example =
    fulfilment-issue shop_deps refl quote false (Event.ticks ∷ []) point shop refl
