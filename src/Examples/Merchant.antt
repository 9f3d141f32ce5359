-- ===== src/Examples/Merchant.antt =====
-- The merchant's tables and its `deliver` (src/examples/merchant/merchant.ts).
pub mod Issues
pub mod Fulfils
use exfer_honor.Base.{
  ℕ, Text, text_eq, codes, Bool, Option, none, some, List, [], ◌∷◌, ◌++◌, take, if◌then◌else◌,
}
use exfer_honor.Spec.Types.{Hex, QuoteId, AcceptedQuote, DeclineReason, DeliverContext}
use exfer_honor.Spec.Errors.{Thrown, Result, ok, throw}
use exfer_honor.Ports.Store.{Delivery, DeliverFn}
use exfer_honor.Ports.World.{World}
use exfer_honor.Ports.Deps.{HonorDeps}
use exfer_honor.Store.Table.{first, count_if, update}
use exfer_honor.Store.Sqlite.{insert_unless}
use exfer_honor.Service.{Ending, Event, LoopState, on_paid}
use exfer_honor.Adapters.Messages.{to_lower_case}

pub data OrderState : Type 0 where
  pending fulfilled : OrderState

-- A row of `orders`; its primary key is the quote.
pub record Order : Type 0 where
  pub quote_id : Text
  pub sku : Text
  pub credits : ℕ
  pub state : OrderState
  pub fulfilled_at : Option ℕ

-- A row of `api_keys`; its primary key is the quote.
pub record ApiKey : Type 0 where
  pub quote_id : Text
  pub api_key : Text
  pub credits : ℕ

pub record Goods : Type 0 where
  pub orders : List Order
  pub api_keys : List ApiKey

-- `WHERE quote_id=?`.
abbrev pub of_order : QuoteId → Order → Bool
of_order q r = text_eq r.quote_id q

abbrev pub of_key : QuoteId → ApiKey → Bool
of_key q r = text_eq r.quote_id q

unfoldable pub place_order : QuoteId → Text → ℕ → Goods → Goods
place_order q sku credits goods = record goods {
  orders =
      insert_unless (first (of_order q) goods.orders)
        (record {
          quote_id = q;
          sku = sku;
          credits = credits;
          state = OrderState.pending;
          fulfilled_at = none;
        })
        goods.orders;
}

unfoldable pub mint_api_key : QuoteId → Text
mint_api_key q = codes "sk-exfer-" ++ to_lower_case (take 16 q)

abbrev pub order_credits : Option Order → ℕ
order_credits none = 0
order_credits (some order) = order.credits

abbrev pub fulfilled_order : ℕ → Order → Order
fulfilled_order honored_at r = record r {
  state = OrderState.fulfilled;
  fulfilled_at = some honored_at;
}

-- The goods that one delivery writes.
unfoldable pub issue : DeliverContext → Goods → Goods
unfolding mint_api_key
issue ctx goods =
    let q : QuoteId = ctx.key.quote_id in
    let credits : ℕ = order_credits (first (of_order q) goods.orders) in
    record {
      api_keys =
          insert_unless (first (of_key q) goods.api_keys)
            (record { quote_id = q; api_key = mint_api_key q; credits = credits }) goods.api_keys;
      orders = update (of_order q) (fulfilled_order ctx.honored_at) goods.orders;
    }

-- The `deliver` of `fulfilOnPayment`: it returns no promise.
unfoldable pub deliver : DeliverFn Goods
unfolding issue
deliver ctx goods = (Delivery.returned, issue ctx goods)

-- What the agent is told.
pub data Fulfilment : Type 0 where
  honored : Option ApiKey → Fulfilment
  declined : DeclineReason → Fulfilment
  cancelled : Fulfilment
  failed : Thrown → Fulfilment

-- `fulfilOnPayment`, once the loop has settled; `none` while it has not.
unfoldable pub fulfilment : QuoteId → Option Ending → Goods → Option Fulfilment
fulfilment q none goods = none
fulfilment q (some (Ending.honored o)) goods =
    some (Fulfilment.honored (first (of_key q) goods.api_keys))
fulfilment q (some (Ending.declined reason)) goods = some (Fulfilment.declined reason)
fulfilment q (some Ending.cancelled) goods = some Fulfilment.cancelled
fulfilment q (some (Ending.failed e)) goods = some (Fulfilment.failed e)

unfoldable pub read_order : QuoteId → Goods → Option Order
read_order q goods = first (of_order q) goods.orders

unfoldable pub api_key_count : QuoteId → Goods → ℕ
api_key_count q goods = count_if (of_key q) goods.api_keys
