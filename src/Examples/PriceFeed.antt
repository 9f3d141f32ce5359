-- ===== src/Examples/PriceFeed.antt =====
-- The prices of the merchant (src/examples/merchant/priceFeed.ts): whole cents, and an amount in base units. The
-- rate for narration is left out.
use exfer_honor.Base.{ℕ, ◌+◌, ◌*◌, ◌/◌, ◌%◌, ◌≡◌, arith, Text, codes, [], ◌∷◌, ◌++◌}
use exfer_honor.Store.Amount.{amount_to_text}

abbrev pub exfer_per_whole : ℕ
exfer_per_whole = 100000000

unfoldable pub demo_price_feed : ℕ → ℕ
demo_price_feed amount_minor_usd = amount_minor_usd * exfer_per_whole * 10 / 25

pub record PriceQuote : Type 0 where
  pub usd_minor : ℕ
  pub exfer_amount : ℕ

unfoldable pub build_quote_price : (ℕ → ℕ) → ℕ → PriceQuote
build_quote_price feed usd_minor = record { usd_minor = usd_minor; exfer_amount = feed usd_minor }

-- `(usdMinor / 100).toFixed(2)` of a whole number of cents.
unfoldable pub format_usd : ℕ → Text
unfolding amount_to_text
format_usd usd_minor =
    codes "$"
    ++ amount_to_text (usd_minor / 100)
    ++ b'.' ∷ (usd_minor / 10 % 10 + 48) ∷ (usd_minor % 10 + 48) ∷ []

-- The division of the demo feed is exact: a cent is 40000000 base units.
pub demo_price_feed-exact : (cents : ℕ) → demo_price_feed cents ≡ cents * 40000000
unfolding demo_price_feed
demo_price_feed-exact cents = omega arith
