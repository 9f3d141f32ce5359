-- ===== src/Examples.antt =====
-- The hosts of the examples (src/examples): the merchant, a consumer of the library with goods tables beside the
-- gate's, and the testnet faucet.
pub mod Merchant
pub mod PriceFeed
pub mod Faucet
pub mod TestnetLoop
