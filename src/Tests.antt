-- ===== src/Tests.antt =====
-- The theorems at concrete inputs, and runs of the code.
pub mod Samples
mod Spec
mod Store
mod Postgres
mod Forms
mod Engine
mod Service
mod Adapters
mod Rpc
mod Merchant
mod Faucet
mod Fake
mod Pays
mod TestnetLoop
mod Conformance
