-- ===== src/Store.antt =====
-- The two reference stores (src/adapters/sqlite-store.ts and postgres-store.ts).
pub mod Amount
pub mod Table
pub mod Keyed
pub mod Lookup
pub mod Rows
pub mod Contract
pub mod Txn
pub mod Sqlite
pub mod Postgres
pub mod Fake
