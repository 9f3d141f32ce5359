-- ===== src/Adapters.antt =====
-- The adapters that are not a store (src/adapters): the indexer's chain source with the decoder of a
-- transaction's bytes, and the keystore's and the wallet daemon's bridges.
pub mod HexText
pub mod Messages
pub mod Wire
pub mod Indexer
pub mod Custody
pub mod Verifier
