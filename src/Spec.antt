-- ===== src/Spec.antt =====
-- The value types of the standard and its datum codec (src/spec).
pub mod Types
pub mod Errors
pub mod Datum
