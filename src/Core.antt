-- ===== src/Core.antt =====
-- The engine (src/core): the form registry, the scorer and the facade operations.
pub mod Registry
pub mod Scorer
pub mod Alike
pub mod Engine
