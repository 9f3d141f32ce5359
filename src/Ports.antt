-- ===== src/Ports.antt =====
-- The interfaces that the engine is built over (src/ports), the effects of their calls and the state
-- that these act on.
pub mod Store
pub mod World
pub mod Effect
pub mod Chain
pub mod Form
pub mod Deps
pub mod Alike
pub mod Lift
