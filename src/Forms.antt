-- ===== src/Forms.antt =====
-- The settlement forms (src/forms): the address binding, the shared spine, the plain output, the HTLC
-- and the example form.
pub mod Address
pub mod Spine
pub mod Plain
pub mod Htlc
pub mod Echo
pub mod Alike
