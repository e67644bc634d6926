-- ===== src/Intid.antt =====
-- crates/intid: integer ids, and the integer types that carry them.
pub mod Uint
pub mod Id
pub mod Impls
