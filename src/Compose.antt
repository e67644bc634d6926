-- ===== src/Compose.antt =====
-- The components together, as a program uses them.
pub mod Slab
pub mod Ids
