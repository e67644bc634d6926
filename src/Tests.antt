-- ===== src/Tests.antt =====
-- Tests, and each theorem at a concrete input: a 64-bit target and ids that are `u32` numbers.
mod Setup
mod Ids
mod Maps
mod Sets
mod Slabs
mod Texts
mod Unwinding
mod Types
mod References
mod Iterators
mod Allocators
mod Threads
mod Derived
mod Documents
mod Orders
