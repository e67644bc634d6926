-- ===== src/Lib.antt =====
-- A verification library for idmap: maps and sets whose keys are integer ids, stored in a vector
-- or a bit set at the index of the id, and for the crates that it stands on.
--
-- The parts of the program, from the bottom up, and the files that model them:
--
-- - crates/intid/src/uint.rs, uint/sealed.rs: the unsigned integer types with their checked and
--   wrapping conversions to and from `usize`: Intid/Uint.antt. A value is a natural number below
--   the modulus of its type; the wrap-around is written out. Intid/Uint/Text.antt has the
--   description of an integer in messages, as a list of ASCII codes.
-- - crates/intid/src/lib.rs: the traits `IntegerId`, `ContiguousIntegerId` and `IntegerIdCounter`
--   are records of operations (Intid/Id.antt), which the clients take as instance arguments. What
--   the documentation of the traits asks of an implementation is `IsLawful` and `IsContiguous`;
--   Intid/Impls.antt (crates/intid/src/impls.rs) has the implementations for the integer types
--   and for `NonZero`, its child those for `NonMax` of another crate. `OrderByInt` is
--   Intid/Id/Order.antt, `EquivalentId` Intid/Id/Equivalent.antt.
-- - src/direct.rs and src/direct/map.rs: `DirectIdMap`, a vector of optional values and a count.
--   Direct.antt goes from ids to indices and back; Direct/Map.antt has the methods, and its
--   children the growth of the vector, the invariant, what each method does to the function from
--   ids to values, and the refinement of whole sequences of calls. Direct/Map/Iter.antt has
--   the iterators, all of one macro, and `retain`; its children relate them to the list of the
--   pairs, and Direct/Map/Iter/Unwind.antt has the map that `retain` leaves when its callback
--   panics. Calls of `next` and `next_back` in any order, of a map or of a set, are set beside the
--   two ends of a list in Ends.antt.
-- - src/direct/set.rs: `DirectIdSet`, a bit set and a count: Direct/Set.antt, with the properties
--   in its children, of which Direct/Set/Retain.antt also models `retain`, and
--   Direct/Set/Compare.antt equality, hash and order. Direct/Set/Retain/Kept.antt is about blocks
--   of 32 bits, as the code takes them to be, Direct/Set/Retain/Asked.antt about blocks of 64,
--   Direct/Set/Retain/Dropped.antt about the last assertion of `retain_word`, and
--   Direct/Set/Unwind.antt about a callback that panics. The bit set is that of the crate
--   fixedbitset, which the repository does not hold: Direct/BitSet.antt has its operations as an
--   interface, and their documented behaviour as the laws `IsBitSet`, among them a limit up to
--   which a bit can be stored.
-- - crates/intid-alloactor/src/lib.rs, unique.rs and reusing.rs: the allocators of ids.
--   Alloc.antt and Alloc/Unique.antt have `UniqueIdAllocator`, a counter; Alloc/Reusing.antt has
--   `IdAllocator`, which adds a heap of freed ids. Alloc/Reusing/System.antt sets it beside the
--   ids that its callers hold, with a step for each call, and an invariant of the reachable
--   states.
-- - crates/intid-alloactor/src/unique/atomic.rs: `UniqueIdAllocatorAtomic`, which threads share:
--   Alloc/Atomic.antt has its methods, Alloc/Atomic/Threads.antt any number of threads as a step
--   relation: a load, a compare-and-exchange or the return of a call at a time. A call takes effect
--   at its compare-and-exchange, or where it gives up at the largest integer; calls that overlap may
--   return in another order. Each call is numbered by its turn to take effect, and with how many
--   calls had returned when it began and when it returned, which says what came after what.
--   Alloc/Atomic/Serial.antt sets calls one after another beside `UniqueIdAllocator`; the other
--   children speak of every state that can be reached.
-- - crates/intid-derive/src/lib.rs: the derive macro. Derive.antt goes from a parsed item to the
--   errors or to what is generated; Derive/Newtype.antt and Derive/Enum.antt have the generated
--   implementations as functions, for a struct and for an enum, Derive/Discriminants.antt what
--   the language says of the variants, Derive/Words.antt and Derive/Accepts.antt the attributes
--   and the items that are accepted, Derive/Output.antt what the macro returns as a whole.
--   Derive/Emitted.antt has the code inside `quote!` as data and Derive/Emitted/Meaning.antt what
--   it means; the other children set that beside the functions, and ask which items of the traits
--   the code lacks. Parsing, which the crate syn does, and writing tokens, which the crate quote
--   does, are parameters. The `usize` of the macro is taken to be as wide as that of the target.
-- - src/direct/serde.rs: Direct/Serde.antt, over a serializer and a deserializer that are
--   interfaces with errors; what a format promises is in Direct/Serde/Format.antt.
-- - Compose/Slab.antt sets `DirectIdMap` and `IdAllocator` together the way a program does that
--   keeps its objects under ids which it allocates and frees. Its two calls are such a program's;
--   every operation that they call is that of the crates, and Compose/Slab/Live.antt has the
--   invariant that the ids held of the allocator are those of the entries. Compose/Ids.antt has
--   the id types that a program has without an implementation of its own: those of
--   crates/intid/src/impls.rs, and structs derived around them.
--
-- How a call is modelled: a call returns a value of `Run` (Run.antt), which is a result, one of
-- the panics of the sources, undefined behaviour, or the end of the fuel of a loop. A method that
-- changes its object returns the new one; after a panic there is no object, except where a
-- callback of `retain` panics, for which there is a second model that returns the object left
-- behind. The arithmetic is that of a build with overflow checks and debug assertions. The target
-- (`Platform`) is a parameter: the width of `usize`, and the longest vector that can be
-- allocated, of which twice the length fits `usize`, since a vector takes `isize::MAX` bytes at
-- most; growing beyond it panics. A reference handed out for writing is a function from the
-- written value to the changed map, and those that `iter_mut` hands out are positions in the
-- vector. A callback is a function that carries a state of its own.
--
-- Loops follow the vector or the list that they walk. Some run on fuel: those that call `next` to
-- the end (to collect, hash, compare or serialize), on one more than the elements that are left;
-- the loop of `retain_word`, on one more than the bits of a word, of which each turn clears one;
-- and the loops of deserialization, on any fuel above the number of items that the access gives.
-- The theorems on them say that they end with a result.
--
-- A block of a bit set is the list of its bits, the lowest first, so that its width is the
-- length.
--
-- Ids: a key is given by value, since `as_id` leads to the id itself in all implementations. A
-- theorem on `insert` speaks of an id whose index fits `usize` and for which there is room; for
-- sequences of calls this is the first half of the possible indices, as the vector may double.
--
-- Not modelled: the capacity of vectors; the layout of `Debug`, which is the formatter's, so that
-- the text of a map is what some function makes of its entries; the spans of the derive macro;
-- and the memory order of the atomic accesses beyond this: all of them are to one location, whose
-- values have one order, and a relaxed load, or a compare-and-exchange that fails, may give any value
-- that the location has had. What is left of the crates computes nothing: re-exports, feature gates and trait
-- bounds.

mod Common
pub mod Run
pub mod Ends
pub mod Intid
pub mod Direct
pub mod Alloc
pub mod Derive
pub mod Compose
mod Tests
