-- ===== src/Alloc/Unique.antt =====
-- crates/intid-alloactor/src/unique.rs: `UniqueIdAllocator`. Its `Cell` is changed by methods that
-- take `&self`; here they return the new allocator.
pub mod Bound
pub mod Counting
use idmap_rs.Common.{ℕ, zero, suc, Option, none, some, and_then}
use idmap_rs.Run.{Run, Platform}
use idmap_rs.Intid.Id.{IntegerId, IntegerIdCounter, checked_add, checked_sub}
use idmap_rs.Alloc.{AllocResult, allocated, exhausted, or_exhausted}

pub record UniqueIdAllocator (T : Type 0) : Type 0 where
  pub next_id : Option T

module _ {T : Type 0} where
  abbrev pub with_start : T → UniqueIdAllocator T
  with_start start = record { next_id = some start }

module _ {T : Type 0} ⦃c : IntegerIdCounter T⦄ where
  abbrev pub new : UniqueIdAllocator T
  new = with_start c.start

  abbrev pub default : UniqueIdAllocator T
  default = new

  unfoldable pub reset : UniqueIdAllocator T → UniqueIdAllocator T
  reset self = record self { next_id = some c.start }

module _ {T : Type 0} ⦃p : Platform⦄ ⦃id : IntegerId T⦄ where
  unfoldable pub max_used_id : UniqueIdAllocator T → Option T
  max_used_id self = and_then self.next_id λ i. checked_sub i 1

  unfoldable pub try_alloc : UniqueIdAllocator T → AllocResult T × UniqueIdAllocator T
  try_alloc self = elim self.next_id [
    | none ↦ (exhausted, self)
    | some old_id ↦ (allocated old_id, record self { next_id = checked_add old_id 1 })
  ]

  unfoldable pub alloc : UniqueIdAllocator T → Run (T × UniqueIdAllocator T)
  unfolding try_alloc
  alloc self = or_exhausted (try_alloc self)

  -- what call number `i` of `try_alloc` returns, counted from 0
  unfoldable pub nth_alloc : ℕ → UniqueIdAllocator T → AllocResult T
  unfolding try_alloc
  nth_alloc zero self = (try_alloc self).0
  nth_alloc (suc i) self = nth_alloc i (try_alloc self).1

  -- the allocator after `n` calls
  unfoldable pub after : ℕ → UniqueIdAllocator T → UniqueIdAllocator T
  unfolding try_alloc
  after zero self = self
  after (suc n) self = after n (try_alloc self).1
