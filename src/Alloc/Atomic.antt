-- ===== src/Alloc/Atomic.antt =====
-- crates/intid-alloactor/src/unique/atomic.rs: `UniqueIdAllocatorAtomic`. This file has its methods
-- as one thread runs them undisturbed; the steps of several threads are in `Threads`. `Atomic` is
-- of the crate atomic: a value that is loaded, stored, and compared and exchanged.
pub mod Threads
pub mod Linear
pub mod Handed
pub mod Fused
pub mod Serial
pub mod Estimate
use idmap_rs.Common.{ℕ, zero, suc, Option, none, some, and_then}
use idmap_rs.Run.{Run, Platform}
use idmap_rs.Intid.Uint
use idmap_rs.Intid.Id.{IntegerId, IntegerIdCounter, checked_sub}
use idmap_rs.Alloc.{AllocResult, allocated, exhausted, or_exhausted}

-- the counter is an integer, not an id
pub record UniqueIdAllocatorAtomic (T : Type 0) : Type 0 where
  pub next_id : ℕ

module _ {T : Type 0} ⦃c : IntegerIdCounter T⦄ where
  abbrev pub new : UniqueIdAllocatorAtomic T
  new = record { next_id = c.start_int }

  abbrev pub default : UniqueIdAllocatorAtomic T
  default = new

module _ {T : Type 0} where
  -- `must_cast` of the crate bytemuck reads the bytes of an id as an integer
  abbrev pub with_start_const : (T → ℕ) → T → UniqueIdAllocatorAtomic T
  with_start_const must_cast start = record { next_id = must_cast start }

-- `fetch_update`, undisturbed: the previous value if the function gives a new one, and the value
-- after the call
abbrev pub fetch_update : (ℕ → Option ℕ) → ℕ → Option ℕ × ℕ
fetch_update f x = elim (f x) [ none ↦ (none, x) | some y ↦ (some x, y) ]

abbrev pub ok_or_exhausted : {T : Type 0} → Option T → AllocResult T
ok_or_exhausted none = exhausted
ok_or_exhausted (some k) = allocated k

-- the closure that is given to `fetch_update`
unfoldable pub increment : ⦃p : Platform⦄ → Uint.PrimInt → ℕ → Option ℕ
increment t x = Uint.checked_add t x 1

module _ {T : Type 0} ⦃p : Platform⦄ ⦃id : IntegerId T⦄ where
  abbrev pub with_start : T → UniqueIdAllocatorAtomic T
  with_start start = record { next_id = id.to_int start }

  -- It depends on no more of the allocator than on the value that the relaxed load of the counter
  -- gives, which need not be the latest: `Threads.HasHeld` says which values it may be.
  unfoldable pub approx_max_used_id : (loaded : ℕ) → Option T
  approx_max_used_id loaded = and_then (id.from_int_checked loaded) λ i. checked_sub i 1

  -- what `try_alloc` makes of the fetched value
  abbrev pub of_fetched : Option ℕ → AllocResult T
  of_fetched fetched = ok_or_exhausted (and_then fetched id.from_int_checked)

module _ {T : Type 0} ⦃p : Platform⦄ ⦃id : IntegerId T⦄ where
  unfoldable pub try_alloc : UniqueIdAllocatorAtomic T → AllocResult T × UniqueIdAllocatorAtomic T
  unfolding increment
  try_alloc self =
      let (fetched, next) = fetch_update (increment id.int) self.next_id in
      (of_fetched fetched, record { next_id = next })

  unfoldable pub alloc : UniqueIdAllocatorAtomic T → Run (T × UniqueIdAllocatorAtomic T)
  unfolding try_alloc
  alloc self = or_exhausted (try_alloc self)

  -- the allocator after so many calls, one after another
  unfoldable pub after_calls : ℕ → UniqueIdAllocatorAtomic T → UniqueIdAllocatorAtomic T
  unfolding try_alloc
  after_calls zero self = self
  after_calls (suc n) self = (try_alloc (after_calls n self)).1

  -- the result of the call that comes after so many others
  unfoldable pub nth_call : ℕ → UniqueIdAllocatorAtomic T → AllocResult T
  unfolding try_alloc after_calls
  nth_call n self = (try_alloc (after_calls n self)).0
