-- ===== src/Alloc/Reusing.antt =====
-- crates/intid-alloactor/src/reusing.rs: `IdAllocator`, which hands out freed ids again. The binary
-- heap of the standard library is a list whose `pop` removes a greatest element by the order of
-- its elements, here `Reverse<OrderByInt<T>>`.
pub mod Heap
pub mod System
pub mod Least
pub mod Dense
use Prim.Native.Nat.{Ordering}
use Prim.Native.Nat.Ordering.{lt}
use idmap_rs.Common.{Option, none, some, List, [], ◌∷◌}
use idmap_rs.Run.{Run, Platform}
use idmap_rs.Intid.Id.{IntegerId, IntegerIdCounter}
use idmap_rs.Intid.Id.Order
use idmap_rs.Intid.Id.Order.{OrderByInt}
use idmap_rs.Alloc.{AllocResult, allocated, exhausted, or_exhausted}
use idmap_rs.Alloc.Unique
use idmap_rs.Alloc.Unique.{UniqueIdAllocator}

-- `core::cmp::Reverse`
pub record Reverse (A : Type 0) : Type 0 where
  pub inner : A

abbrev pub reverse_cmp : {A : Type 0} → (A → A → Ordering) → Reverse A → Reverse A → Ordering
reverse_cmp cmp a b = cmp b.inner a.inner

-- `BinaryHeap::pop`, by the order of the elements
unfoldable pub pop {ℓ} : {A : Type ℓ} → (A → A → Ordering) → List A → Option (A × List A)
pop cmp [] = none
pop cmp (x ∷ xs) = elim (pop cmp xs) [
  | none ↦ some (x, [])
  | some (y, rest) ↦ elim (cmp x y) [ lt ↦ some (y, x ∷ rest) | _ ↦ some (x, y ∷ rest) ]
]

pub record IdAllocator (T : Type 0) : Type 0 where
  pub next_id : UniqueIdAllocator T
  pub heap : List (Reverse (OrderByInt T))

module _ {T : Type 0} where
  abbrev pub with_start : T → IdAllocator T
  with_start start = record { next_id = Unique.with_start start; heap = [] }

  unfoldable pub free : IdAllocator T → T → IdAllocator T
  free self id = record self { heap = record { inner = record { id = id } } ∷ self.heap }

module _ {T : Type 0} ⦃c : IntegerIdCounter T⦄ where
  abbrev pub new : IdAllocator T
  new = with_start c.start

  abbrev pub default : IdAllocator T
  default = new

  unfoldable pub free_all : IdAllocator T → IdAllocator T
  unfolding Unique.reset
  free_all self = record self { next_id = Unique.reset self.next_id; heap = [] }

module _ {T : Type 0} ⦃p : Platform⦄ ⦃id : IntegerId T⦄ where
  unfoldable pub try_alloc : IdAllocator T → AllocResult T × IdAllocator T
  unfolding pop Order.cmp Unique.try_alloc
  try_alloc self = elim (pop (reverse_cmp Order.cmp) self.heap) [
    | some (existing, heap) ↦ (allocated existing.inner.id, record self { heap = heap })
    | none ↦
        let (result, next_id) = Unique.try_alloc self.next_id in
        (result, record self { next_id = next_id })
  ]

  unfoldable pub alloc : IdAllocator T → Run (T × IdAllocator T)
  unfolding try_alloc
  alloc self = or_exhausted (try_alloc self)
