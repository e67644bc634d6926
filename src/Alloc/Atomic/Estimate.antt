-- ===== src/Alloc/Atomic/Estimate.antt =====
-- crates/intid-alloactor/src/unique/atomic.rs: `approx_max_used_id`, in every state that threads can
-- reach and for every value that its relaxed load may give.
use idmap_rs.Common.{ℕ, ◌-◌, ◌≤◌, ◌<◌, ◌≡◌, some, arith}
use idmap_rs.Run.{Platform}
use idmap_rs.Intid.Uint
use idmap_rs.Intid.Uint.{modulus}
use idmap_rs.Intid.Id.{IntegerId, IsLawful, ContiguousIntegerId, IsContiguous, checked_sub}
use idmap_rs.Alloc.Atomic.{UniqueIdAllocatorAtomic, approx_max_used_id}
use idmap_rs.Alloc.Atomic.Threads.{System, HasHeld, Reach}
use idmap_rs.Alloc.Atomic.Linear.Bounds.{HasHeld-below, Reach-Bounds}
use idmap_rs.Alloc.Atomic.Handed.{IsGiven, handed_out_iff}

module _ {T : Type 0} ⦃p : Platform⦄ ⦃id : IntegerId T⦄ ⦃d : ContiguousIntegerId T⦄
    (lawful : IsLawful id) (contiguous : IsContiguous id d) where
  -- the id below that of the counter
  approx_below :
      (x : ℕ) (j m : T)
      → id.from_int_checked x ≡ some j
      → 1 ≤ x
      → id.from_int_checked (x - 1) ≡ some m
      → approx_max_used_id x ≡ some m
  unfolding approx_max_used_id checked_sub Uint.checked_sub
  approx_below x j m here pos below = ground (arith, lawful.to_int-checked x j here)

  -- For a lawful and contiguous id type, and from an integer that is no smaller than that
  -- of the smallest id as the start:
  -- whatever value the load of the counter gives, of those that the counter has had so far, if it is
  -- that of an id and not the start, then the estimate is an id that has been handed out (a call has
  -- returned with it or has it in hand), and no id handed out is larger if the value was the latest.
  pub approx_max_used_id_lem :
      (first : UniqueIdAllocatorAtomic T) {s : System T} (x : ℕ) (j : T)
      → id.to_int d.min_id ≤ first.next_id
      → first.next_id < modulus id.int
      → Reach first s
      → HasHeld s x
      → first.next_id < x
      → id.from_int_checked x ≡ some j
      → (m : T) × (approx_max_used_id x ≡ some m)
        × IsGiven s m
        × (x ≡ s.allocator.next_id → (l : T) → IsGiven s l → id.to_int l ≤ id.to_int m)
  approx_max_used_id_lem first {s} x j low lt reach held moved here =
      let at = lawful.to_int-checked x j here in
      let (m, below) =
        contiguous.valid (x - 1) (omega (arith, low, moved))
          (omega (arith, (contiguous.within j).1, at)) in
      let down = lawful.to_int-checked (x - 1) m below in
      (
        m,
        approx_below x j m here (omega arith) below,
        (handed_out_iff lawful first m lt reach).1 (
          omega (arith, down, moved),
          omega (arith, down, HasHeld-below (Reach-Bounds lt reach) x held),
        ),
        λ latest l handed.
            omega (arith, down, latest, ((handed_out_iff lawful first l lt reach).0 handed).1),
      )
