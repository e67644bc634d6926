-- ===== src/Alloc/Reusing/Least.antt =====
-- crates/intid-alloactor/src/reusing.rs: what `try_alloc` returns, as the callers see it. Ids are
-- counted by their integers, from that of `START` to that of the largest id.
use idmap_rs.Common.{ℕ, ◌+◌, ◌≤◌, ◌<◌, ◌≡◌, ◌↔◌, ap, arith, Option-cases, inl, inr}
use idmap_rs.Run.{Platform}
use idmap_rs.Intid.Id.{IntegerId, IsLawful, ContiguousIntegerId, IsContiguous, IntegerIdCounter}
use idmap_rs.Intid.Id.Order
use idmap_rs.Alloc.{allocated, exhausted}
use idmap_rs.Alloc.Unique
use idmap_rs.Alloc.Unique.Bound.{
  top, bound, bound-le, try_alloc-none, try_alloc-allocated, try_alloc-exhausted,
}
use idmap_rs.Alloc.Reusing.{reverse_cmp, pop, try_alloc}
use idmap_rs.Alloc.Reusing.Heap.{count, count_heap, pop-none, pop-some}
use idmap_rs.Alloc.Reusing.System.{System, Reach, Reach-Inv, try_alloc-reused, try_alloc-fresh}

module _ {T : Type 0} ⦃p : Platform⦄ ⦃id : IntegerId T⦄ ⦃d : ContiguousIntegerId T⦄
    ⦃c : IntegerIdCounter T⦄ (lawful : IsLawful id) (contiguous : IsContiguous id d) where
  -- For a lawful and contiguous id type, no id is held twice: in every reachable state each integer
  -- is held once at most, and only if it is not on the heap too.
  pub held_once :
      {s : System T} → Reach s → (n : ℕ) → count n s.held + count_heap n s.allocator.heap ≤ 1
  held_once r n = let inv = Reach-Inv lawful contiguous r in ground (arith, inv.counts n)

  pub try_alloc_least :
      {s : System T} {k : T}
      → Reach s
      → (try_alloc s.allocator).0 ≡ allocated k
      → (id.to_int c.start ≤ id.to_int k)
        × (count (id.to_int k) s.held ≡ 0)
        × ((n : ℕ) → id.to_int c.start ≤ n → n < id.to_int k → count n s.held ≡ 1)
  try_alloc_least {s} {k} r e =
      let inv = Reach-Inv lawful contiguous r in
      elim (Option-cases (pop (reverse_cmp Order.cmp) s.allocator.heap)) [
        | inr (x, popped) ↦
            let run = try_alloc-reused lawful contiguous s.allocator x popped in
            let same : x.0.inner.id ≡ k = cc in
            let out = pop-some s.allocator.heap x popped in
            let at = id.to_int k in
            (
              ground (arith, inv.counts at, out.counts at),
              ground (arith, inv.counts at, out.counts at),
              λ n low high. ground (arith, inv.counts n, out.least n, inv.counts at, out.counts at),
            )
        | inl none_left ↦
            let run = try_alloc-fresh lawful contiguous s.allocator none_left in
            let empty = pop-none s.allocator.heap none_left in
            let first : (Unique.try_alloc s.allocator.next_id).0 ≡ allocated k = cc in
            let (_, int, _) = try_alloc-allocated lawful contiguous s.allocator.next_id k first in
            (
              omega (arith, inv.above, int),
              ground (arith, inv.counts (id.to_int k), int),
              λ n low high.
                  unfold count_heap in ground (arith, inv.counts n, ap (count_heap n) empty, int),
            )
      ]

  all_held :
      {s : System T}
      → Reach s
      → (try_alloc s.allocator).0 ≡ exhausted
      → (n : ℕ) → id.to_int c.start ≤ n
      → n ≤ top T
      → count n s.held ≡ 1
  unfolding count_heap
  all_held {s} r e n low high =
      let inv = Reach-Inv lawful contiguous r in
      elim (Option-cases (pop (reverse_cmp Order.cmp) s.allocator.heap)) [
        | inr (x, popped) ↦
            let run = try_alloc-reused lawful contiguous s.allocator x popped in absurd (cc)
        | inl none_left ↦
            let run = try_alloc-fresh lawful contiguous s.allocator none_left in
            let empty = pop-none s.allocator.heap none_left in
            let last : (Unique.try_alloc s.allocator.next_id).0 ≡ exhausted = cc in
            let over = try_alloc-exhausted lawful contiguous s.allocator.next_id last in
            ground (arith, inv.counts n, ap (count_heap n) empty, over)
      ]

  none_left_over :
      {s : System T}
      → Reach s
      → ((n : ℕ) → id.to_int c.start ≤ n → n ≤ top T → count n s.held ≡ 1)
      → (try_alloc s.allocator).0 ≡ exhausted
  none_left_over {s} r full =
      let inv = Reach-Inv lawful contiguous r in
      elim (Option-cases (pop (reverse_cmp Order.cmp) s.allocator.heap)) [
        | inr (x, popped) ↦
            let out = pop-some s.allocator.heap x popped in
            let at = id.to_int x.0.inner.id in
            let range = bound-le lawful contiguous s.allocator.next_id in
            absurd (ground (arith, inv.counts at, out.counts at, full at, range))
        | inl none_left ↦
            let run = try_alloc-fresh lawful contiguous s.allocator none_left in
            let at = bound s.allocator.next_id in
            let over : top T < at = ground (arith, inv.counts at, full at, inv.above) in
            let last = try_alloc-none lawful contiguous s.allocator.next_id over in cc
      ]

  pub try_alloc_exhausted :
      {s : System T}
      → Reach s
      → ((try_alloc s.allocator).0 ≡ exhausted)
        ↔ ((n : ℕ) → id.to_int c.start ≤ n → n ≤ top T → count n s.held ≡ 1)
  try_alloc_exhausted {s} r = (all_held r, none_left_over r)

  -- For a lawful and contiguous id type, an id that `try_alloc` returns in a reachable state is the
  -- least one that is not held: its integer is not held, and every smaller one, from that of
  -- `START` on, is held exactly once. `try_alloc` fails exactly when every id from `START` to the
  -- largest one is held. An id is held once at most, and only if it is not on the heap too.
  pub try_alloc-reachable :
      {s : System T}
      → Reach s
      → ((k : T)
          → (try_alloc s.allocator).0 ≡ allocated k
          → (id.to_int c.start ≤ id.to_int k)
            × (count (id.to_int k) s.held ≡ 0)
            × ((n : ℕ) → id.to_int c.start ≤ n → n < id.to_int k → count n s.held ≡ 1))
        × (((try_alloc s.allocator).0 ≡ exhausted)
            ↔ ((n : ℕ) → id.to_int c.start ≤ n → n ≤ top T → count n s.held ≡ 1))
        × ((n : ℕ) → count n s.held + count_heap n s.allocator.heap ≤ 1)
  try_alloc-reachable r = (λ k e. try_alloc_least r e, try_alloc_exhausted r, held_once r)
