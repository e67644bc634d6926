-- ===== src/Alloc/Reusing/System.antt =====
-- crates/intid-alloactor/src/reusing.rs: an allocator and the ids that its callers hold, over any
-- sequence of calls. A caller frees only an id that is held.
use idmap_rs.Common.{
  ℕ, ◌+◌, ◌≤◌, ◌≡◌, refl, ap, none, some, List, [], ◌∷◌, ◌++◌, arith, if◌then◌else◌, leb, ltb, ◌&&◌,
  Option-cases, inl, inr,
}
use idmap_rs.Run.{Platform}
use idmap_rs.Intid.Id.{IntegerId, IsLawful, ContiguousIntegerId, IsContiguous, IntegerIdCounter}
use idmap_rs.Intid.Id.Order
use idmap_rs.Alloc.{allocated}
use idmap_rs.Alloc.Unique
use idmap_rs.Alloc.Unique.Bound.{bound, try_alloc-allocated, bound-reset, bound-with_start}
use idmap_rs.Alloc.Reusing.{IdAllocator, Reverse, reverse_cmp, pop, new, try_alloc, free, free_all}
use idmap_rs.Alloc.Reusing.Heap.{count, count_heap, pop-none, pop-some, count-append}

pub record System (T : Type 0) : Type 0 where
  pub allocator : IdAllocator T
  pub held : List T

-- a caller gets an id, gives one of the held ids back, or starts again with none
pub data Step {T : Type 0} ⦃p : Platform⦄ ⦃id : IntegerId T⦄ ⦃c : IntegerIdCounter T⦄ (s : System T)
    : System T → Type 0 where
  takes :
      {k : T}
      → (try_alloc s.allocator).0 ≡ allocated k
      → Step s (record { allocator = (try_alloc s.allocator).1; held = k ∷ s.held })
  gives_back :
      (k : T) (before behind : List T)
      → s.held ≡ before ++ k ∷ behind
      → Step s (record { allocator = free s.allocator k; held = before ++ behind })
  resets : Step s (record { allocator = free_all s.allocator; held = [] })

pub data Reach {T : Type 0} ⦃p : Platform⦄ ⦃id : IntegerId T⦄ ⦃c : IntegerIdCounter T⦄
    : System T → Type 0 where
  start : Reach (record { allocator = new; held = [] })
  later : {s t : System T} → Reach s → Step s t → Reach t

module _ {T : Type 0} ⦃id : IntegerId T⦄ ⦃d : ContiguousIntegerId T⦄ ⦃c : IntegerIdCounter T⦄ where
  -- 1 for the integers of the ids that were ever made since the last reset, 0 for the others
  abbrev pub made : System T → ℕ → ℕ
  made s n = if leb (id.to_int c.start) n && ltb n (bound s.allocator.next_id) then 1 else 0

  -- each id that was made is held once or is on the heap once, and no other is
  pub record Inv (s : System T) : Type 0 where
    pub counts : (n : ℕ) → count n s.held + count_heap n s.allocator.heap ≡ made s n
    pub above : id.to_int c.start ≤ bound s.allocator.next_id

module _ {T : Type 0} ⦃p : Platform⦄ ⦃id : IntegerId T⦄ ⦃d : ContiguousIntegerId T⦄
    ⦃c : IntegerIdCounter T⦄ (lawful : IsLawful id) (contiguous : IsContiguous id d) where
  -- what `try_alloc` does to the ids, in its two cases
  pub try_alloc-reused :
      (a : IdAllocator T) (r : Reverse (Order.OrderByInt T) × List (Reverse (Order.OrderByInt T)))
      → pop (reverse_cmp Order.cmp) a.heap ≡ some r
      → try_alloc a ≡ (allocated r.0.inner.id, record a { heap = r.1 })
  unfolding try_alloc
  try_alloc-reused a r e = ground arith

  pub try_alloc-fresh :
      (a : IdAllocator T)
      → pop (reverse_cmp Order.cmp) a.heap ≡ none
      → try_alloc a
        ≡ ((Unique.try_alloc a.next_id).0, record a { next_id = (Unique.try_alloc a.next_id).1 })
  unfolding try_alloc
  try_alloc-fresh a e = rw (e, try_alloc) refl

  -- the allocator after a call that returned `k`, by where the id came from
  takes-Inv :
      (s : System T) (k : T)
      → Inv s
      → (try_alloc s.allocator).0 ≡ allocated k
      → Inv (record { allocator = (try_alloc s.allocator).1; held = k ∷ s.held })
  unfolding count count_heap
  takes-Inv s k inv e = elim (Option-cases (pop (reverse_cmp Order.cmp) s.allocator.heap)) [
    | inr (r, popped) ↦
        let run = try_alloc-reused s.allocator r popped in
        let same : r.0.inner.id ≡ k = cc in
        let out = pop-some s.allocator.heap r popped in
        rw run
          (record { counts = λ n. ground (arith, inv.counts n, out.counts n); above = inv.above })
    | inl none_left ↦
        let run = try_alloc-fresh s.allocator none_left in
        let empty = pop-none s.allocator.heap none_left in
        let first : (Unique.try_alloc s.allocator.next_id).0 ≡ allocated k = cc in
        let (_, int, next) = try_alloc-allocated lawful contiguous s.allocator.next_id k first in
        rw run (record {
          counts = λ n. ground (arith, inv.counts n, ap (count_heap n) empty, int, next);
          above = omega (arith, inv.above, next);
        })
  ]

  Step-Inv : {s t : System T} → Inv s → Step s t → Inv t
  unfolding count count_heap free free_all
  Step-Inv {s} inv (takes {k} e) = takes-Inv s k inv e
  Step-Inv {s} inv (gives_back k before behind e) = record {
    counts = λ n. ground (
      arith,
      inv.counts n,
      ap (count n) e,
      count-append n before (k ∷ behind),
      count-append n before behind,
    );
    above = inv.above;
  }
  Step-Inv {s} inv resets = record {
    counts = λ n. ground (arith, bound-reset s.allocator.next_id);
    above = omega (arith, bound-reset s.allocator.next_id);
  }

  Inv-start : Inv {T = T} (record { allocator = new; held = [] })
  unfolding count count_heap
  Inv-start = record {
    counts = λ n. ground (arith, bound-with_start {T = T} c.start);
    above = omega (arith, bound-with_start {T = T} c.start);
  }

  pub Reach-Inv : {s : System T} → Reach s → Inv s
  Reach-Inv start = Inv-start
  Reach-Inv (later r st) = Step-Inv (Reach-Inv r) st
