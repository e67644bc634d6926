-- ===== src/Compose/Slab/Ids.antt =====
-- The allocator of a slab: which ids are held, and a call that fails.
use idmap_rs.Common.{
  ℕ, ◌<◌, ◌≡◌, ◌⊎◌, refl, ap, inl, inr, List, [], ◌∷◌, ◌++◌, arith, ◌==◌, Option-cases, Bool-cases,
}
use idmap_rs.Run.{Platform}
use idmap_rs.Intid.Id.{IntegerId, IsLawful, ContiguousIntegerId, IsContiguous, IntegerIdCounter}
use idmap_rs.Intid.Id.Order
use idmap_rs.Alloc.{AllocResult, allocated, exhausted}
use idmap_rs.Alloc.Unique
use idmap_rs.Alloc.Unique.Bound.{try_alloc-none, try_alloc-exhausted}
use idmap_rs.Alloc.Reusing
use idmap_rs.Alloc.Reusing.{IdAllocator, reverse_cmp, pop}
use idmap_rs.Alloc.Reusing.Heap.{count}
use idmap_rs.Alloc.Reusing.System.{try_alloc-reused, try_alloc-fresh}

module _ {T : Type 0} ⦃id : IntegerId T⦄ where
  -- an integer that is counted is that of an id of the list
  pub split_of_count :
      (n : ℕ) (l : List T)
      → 0 < count n l
      → (k : T) × (before : List T) × (behind : List T) × (l ≡ before ++ k ∷ behind)
        × (id.to_int k ≡ n)
  unfolding count
  split_of_count n [] h = absurd (omega arith)
  split_of_count n (k ∷ l) h = elim (Bool-cases (id.to_int k == n)) [
    | inl here ↦ (k, [], l, refl, ground arith)
    | inr other ↦
        let (j, before, behind, e, at) = split_of_count n l (ground arith) in
        (j, k ∷ before, behind, ap (λ r. k ∷ r) e, at)
  ]

module _ {T : Type 0} where
  pub AllocResult-cases : (r : AllocResult T) → (r ≡ exhausted) ⊎ ((k : T) × (r ≡ allocated k))
  AllocResult-cases exhausted = inl refl
  AllocResult-cases (allocated k) = inr (k, refl)

module _ {T : Type 0} ⦃p : Platform⦄ ⦃id : IntegerId T⦄ ⦃d : ContiguousIntegerId T⦄
    ⦃c : IntegerIdCounter T⦄ (lawful : IsLawful id) (contiguous : IsContiguous id d) where
  -- a call that fails leaves the allocator as it is
  pub try_alloc_unchanged :
      (a : IdAllocator T) → (Reusing.try_alloc a).0 ≡ exhausted → (Reusing.try_alloc a).1 ≡ a
  try_alloc_unchanged a e = elim (Option-cases (pop (reverse_cmp Order.cmp) a.heap)) [
    | inr (x, popped) ↦ let run = try_alloc-reused lawful contiguous a x popped in absurd (cc)
    | inl none_left ↦
        let run = try_alloc-fresh lawful contiguous a none_left in
        let last : (Unique.try_alloc a.next_id).0 ≡ exhausted = cc in
        let same =
          try_alloc-none lawful contiguous a.next_id
            (try_alloc-exhausted lawful contiguous a.next_id last) in
        cc
  ]
