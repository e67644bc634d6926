-- ===== src/Alloc/Unique/Counting.antt =====
-- crates/intid-alloactor/src/unique.rs: the ids count up from the start, to the largest one.
use native.Mathlib.Decide.{dec_le}
use idmap_rs.Common.{
  ℕ, zero, suc, ◌+◌, ◌-◌, ◌≤◌, ◌<◌, ◌≡◌, ◌≢◌, refl, ap, ◌∙◌, Option, none, some, arith,
  Option-cases, inl, inr, and_then, ◌⊎◌,
}
use idmap_rs.Run.{Platform}
use idmap_rs.Intid.Id.{IntegerId, IsLawful, ContiguousIntegerId, IsContiguous, checked_sub}
use idmap_rs.Alloc.{AllocResult, allocated, exhausted}
use idmap_rs.Alloc.Unique.{UniqueIdAllocator, with_start, max_used_id, try_alloc, nth_alloc, after}
use idmap_rs.Alloc.Unique.Bound.{top, bound, bound_of, step_back, try_alloc-some, try_alloc-none}

module _ {T : Type 0} ⦃p : Platform⦄ ⦃id : IntegerId T⦄ ⦃c : ContiguousIntegerId T⦄
    (lawful : IsLawful id) (contiguous : IsContiguous id c) where
  -- what call number `i` returns: the id that many steps on, or an error beyond the largest id
  abbrev pub Returned : UniqueIdAllocator T → ℕ → AllocResult T → Type 0
  Returned self i r =
      ((bound self + i ≤ top T) × ((k : T) × (r ≡ allocated k) × (id.to_int k ≡ bound self + i)))
      ⊎ ((top T < bound self + i) × (r ≡ exhausted))

  nth_alloc-Returned : (i : ℕ) (self : UniqueIdAllocator T) → Returned self i (nth_alloc i self)
  unfolding nth_alloc
  nth_alloc-Returned zero self = elim (dec_le (bound self) (top T)) [
    | yes left ↦
        let (k, done, same, _) = try_alloc-some lawful contiguous self left in
        inl (omega arith, (k, done, omega (arith, same)))
    | no over ↦ inr (
      omega arith,
      ap (λ (r : AllocResult T × UniqueIdAllocator T). r.0)
          (try_alloc-none lawful contiguous self (omega arith)),
    )
  ]
  nth_alloc-Returned (suc i) self = elim (dec_le (bound self) (top T)) [
    | yes left ↦
        let (_, _, _, next) = try_alloc-some lawful contiguous self left in
        ground (arith, nth_alloc-Returned i (try_alloc self).1, next)
    | no over ↦
        let same =
          ap (λ (r : AllocResult T × UniqueIdAllocator T). r.1)
            (try_alloc-none lawful contiguous self (omega arith)) in
        rw same (ground (arith, nth_alloc-Returned i self))
  ]

  -- For a lawful and contiguous id type, call number `i` of `try_alloc` on an allocator that starts
  -- at `s`, counted from 0, returns the id whose integer is `i` above that of `s`, as long as this
  -- is at most the largest id's; every call beyond returns an error.
  pub nth_alloc-with_start :
      (s : T) (i : ℕ)
      → (id.to_int s + i ≤ top T
          → (k : T) × (nth_alloc i (with_start s) ≡ allocated k) × (id.to_int k ≡ id.to_int s + i))
        × (top T < id.to_int s + i → nth_alloc i (with_start s) ≡ exhausted)
  unfolding bound
  nth_alloc-with_start s i = split (nth_alloc-Returned i (with_start s))
    where
      split :
          Returned (with_start s) i (nth_alloc i (with_start s))
          → (id.to_int s + i ≤ top T
              → (k : T) × (nth_alloc i (with_start s) ≡ allocated k)
                × (id.to_int k ≡ id.to_int s + i))
            × (top T < id.to_int s + i → nth_alloc i (with_start s) ≡ exhausted)
      split (inl (low, found)) = (λ _. found, λ high. absurd (omega arith))
      split (inr (high, over)) = (λ low. absurd (omega arith), λ _. over)

  -- For a lawful and contiguous id type, two different calls of `try_alloc` on one allocator never
  -- return the same id.
  pub nth_alloc_unique :
      (self : UniqueIdAllocator T) (i j : ℕ) (a b : T)
      → i ≢ j
      → nth_alloc i self ≡ allocated a
      → nth_alloc j self ≡ allocated b
      → a ≢ b
  nth_alloc_unique self i j a b ne ea eb same =
      ne (omega (arith, int_of i a ea, int_of j b eb, ap id.to_int same))
    where
      int_of : (n : ℕ) (x : T) → nth_alloc n self ≡ allocated x → id.to_int x ≡ bound self + n
      int_of n x e = ground (arith, nth_alloc-Returned n self)

  bound-after :
      (n : ℕ) (self : UniqueIdAllocator T)
      → bound self + n ≤ top T + 1
      → bound (after n self) ≡ bound self + n
  unfolding after
  bound-after zero self h = omega arith
  bound-after (suc n) self h =
      let (_, _, _, next) = try_alloc-some lawful contiguous self (omega arith) in
      omega (arith, bound-after n (try_alloc self).1 (omega (arith, next)), next)

  some_of_bound :
      (self : UniqueIdAllocator T)
      → bound self ≤ top T
      → (k : T) × (self.next_id ≡ some k) × (id.to_int k ≡ bound self)
  unfolding bound bound_of
  some_of_bound self h = elim (Option-cases self.next_id) [
    | inl e ↦ absurd (ground arith)
    | inr (k, e) ↦ (k, e, rw e refl)
  ]

  none_of_bound : (self : UniqueIdAllocator T) → top T < bound self → self.next_id ≡ none
  unfolding bound bound_of
  none_of_bound self h = elim (Option-cases self.next_id) [
    | inl e ↦ e
    | inr (k, e) ↦ absurd (ground (arith, contiguous.within k))
  ]

  -- For a lawful and contiguous id type, after one or more calls that each returned an id and while
  -- the integers are not used up, `max_used_id` is the id that the latest of the calls returned.
  pub max_used_id-after :
      (s : T) (n : ℕ)
      → id.to_int s + suc n ≤ top T
      → (k : T) × (max_used_id (after (suc n) (with_start s)) ≡ some k)
        × (nth_alloc n (with_start s) ≡ allocated k)
  unfolding max_used_id
  max_used_id-after s n h =
      let count = bound-after (suc n) (with_start s) (unfold bound in omega arith) in
      let (next, e, int) =
        some_of_bound (after (suc n) (with_start s)) (unfold bound in omega (arith, count)) in
      let (k, done, int') = (nth_alloc-with_start s n).0 (omega arith) in
      let above : id.to_int next ≡ id.to_int k + 1 =
        unfold bound in omega (arith, int, int', count) in
      let back = step_back lawful contiguous k next above in
      (k, ap (λ (o : Option T). and_then o λ i. checked_sub i 1) e ∙ back, done)

  -- For a lawful and contiguous id type, after as many calls as there are ids from the start on,
  -- `max_used_id` is `None`.
  pub max_used_id-exhausted :
      (s : T) (n : ℕ) → id.to_int s + n ≡ top T + 1 → max_used_id (after n (with_start s)) ≡ none
  unfolding max_used_id
  max_used_id-exhausted s n h =
      let count = bound-after n (with_start s) (unfold bound in omega arith) in
      let gone = none_of_bound (after n (with_start s)) (unfold bound in omega (arith, count)) in
      rw gone refl

  -- For a lawful and contiguous id type, after one or more calls of `try_alloc` that each
  -- returned an id: while an id is left, `max_used_id` is the id that the
  -- latest call returned; once the latest call returned the largest id, it is `None`.
  pub max_used_id_lem :
      (s : T) (n : ℕ)
      → (id.to_int s + suc n ≤ top T
          → (k : T) × (max_used_id (after (suc n) (with_start s)) ≡ some k)
            × (nth_alloc n (with_start s) ≡ allocated k))
        × (id.to_int s + n ≡ top T → max_used_id (after (suc n) (with_start s)) ≡ none)
  max_used_id_lem s n =
      (max_used_id-after s n, λ e. max_used_id-exhausted s (suc n) (omega (arith, e)))

  -- For a lawful and contiguous id type, a new allocator that does not start at the smallest id
  -- reports the id before its start as the largest one used.
  pub max_used_id-with_start :
      (s : T)
      → id.to_int c.min_id < id.to_int s
      → (k : T) × (max_used_id (with_start s) ≡ some k) × (id.to_int k + 1 ≡ id.to_int s)
  unfolding max_used_id
  max_used_id-with_start s h =
      let (k, valid) =
        contiguous.valid (id.to_int s - 1) (omega arith) (omega (arith, (contiguous.within s).1)) in
      let int = lawful.to_int-checked (id.to_int s - 1) k valid in
      (k, step_back lawful contiguous k s (omega (arith, int)), omega (arith, int))
