-- ===== src/Alloc/Unique/Bound.antt =====
-- crates/intid-alloactor/src/unique.rs: where the counter of an allocator stands, and what a call
-- does to it.
use native.Mathlib.Decide.{dec_le}
use idmap_rs.Common.{
  ℕ, ◌+◌, ◌≤◌, ◌<◌, ◌≡◌, refl, sym, ◌∙◌, Option, none, some, arith, Option-cases, inl, inr,
}
use idmap_rs.Run.{Platform}
use idmap_rs.Intid.Uint
use idmap_rs.Intid.Uint.{modulus}
use idmap_rs.Intid.Id.{
  IntegerId, IsLawful, ContiguousIntegerId, IsContiguous, IntegerIdCounter, to_int-injective,
  checked_add, checked_sub, checked_add-to_int, checked_add-checked_sub_iff,
}
use idmap_rs.Alloc.{allocated, exhausted}
use idmap_rs.Alloc.Unique.{UniqueIdAllocator, with_start, reset, try_alloc}

-- the integer of the largest id
abbrev pub top : (T : Type 0) ⦃id : IntegerId T⦄ ⦃c : ContiguousIntegerId T⦄ → ℕ
top T ⦃id⦄ ⦃c⦄ = id.to_int c.max_id

module _ {T : Type 0} ⦃id : IntegerId T⦄ ⦃c : ContiguousIntegerId T⦄ where
  unfoldable pub bound_of : Option T → ℕ
  bound_of none = top T + 1
  bound_of (some k) = id.to_int k

  -- the integer of the next id, one beyond the largest if there is none
  unfoldable pub bound : UniqueIdAllocator T → ℕ
  unfolding bound_of
  bound self = bound_of self.next_id

module _ {T : Type 0} ⦃p : Platform⦄ ⦃id : IntegerId T⦄ ⦃c : ContiguousIntegerId T⦄
    (lawful : IsLawful id) (contiguous : IsContiguous id c) where
  succ-some : (a : T) → id.to_int a < top T → (b : T) × (checked_add a 1 ≡ some b)
  unfolding checked_add Uint.checked_add
  succ-some a h =
      let (b, valid) =
        contiguous.valid (id.to_int a + 1) (omega (arith, (contiguous.within a).0)) (omega arith) in
      (b, ground (arith, lawful.in_range c.max_id))

  succ-none : (a : T) → top T ≤ id.to_int a → checked_add a 1 ≡ none
  succ-none a h = elim (Option-cases (checked_add a 1)) [
    | inl over ↦ over
    | inr (b, e) ↦
        absurd (omega (arith, checked_add-to_int lawful a 1 b e, (contiguous.within b).1))
  ]

  -- the id one above is the next one, and stepping back from it returns
  pub step_back : (k next : T) → id.to_int next ≡ id.to_int k + 1 → checked_sub next 1 ≡ some k
  step_back k next e =
      let (b, added) = succ-some k (omega (arith, (contiguous.within next).1)) in
      let int = checked_add-to_int lawful k 1 b added in
      let same = to_int-injective lawful b next (int ∙ sym e) in
      (checked_add-checked_sub_iff lawful k next 1).0 (rw same at added)

  pub bound-le : (self : UniqueIdAllocator T) → bound self ≤ top T + 1
  unfolding bound bound_of
  bound-le self = elim (Option-cases self.next_id) [
    | inl e ↦ rw e (omega arith)
    | inr (k, e) ↦ rw e (omega (arith, (contiguous.within k).1))
  ]

  -- With an id left, `try_alloc` returns the one with the next integer and moves on by one.
  pub try_alloc-some :
      (self : UniqueIdAllocator T)
      → bound self ≤ top T
      → (k : T) × ((try_alloc self).0 ≡ allocated k)
        × (id.to_int k ≡ bound self)
        × (bound (try_alloc self).1 ≡ bound self + 1)
  unfolding bound try_alloc bound_of
  try_alloc-some self h = elim (Option-cases self.next_id) [
    | inl e ↦ absurd (ground arith)
    | inr (k, e) ↦ (k, rw e refl, rw e refl, rw e (bound_succ k))
  ]
    where
      bound_succ : (k : T) → bound_of (checked_add k 1) ≡ id.to_int k + 1
      bound_succ k = elim (dec_le (top T) (id.to_int k)) [
        | yes last ↦ rw (succ-none k last) (omega (arith, (contiguous.within k).1))
        | no more ↦
            let (b, e) = succ-some k (omega arith) in rw e (checked_add-to_int lawful k 1 b e)
      ]

  pub try_alloc-none :
      (self : UniqueIdAllocator T) → top T < bound self → try_alloc self ≡ (exhausted, self)
  unfolding bound try_alloc bound_of
  try_alloc-none self h = elim (Option-cases self.next_id) [
    | inl e ↦ ground arith
    | inr (k, e) ↦ absurd (ground (arith, contiguous.within k))
  ]

  -- an id that `try_alloc` returns is the next one
  pub try_alloc-allocated :
      (self : UniqueIdAllocator T) (k : T)
      → (try_alloc self).0 ≡ allocated k
      → (bound self ≤ top T)
        × (id.to_int k ≡ bound self)
        × (bound (try_alloc self).1 ≡ bound self + 1)
  try_alloc-allocated self k e = elim (dec_le (bound self) (top T)) [
    | yes left ↦
        let (k', done, int, next) = try_alloc-some self left in
        (left, ground (arith, done, int), next)
    | no over ↦ absurd (ground (arith, try_alloc-none self))
  ]

  pub try_alloc-exhausted :
      (self : UniqueIdAllocator T) → (try_alloc self).0 ≡ exhausted → top T < bound self
  try_alloc-exhausted self e = elim (dec_le (bound self) (top T)) [
    | yes left ↦ let (k, done, _, _) = try_alloc-some self left in absurd (cc)
    | no over ↦ omega arith
  ]

module _ {T : Type 0} ⦃id : IntegerId T⦄ ⦃d : ContiguousIntegerId T⦄ ⦃c : IntegerIdCounter T⦄ where
  -- a reset allocator is at the start of the counter, wherever it was made to start
  pub bound-reset : (self : UniqueIdAllocator T) → bound (reset self) ≡ id.to_int c.start
  unfolding bound bound_of reset
  bound-reset self = refl

module _ {T : Type 0} ⦃id : IntegerId T⦄ ⦃d : ContiguousIntegerId T⦄ where
  pub bound-with_start : (s : T) → bound (with_start s) ≡ id.to_int s
  unfolding bound bound_of
  bound-with_start s = refl
