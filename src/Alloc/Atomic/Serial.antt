-- ===== src/Alloc/Atomic/Serial.antt =====
-- crates/intid-alloactor/src/unique/atomic.rs and unique.rs: calls one after another on the atomic
-- allocator, against those on `UniqueIdAllocator`.
use native.Mathlib.Decide.{dec_lt}
use idmap_rs.Common.{
  ℕ, zero, suc, ◌+◌, ◌≤◌, ◌<◌, ◌≡◌, sym, ap, ◌∙◌, some, arith, inl, inr, Option-cases, ◌⊎◌,
}
use idmap_rs.Run.{Platform}
use idmap_rs.Intid.Uint
use idmap_rs.Intid.Uint.{modulus}
use idmap_rs.Intid.Id.{IntegerId, IsLawful, ContiguousIntegerId, IsContiguous}
use idmap_rs.Alloc.{exhausted}
use idmap_rs.Alloc.Unique
use idmap_rs.Alloc.Unique.{nth_alloc}
use idmap_rs.Alloc.Unique.Bound.{top}
use idmap_rs.Alloc.Unique.Counting.{nth_alloc-with_start}
use idmap_rs.Alloc.Atomic.{
  UniqueIdAllocatorAtomic, increment, try_alloc, ok_or_exhausted, with_start, after_calls, nth_call,
}

module _ {T : Type 0} ⦃p : Platform⦄ ⦃id : IntegerId T⦄ where
  -- the counter goes up by one with each call, as far as the largest integer
  after_calls-next_id :
      (n : ℕ) (a : UniqueIdAllocatorAtomic T)
      → a.next_id < modulus id.int
      → ((a.next_id + n < modulus id.int) × ((after_calls n a).next_id ≡ a.next_id + n))
        ⊎ ((modulus id.int ≤ a.next_id + n) × ((after_calls n a).next_id + 1 ≡ modulus id.int))
  unfolding after_calls try_alloc increment Uint.checked_add
  after_calls-next_id zero a lt = inl (omega arith, omega arith)
  after_calls-next_id (suc n) a lt = ground (arith, after_calls-next_id n a lt)

  try_alloc-below :
      (a : UniqueIdAllocatorAtomic T)
      → a.next_id + 1 < modulus id.int
      → (try_alloc a).0 ≡ ok_or_exhausted (id.from_int_checked a.next_id)
  unfolding try_alloc increment Uint.checked_add
  try_alloc-below a lt = ground arith

  try_alloc-full :
      (a : UniqueIdAllocatorAtomic T) → a.next_id + 1 ≡ modulus id.int → (try_alloc a).0 ≡ exhausted
  unfolding try_alloc increment Uint.checked_add
  try_alloc-full a e = ground arith

module _ {T : Type 0} ⦃p : Platform⦄ ⦃id : IntegerId T⦄ ⦃c : ContiguousIntegerId T⦄
    (lawful : IsLawful id) (contiguous : IsContiguous id c) where
  checked-nth_alloc :
      (s : T) (n : ℕ)
      → ok_or_exhausted (id.from_int_checked (id.to_int s + n)) ≡ nth_alloc n (Unique.with_start s)
  checked-nth_alloc s n = elim (dec_lt (top T) (id.to_int s + n)) [
    | yes beyond ↦ elim (Option-cases (id.from_int_checked (id.to_int s + n))) [
      | inl invalid ↦ rw invalid (sym ((nth_alloc-with_start lawful contiguous s n).1 beyond))
      | inr (k, valid) ↦
          absurd (
            omega (arith, lawful.to_int-checked (id.to_int s + n) k valid, (contiguous.within k).1))
    ]
    | no within ↦
        let (k, done, int) =
          (nth_alloc-with_start lawful contiguous s n).0 (omega (arith, within)) in
        let valid : id.from_int_checked (id.to_int s + n) ≡ some k =
          rw int at (lawful.checked-to_int k) in
        rw valid (sym done)
  ]

  -- For a lawful and contiguous id type: call number `n`, counted from 0, on an atomic allocator that
  -- starts at `s`, without calls of other threads in between, returns what that call on a
  -- `UniqueIdAllocator` returns, unless its id would have the largest integer of the type or a larger
  -- one; then it returns an error.
  pub nth_call-nth_alloc :
      (s : T) (n : ℕ)
      → (id.to_int s + n + 1 < modulus id.int
          → nth_call n (with_start s) ≡ nth_alloc n (Unique.with_start s))
        × (modulus id.int ≤ id.to_int s + n + 1 → nth_call n (with_start s) ≡ exhausted)
  unfolding nth_call
  nth_call-nth_alloc s n = elim (after_calls-next_id n (with_start s) (lawful.in_range s)) [
    | inl (low, at) ↦ (
      λ lt.
          try_alloc-below (after_calls n (with_start s)) (omega (arith, at, lt))
          ∙ ap (λ x. ok_or_exhausted (id.from_int_checked x)) at
          ∙ checked-nth_alloc s n,
      λ full. try_alloc-full (after_calls n (with_start s)) (omega (arith, at, low, full)),
    )
    | inr (high, full) ↦ (
      λ lt. absurd (omega (arith, high, lt)),
      λ _. try_alloc-full (after_calls n (with_start s)) full,
    )
  ]
