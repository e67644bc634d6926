-- ===== src/Alloc/Atomic/Fused.antt =====
-- crates/intid-alloactor/src/unique/atomic.rs: what the comment in `try_alloc` calls fused, after an
-- error every call that begins later fails.
use mathlib.Core.List.{Memᴰ}
use native.Mathlib.Decide.{dec_lt}
use idmap_rs.Common.{ℕ, zero, suc, ◌+◌, ◌≤◌, ◌<◌, ◌≡◌, sym, ◌∙◌, ◌⊎◌, inl, inr, arith, Option-cases}
use idmap_rs.Run.{Platform}
use idmap_rs.Intid.Uint
use idmap_rs.Intid.Uint.{modulus}
use idmap_rs.Intid.Id.{IntegerId, IsLawful, ContiguousIntegerId, IsContiguous}
use idmap_rs.Alloc.{exhausted}
use idmap_rs.Alloc.Atomic.{UniqueIdAllocatorAtomic, increment, try_alloc, after_calls, nth_call}
use idmap_rs.Alloc.Atomic.Threads.{Call, System, Reach}
use idmap_rs.Alloc.Atomic.Handed.{after_calls-up}
use idmap_rs.Alloc.Atomic.Linear.Turns.{Reach-Turns}

module _ {T : Type 0} ⦃p : Platform⦄ ⦃id : IntegerId T⦄ ⦃k : ContiguousIntegerId T⦄
    (lawful : IsLawful id) (contiguous : IsContiguous id k) where
  -- no id is left for the counter
  abbrev IsSpent : UniqueIdAllocatorAtomic T → Type 0
  IsSpent a = (id.to_int k.max_id < a.next_id) ⊎ (modulus id.int ≤ a.next_id + 1)

  IsSpent-of_exhausted :
      (a : UniqueIdAllocatorAtomic T)
      → id.to_int k.min_id ≤ a.next_id
      → (try_alloc a).0 ≡ exhausted
      → IsSpent (try_alloc a).1
  unfolding try_alloc increment Uint.checked_add
  IsSpent-of_exhausted a low e = elim (dec_lt (id.to_int k.max_id) a.next_id) [
    | yes beyond ↦ elim (dec_lt (a.next_id + 1) (modulus id.int)) [
      | yes more ↦ inl (ground arith)
      | no full ↦ inr (ground arith)
    ]
    | no within ↦
        let (l, valid) = contiguous.valid a.next_id low (omega arith) in inr (ground arith)
  ]

  IsSpent-try_alloc :
      (a : UniqueIdAllocatorAtomic T)
      → IsSpent a
      → ((try_alloc a).0 ≡ exhausted) × IsSpent (try_alloc a).1
  unfolding try_alloc increment Uint.checked_add
  IsSpent-try_alloc a (inl beyond) = elim (Option-cases (id.from_int_checked a.next_id)) [
    | inl invalid ↦ elim (dec_lt (a.next_id + 1) (modulus id.int)) [
      | yes more ↦ (ground arith, inl (ground arith))
      | no full ↦ (ground arith, inr (ground arith))
    ]
    | inr (l, valid) ↦
        absurd (omega (arith, lawful.to_int-checked a.next_id l valid, (contiguous.within l).1))
  ]
  IsSpent-try_alloc a (inr full) = (ground arith, inr (ground arith))

  IsSpent-after_calls :
      (m n : ℕ) (first : UniqueIdAllocatorAtomic T)
      → m < n
      → id.to_int k.min_id ≤ first.next_id
      → nth_call m first ≡ exhausted
      → IsSpent (after_calls n first)
  unfolding after_calls nth_call
  IsSpent-after_calls m zero first lt low e = absurd (omega arith)
  IsSpent-after_calls m (suc n) first lt low e = elim (dec_lt m n) [
    | yes before ↦
        (IsSpent-try_alloc (after_calls n first) (IsSpent-after_calls m n first before low e)).1
    | no now ↦
        let same : m ≡ n = omega (arith, now) in
        IsSpent-of_exhausted (after_calls n first)
          (omega (arith, low, after_calls-up lawful 0 n first (omega arith))) (rw same at e)
  ]

  -- For a lawful and contiguous id type, and from an integer that is no smaller than that of the
  -- smallest id: however the steps of the threads interleave, once a call has returned an error, every
  -- call that begins after that returns an error too. Nothing is said of a call that was under way.
  pub errors_fused :
      (first : UniqueIdAllocatorAtomic T) {s : System T} (c d : Call T)
      → id.to_int k.min_id ≤ first.next_id
      → first.next_id < modulus id.int
      → Reach first s
      → Memᴰ c s.log
      → Memᴰ d s.log
      → d.result ≡ exhausted
      → d.ended < c.began
      → c.result ≡ exhausted
  unfolding nth_call
  errors_fused first c d low lt reach m n e before =
      let h = Reach-Turns first lt reach in
      let spent =
        IsSpent-after_calls d.turn c.turn first ((h.order c d m n).0 before) low
          (sym (h.logged d n).3 ∙ e) in
      (h.logged c m).3 ∙ (IsSpent-try_alloc (after_calls c.turn first) spent).0
