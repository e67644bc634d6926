-- ===== src/Alloc/Atomic/Handed.antt =====
-- crates/intid-alloactor/src/unique/atomic.rs: the ids that calls hand out, of one thread or of many.
use mathlib.Core.List.Memᴰ
use mathlib.Core.List.{Memᴰ}
use native.Mathlib.Decide.{dec_lt}
use idmap_rs.Common.{
  ℕ, zero, suc, ◌+◌, ◌≤◌, ◌<◌, ◌≡◌, ◌↔◌, sym, ap, ◌∙◌, ◌⊎◌, inl, inr, Option, arith,
}
use idmap_rs.Run.{Platform}
use idmap_rs.Intid.Uint
use idmap_rs.Intid.Uint.{modulus}
use idmap_rs.Intid.Id.{IntegerId, IsLawful}
use idmap_rs.Alloc.{AllocResult, allocated}
use idmap_rs.Alloc.Atomic.{
  UniqueIdAllocatorAtomic, increment, of_fetched, try_alloc, after_calls, nth_call,
}
use idmap_rs.Alloc.Atomic.Threads.{Pc, Call, System, Reach}
use idmap_rs.Alloc.Atomic.Linear.{results}
use idmap_rs.Alloc.Atomic.Linear.Bounds.{Reach-Bounds}
use idmap_rs.Alloc.Atomic.Linear.Turns.{Reach-Turns}

module _ {T : Type 0} ⦃p : Platform⦄ ⦃id : IntegerId T⦄ where
  -- a call has returned with the id, or `fetch_update` has given it to a thread that is about to
  abbrev pub IsGiven : System T → T → Type 0
  IsGiven s k =
      ((c : Call T) × Memᴰ c s.log × (c.result ≡ allocated k))
      ⊎ ((i b n : ℕ) × (r : Option ℕ) × (s.pc i ≡ Pc.fetched b n r) × (of_fetched r ≡ allocated k))

module _ {T : Type 0} ⦃p : Platform⦄ ⦃id : IntegerId T⦄ (lawful : IsLawful id) where
  -- what one call does: it hands out the id of the counter, if there is one, and counts up unless
  -- the counter is at the largest integer
  pub record IsTaken (a : UniqueIdAllocatorAtomic T) (r : AllocResult T)
      (b : UniqueIdAllocatorAtomic T) : Type 0 where
    pub up : a.next_id ≤ b.next_id
    pub gives : (k : T) → r ≡ allocated k → (id.to_int k ≡ a.next_id) × (a.next_id < b.next_id)
    pub given : (k : T) → a.next_id ≤ id.to_int k → id.to_int k < b.next_id → r ≡ allocated k

  pub try_alloc-IsTaken :
      (a : UniqueIdAllocatorAtomic T) → IsTaken a (try_alloc a).0 (try_alloc a).1
  unfolding try_alloc increment Uint.checked_add
  try_alloc-IsTaken a = record {
    up = ground arith;
    gives = λ k e. ground (arith, lawful.to_int-checked a.next_id k);
    given = λ k low high. ground (arith, lawful.checked-to_int k);
  }

  pub after_calls-up :
      (m n : ℕ) (first : UniqueIdAllocatorAtomic T)
      → m ≤ n
      → (after_calls m first).next_id ≤ (after_calls n first).next_id
  unfolding after_calls
  after_calls-up m zero first le = let none : m ≡ 0 = omega arith in rw none (omega arith)
  after_calls-up m (suc n) first le = elim (dec_lt n m) [
    | yes same ↦ let all : m ≡ suc n = omega (arith, same) in rw all (omega arith)
    | no before ↦ omega (
      arith,
      after_calls-up m n first (omega (arith, before)),
      (try_alloc-IsTaken (after_calls n first)).up,
    )
  ]

  nth_call-range :
      (n : ℕ) (first : UniqueIdAllocatorAtomic T) (k : T)
      → nth_call n first ≡ allocated k
      → (id.to_int k ≡ (after_calls n first).next_id)
        × (id.to_int k < (after_calls (suc n) first).next_id)
  unfolding nth_call after_calls
  nth_call-range n first k e =
      let (same, less) = (try_alloc-IsTaken (after_calls n first)).gives k e in
      (same, omega (arith, same, less))

  nth_call-ascending :
      (m n : ℕ) (first : UniqueIdAllocatorAtomic T) (l k : T)
      → m < n
      → nth_call m first ≡ allocated l
      → nth_call n first ≡ allocated k
      → id.to_int l < id.to_int k
  nth_call-ascending m n first l k lt e f = omega (
    arith,
    nth_call-range m first l e,
    nth_call-range n first k f,
    after_calls-up (suc m) n first (omega arith),
  )

  nth_call-covers :
      (n : ℕ) (first : UniqueIdAllocatorAtomic T) (k : T)
      → first.next_id ≤ id.to_int k
      → id.to_int k < (after_calls n first).next_id
      → (m : ℕ) × (m < n) × (nth_call m first ≡ allocated k)
  unfolding nth_call after_calls
  nth_call-covers zero first k low high = absurd (omega arith)
  nth_call-covers (suc n) first k low high =
      elim (dec_lt (id.to_int k) (after_calls n first).next_id) [
        | yes before ↦
            let (m, lt, e) = nth_call-covers n first k low before in (m, omega (arith, lt), e)
        | no now ↦ (
          n,
          omega arith,
          (try_alloc-IsTaken (after_calls n first)).given k (omega (arith, now)) high,
        )
      ]

  nth_call-within :
      (first : UniqueIdAllocatorAtomic T) (s : System T) (n : ℕ) (k : T)
      → s.allocator ≡ after_calls s.turns first
      → n < s.turns
      → nth_call n first ≡ allocated k
      → (first.next_id ≤ id.to_int k) × (id.to_int k < s.allocator.next_id)
  unfolding after_calls
  nth_call-within first s n k after before e =
      let (same, less) = nth_call-range n first k e in
      (
        omega (arith, same, after_calls-up 0 n first (omega arith)),
        omega (
          arith,
          less,
          after_calls-up (suc n) s.turns first (omega arith),
          ap (λ a. a.next_id) after,
        ),
      )

  pub handed_out_iff :
      (first : UniqueIdAllocatorAtomic T) {s : System T} (k : T)
      → first.next_id < modulus id.int
      → Reach first s
      → IsGiven s k ↔ ((first.next_id ≤ id.to_int k) × (id.to_int k < s.allocator.next_id))
  handed_out_iff first {s} k lt reach = (among, all)
    where
      among : IsGiven s k → (first.next_id ≤ id.to_int k) × (id.to_int k < s.allocator.next_id)
      among (inl (c, m, e)) =
          let h = Reach-Turns first lt reach in
          let (_, _, before, result) = h.logged c m in
          nth_call-within first s c.turn k h.after before (sym result ∙ e)
      among (inr (i, b, n, r, here, e)) =
          let h = Reach-Turns first lt reach in
          let (_, before, result) = h.hand i b n r here in
          nth_call-within first s n k h.after before (sym result ∙ e)

      all : (first.next_id ≤ id.to_int k) × (id.to_int k < s.allocator.next_id) → IsGiven s k
      all (low, high) =
          let h = Reach-Turns first lt reach in
          let (n, before, e) =
            nth_call-covers s.turns first k low
              (omega (arith, high, ap (λ a. a.next_id) h.after)) in
          elim (h.covered n before) [
            | inl (c, m, turn) ↦ inl (c, m, (h.logged c m).3 ∙ ap (λ z. nth_call z first) turn ∙ e)
            | inr (i, b, r, here) ↦ inr (i, b, n, r, here, (h.hand i b n r here).2 ∙ e)
          ]

  handed_out-pair :
      (first : UniqueIdAllocatorAtomic T) {s : System T} (c d : Call T) (k l : T)
      → first.next_id < modulus id.int
      → Reach first s
      → Memᴰ c s.log
      → Memᴰ d s.log
      → c.result ≡ allocated k
      → d.result ≡ allocated l
      → (d.ended < c.began → id.to_int l < id.to_int k) × (k ≡ l → c ≡ d)
  handed_out-pair first c d k l lt reach m n e f =
      let h = Reach-Turns first lt reach in
      let first_call = sym (h.logged c m).3 ∙ e in
      let second_call = sym (h.logged d n).3 ∙ f in
      (
        λ before.
            nth_call-ascending d.turn c.turn first l k ((h.order c d m n).0 before) second_call
              first_call,
        λ same. elim (dec_lt c.turn d.turn) [
          | yes less ↦ absurd (
              omega (
                arith,
                ap id.to_int same,
                nth_call-ascending c.turn d.turn first k l less first_call second_call,
              ))
          | no not_less ↦ elim (dec_lt d.turn c.turn) [
            | yes more ↦ absurd (
                omega (
                  arith,
                  ap id.to_int same,
                  nth_call-ascending d.turn c.turn first l k more second_call first_call,
                ))
            | no not_more ↦ (h.order c d m n).1 (omega (arith, not_less, not_more))
          ]
        ],
      )

  -- For a lawful id type, and from any value of its integer type as the start: however many threads
  -- call `try_alloc` and however their steps interleave, the ids that calls have returned with or have
  -- in hand are exactly those from the start on and below the counter. None is skipped, also where
  -- threads have had to try again. No two calls return the same id, and a call that begins after
  -- another one has returned gets a larger one; nothing is said of the order of calls that overlap.
  pub handed_out_once :
      (first : UniqueIdAllocatorAtomic T) {s : System T}
      → first.next_id < modulus id.int
      → Reach first s
      → ((k : T)
          → IsGiven s k ↔ ((first.next_id ≤ id.to_int k) × (id.to_int k < s.allocator.next_id)))
        × ((c d : Call T) (k l : T)
            → Memᴰ c s.log
            → Memᴰ d s.log
            → c.result ≡ allocated k
            → d.result ≡ allocated l
            → (d.ended < c.began → id.to_int l < id.to_int k) × (k ≡ l → c ≡ d))
  handed_out_once first lt reach =
      (λ k. handed_out_iff first k lt reach, λ c d k l. handed_out-pair first c d k l lt reach)

  -- For a lawful id type, and from any value of its integer type as the start: however many threads
  -- call `try_alloc` and however their steps interleave, the id of the largest integer of its type is
  -- never handed out, for the counter would have to go beyond that integer.
  pub largest_not_handed_out :
      (first : UniqueIdAllocatorAtomic T) {s : System T} (k : T)
      → first.next_id < modulus id.int
      → Reach first s
      → id.to_int k + 1 ≡ modulus id.int
      → ¬ Memᴰ (allocated k) (results s)
  largest_not_handed_out first {s} k lt r top m =
      let (c, n, e) = Memᴰ.of_map (λ (z : Call T). z.result) s.log m in
      omega (arith, (handed_out_iff first k lt r).0 (inl (c, n, e)), (Reach-Bounds lt r).in_range)
