-- ===== src/Alloc/Atomic/Linear/Bounds.antt =====
-- crates/intid-alloactor/src/unique/atomic.rs: the values that threads have read, and where a thread
-- stands after a step.
use mathlib.Core.List.Memᴰ
use mathlib.Core.List.{Memᴰ}
use native.Mathlib.Decide.{ℕ_discrete}
use idmap_rs.Common.{ℕ, ◌≤◌, ◌<◌, ◌≡◌, ◌≢◌, refl, ap, ◌∙◌, ◌⊎◌, inl, inr, none, some, arith}
use idmap_rs.Run.{Platform}
use idmap_rs.Intid.Uint
use idmap_rs.Intid.Uint.{modulus}
use idmap_rs.Intid.Id.{IntegerId}
use idmap_rs.Alloc.Atomic.{UniqueIdAllocatorAtomic, fetch_update, increment, of_fetched, try_alloc}
use idmap_rs.Alloc.Atomic.Threads.{
  Pc, System, HasHeld, Step, loads, exchanges, retries, gives_up, returns, Reach, start, later,
  move_to,
}

-- after a step of thread `i`, thread `j` is the one that moved, or stands where it stood
pub moved :
    (pc : ℕ → Pc) (i j : ℕ) (new here : Pc)
    → move_to pc i new j ≡ here
    → ((i ≡ j) × (new ≡ here)) ⊎ ((i ≢ j) × (pc j ≡ here))
moved pc i j new here e = elim (ℕ_discrete i j) [
  | yes same ↦ inl (ground arith)
  | no other ↦ inr (ground arith)
]

module _ {T : Type 0} ⦃p : Platform⦄ ⦃id : IntegerId T⦄ where
  -- no thread has read a value that the counter has not had yet
  pub record Bounds (s : System T) : Type 0 where
    pub in_range : s.allocator.next_id < modulus id.int
    pub past_below : (x : ℕ) → Memᴰ x s.past → x ≤ s.allocator.next_id
    pub behind : (i b x : ℕ) → s.pc i ≡ Pc.trying b x → x ≤ s.allocator.next_id

  pub HasHeld-below : {s : System T} → Bounds s → (x : ℕ) → HasHeld s x → x ≤ s.allocator.next_id
  HasHeld-below h x (inl e) = omega (arith, e)
  HasHeld-below h x (inr m) = h.past_below x m

  Bounds-reads :
      {s : System T} (i b x : ℕ)
      → Bounds s
      → HasHeld s x
      → Bounds (record s { pc = move_to s.pc i (Pc.trying b x) })
  Bounds-reads {s} i b x h m = record {
    in_range = h.in_range;
    past_below = h.past_below;
    behind = λ j c y e. elim (moved s.pc i j (Pc.trying b x) (Pc.trying c y) e) [
      | inl (_, same) ↦ ground (arith, HasHeld-below h x m)
      | inr (_, old) ↦ h.behind j c y old
    ];
  }

  Step-Bounds : {s : System T} {i : ℕ} {t : System T} → Bounds s → Step s i t → Bounds t
  unfolding increment Uint.checked_add
  Step-Bounds {s} {i} h (loads x e m) = Bounds-reads i _ x h m
  Step-Bounds {s} {i} h (retries b x y z e f m) = Bounds-reads i b z h m
  Step-Bounds {s} {i} h (exchanges b x y e f g) = record {
    in_range = ground arith;
    past_below = λ z m. elim (Memᴰ.cases_cons m) [
      | inl same ↦ ground (arith, same)
      | inr old ↦ ground (arith, h.past_below z old)
    ];
    behind = λ j c z here. elim (moved s.pc i j _ (Pc.trying c z) here) [
      | inl (_, clash) ↦ absurd (cc)
      | inr (_, old) ↦ ground (arith, h.behind j c z old)
    ];
  }
  Step-Bounds {s} {i} h (gives_up b x e f) = record {
    in_range = h.in_range;
    past_below = h.past_below;
    behind = λ j c z here. elim (moved s.pc i j _ (Pc.trying c z) here) [
      | inl (_, clash) ↦ absurd (cc)
      | inr (_, old) ↦ h.behind j c z old
    ];
  }
  Step-Bounds {s} {i} h (returns b n r e) = record {
    in_range = h.in_range;
    past_below = h.past_below;
    behind = λ j c z here. elim (moved s.pc i j _ (Pc.trying c z) here) [
      | inl (_, clash) ↦ absurd (cc)
      | inr (_, old) ↦ h.behind j c z old
    ];
  }

  pub Reach-Bounds :
      {first : UniqueIdAllocatorAtomic T} {s : System T}
      → first.next_id < modulus id.int
      → Reach first s
      → Bounds s
  Reach-Bounds lt start = record {
    in_range = lt;
    past_below = λ x m. absurd (Memᴰ.not-nil m);
    behind = λ i b x e. absurd (cc);
  }
  Reach-Bounds lt (later i r st) = Step-Bounds (Reach-Bounds lt r) st

  pub try_alloc-some :
      (a : UniqueIdAllocatorAtomic T) (x y : ℕ)
      → a.next_id ≡ x
      → increment id.int x ≡ some y
      → try_alloc a ≡ (of_fetched (some x), record { next_id = y })
  unfolding try_alloc
  try_alloc-some a x y e f =
      ap (λ (n : ℕ). try_alloc {T = T} (record { next_id = n })) e ∙ rw (f, fetch_update) refl

  pub try_alloc-none :
      (a : UniqueIdAllocatorAtomic T)
      → increment id.int a.next_id ≡ none
      → try_alloc a ≡ (of_fetched none, a)
  unfolding try_alloc
  try_alloc-none a e = rw (e, fetch_update) refl

  -- a value that was read and is the largest one is still that of the counter
  pub largest_is_current :
      {s : System T} {i b x : ℕ}
      → Bounds s
      → s.pc i ≡ Pc.trying b x
      → increment id.int x ≡ none
      → increment id.int s.allocator.next_id ≡ none
  unfolding increment Uint.checked_add
  largest_is_current {i} {b} {x} h e f = ground (arith, h.behind i b x e, h.in_range)
