-- ===== src/Tests/Threads.antt =====
-- crates/intid-alloactor/src/unique/atomic.rs at concrete inputs: two threads.
use native.Mathlib.Bridge.{le_prop}
use mathlib.Core.HLevel.{Σ_prop_path}
use mathlib.Core.List.{Memᴰ}
use idmap_rs.Common.{ℕ, ◌<◌, ◌≤◌, ◌≡◌, ◌↔◌, refl, inl, inr, none, some, arith, length}
use idmap_rs.Intid.Uint
use idmap_rs.Intid.Uint.{u8}
use idmap_rs.Intid.Id
use idmap_rs.Intid.Id.{IntegerId}
use idmap_rs.Intid.Impls.{
  Word, word?, primint_id, primint_contiguous, primint_id-IsLawful, primint-IsContiguous,
}
use idmap_rs.Alloc.{allocated, exhausted}
use idmap_rs.Alloc.Unique
use idmap_rs.Alloc.Unique.{nth_alloc}
use idmap_rs.Alloc.Atomic.Serial.{nth_call-nth_alloc}
use idmap_rs.Alloc.Atomic.{
  UniqueIdAllocatorAtomic, approx_max_used_id, increment, with_start, after_calls, nth_call,
}
use idmap_rs.Alloc.Atomic.Threads.{
  Call, System, loads, exchanges, retries, gives_up, returns, Reach, start, later,
}
use idmap_rs.Alloc.Atomic.Linear.{results, log-nth_call}
use idmap_rs.Alloc.Atomic.Linear.Turns.{HasTurn}
use idmap_rs.Alloc.Atomic.Handed.{IsGiven, handed_out_once, largest_not_handed_out}
use idmap_rs.Alloc.Atomic.Estimate.{approx_max_used_id_lem}
use idmap_rs.Alloc.Atomic.Fused.{errors_fused}
use idmap_rs.Tests.Setup.{x86_64}

abbrev Byte : Type 0
Byte = Word u8

instance abbrev byte_id : IntegerId Byte
byte_id = primint_id u8

abbrev b253 : Byte
b253 = (253, omega arith)

abbrev b254 : Byte
b254 = (254, omega arith)

abbrev b255 : Byte
b255 = (255, omega arith)

byte_path : (a b : Byte) → a.0 ≡ b.0 → a ≡ b
byte_path a b e = Σ_prop_path (λ n. le_prop) e

abbrev first : UniqueIdAllocatorAtomic Byte
first = with_start b253

-- Both threads read 253; the second one wins, and the first one has to try again. Its call then
-- returns before that of the second one, with the larger id.
raced : (s : System Byte) × Reach first s × (length s.log ≡ 2) × (s.allocator.next_id ≡ 255)
unfolding increment Uint.checked_add
raced = (
  _,
  later 1
      (later 0
        (later 0
          (later 0
            (later 1
              (later 1 (later 0 start (loads 253 refl (inl refl))) (loads 253 refl (inl refl)))
              (exchanges 0 253 254 refl refl refl))
            (retries 0 253 254 254 refl refl (inl refl)))
          (exchanges 0 254 255 refl refl refl))
        (returns 0 1 (some 254) refl))
      (returns 0 0 (some 253) refl),
  refl,
  refl,
)

-- two more calls, one after the other, for which nothing is left; the first reads an old value
drained : (s : System Byte) × Reach first s × (length s.log ≡ 4)
unfolding increment Uint.checked_add raced
drained = (
  _,
  later 1
      (later 1
        (later 1
          (later 0
            (later 0
              (later 0 (later 0 raced.1 (loads 254 refl (inr (Memᴰ.head refl))))
                (retries 2 254 255 255 refl refl (inl refl)))
              (gives_up 2 255 refl refl))
            (returns 2 2 none refl))
          (loads 255 refl (inl refl)))
        (gives_up 3 255 refl refl))
      (returns 3 3 none refl),
  refl,
)

abbrev late : Call Byte
late = record { began = 3; ended = 3; turn = 3; result = exhausted }

abbrev failed : Call Byte
failed = record { began = 2; ended = 2; turn = 2; result = exhausted }

log-nth_call_example :
    (raced.0.allocator ≡ after_calls 2 first)
    × ((c : Call Byte) → Memᴰ c raced.0.log → (c.turn < 2) × (c.result ≡ nth_call c.turn first))
    × ((c d : Call Byte)
        → Memᴰ c raced.0.log
        → Memᴰ d raced.0.log
        → (d.ended < c.began → d.turn < c.turn) × (c.turn ≡ d.turn → c ≡ d))
    × ((n : ℕ) → n < 2 → HasTurn raced.0 n)
unfolding raced
log-nth_call_example = log-nth_call first (omega arith) raced.1

handed_out_once_example :
    ((k : Byte) → IsGiven raced.0 k ↔ ((253 ≤ k.0) × (k.0 < 255)))
    × ((c d : Call Byte) (k l : Byte)
        → Memᴰ c raced.0.log
        → Memᴰ d raced.0.log
        → c.result ≡ allocated k
        → d.result ≡ allocated l
        → (d.ended < c.began → l.0 < k.0) × (k ≡ l → c ≡ d))
unfolding raced
handed_out_once_example = handed_out_once (primint_id-IsLawful u8) first (omega arith) raced.1

largest_not_handed_out_example : ¬ Memᴰ (allocated b255) (results drained.0)
unfolding drained
largest_not_handed_out_example =
    largest_not_handed_out (primint_id-IsLawful u8) first b255 (omega arith) drained.1 refl

errors_fused_example : late.result ≡ exhausted
unfolding word? raced drained
errors_fused_example =
    errors_fused ⦃k = primint_contiguous u8⦄ (primint_id-IsLawful u8) (primint-IsContiguous u8)
      first {s = drained.0} late failed (omega arith) (omega arith) drained.1 (Memᴰ.head refl)
      (Memᴰ.tail (Memᴰ.head refl)) refl (omega arith)

approx_max_used_id_lem_example :
    (m : Byte) × (approx_max_used_id 255 ≡ some m)
    × IsGiven raced.0 m
    × (◌≡◌ {A = ℕ} 255 255 → (l : Byte) → IsGiven raced.0 l → l.0 ≤ m.0)
unfolding raced
approx_max_used_id_lem_example =
    approx_max_used_id_lem ⦃d = primint_contiguous u8⦄ (primint_id-IsLawful u8)
      (primint-IsContiguous u8) first {s = raced.0} 255 b255 (omega arith) (omega arith) raced.1
      (inl refl) (omega arith) ((primint_id-IsLawful u8).checked-to_int b255)

-- 252 is below the start, and no call has handed it out
before_any : (k : Byte) × (approx_max_used_id first.next_id ≡ some k) × (k.0 ≡ 252)
unfolding approx_max_used_id Id.checked_sub Uint.checked_sub word?
before_any = (_, refl, refl)

-- the third call would give the id 255
nth_call-nth_alloc_example :
    (256 < 256 → nth_call 2 first ≡ nth_alloc 2 (Unique.with_start b253))
    × (256 ≤ 256 → nth_call 2 first ≡ exhausted)
nth_call-nth_alloc_example =
    nth_call-nth_alloc ⦃c = primint_contiguous u8⦄ (primint_id-IsLawful u8)
      (primint-IsContiguous u8) b253 2
