-- ===== src/Alloc/Atomic/Linear.antt =====
-- crates/intid-alloactor/src/unique/atomic.rs: the calls of several threads, against calls one after
-- another.
pub mod Bounds
pub mod Turns
use mathlib.Core.List.{Memᴰ}
use idmap_rs.Common.{ℕ, ◌<◌, ◌≡◌, List, map}
use idmap_rs.Run.{Platform}
use idmap_rs.Intid.Uint
use idmap_rs.Intid.Uint.{modulus}
use idmap_rs.Intid.Id.{IntegerId}
use idmap_rs.Alloc.{AllocResult}
use idmap_rs.Alloc.Atomic.{UniqueIdAllocatorAtomic, after_calls, nth_call}
use idmap_rs.Alloc.Atomic.Threads.{Call, System, Reach}
use idmap_rs.Alloc.Atomic.Linear.Turns.{HasTurn, Reach-Turns}

module _ {T : Type 0} ⦃p : Platform⦄ ⦃id : IntegerId T⦄ where
  -- the results of the calls that have returned, the latest first
  abbrev pub results : System T → List (AllocResult T)
  results s = map (λ c. c.result) s.log

  -- From any value of the integer type as the start, and whatever the order in which threads take
  -- their steps: the allocator is as after so many calls one after another as there have been turns.
  -- A call that has returned has the result of the one of these with the number of its turn, and no
  -- two have the same turn. A call that begins after another one has returned has the later turn;
  -- nothing is said of the order in which calls that overlap return. Each turn is that of a
  -- call that has returned, or of one that has its result in hand and is about to return.
  pub log-nth_call :
      (first : UniqueIdAllocatorAtomic T) {s : System T}
      → first.next_id < modulus id.int
      → Reach first s
      → (s.allocator ≡ after_calls s.turns first)
        × ((c : Call T) → Memᴰ c s.log → (c.turn < s.turns) × (c.result ≡ nth_call c.turn first))
        × ((c d : Call T)
            → Memᴰ c s.log
            → Memᴰ d s.log
            → (d.ended < c.began → d.turn < c.turn) × (c.turn ≡ d.turn → c ≡ d))
        × ((n : ℕ) → n < s.turns → HasTurn s n)
  log-nth_call first lt reach =
      let h = Reach-Turns first lt reach in
      (
        h.after,
        λ c m. let (_, _, before, result) = h.logged c m in (before, result),
        h.order,
        h.covered,
      )
