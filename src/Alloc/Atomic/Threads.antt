-- ===== src/Alloc/Atomic/Threads.antt =====
-- crates/intid-alloactor/src/unique/atomic.rs: any number of threads in `try_alloc` of one allocator,
-- a shared access at a time, and the return of the call as a step of its own. All of the accesses are
-- to one location, whose values have one order. A compare-and-exchange that succeeds is of the latest
-- value; a load, and a compare-and-exchange that fails, are relaxed and may give any value that the
-- counter has had. `fetch_update` of the crate atomic is taken by its documentation: it reads the
-- value, applies the function to it, and stores the result if the value is still the one that was
-- read; if not, it goes on from the value that it finds.
use mathlib.Core.List.{Memᴰ}
use idmap_rs.Common.{
  ℕ, suc, ◌≡◌, ◌⊎◌, Option, none, some, List, [], ◌∷◌, length, ◌==◌, if◌then◌else◌,
}
use idmap_rs.Run.{Platform}
use idmap_rs.Intid.Id.{IntegerId}
use idmap_rs.Alloc.{AllocResult}
use idmap_rs.Alloc.Atomic.{UniqueIdAllocatorAtomic, increment, of_fetched}

-- Where a thread stands: outside of `try_alloc`; in the loop of `fetch_update`, with the value that
-- it has read; or after `fetch_update`, with what that returned in hand. The numbers `began` and
-- `turn` are not in the program: they record how many calls had returned when this one began, and
-- how many calls of `fetch_update` had taken effect before that of this one.
pub data Pc : Type 0 where
  idle : Pc
  trying : (began found : ℕ) → Pc
  fetched : (began turn : ℕ) (outcome : Option ℕ) → Pc

-- a call that has returned: how many calls had returned before it began and before it ended, how
-- many had taken effect before it did, and its result
pub record Call (T : Type 0) : Type 0 where
  pub began : ℕ
  pub ended : ℕ
  pub turn : ℕ
  pub result : AllocResult T

-- `past`, `turns` and `log` are a record of what has happened, which no step reads except for the
-- values that a relaxed access may still give.
pub record System (T : Type 0) : Type 0 where
  pub allocator : UniqueIdAllocatorAtomic T
  pub past : List ℕ  -- the values that the counter has had before
  pub pc : ℕ → Pc
  pub turns : ℕ  -- how many calls of `fetch_update` have taken effect
  pub log : List (Call T)  -- the calls that have returned, the latest first

-- the counter has the value, or has had it
abbrev pub HasHeld : {T : Type 0} → System T → ℕ → Type 0
HasHeld s x = (x ≡ s.allocator.next_id) ⊎ Memᴰ x s.past

abbrev pub move_to : (ℕ → Pc) → ℕ → Pc → ℕ → Pc
move_to pc i new j = if i == j then new else pc j

-- `fetch_update` has taken effect, and the thread holds what it returned
abbrev pub take_turn : {T : Type 0} → System T → ℕ → ℕ → Option ℕ → System T
take_turn s i b outcome = record s {
  pc = move_to s.pc i (Pc.fetched b s.turns outcome);
  turns = suc s.turns;
}

-- A step of thread `i`. The compare-and-exchange is the weak one, which may fail for no reason.
pub data Step {T : Type 0} ⦃p : Platform⦄ ⦃id : IntegerId T⦄ (s : System T) (i : ℕ)
    : System T → Type 0 where
  loads :
      (x : ℕ)
      → s.pc i ≡ Pc.idle
      → HasHeld s x
      → Step s i (record s { pc = move_to s.pc i (Pc.trying (length s.log) x) })
  exchanges :
      (b x y : ℕ)
      → s.pc i ≡ Pc.trying b x
      → increment id.int x ≡ some y
      → s.allocator.next_id ≡ x
      → Step s i (record (take_turn s i b (some x)) {
        allocator = record { next_id = y };
        past = x ∷ s.past;
      })
  retries :
      (b x y z : ℕ)
      → s.pc i ≡ Pc.trying b x
      → increment id.int x ≡ some y
      → HasHeld s z
      → Step s i (record s { pc = move_to s.pc i (Pc.trying b z) })
  gives_up :
      (b x : ℕ)
      → s.pc i ≡ Pc.trying b x
      → increment id.int x ≡ none
      → Step s i (take_turn s i b none)
  returns :
      (b n : ℕ) (outcome : Option ℕ)
      → s.pc i ≡ Pc.fetched b n outcome
      → Step s i (record s {
        pc = move_to s.pc i Pc.idle;
        log =
            (record { began = b; ended = length s.log; turn = n; result = of_fetched outcome })
            ∷ s.log;
      })

-- from an allocator that no thread has used yet
pub data Reach {T : Type 0} ⦃p : Platform⦄ ⦃id : IntegerId T⦄ (first : UniqueIdAllocatorAtomic T)
    : System T → Type 0 where
  start :
      Reach first (record { allocator = first; past = []; pc = λ _. Pc.idle; turns = 0; log = [] })
  later : {s t : System T} (i : ℕ) → Reach first s → Step s i t → Reach first t
