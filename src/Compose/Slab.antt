-- ===== src/Compose/Slab.antt =====
-- A slab: a `DirectIdMap` (src/direct/map.rs) whose keys come from an `IdAllocator`
-- (crates/intid-alloactor/src/reusing.rs). Its two calls are a client's; what they call is the code.
pub mod Ids
pub mod Live
pub mod Calls
use idmap_rs.Common.{◌≡◌, Option, none, some}
use idmap_rs.Run.{Run, ok, ◌>>=◌, Platform}
use idmap_rs.Intid.Id.{IntegerId, IntegerIdCounter}
use idmap_rs.Alloc.{AllocResult, allocated, exhausted}
use idmap_rs.Alloc.Reusing
use idmap_rs.Alloc.Reusing.{IdAllocator}
use idmap_rs.Direct.Map
use idmap_rs.Direct.Map.{DirectIdMap}

pub record Slab (T V : Type 0) : Type 0 where
  pub allocator : IdAllocator T
  pub map : DirectIdMap T V

-- the id of a new entry, the value that it has replaced, and the slab after the call
pub record Added (T V : Type 0) : Type 0 where
  pub id : AllocResult T
  pub old : Option V
  pub slab : Slab T V

module _ {T V : Type 0} ⦃p : Platform⦄ ⦃id : IntegerId T⦄ ⦃c : IntegerIdCounter T⦄ where
  abbrev pub new : Slab T V
  new = record { allocator = Reusing.new; map = Map.new }

  -- a new id, and its value
  unfoldable pub add : Slab T V → V → Run (Added T V)
  add s v = elim (Reusing.try_alloc s.allocator).0 [
    | exhausted ↦ ok (record {
      id = exhausted;
      old = none;
      slab = record s { allocator = (Reusing.try_alloc s.allocator).1 };
    })
    | allocated k ↦ Map.insert s.map k v >>= λ r. ok (record {
      id = allocated k;
      old = r.0;
      slab = record { allocator = (Reusing.try_alloc s.allocator).1; map = r.1 };
    })
  ]

  -- the entry is taken out, and its id freed if there was one
  unfoldable pub take : Slab T V → T → Run (Option V × Slab T V)
  take s k = Map.remove s.map k >>= λ r. elim r.0 [
    | none ↦ ok (none, record s { map = r.1 })
    | some v ↦ ok (some v, record { allocator = Reusing.free s.allocator k; map = r.1 })
  ]

-- a call that has returned
pub data Step {T V : Type 0} ⦃p : Platform⦄ ⦃id : IntegerId T⦄ ⦃c : IntegerIdCounter T⦄
    (s : Slab T V) : Slab T V → Type 0 where
  adds : (v : V) (a : Added T V) {t : Slab T V} → add s v ≡ ok a → a.slab ≡ t → Step s t
  takes : (k : T) (old : Option V) {t : Slab T V} → take s k ≡ ok (old, t) → Step s t

pub data Reach {T V : Type 0} ⦃p : Platform⦄ ⦃id : IntegerId T⦄ ⦃c : IntegerIdCounter T⦄
    : Slab T V → Type 0 where
  start : Reach new
  later : {s t : Slab T V} → Reach s → Step s t → Reach t
