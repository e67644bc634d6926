-- ===== src/Tests/Slabs.antt =====
-- A map whose keys come from an allocator, at concrete inputs.
use idmap_rs.Common.{ℕ, ◌≤◌, ◌≡◌, ◌⊎◌, refl, none, some, arith}
use idmap_rs.Run.{ok}
use idmap_rs.Intid.Uint
use idmap_rs.Alloc.{allocated, exhausted}
use idmap_rs.Alloc.Reusing.{try_alloc}
use idmap_rs.Direct.{index_or_oom}
use idmap_rs.Direct.Map
use idmap_rs.Direct.Map.{get}
use idmap_rs.Compose.Slab.{Slab, Added, add, take, Reach, start, later, adds}
use idmap_rs.Compose.Slab.Calls.{IsAdded, add_lem, take-reused}
use idmap_rs.Tests.Setup.{x86_64, U32, u32_id, u32_contiguous, u32_counter, lawful, contiguous}

-- one entry, at the id 0
occupied_slab : (s : Slab U32 ℕ) × Reach s × (s.map.len ≡ 1)
unfolding add try_alloc Map.insert index_or_oom Uint.to_usize_checked
occupied_slab = (_, later start (adds 70 _ refl refl), refl)

add_lem_example :
    (add occupied_slab.0 71 ≡ ok (record { id = exhausted; old = none; slab = occupied_slab.0 }))
    ⊎ ((k : U32) × (a : Added U32 ℕ) × (add occupied_slab.0 71 ≡ ok a)
        × IsAdded occupied_slab.0 71 k a)
unfolding occupied_slab
add_lem_example = add_lem lawful contiguous occupied_slab.0 71 occupied_slab.1 (omega arith)

-- the entry is taken out again
emptied_slab : (t : Slab U32 ℕ) × (take occupied_slab.0 u32_counter.start ≡ ok (some 70, t))
unfolding occupied_slab take Map.remove Map.get index_or_oom Uint.to_usize_checked
emptied_slab = (_, refl)

take-reused_example :
    (get emptied_slab.0.map u32_counter.start ≡ none)
    × ((j : U32) × ((try_alloc emptied_slab.0.allocator).0 ≡ allocated j) × (j.0 ≤ 0))
take-reused_example =
    take-reused lawful contiguous occupied_slab.0 emptied_slab.0 u32_counter.start 70
      occupied_slab.1 emptied_slab.1
