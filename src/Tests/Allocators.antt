-- ===== src/Tests/Allocators.antt =====
-- crates/intid-alloactor at concrete inputs.
use Prim.Native.Nat.{ℕ, ◌+◌, ◌<◌, ◌≤◌}
use idmap_rs.Common.{some, none, ◌≡◌, ◌↔◌, refl, [], ◌∷◌, length}
use idmap_rs.Intid.Impls.{word?}
use idmap_rs.Intid.Id
use idmap_rs.Intid.Uint
use idmap_rs.Alloc.{allocated, exhausted}
use idmap_rs.Alloc.Unique.{with_start, nth_alloc, max_used_id, after}
use idmap_rs.Alloc.Unique.Counting.{nth_alloc-with_start, max_used_id_lem}
use idmap_rs.Alloc.Reusing.{try_alloc, free}
use idmap_rs.Alloc.Reusing.Heap.{count, count_heap}
use idmap_rs.Alloc.Reusing.System.{System, Reach, start, later, takes, gives_back}
use idmap_rs.Alloc.Reusing.Dense.{try_alloc_dense}
use idmap_rs.Alloc.Reusing.Least.{try_alloc-reachable}
use idmap_rs.Tests.Setup.{x86_64, U32, u32_id, u32_contiguous, u32_counter, lawful, contiguous, one}

nth_alloc-with_start_example :
    (3 ≤ 0xffff_ffff → (k : U32) × (nth_alloc 2 (with_start one) ≡ allocated k) × (k.0 ≡ 3))
    × (0xffff_ffff < 3 → nth_alloc 2 (with_start one) ≡ exhausted)
nth_alloc-with_start_example = nth_alloc-with_start lawful contiguous one 2

max_used_id_lem_example :
    (3 ≤ 0xffff_ffff
      → (k : U32) × (max_used_id (after 2 (with_start one)) ≡ some k)
        × (nth_alloc 1 (with_start one) ≡ allocated k))
    × (◌≡◌ {A = ℕ} 2 0xffff_ffff → max_used_id (after 2 (with_start one)) ≡ none)
max_used_id_lem_example = max_used_id_lem lawful contiguous one 1

-- 0 and 1 are taken, and 0 is given back
reused : (s : System U32) × Reach s × ((try_alloc s.allocator).0 ≡ allocated u32_counter.start)
unfolding try_alloc free Id.checked_add Uint.checked_add word?
reused = (
  _,
  later (later (later start (takes refl)) (takes refl))
      (gives_back u32_counter.start (_ ∷ []) [] refl),
  refl,
)

try_alloc-reachable_example :
    ((k : U32)
      → (try_alloc reused.0.allocator).0 ≡ allocated k
      → (0 ≤ k.0)
        × (count k.0 reused.0.held ≡ 0)
        × ((n : ℕ) → 0 ≤ n → n < k.0 → count n reused.0.held ≡ 1))
    × (((try_alloc reused.0.allocator).0 ≡ exhausted)
        ↔ ((n : ℕ) → 0 ≤ n → n ≤ 0xffff_ffff → count n reused.0.held ≡ 1))
    × ((n : ℕ) → count n reused.0.held + count_heap n reused.0.allocator.heap ≤ 1)
try_alloc-reachable_example = try_alloc-reachable lawful contiguous reused.1

try_alloc_dense_example : 0 ≤ 0 + length reused.0.held
try_alloc_dense_example = try_alloc_dense lawful contiguous reused.1 reused.2
