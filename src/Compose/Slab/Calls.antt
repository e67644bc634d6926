-- ===== src/Compose/Slab/Calls.antt =====
-- A slab: what its two calls do in every state that calls can reach.
use idmap_rs.Common.{
  ◌+◌, ◌*◌, ◌≤◌, ◌≡◌, ◌⊎◌, refl, sym, ap, ◌∙◌, inl, inr, none, some, Option, arith, filled,
  Option-cases,
}
use idmap_rs.Run.{ok, Platform, >>=-eq_ok, of_ok}
use idmap_rs.Intid.Id.{IntegerId, IsLawful, ContiguousIntegerId, IsContiguous, IntegerIdCounter}
use idmap_rs.Intid.Uint.{to_usize_checked}
use idmap_rs.Alloc.{allocated, exhausted}
use idmap_rs.Alloc.Reusing
use idmap_rs.Alloc.Reusing.Heap.{count}
use idmap_rs.Alloc.Reusing.System.{Reach-Inv}
use idmap_rs.Alloc.Unique.Bound.{top}
use idmap_rs.Direct.Map.Invariant.{IsValid}
use idmap_rs.Direct.Map.Returns.{remove-IsUpdated}
use native.Mathlib.Decide.{dec_le}
use idmap_rs.Alloc.Reusing.Least.{try_alloc_least, try_alloc_exhausted}
use idmap_rs.Alloc.Reusing.Dense.{try_alloc_dense}
use idmap_rs.Direct.{index_of}
use idmap_rs.Direct.Map
use idmap_rs.Direct.Map.{DirectIdMap, get}
use idmap_rs.Direct.Map.Lookup.{update, insert_lem}
use idmap_rs.Direct.Map.Refine.{HasRoom-of_small}
use idmap_rs.Compose.Slab.{Slab, Added, add, take, Reach, later, takes}
use idmap_rs.Compose.Slab.Ids.{AllocResult-cases}
use idmap_rs.Compose.Slab.Live.{
  Reach-IsLive, add-exhausted, add-allocated, take-absent, take-present,
}

-- the id `k` is new, and has the value `v`
pub record IsAdded {T V : Type 0} ⦃p : Platform⦄ ⦃id : IntegerId T⦄ ⦃c : IntegerIdCounter T⦄
    (s : Slab T V) (v : V) (k : T) (a : Added T V) : Type 0 where
  pub id_of : a.id ≡ allocated k
  pub unused : get s.map k ≡ none
  pub nothing_lost : a.old ≡ none
  pub reads : get a.slab.map ≡ update (get s.map) k (some v)
  pub len : a.slab.map.len ≡ s.map.len + 1
  pub dense : id.to_int k ≤ id.to_int c.start + s.map.len

module _ {T V : Type 0} ⦃p : Platform⦄ ⦃id : IntegerId T⦄ ⦃d : ContiguousIntegerId T⦄
    ⦃c : IntegerIdCounter T⦄ (lawful : IsLawful id) (contiguous : IsContiguous id d) where
  -- a value that `take` has returned was that of the id
  take-removed :
      (s t : Slab T V) (k : T) (v : V)
      → IsValid s.map
      → take s k ≡ ok (some v, t)
      → (get s.map k ≡ some v) × (get t.map k ≡ none)
  unfolding take
  take-removed s t k v valid e =
      let (r, done, _) = >>=-eq_ok (Map.remove s.map k) _ e in
      let u = remove-IsUpdated s.map k r valid done in
      elim (Option-cases r.0) [
        | inl absent ↦
            let run = take-absent lawful contiguous s k r done absent in
            let same = ap (λ (x : Option V × Slab T V). x.0) (of_ok (sym run ∙ e)) in absurd (cc)
        | inr (w, was) ↦
            let run = take-present lawful contiguous s k w r done was in
            let same = of_ok (sym run ∙ e) in
            let value = ap (λ (x : Option V × Slab T V). x.0) same in
            let after = ap (λ (x : Option V × Slab T V). get x.1.map k) same in
            let cleared = ap (λ (f : T → Option V). f k) u.updated in
            (cc, ground (arith, after, cleared))
      ]

  add-IsAdded :
      (s : Slab T V) (v : V) (k : T)
      → Reach s
      → 2 * (id.to_int c.start + s.map.len + 1) ≤ p.vec_cap
      → (Reusing.try_alloc s.allocator).0 ≡ allocated k
      → (a : Added T V) × (add s v ≡ ok a) × IsAdded s v k a
  unfolding index_of to_usize_checked
  add-IsAdded s v k reached small e =
      let (held, live) = Reach-IsLive lawful contiguous reached in
      let n = id.to_int k in
      let low : n ≤ id.to_int c.start + s.map.len =
        rw live.size (try_alloc_dense lawful contiguous live.calls e) in
      let at : index_of k ≡ some n = ground (arith, p.vec_cap_small) in
      let room = HasRoom-of_small s.map n live.valid (omega arith) in
      let (r, done, u) = insert_lem s.map k v live.valid at room in
      let (_, fresh, _) = try_alloc_least lawful contiguous live.calls e in
      let absent : get s.map k ≡ none = elim (Option-cases (get s.map k)) [
        | inl gone ↦ gone
        | inr (w, there) ↦ absurd (omega (arith, fresh, live.keys k, ap filled there))
      ] in
      (
        record {
          id = allocated k;
          old = r.0;
          slab = record { allocator = (Reusing.try_alloc s.allocator).1; map = r.1 };
        },
        add-allocated lawful contiguous s k v e ∙ rw done refl,
        record {
          id_of = refl;
          unused = absent;
          nothing_lost = u.previous ∙ absent;
          reads = u.updated;
          len = ground (arith, u.len, absent);
          dense = low;
        },
      )

  -- For a lawful and contiguous id type, and any sequence of additions and removals of entries that
  -- has returned: if the map has fewer entries than half of the longest vector has room for beyond
  -- `START`, then `try_alloc` followed by `insert` of what it returns neither panics nor loses an
  -- entry. Either no id is left and nothing changes, or the entry has an id that had no value, at
  -- most the number of entries above `START`, and the map reads as before but for that id.
  pub add_lem :
      (s : Slab T V) (v : V)
      → Reach s
      → 2 * (id.to_int c.start + s.map.len + 1) ≤ p.vec_cap
      → (add s v ≡ ok (record { id = exhausted; old = none; slab = s }))
        ⊎ ((k : T) × (a : Added T V) × (add s v ≡ ok a) × IsAdded s v k a)
  add_lem s v reached small = elim (AllocResult-cases (Reusing.try_alloc s.allocator).0) [
    | inl over ↦ inl (add-exhausted lawful contiguous s v over)
    | inr (k, fresh) ↦
        let (a, done, added) = add-IsAdded s v k reached small fresh in inr (k, a, done, added)
  ]

  -- For a lawful and contiguous id type, in every state that additions and removals reach: when
  -- `remove` returns a value for an id, which is then freed, the map no longer has a value for the
  -- id, and the next `try_alloc` is not exhausted but returns an id that is no larger.
  pub take-reused :
      (s t : Slab T V) (k : T) (v : V)
      → Reach s
      → take s k ≡ ok (some v, t)
      → (get t.map k ≡ none)
        × ((j : T) × ((Reusing.try_alloc t.allocator).0 ≡ allocated j)
            × (id.to_int j ≤ id.to_int k))
  take-reused s t k v reached e =
      let (held, live) = Reach-IsLive lawful contiguous reached in
      let (rest, after) = Reach-IsLive lawful contiguous (later reached (takes k (some v) e)) in
      let inv = Reach-Inv lawful contiguous live.calls in
      let n = id.to_int k in
      let (was, gone) = take-removed s t k v live.valid e in
      let mine : count n held ≡ 1 = ground (arith, live.keys k, was) in
      let freed : count n rest ≡ 0 = ground (arith, after.keys k, gone) in
      let low : id.to_int c.start ≤ n = ground (arith, inv.counts n, mine) in
      let high : n ≤ top T = (contiguous.within k).1 in
      (
        gone,
        elim (AllocResult-cases (Reusing.try_alloc t.allocator).0) [
          | inl over ↦ absurd (
              omega (
                arith,
                freed,
                (try_alloc_exhausted lawful contiguous after.calls).0 over n low high,
              ))
          | inr (j, fresh) ↦
              let (_, _, below) = try_alloc_least lawful contiguous after.calls fresh in
              (
                j,
                fresh,
                elim (dec_le (id.to_int j) n) [
                  | yes le ↦ le
                  | no more ↦ absurd (omega (arith, freed, below n low (omega (arith, more))))
                ],
              )
        ],
      )
