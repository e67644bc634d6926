-- ===== src/Compose/Slab/Live.antt =====
-- A slab: the ids that are held of its allocator are those of its entries.
use idmap_rs.Common.{
  ◌≡◌, refl, sym, ap, ◌∙◌, inl, inr, none, some, Option, List, [], ◌∷◌, ◌++◌, arith, length, filled,
  Option-cases, length-append,
}
use idmap_rs.Run.{ok, ◌>>=◌, Platform, >>=-eq_ok, of_ok}
use idmap_rs.Intid.Id.{
  IntegerId, IsLawful, ContiguousIntegerId, IsContiguous, IntegerIdCounter, to_int-injective,
}
use idmap_rs.Alloc.{allocated, exhausted}
use idmap_rs.Alloc.Reusing
use idmap_rs.Alloc.Reusing.{IdAllocator, reverse_cmp, pop}
use idmap_rs.Alloc.Reusing.Heap.{count, count-append}
use idmap_rs.Alloc.Reusing.System
use idmap_rs.Alloc.Reusing.System.{try_alloc-reused, try_alloc-fresh}
use idmap_rs.Alloc.Reusing.Least.{try_alloc_least}
use idmap_rs.Direct.Map
use idmap_rs.Direct.Map.{DirectIdMap, get}
use idmap_rs.Direct.Map.Invariant.{IsValid, new-IsValid}
use idmap_rs.Direct.Map.Methods.{get-new}
use idmap_rs.Direct.Map.Returns.{insert-IsUpdated, remove-IsUpdated}
use idmap_rs.Compose.Slab.{Slab, Added, new, add, take, adds, takes, Reach, start, later}
use idmap_rs.Compose.Slab.Ids.{split_of_count, AllocResult-cases, try_alloc_unchanged}

-- `held` are the ids of the entries
pub record IsLive {T V : Type 0} ⦃p : Platform⦄ ⦃id : IntegerId T⦄ ⦃c : IntegerIdCounter T⦄
    (s : Slab T V) (held : List T) : Type 0 where
  pub calls : System.Reach (record { allocator = s.allocator; held = held })
  pub valid : IsValid s.map
  pub keys : (k : T) → count (id.to_int k) held ≡ filled (get s.map k)
  pub size : s.map.len ≡ length held

module _ {T V : Type 0} ⦃p : Platform⦄ ⦃id : IntegerId T⦄ ⦃d : ContiguousIntegerId T⦄
    ⦃c : IntegerIdCounter T⦄ (lawful : IsLawful id) (contiguous : IsContiguous id d) where
  IsLive-new : IsLive {T = T} {V = V} new []
  unfolding count
  IsLive-new = record {
    calls = System.Reach.start;
    valid = new-IsValid;
    keys = λ k. ap (λ (f : T → Option V). filled (f k)) (sym get-new);
    size = refl;
  }

  -- an entry with an id that was not held
  IsLive-insert :
      (s : Slab T V) (held : List T) (k : T) (v : V) (r : Option V × DirectIdMap T V)
      → IsLive s held
      → (Reusing.try_alloc s.allocator).0 ≡ allocated k
      → Map.insert s.map k v ≡ ok r
      → IsLive (record { allocator = (Reusing.try_alloc s.allocator).1; map = r.1 }) (k ∷ held)
  unfolding count
  IsLive-insert s held k v r live e done =
      let u = insert-IsUpdated s.map k v r live.valid done in
      let (_, fresh, _) = try_alloc_least lawful contiguous live.calls e in
      record {
        calls = System.Reach.later live.calls (System.Step.takes e);
        valid = u.valid;
        keys = λ j. ground (arith, live.keys j, ap (λ (f : T → Option V). f j) u.updated);
        size = ground (arith, live.keys k, u.len, live.size);
      }

  IsLive-keep :
      (s : Slab T V) (held : List T) (k : T) (r : Option V × DirectIdMap T V)
      → IsLive s held
      → Map.remove s.map k ≡ ok r
      → r.0 ≡ none
      → IsLive (record s { map = r.1 }) held
  IsLive-keep s held k r live done e =
      let u = remove-IsUpdated s.map k r live.valid done in
      record {
        calls = live.calls;
        valid = u.valid;
        keys = λ j.
            ground (
              arith,
              live.keys j,
              live.keys k,
              u.previous,
              ap (λ (f : T → Option V). f j) u.updated,
            );
        size = ground (arith, u.previous, u.len, live.size);
      }

  IsLive-remove :
      (s : Slab T V) (held before behind : List T) (k : T) (v : V) (r : Option V × DirectIdMap T V)
      → IsLive s held
      → Map.remove s.map k ≡ ok r
      → r.0 ≡ some v
      → held ≡ before ++ k ∷ behind
      → IsLive (record { allocator = Reusing.free s.allocator k; map = r.1 }) (before ++ behind)
  unfolding count
  IsLive-remove s held before behind k v r live done e split =
      let u = remove-IsUpdated s.map k r live.valid done in
      record {
        calls = System.Reach.later live.calls (System.Step.gives_back k before behind split);
        valid = u.valid;
        keys = λ j. ground (
          arith,
          live.keys j,
          live.keys k,
          u.previous,
          ap (λ (f : T → Option V). f j) u.updated,
          ap (count (id.to_int j)) split,
          count-append (id.to_int j) before (k ∷ behind),
          count-append (id.to_int j) before behind,
        );
        size = ground (
          arith,
          u.previous,
          u.len,
          live.size,
          ap length split,
          length-append before (k ∷ behind),
          length-append before behind,
        );
      }

  -- what `add` returns, by what the allocator does
  pub add-exhausted :
      (s : Slab T V) (v : V)
      → (Reusing.try_alloc s.allocator).0 ≡ exhausted
      → add s v ≡ ok (record { id = exhausted; old = none; slab = s })
  unfolding add
  add-exhausted s v e =
      rw (e, add)
        (ap (λ a. ok (record { id = exhausted; old = none; slab = record s { allocator = a } }))
          (try_alloc_unchanged lawful contiguous s.allocator e))

  pub add-allocated :
      (s : Slab T V) (k : T) (v : V)
      → (Reusing.try_alloc s.allocator).0 ≡ allocated k
      → add s v ≡ (
          Map.insert s.map k v >>= λ r. ok (record {
            id = allocated k;
            old = r.0;
            slab = record { allocator = (Reusing.try_alloc s.allocator).1; map = r.1 };
          }))
  unfolding add
  add-allocated s k v e = rw (e, add) refl

  add-IsLive :
      (s : Slab T V) (held : List T) (v : V) (a : Added T V)
      → IsLive s held
      → add s v ≡ ok a
      → (held' : List T) × IsLive a.slab held'
  add-IsLive s held v a live e = elim (AllocResult-cases (Reusing.try_alloc s.allocator).0) [
    | inl over ↦
        let same : s ≡ a.slab =
          ap (λ (x : Added T V). x.slab) (of_ok (sym (add-exhausted s v over) ∙ e)) in
        (held, rw same at live)
    | inr (k, fresh) ↦
        let (r, done, e') =
          >>=-eq_ok (Map.insert s.map k v) _ (sym (add-allocated s k v fresh) ∙ e) in
        let same = ap (λ (x : Added T V). x.slab) (of_ok e') in
        (k ∷ held, rw same at (IsLive-insert s held k v r live fresh done))
  ]

  -- what `take` returns, by what the map held
  pub take-absent :
      (s : Slab T V) (k : T) (r : Option V × DirectIdMap T V)
      → Map.remove s.map k ≡ ok r
      → r.0 ≡ none
      → take s k ≡ ok (none, record s { map = r.1 })
  unfolding take
  take-absent s k r done e = rw (done, e) refl

  pub take-present :
      (s : Slab T V) (k : T) (v : V) (r : Option V × DirectIdMap T V)
      → Map.remove s.map k ≡ ok r
      → r.0 ≡ some v
      → take s k ≡ ok (some v, record { allocator = Reusing.free s.allocator k; map = r.1 })
  unfolding take
  take-present s k v r done e = rw (done, e) refl

  take-IsLive :
      (s : Slab T V) (held : List T) (k : T) (old : Option V) (t : Slab T V)
      → IsLive s held
      → take s k ≡ ok (old, t)
      → (held' : List T) × IsLive t held'
  unfolding take
  take-IsLive s held k old t live e =
      let (r, done, _) = >>=-eq_ok (Map.remove s.map k) _ e in
      let u = remove-IsUpdated s.map k r live.valid done in
      elim (Option-cases r.0) [
        | inl absent ↦
            let same =
              ap (λ (x : Option V × Slab T V). x.1)
                (of_ok (sym (take-absent s k r done absent) ∙ e)) in
            (held, rw same at (IsLive-keep s held k r live done absent))
        | inr (v, was) ↦
            let same =
              ap (λ (x : Option V × Slab T V). x.1)
                (of_ok (sym (take-present s k v r done was) ∙ e)) in
            let counted : count (id.to_int k) held ≡ 1 = ground (arith, live.keys k, u.previous) in
            let (j, before, behind, split, at) =
              split_of_count (id.to_int k) held (omega (arith, counted)) in
            let j_is_k = to_int-injective lawful j k at in
            let split' : held ≡ before ++ k ∷ behind =
              split ∙ ap (λ x. before ++ x ∷ behind) j_is_k in
            (
              before ++ behind,
              rw same at (IsLive-remove s held before behind k v r live done was split'),
            )
      ]

  pub Reach-IsLive : {s : Slab T V} → Reach s → (held : List T) × IsLive s held
  Reach-IsLive start = ([], IsLive-new)
  Reach-IsLive (later {s} r (adds v a e same)) =
      let (held, live) = Reach-IsLive r in rw same at (add-IsLive s held v a live e)
  Reach-IsLive (later {s} {t} r (takes k old e)) =
      let (held, live) = Reach-IsLive r in take-IsLive s held k old t live e
