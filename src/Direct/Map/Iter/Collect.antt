-- ===== src/Direct/Map/Iter/Collect.antt =====
-- src/direct/map.rs: a whole iteration over a map, and the promise of `size_hint`.
use mathlib.Core.List.{Memᴰ}
use idmap_rs.Common.{
  ℕ, zero, suc, ◌+◌, ◌<◌, ◌≡◌, refl, sym, ◌↔◌, some, List, [], ◌∷◌, ◌++◌, arith, length, map,
  length-append,
}
use idmap_rs.Run.{ok, Platform}
use idmap_rs.Intid.Id.{IntegerId, IsLawful}
use idmap_rs.Direct.Map.{DirectIdMap, get}
use idmap_rs.Direct.Map.Invariant.{IsValid}
use idmap_rs.Direct.Map.Iter.{Iter, iter, next_back, size_hint, collect_loop, collect}
use idmap_rs.Direct.Map.Iter.Entries.{
  IsAscending, IsEntries-IsAscending, length-IsEntries, EntriesOf, EntriesOf-exist, mem-EntriesOf,
}
use idmap_rs.Direct.Map.Iter.Deque.{Remains, next-cons, next-nil, next_back-snoc}

module _ {K V : Type 0} ⦃p : Platform⦄ ⦃id : IntegerId K⦄ where
  -- the count is that of the pairs left
  abbrev pub IsExact : Iter K V → List (K × V) → Type 0
  IsExact it l = Remains it l × (it.len ≡ length l)

  -- an iterator over a valid map has the pairs of the map left, and counts them
  pub iter-IsExact :
      (self : DirectIdMap K V) (l : List (K × V))
      → IsValid self
      → EntriesOf self l
      → IsExact (iter self) l
  unfolding iter
  iter-IsExact self l h es =
      let count = length-IsEntries 0 self.values l es in
      (
        record { entries = es; enough = omega (arith, h.counted, count) },
        omega (arith, h.counted, count),
      )

-- the items that the macro's expression makes of pairs
abbrev pub items : {K V Item : Type 0} → (K → V → Item) → List (K × V) → List Item
items item l = map (λ e. item e.0 e.1) l

module _ {K V Item : Type 0} ⦃p : Platform⦄ ⦃id : IntegerId K⦄ (lawful : IsLawful id)
    (item : K → V → Item) where
  collect_loop_lem :
      (fuel : ℕ) (it : Iter K V) (l : List (K × V))
      → length it.source.rest < fuel
      → Remains it l
      → collect_loop item fuel it ≡ ok (items item l)
  unfolding collect_loop
  collect_loop_lem zero it l f r = absurd (omega arith)
  collect_loop_lem (suc fuel) it [] f r =
      let (it', run, _, _) = next-nil lawful item it r in rw run refl
  collect_loop_lem (suc fuel) it ((k, v) ∷ l) f r =
      let (it', run, left, one, shorter) = next-cons lawful item it k v l r in
      let later = collect_loop_lem fuel it' l (omega arith) left in rw run (rw later refl)

  pub collect-items :
      (self : DirectIdMap K V) (l : List (K × V))
      → IsValid self
      → EntriesOf self l
      → collect item (iter self) ≡ ok (items item l)
  unfolding collect iter
  collect-items self l h es =
      collect_loop_lem (suc (length self.values)) (iter self) l (omega arith)
        (iter-IsExact self l h es).0

  -- For a lawful id type, iterating over a valid map to the end yields, for each id that `get`
  -- finds and for no other, the id with the value found, in strictly ascending order of the index
  -- and as many as `len` says. No step of it panics or meets an invalid integer.
  pub collect-iter :
      (self : DirectIdMap K V)
      → IsValid self
      → (l : List (K × V)) × (collect item (iter self) ≡ ok (items item l))
        × IsAscending l
        × (length l ≡ self.len)
        × ((k : K) (v : V) → Memᴰ (k, v) l ↔ (get self k ≡ some v))
  unfolding iter
  collect-iter self h =
      let (l, es) = EntriesOf-exist self h in
      (
        l,
        collect-items self l h es,
        IsEntries-IsAscending 0 self.values l es,
        sym (iter-IsExact self l h es).1,
        λ k v. mem-EntriesOf lawful self l k v es,
      )

  -- The count stays as it was when `next_back` returns a pair.
  size_hint-next_back :
      (it : Iter K V) (k : K) (v : V) (l : List (K × V))
      → IsExact it (l ++ (k, v) ∷ [])
      → (it' : Iter K V) × (next_back item it ≡ ok (some (item k v), it'))
        × Remains it' l
        × (size_hint it' ≡ (length l + 1, some (length l + 1)))
  unfolding size_hint
  size_hint-next_back it k v l (r, exact) =
      let (it', run, left, same) = next_back-snoc lawful item it k v l r in
      let count : it'.len ≡ length l + 1 =
        omega (arith, same, exact, length-append l ((k, v) ∷ [])) in
      (it', run, left, rw count refl)
