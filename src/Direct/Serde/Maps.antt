-- ===== src/Direct/Serde/Maps.antt =====
-- src/direct/serde.rs: what the serialization of a map writes, and that it is read back.
use mathlib.Core.List.Memᴰ
use mathlib.Core.List.{Memᴰ}
use idmap_rs.Common.{
  ℕ, zero, suc, ◌+◌, ◌*◌, ◌<◌, ◌≤◌, ◌≡◌, ◌↔◌, fun_ext, refl, sym, ap, ◌∙◌, ◌==◌, Option, none, some,
  List, [], ◌∷◌, arith, length, inl, inr, Option-cases, Bool-cases, ==_iff,
}
use idmap_rs.Run.{of_ok, ok, Platform}
use idmap_rs.Intid.Id.{IntegerId, IsLawful, to_int-injective}
use idmap_rs.Direct.{index_of}
use idmap_rs.Direct.Map.{DirectIdMap, get}
use idmap_rs.Direct.Map.Invariant.{IsValid}
use idmap_rs.Direct.Map.Lookup.{update}
use idmap_rs.Direct.Map.Refine.{AllSmallKeys, updates, from_iter_lem}
use idmap_rs.Direct.Map.Iter.{Iter, iter}
use idmap_rs.Direct.Map.Iter.Entries.{
  IsAscending, IsEntries, IsEntries-IsAscending, EntriesOf, EntriesOf-exist, mem-EntriesOf,
}
use idmap_rs.Direct.Map.Iter.Sorted.{From-not_Mem}
use idmap_rs.Direct.Map.Iter.Deque.{Remains, next-cons, next-nil}
use idmap_rs.Direct.Map.Iter.Collect.{iter-IsExact}
use idmap_rs.Direct.Serde.{
  good, Serializer, Deserializer, serialize_entries, serialize_map, deserialize_map,
}
use idmap_rs.Direct.Serde.Format.{next_item, around_items, write_items, written, IsFormat}
use idmap_rs.Direct.Serde.Visit.{visit_map-from_iter}

module _ {S E Doc K V : Type 0} ⦃p : Platform⦄ ⦃id : IntegerId K⦄ (lawful : IsLawful id)
    (ser : Serializer S E Doc (K × V)) where
  serialize_entries_lem :
      (fuel : ℕ) (it : Iter K V) (l : List (K × V)) (s : S)
      → length it.source.rest < fuel
      → Remains it l
      → serialize_entries ser fuel it s ≡ ok (write_items ser l s)
  unfolding serialize_entries write_items
  serialize_entries_lem zero it l s f r = absurd (omega arith)
  serialize_entries_lem (suc fuel) it [] s f r =
      let (it', run, _, _) = next-nil {Item = K × V} lawful (λ k v. (k, v)) it r in rw run refl
  serialize_entries_lem (suc fuel) it ((k, v) ∷ l) s f r =
      let (it', run, left, one, shorter) =
        next-cons {Item = K × V} lawful (λ k v. (k, v)) it k v l r in
      rw run (
        next_item ser (ser.item s (k, v)) _ _
          (λ s'. serialize_entries_lem fuel it' l s' (omega arith) left))

  -- For a lawful id type, serializing a valid map ends without a panic; it writes the entries that
  -- `get` finds, in strictly ascending order of the index and announced with their number, and returns
  -- the document or the first error of the serializer.
  pub serialize_map-written :
      (self : DirectIdMap K V)
      → IsValid self
      → (l : List (K × V)) × (serialize_map ser self ≡ ok (written ser l))
        × (EntriesOf self l × (length l ≡ self.len))
        × IsAscending l
        × ((k : K) (v : V) → Memᴰ (k, v) l ↔ (get self k ≡ some v))
  unfolding serialize_map written iter
  serialize_map-written self h =
      let (l, es) = EntriesOf-exist self h in
      let (r, count) = iter-IsExact self l h es in
      (
        l,
        around_items ser self.len l _ count
            (λ s. serialize_entries_lem (suc (length self.values)) (iter self) l s (omega arith) r),
        (es, sym count),
        IsEntries-IsAscending 0 self.values l es,
        λ k v. mem-EntriesOf lawful self l k v es,
      )

module _ {K V : Type 0} ⦃p : Platform⦄ ⦃id : IntegerId K⦄ where
  updates-absent :
      (l : List (K × V)) (f : K → Option V) (k : K)
      → IsLawful id
      → ((v : V) → ¬ Memᴰ (k, v) l)
      → updates l f k ≡ f k
  unfolding updates
  updates-absent [] f k lawful h = refl
  updates-absent ((k', v) ∷ l) f k lawful h =
      updates-absent l (update f k' (some v)) k lawful (λ w m. h w (Memᴰ.tail m))
      ∙ elim (Bool-cases (id.to_int k' == id.to_int k)) [
        | inl same ↦
            let is : k ≡ k' =
              sym (to_int-injective lawful k' k ((==_iff (id.to_int k') (id.to_int k)).0 same)) in
            absurd (h v (Memᴰ.head (ap (λ x. (x, v)) is)))
        | inr other ↦ rw other refl
      ]

  updates-present :
      (l : List (K × V)) (f : K → Option V) (k : K) (v : V)
      → IsLawful id
      → IsAscending l
      → Memᴰ (k, v) l
      → updates l f k ≡ some v
  unfolding updates
  updates-present [] f k v lawful up m = absurd (Memᴰ.not-nil m)
  updates-present ((k', w) ∷ l) f k v lawful ((n, at, from), up) m = elim (Memᴰ.cases_cons m) [
    | inl e ↦
        let key : k ≡ k' = ap (λ (x : K × V). x.0) e in
        let value : v ≡ w = ap (λ (x : K × V). x.1) e in
        let at' : index_of k ≡ some n = ap index_of key ∙ at in
        updates-absent l (update f k' (some w)) k lawful (λ u. From-not_Mem n l k u at' from)
        ∙ ground (arith, key, value)
    | inr later ↦ updates-present l (update f k' (some w)) k v lawful up later
  ]

  -- the entries of a map, written over nothing
  pub updates-entries :
      (self : DirectIdMap K V) (l : List (K × V))
      → IsLawful id
      → IsAscending l
      → ((k : K) (v : V) → Memᴰ (k, v) l ↔ (get self k ≡ some v))
      → updates l (λ _. none) ≡ get self
  updates-entries self l lawful up mem = fun_ext λ k. elim (Option-cases (get self k)) [
    | inl absent ↦
        updates-absent l (λ _. none) k lawful
          (λ v m. absurd (ground (arith, (mem k v).0 m, absent)))
        ∙ sym absent
    | inr (v, found) ↦ updates-present l (λ _. none) k v lawful up ((mem k v).1 found) ∙ sym found
  ]

  AllSmallKeys-entries :
      (i : ℕ) (xs : List (Option V)) (l : List (K × V))
      → IsEntries i xs l
      → 2 * (i + length xs) ≤ p.vec_cap
      → AllSmallKeys l
  AllSmallKeys-entries i [] [] es h = tt
  AllSmallKeys-entries i [] (_ ∷ _) es h = absurd es
  AllSmallKeys-entries i (none ∷ xs) l es h =
      AllSmallKeys-entries (suc i) xs l es (omega (arith, h))
  AllSmallKeys-entries i (some v ∷ xs) [] es h = absurd es
  AllSmallKeys-entries i (some v ∷ xs) ((k, w) ∷ l) (at, same, es) h =
      ((i, at, omega (arith, h)), AllSmallKeys-entries (suc i) xs l es (omega (arith, h)))

module _ {S A E Doc K V : Type 0} ⦃p : Platform⦄ ⦃id : IntegerId K⦄ (lawful : IsLawful id)
    {ser : Serializer S E Doc (K × V)} {de : Deserializer A E Doc (K × V)}
    (format : IsFormat ser de) where
  -- For a lawful id type and a format that reads back what it writes, if serializing a valid map, whose
  -- vector is at most half as long as a vector can be, gives a document, then deserializing this
  -- document with more fuel than the map has entries returns, without a panic, a valid map that reads as
  -- the first one.
  pub deserialize-serialize_map :
      (self : DirectIdMap K V) (doc : Doc) (fuel : ℕ)
      → IsValid self
      → 2 * length self.values ≤ p.vec_cap
      → serialize_map ser self ≡ ok (good doc)
      → self.len < fuel
      → (r : DirectIdMap K V) × (deserialize_map de fuel doc ≡ ok (good r))
        × IsValid r
        × (get r ≡ get self)
  unfolding deserialize_map
  deserialize-serialize_map self doc fuel h small done enough =
      let (l, wrote, entries, up, mem) = serialize_map-written lawful ser self h in
      let made : written ser l ≡ good doc = of_ok (sym wrote ∙ done) in
      let (a, access, given) = format.reads_back l doc made in
      let (r, built, _, valid, reads) =
        from_iter_lem l (AllSmallKeys-entries 0 self.values l entries.0 (omega (arith, small))) in
      (
        r,
        rw (access, deserialize_map)
            (visit_map-from_iter de fuel a l none given (omega (arith, entries.1)) ∙ rw built refl),
        valid,
        reads ∙ updates-entries self l lawful up mem,
      )
