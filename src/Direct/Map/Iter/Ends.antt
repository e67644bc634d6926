-- ===== src/Direct/Map/Iter/Ends.antt =====
-- src/direct/map.rs: calls of `next` and `next_back` in any order.
use mathlib.Core.List.{map-append}
use idmap_rs.Common.{
  ◌≤◌, ◌≡◌, refl, sym, ap, ◌∙◌, inl, inr, Option, List, [], ◌∷◌, ◌++◌, arith, length, length-map,
}
use idmap_rs.Run.{Run, ok, of_ok, Platform}
use idmap_rs.Ends.{
  End, front, back, at_end, but_end, taken, play, play-taken, last-snoc, snoc_cases, play-Fused,
  Fused,
}
use idmap_rs.Intid.Id.{IntegerId, IsLawful}
use idmap_rs.Direct.Map.{DirectIdMap}
use idmap_rs.Direct.Map.Invariant.{IsValid}
use idmap_rs.Direct.Map.Iter.{Iter, iter, next, next_back, collect}
use idmap_rs.Direct.Map.Iter.Entries.{EntriesOf-exist}
use idmap_rs.Direct.Map.Iter.Deque.{Remains, next-cons, next-nil, next_back-snoc, next_back-nil}
use idmap_rs.Direct.Map.Iter.Collect.{iter-IsExact, items, collect-items}

module _ {K V Item : Type 0} ⦃p : Platform⦄ ⦃id : IntegerId K⦄ (item : K → V → Item) where
  -- a call at one of the ends
  unfoldable pub pull : End → Iter K V → Run (Option Item × Iter K V)
  pull front it = next item it
  pull back it = next_back item it

  -- the items that are left
  abbrev Left : Iter K V → List Item → Type 0
  Left it xs = (l : List (K × V)) × Remains it l × (xs ≡ items item l)

module _ {K V Item : Type 0} ⦃p : Platform⦄ ⦃id : IntegerId K⦄ (lawful : IsLawful id)
    (item : K → V → Item) where
  pull-Left :
      (e : End) (it : Iter K V) (xs : List Item)
      → Left item it xs
      → (it' : Iter K V) × (pull item e it ≡ ok (at_end e xs, it')) × Left item it' (but_end e xs)
  unfolding pull
  pull-Left front it xs ([], r, same) =
      let (it', run, r', _) = next-nil lawful item it r in
      (it', rw same run, ([], r', rw same refl))
  pull-Left front it xs ((k, v) ∷ l, r, same) =
      let (it', run, r', _, _) = next-cons lawful item it k v l r in
      (it', rw same run, (l, r', rw same refl))
  pull-Left back it xs (l, r, same) = elim (snoc_cases l) [
    | inl e ↦
        let (it', run, r', _) = next_back-nil lawful item it (rw e at r) in
        (it', rw (same, e) run, ([], r', rw (same, e) refl))
    | inr (but, (k, v), e, _, _) ↦
        let (it', run, r', _) = next_back-snoc lawful item it k v but (rw e at r) in
        let split : xs ≡ items item but ++ item k v ∷ [] =
          same ∙ ap (items item) e ∙ map-append (λ x. item x.0 x.1) but ((k, v) ∷ []) in
        let (at, rest) = last-snoc (items item but) (item k v) in
        (it', rw split (rw at run), (but, r', rw split rest))
  ]

  taken_of_entries :
      (self : DirectIdMap K V)
      → IsValid self
      → (xs : List Item) × (collect item (iter self) ≡ ok xs)
        × (length xs ≡ self.len)
        × ((es : List End)
            → (it : Iter K V) × (play (pull item) es (iter self) ≡ ok (taken es xs, it)))
  unfolding iter
  taken_of_entries self h =
      let (l, entries) = EntriesOf-exist self h in
      let (r, count) = iter-IsExact self l h entries in
      (
        items item l,
        collect-items lawful item self l h entries,
        length-map (λ x. item x.0 x.1) l ∙ sym count,
        λ es.
            let (it, run, _) =
              play-taken (pull item) (Left item) pull-Left es (iter self) (items item l)
                (l, r, refl) in
            (it, run),
      )

  entries-Fused :
      (self : DirectIdMap K V) (es : List End)
      → IsValid self
      → self.len ≤ length es
      → (r : List (Option Item) × Iter K V) × (play (pull item) es (iter self) ≡ ok r)
        × Fused (pull item) r self.len
  unfolding iter
  entries-Fused self es h enough =
      let (l, entries) = EntriesOf-exist self h in
      let (r, count) = iter-IsExact self l h entries in
      let size : length (items item l) ≡ self.len = length-map (λ x. item x.0 x.1) l ∙ sym count in
      let (r', run, fused) =
        play-Fused (pull item) (Left item) pull-Left es (iter self) (items item l) (l, r, refl)
          (omega (arith, size)) in
      (r', run, (fused.0 ∙ size, fused.1))

  -- For a lawful id type, and an iterator over a valid map: iterating to the end collects `len` items,
  -- and calls of `next` and `next_back` in any order return what is taken, in that order, from the
  -- two ends of their list. Once `len` calls have been made, `len` of them have returned an item, and
  -- every later call of either returns `None`. None of them panics.
  pub ends_of_entries :
      (self : DirectIdMap K V)
      → IsValid self
      → (xs : List Item) × (collect item (iter self) ≡ ok xs)
        × (length xs ≡ self.len)
        × ((es : List End)
            → (it : Iter K V) × (play (pull item) es (iter self) ≡ ok (taken es xs, it))
              × (self.len ≤ length es → Fused (pull item) (taken es xs, it) self.len))
  ends_of_entries self h =
      let (xs, run, size, ends) = taken_of_entries self h in
      (
        xs,
        run,
        size,
        λ es.
            let (it, played) = ends es in
            (
              it,
              played,
              λ enough.
                  let (r, again, fused) = entries-Fused self es h enough in
                  rw (of_ok (sym again ∙ played)) at fused,
            ),
      )
