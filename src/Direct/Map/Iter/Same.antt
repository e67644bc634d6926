-- ===== src/Direct/Map/Iter/Same.antt =====
-- src/direct/map.rs: two maps that read the same, and what iterating over them shows.
use idmap_rs.Common.{◌≡◌, refl, sym, ap, ◌∙◌, Option, List, length}
use idmap_rs.Run.{ok, Platform}
use idmap_rs.Intid.Id.{IntegerId, IsLawful}
use idmap_rs.Direct.Map.{DirectIdMap, get}
use idmap_rs.Direct.Map.Invariant.{IsValid}
use idmap_rs.Direct.Map.Iter.{iter, collect, iter_item, fmt}
use idmap_rs.Direct.Map.Iter.Sorted.{ascending_unique}
use idmap_rs.Direct.Map.Iter.Collect.{items, collect-iter}

module _ {K V : Type 0} ⦃p : Platform⦄ ⦃id : IntegerId K⦄ (lawful : IsLawful id) where
  -- two valid maps that read the same have the same entries, and as many
  pub collect-get :
      {Item : Type 0} (item : K → V → Item) (self other : DirectIdMap K V)
      → IsValid self
      → IsValid other
      → get self ≡ get other
      → (l : List (K × V)) × (collect item (iter self) ≡ ok (items item l))
        × (collect item (iter other) ≡ ok (items item l))
        × (self.len ≡ other.len)
  collect-get item self other h h' same =
      let (l, run, up, count, mem) = collect-iter lawful item self h in
      let (m, run', up', count', mem') = collect-iter lawful item other h' in
      let one : l ≡ m = ascending_unique l m up up' λ k v.
        let at = ap (λ (f : K → Option V). f k) same in
        (λ x. (mem' k v).1 (sym at ∙ (mem k v).0 x), λ x. (mem k v).1 (at ∙ (mem' k v).0 x)) in
      (l, run, run' ∙ ap (λ r. ok (items item r)) (sym one), sym count ∙ ap length one ∙ count')

module _ {K V Text : Type 0} ⦃p : Platform⦄ ⦃id : IntegerId K⦄ (lawful : IsLawful id)
    (debug_map : List (K × V) → Text) where
  -- For a lawful id type, two valid maps that read the same have the same text by `Debug`, whatever
  -- the formatter makes of the entries, and writing it does not panic.
  pub fmt-get :
      (self other : DirectIdMap K V)
      → IsValid self
      → IsValid other
      → get self ≡ get other
      → (text : Text) × (fmt debug_map self ≡ ok text) × (fmt debug_map other ≡ ok text)
  unfolding fmt
  fmt-get self other h h' same =
      let (l, run, run', _) = collect-get lawful iter_item self other h h' same in
      (debug_map (items iter_item l), rw run refl, rw run' refl)
