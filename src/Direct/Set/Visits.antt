-- ===== src/Direct/Set/Visits.antt =====
-- src/direct/set.rs: the set as the `VisitMap` of a graph walk.
use idmap_rs.Common.{ℕ, ◌<◌, ◌≡◌, refl, ap, ◌∙◌, Bool, true, false, not, some, List, [], ◌∷◌}
use idmap_rs.Run.{Run, ok, ◌>>=◌, Platform}
use idmap_rs.Intid.Id.{IntegerId}
use idmap_rs.Direct.{index_of}
use idmap_rs.Direct.BitSet.{FixedBitSet, IsBitSet}
use idmap_rs.Direct.Set.{DirectIdSet, new, contains, visit, is_visited}
use idmap_rs.Direct.Set.Membership.{update, IsValid, insert-IsToggled}
use idmap_rs.Direct.Set.Empty.{new-IsValid, contains-new}

module _ {B T : Type 0} ⦃p : Platform⦄ ⦃fbs : FixedBitSet B⦄ ⦃id : IntegerId T⦄ where
  -- ids visited one after another, and the answers
  unfoldable pub visit_all : List T → DirectIdSet B T → Run (List Bool × DirectIdSet B T)
  visit_all [] s = ok ([], s)
  visit_all (k ∷ ks) s = do r ← visit s k; rest ← visit_all ks r.1; ok (r.0 ∷ rest.0, rest.1)

module _ {T : Type 0} ⦃p : Platform⦄ ⦃id : IntegerId T⦄ where
  -- which ids of a list come for the first time, and the ids that have come
  unfoldable pub first_visits : (T → Bool) → List T → List Bool × (T → Bool)
  first_visits seen [] = ([], seen)
  first_visits seen (k ∷ ks) =
      let rest = first_visits (update seen k true) ks in (not (seen k) ∷ rest.0, rest.1)

  -- each id has an index below the limit
  abbrev pub AllBelow : ℕ → List T → Type 0
  AllBelow limit [] = Unit
  AllBelow limit (k ∷ ks) = ((i : ℕ) × (index_of k ≡ some i) × (i < limit)) × AllBelow limit ks

module _ {B T : Type 0} ⦃p : Platform⦄ ⦃fbs : FixedBitSet B⦄ ⦃id : IntegerId T⦄
    (laws : IsBitSet fbs) where
  visit_all-from :
      (ks : List T) (s : DirectIdSet B T)
      → IsValid laws s
      → AllBelow laws.limit ks
      → (r : DirectIdSet B T) × (visit_all ks s ≡ ok ((first_visits (contains s) ks).0, r))
        × IsValid laws r
        × (contains r ≡ (first_visits (contains s) ks).1)
  unfolding visit_all first_visits visit
  visit_all-from [] s h below = (s, refl, h, refl)
  visit_all-from (k ∷ ks) s h ((i, at, lt), below) =
      let (r, done, t) = insert-IsToggled laws s k h at lt in
      let (z, ran, valid, reads) = visit_all-from ks r.1 t.valid below in
      (
        z,
        rw done (rw ran (rw (t.previous, t.updated) refl)),
        valid,
        reads ∙ ap (λ f. (first_visits f ks).1) t.updated,
      )

  -- Visiting ids with `visit`, one after another from a new set, none of them beyond the limit of the
  -- bit set, does not panic. Each call answers whether its id comes for the first time, and at the
  -- end `is_visited` holds of exactly the ids that have come.
  pub visit_all-first_visits :
      (ks : List T)
      → AllBelow laws.limit ks
      → (r : DirectIdSet B T) × (visit_all ks new ≡ ok ((first_visits (λ _. false) ks).0, r))
        × IsValid laws r
        × (is_visited r ≡ (first_visits (λ _. false) ks).1)
  visit_all-first_visits ks below =
      let (r, ran, valid, reads) = visit_all-from ks new (new-IsValid laws) below in
      let start : contains {B = B} {T = T} new ≡ (λ _. false) = contains-new laws in
      (r, rw start at ran, valid, rw start at reads)
