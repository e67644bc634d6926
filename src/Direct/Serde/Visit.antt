-- ===== src/Direct/Serde/Visit.antt =====
-- src/direct/serde.rs: the visitors against `from_iter`.
use idmap_rs.Common.{ℕ, zero, suc, ◌<◌, ◌≡◌, refl, Option, none, some, List, [], ◌∷◌, arith, length}
use idmap_rs.Run.{>>=-through, ok, ◌>>=◌, Platform}
use idmap_rs.Intid.Id.{IntegerId}
use idmap_rs.Direct.BitSet.{FixedBitSet}
use idmap_rs.Direct.Map
use idmap_rs.Direct.Map.{DirectIdMap}
use idmap_rs.Direct.Set
use idmap_rs.Direct.Set.{DirectIdSet}
use idmap_rs.Direct.Serde.Format.{Gives, result_of}
use idmap_rs.Direct.Serde.{Deserializer, visit_entries, visit_map, visit_elements, visit_seq}

module _ {A E Doc K V : Type 0} ⦃p : Platform⦄ ⦃id : IntegerId K⦄
    (de : Deserializer A E Doc (K × V)) where
  visit_entries_lem :
      (fuel : ℕ) (m : DirectIdMap K V) (a : A) (l : List (K × V)) (ending : Option E)
      → Gives de a l ending
      → length l < fuel
      → visit_entries de fuel m a ≡ (Map.extend m l >>= λ r. ok (result_of ending r))
  unfolding visit_entries Map.extend
  visit_entries_lem zero m a l ending g f = absurd (omega arith)
  visit_entries_lem (suc fuel) m a [] none (Gives.ends e) f = rw (e, visit_entries) refl
  visit_entries_lem (suc fuel) m a [] (some _) (Gives.fails e) f = rw (e, visit_entries) refl
  visit_entries_lem (suc fuel) m a ((k, v) ∷ l) ending (Gives.gives e later) f =
      rw (e, visit_entries)
        (>>=-through (Map.insert m k v) _ _ _
          (λ r. visit_entries_lem fuel r.1 _ l ending later (omega arith)))

  -- `visit_map`, over an access that gives some entries and then its end or an error, does with enough
  -- fuel what `from_iter` does with these entries, a panic included; it returns the map, or the error
  -- if there was one.
  pub visit_map-from_iter :
      (fuel : ℕ) (a : A) (l : List (K × V)) (ending : Option E)
      → Gives de a l ending
      → length l < fuel
      → visit_map de fuel a ≡ (Map.from_iter l >>= λ r. ok (result_of ending r))
  unfolding visit_map Map.from_iter
  visit_map-from_iter fuel a l ending g f = visit_entries_lem fuel Map.new a l ending g f

module _ {A E Doc B T : Type 0} ⦃p : Platform⦄ ⦃fbs : FixedBitSet B⦄ ⦃id : IntegerId T⦄
    (de : Deserializer A E Doc T) where
  visit_elements_lem :
      (fuel : ℕ) (s : DirectIdSet B T) (a : A) (l : List T) (ending : Option E)
      → Gives de a l ending
      → length l < fuel
      → visit_elements de fuel s a ≡ (Set.extend s l >>= λ r. ok (result_of ending r))
  unfolding visit_elements Set.extend
  visit_elements_lem zero s a l ending g f = absurd (omega arith)
  visit_elements_lem (suc fuel) s a [] none (Gives.ends e) f = rw (e, visit_elements) refl
  visit_elements_lem (suc fuel) s a [] (some _) (Gives.fails e) f = rw (e, visit_elements) refl
  visit_elements_lem (suc fuel) s a (k ∷ l) ending (Gives.gives e later) f =
      rw (e, visit_elements)
        (>>=-through (Set.insert s k) _ _ _
          (λ r. visit_elements_lem fuel r.1 _ l ending later (omega arith)))

  -- `visit_seq`, over an access that gives some elements and then its end or an error, does with enough
  -- fuel what `from_iter` of the set does with these elements, a panic included; it returns the set, or
  -- the error if there was one.
  pub visit_seq-from_iter :
      (fuel : ℕ) (a : A) (l : List T) (ending : Option E)
      → Gives de a l ending
      → length l < fuel
      → visit_seq de fuel a ≡ (Set.from_iter {B = B} l >>= λ r. ok (result_of ending r))
  unfolding visit_seq Set.from_iter
  visit_seq-from_iter fuel a l ending g f = visit_elements_lem fuel Set.new a l ending g f
