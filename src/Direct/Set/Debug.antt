-- ===== src/Direct/Set/Debug.antt =====
-- src/direct/set.rs: the text of a set.
use idmap_rs.Common.{◌≡◌, refl, sym, ap, List}
use idmap_rs.Run.{ok, Platform}
use idmap_rs.Intid.Id.{IntegerId, IsLawful}
use idmap_rs.Direct.BitSet.{FixedBitSet, IsBitSet}
use idmap_rs.Direct.Set.{DirectIdSet, contains, fmt}
use idmap_rs.Direct.Set.Membership.{IsValid}
use idmap_rs.Direct.Set.Members.{collect-contains}
use idmap_rs.Direct.Set.Compare.Same.{members_unique}

module _ {B T Text : Type 0} ⦃p : Platform⦄ ⦃fbs : FixedBitSet B⦄ ⦃id : IntegerId T⦄
    (laws : IsBitSet fbs) (lawful : IsLawful id) (debug_set : List T → Text) where
  -- For a lawful id type, two valid sets with the same members have the same text by `Debug`,
  -- whatever the formatter makes of the members, and writing it does not panic.
  pub fmt-contains :
      (self other : DirectIdSet B T)
      → IsValid laws self
      → IsValid laws other
      → contains self ≡ contains other
      → (text : Text) × (fmt debug_set self ≡ ok text) × (fmt debug_set other ≡ ok text)
  unfolding fmt
  fmt-contains self other h h' same =
      let (ks, run, up, _, mem) = collect-contains laws lawful self h in
      let (js, run', up', _, mem') = collect-contains laws lawful other h' in
      let one : ks ≡ js = members_unique lawful (contains self) ks js up up' mem (rw same mem') in
      (debug_set ks, rw run refl, rw run' (ap (λ r. ok (debug_set r)) (sym one)))
