-- ===== src/Direct/Set/Empty.antt =====
-- src/direct/set.rs: new and cleared sets.
use idmap_rs.Common.{
  ℕ, ◌≡◌, refl, sym, ap, ◌∙◌, fun_ext, inl, inr, false, Option, none, [], arith, is_some, length,
  slot, slot-pad, occupied-pad, length-replicate, Option-cases,
}
use idmap_rs.Run.{Platform}
use idmap_rs.Intid.Id.{IntegerId}
use idmap_rs.Direct.{index_of}
use idmap_rs.Direct.BitSet.{FixedBitSet, IsBitSet}
use idmap_rs.Direct.Set.{DirectIdSet, new, clear, contains}
use idmap_rs.Direct.Set.Membership.{IsValid, contains-slot, contains-unrepresentable}

module _ {B T : Type 0} ⦃p : Platform⦄ ⦃fbs : FixedBitSet B⦄ ⦃id : IntegerId T⦄
    (laws : IsBitSet fbs) where
  -- `clear` leaves a valid set without members, whatever valid set it was.
  pub clear-IsValid :
      (self : DirectIdSet B T)
      → IsValid laws self
      → IsValid laws (clear self)
        × (contains {T = T} (clear self) ≡ (λ _. false))
        × ((clear self).len ≡ 0)
  unfolding clear
  clear-IsValid self h =
      let bits = laws.clear_bits self.handle in
      (
        record {
          counted = rw bits (sym (occupied-pad [] (length (laws.bits self.handle))));
          fits = rw bits (
              omega (
                arith,
                h.fits,
                length-replicate {A = Option (Unit {0})} (length (laws.bits self.handle)) none,
              ));
          keyed = λ i v at.
              absurd (
                ground
                  (arith, slot-pad {V = Unit {0}} [] (length (laws.bits self.handle)) i, bits));
        },
        empty (clear self)
            (λ i. rw bits (slot-pad {V = Unit {0}} [] (length (laws.bits self.handle)) i)),
        refl,
      )
    where
      empty :
          (r : DirectIdSet B T)
          → ((i : ℕ) → slot (laws.bits r.handle) i ≡ none)
          → contains r ≡ (λ _. false)
      empty r none_set = fun_ext λ j. elim (Option-cases (index_of j)) [
        | inl far ↦ contains-unrepresentable laws r j far
        | inr (i, e) ↦ contains-slot laws r j e ∙ ap is_some (none_set i)
      ]

  pub new-IsValid : IsValid {B = B} {T = T} laws new
  new-IsValid = record {
    counted = rw laws.new_bits refl;
    fits = rw laws.new_bits (omega arith);
    keyed = λ i v at. absurd (ground (arith, laws.new_bits));
  }

  pub contains-new : contains {B = B} {T = T} new ≡ (λ _. false)
  contains-new = fun_ext λ j. elim (Option-cases (index_of j)) [
    | inl far ↦ contains-unrepresentable laws new j far
    | inr (i, e) ↦ contains-slot laws new j e ∙ rw laws.new_bits refl
  ]
