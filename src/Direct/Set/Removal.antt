-- ===== src/Direct/Set/Removal.antt =====
-- src/direct/set.rs: what `remove` does to a set, read through `contains`.
use idmap_rs.Common.{
  ℕ, ◌-◌, ◌<◌, ◌≡◌, refl, sym, ap, ◌∙◌, fun_ext, inl, inr, Bool, true, false, none, some, arith,
  leb, ◌==◌, ==_iff, is_some, length, slot, filled, slot_beyond, filled-le-occupied, Bool-cases,
  Option-cases,
}
use idmap_rs.Run.{ok, Platform}
use idmap_rs.Intid.Uint.{to_usize_checked}
use idmap_rs.Intid.Id.{IntegerId}
use idmap_rs.Direct.{index_of}
use idmap_rs.Direct.BitSet.{FixedBitSet, IsBitSet}
use idmap_rs.Direct.Set.Flipped.{IsFlipped, set-IsFlipped}
use idmap_rs.Direct.Set.{DirectIdSet, remove_at, remove, contains}
use idmap_rs.Direct.Set.Membership.{
  IsValid, contains-slot, contains-unrepresentable, IsToggled, IsToggled-IsFlipped,
}

module _ {B T : Type 0} ⦃p : Platform⦄ ⦃fbs : FixedBitSet B⦄ ⦃id : IntegerId T⦄
    (laws : IsBitSet fbs) where
  remove_at-ok :
      (self : DirectIdSet B T) (i : ℕ)
      → IsValid laws self
      → i < length (laws.bits self.handle)
      → (handle : B) × (remove_at self i
          ≡ ok (
            is_some (slot (laws.bits self.handle) i),
            record { handle = handle; len = self.len - filled (slot (laws.bits self.handle) i) },
          ))
        × IsFlipped laws.limit (laws.bits self.handle) (laws.bits handle) i none
  unfolding remove_at
  remove_at-ok self i h lt =
      let within : i < fbs.len self.handle = omega (arith, laws.len_bits self.handle) in
      let (handle, removed, bits) = laws.remove_unchecked_bits self.handle i within in
      (
        handle,
        rw (laws.contains_unchecked_bits self.handle i within, removed)
            (ground (
              arith,
              laws.contains_bits self.handle i,
              h.counted,
              filled-le-occupied (laws.bits self.handle) i,
            )),
        rw bits (set-IsFlipped laws.limit (laws.bits self.handle) i none lt h.fits),
      )

  contains_same :
      (self : DirectIdSet B T) (k j : T)
      → id.to_int k ≡ id.to_int j
      → contains self k ≡ contains self j
  unfolding contains index_of
  contains_same self k j e =
      ap
        (λ (n : ℕ). elim (to_usize_checked id.int n) [
          | none ↦ false
          | some x ↦ fbs.contains self.handle x
        ])
        e

  unchanged-IsToggled :
      (self : DirectIdSet B T) (k : T)
      → IsValid laws self
      → contains self k ≡ false
      → IsToggled laws self k false (false, self)
  unchanged-IsToggled self k h e = record {
    previous = sym e;
    updated = fun_ext λ j. elim (Bool-cases (id.to_int k == id.to_int j)) [
      | inl same ↦
          rw same (sym (contains_same self k j ((==_iff (id.to_int k) (id.to_int j)).0 same)) ∙ e)
      | inr other ↦ rw other refl
    ];
    len = rw e refl;
    valid = h;
  }

  -- On a valid set, `remove` never panics, whatever the id: it returns whether the id was in the
  -- set, and a valid set without it that is otherwise as before and has counted the change.
  pub remove-IsToggled :
      (self : DirectIdSet B T) (k : T)
      → IsValid laws self
      → (r : Bool × DirectIdSet B T) × (remove self k ≡ ok r) × IsToggled laws self k false r
  unfolding remove
  remove-IsToggled self k h = elim (Option-cases (index_of k)) [
    | inl far ↦ (
      (false, self),
      rw (far, remove) refl,
      unchanged-IsToggled self k h (contains-unrepresentable laws self k far),
    )
    | inr (i, e) ↦ elim (Bool-cases (leb (fbs.len self.handle) i)) [
      | inl beyond ↦ (
        (false, self),
        rw (e, remove, beyond) refl,
        unchanged-IsToggled self k h (missing i e beyond),
      )
      | inr inside ↦
          let within : i < length (laws.bits self.handle) =
            ground (arith, laws.len_bits self.handle) in
          let (handle, done, flipped) = remove_at-ok self i h within in
          let len = self.len - filled (slot (laws.bits self.handle) i) in
          (
            (is_some (slot (laws.bits self.handle) i), record { handle = handle; len = len }),
            rw (e, remove, inside) done,
            rw (sym (contains-slot laws self k e)) (
                IsToggled-IsFlipped laws self (record { handle = handle; len = len }) k none h e
                  flipped
                  (ground (arith, h.counted, filled-le-occupied (laws.bits self.handle) i))),
          )
    ]
  ]
    where
      missing :
          (i : ℕ)
          → index_of k ≡ some i
          → leb (fbs.len self.handle) i ≡ true
          → contains self k ≡ false
      missing i e beyond =
          contains-slot laws self k e
          ∙ ap is_some
              (slot_beyond (laws.bits self.handle) i (ground (arith, laws.len_bits self.handle)))
