-- ===== src/Direct/Set/Compare/Equality.antt =====
-- src/direct/set.rs: `PartialEq`, which compares the counts and the bit sets.
use Prim.Native.Nat.{Ordering}
use Prim.Native.Nat.Ordering.{eq}
use idmap_rs.Common.{
  ℕ, suc, ◌≡◌, ◌↔◌, refl, sym, ap, ◌∙◌, Bool, true, Option, none, some, [], ◌∷◌, arith, length,
  is_some, occupied, slot, Option-cases, inl, inr, ==_iff, fun_ext,
}
use mathlib.Core.Path.{ap₂}
use idmap_rs.Run.{ok, Platform}
use idmap_rs.Intid.Id.{IntegerId, IsLawful}
use idmap_rs.Direct.{index_of}
use idmap_rs.Direct.BitSet.{FixedBitSet, IsBitSet, Bits}
use idmap_rs.Direct.Map.Equality.{and_true}
use idmap_rs.Direct.Set.{DirectIdSet, contains}
use idmap_rs.Direct.Set.Membership.{IsValid, contains-slot, contains-unrepresentable}
use idmap_rs.Direct.Set.Compare.{beq, cmp}
use idmap_rs.Direct.Set.Compare.Same.{cmp-contains}

-- bits of the same number are the same if they are at every index
bits_of_slots : (xs ys : Bits) → length xs ≡ length ys → ((j : ℕ) → slot xs j ≡ slot ys j) → xs ≡ ys
bits_of_slots [] [] e h = refl
bits_of_slots [] (y ∷ ys) e h = absurd (omega arith)
bits_of_slots (x ∷ xs) [] e h = absurd (omega arith)
bits_of_slots (x ∷ xs) (y ∷ ys) e h =
    ap₂ ◌∷◌ (h 0) (bits_of_slots xs ys (omega arith) (λ j. h (suc j)))

same_bit : (a b : Option (Unit {0})) → is_some a ≡ is_some b → a ≡ b
same_bit none none e = refl
same_bit none (some _) e = absurd (cc)
same_bit (some _) none e = absurd (cc)
same_bit (some _) (some _) e = refl

module _ {B T : Type 0} ⦃p : Platform⦄ ⦃fbs : FixedBitSet B⦄ ⦃id : IntegerId T⦄
    (laws : IsBitSet fbs) where
  -- the bit of an id of a set is that of a set which contains the same ids
  bit_of_contains :
      (a b : DirectIdSet B T)
      → IsValid laws a
      → contains a ≡ contains b
      → (j : ℕ) {v : Unit {0}} → slot (laws.bits a.handle) j ≡ some v
      → slot (laws.bits b.handle) j ≡ some v
  bit_of_contains a b h same j {v} e =
      let (k, at) = h.keyed j v e in
      sym (
        same_bit _ _ (
          sym (contains-slot laws a k at)
          ∙ ap (λ (f : T → Bool). f k) same
          ∙ contains-slot laws b k at))
      ∙ e

  bits_of_contains :
      (a b : DirectIdSet B T)
      → IsValid laws a
      → IsValid laws b
      → contains a ≡ contains b
      → (j : ℕ) → slot (laws.bits a.handle) j ≡ slot (laws.bits b.handle) j
  bits_of_contains a b h h' same j = elim (Option-cases (slot (laws.bits a.handle) j)) [
    | inr (v, e) ↦ e ∙ sym (bit_of_contains a b h same j e)
    | inl e ↦ elim (Option-cases (slot (laws.bits b.handle) j)) [
      | inl e' ↦ e ∙ sym e'
      | inr (w, e') ↦ bit_of_contains b a h' (sym same) j e' ∙ sym e'
    ]
  ]

  contains_of_bits :
      (a b : DirectIdSet B T) → laws.bits a.handle ≡ laws.bits b.handle → contains a ≡ contains b
  contains_of_bits a b same = fun_ext λ k. elim (Option-cases (index_of k)) [
    | inl far ↦ contains-unrepresentable laws a k far ∙ sym (contains-unrepresentable laws b k far)
    | inr (i, at) ↦
        contains-slot laws a k at
        ∙ ap (λ (bits : Bits). is_some (slot bits i)) same
        ∙ sym (contains-slot laws b k at)
  ]

  beq-iff_len :
      (handle_eq : B → B → Bool)
      → ((a b : B) → (handle_eq a b ≡ true) ↔ (laws.bits a ≡ laws.bits b))
      → (self other : DirectIdSet B T) → IsValid laws self
      → IsValid laws other
      → (beq handle_eq self other ≡ true)
        ↔ ((contains self ≡ contains other) × (fbs.len self.handle ≡ fbs.len other.handle))
  unfolding beq
  beq-iff_len handle_eq law self other h h' = (
    λ e.
        let (_, handles) = and_true handle_eq e in
        let same = (law self.handle other.handle).0 handles in
        (
          contains_of_bits self other same,
          laws.len_bits self.handle ∙ ap length same ∙ sym (laws.len_bits other.handle),
        ),
    λ (ids, lens).
        let size = sym (laws.len_bits self.handle) ∙ lens ∙ laws.len_bits other.handle in
        let same =
          bits_of_slots (laws.bits self.handle) (laws.bits other.handle) size
            (bits_of_contains self other h h' ids) in
        let counts : self.len ≡ other.len = h.counted ∙ ap occupied same ∙ sym h'.counted in
        rw ((==_iff self.len other.len).1 counts) ((law self.handle other.handle).1 same),
  )

module _ {B T : Type 0} ⦃p : Platform⦄ ⦃fbs : FixedBitSet B⦄ ⦃id : IntegerId T⦄
    (laws : IsBitSet fbs) (lawful : IsLawful id) where
  -- Where the equality of bit sets is that of their bits, as for those of fixedbitset, `==` accepts
  -- two valid sets exactly if they contain the same ids and their bit sets have the same length:
  -- bits that were once allocated count, even if none of them is set. `cmp` sees the ids only: for a
  -- lawful id type whose order finds an id equal to itself only, it ends with a result, without a
  -- panic, and the result is `Equal` exactly if the two sets contain the same ids.
  pub beq-cmp :
      (handle_eq : B → B → Bool) (cmp_ids : T → T → Ordering)
      → ((a b : B) → (handle_eq a b ≡ true) ↔ (laws.bits a ≡ laws.bits b))
      → ((k j : T) → (cmp_ids k j ≡ eq) ↔ (k ≡ j))
      → (self other : DirectIdSet B T) → IsValid laws self
      → IsValid laws other
      → ((beq handle_eq self other ≡ true)
          ↔ ((contains self ≡ contains other) × (fbs.len self.handle ≡ fbs.len other.handle)))
        × ((o : Ordering) × (cmp cmp_ids self other ≡ ok o)
            × ((o ≡ eq) ↔ (contains self ≡ contains other)))
  beq-cmp handle_eq cmp_ids law order self other h h' = (
    beq-iff_len laws handle_eq law self other h h',
    cmp-contains laws lawful cmp_ids self other order h h',
  )
