-- ===== src/Direct/Set/Membership.antt =====
-- src/direct/set.rs: what `insert` does to a set, read through `contains`.
use native.Mathlib.Decide.{ℕ_discrete}
use mathlib.Core.Path.{subst}
use idmap_rs.Common.{
  ℕ, ◌+◌, ◌-◌, ◌<◌, ◌≤◌, ◌≡◌, refl, fun_ext, inl, inr, Bool, true, false, Option, none, some, ◌++◌,
  arith, ◌==◌, if◌then◌else◌, is_some, length, set, replicate, slot, occupied, filled,
  occupied-le-length, Option-cases,
}
use idmap_rs.Run.{ok, Platform}
use idmap_rs.Intid.Uint.{to_usize_checked}
use idmap_rs.Intid.Id.{IntegerId}
use idmap_rs.Direct.{index_of, index_or_oom-some, IsIndex}
use idmap_rs.Direct.BitSet.{FixedBitSet, IsBitSet}
use idmap_rs.Direct.Set.Flipped.{IsFlipped, pad-IsFlipped}
use idmap_rs.Direct.Set.{DirectIdSet, insert, contains}

-- 1 for a member and 0 for an id that is none
abbrev pub one_if : Bool → ℕ
one_if true = 1
one_if false = 0

module _ {T : Type 0} ⦃p : Platform⦄ ⦃id : IntegerId T⦄ where
  -- a set as a function, changed at one id
  abbrev pub update : (T → Bool) → T → Bool → T → Bool
  update f k b j = if id.to_int k == id.to_int j then b else f j

one_if-is_some : (o : Option (Unit {0})) → one_if (is_some o) ≡ filled o
one_if-is_some none = refl
one_if-is_some (some _) = refl

module _ {B T : Type 0} ⦃p : Platform⦄ ⦃fbs : FixedBitSet B⦄ ⦃id : IntegerId T⦄
    (laws : IsBitSet fbs) where
  -- `len` counts the members, and each of them is an id
  pub record IsValid (self : DirectIdSet B T) : Type 0 where
    pub counted : self.len ≡ occupied (laws.bits self.handle)
    pub fits : length (laws.bits self.handle) ≤ laws.limit
    pub keyed : (i : ℕ) (v : Unit {0}) → slot (laws.bits self.handle) i ≡ some v → IsIndex T i

  pub contains-slot :
      (self : DirectIdSet B T) (k : T) {i : ℕ}
      → index_of k ≡ some i
      → contains self k ≡ is_some (slot (laws.bits self.handle) i)
  unfolding contains
  contains-slot self k {i} e = rw (e, contains) (laws.contains_bits self.handle i)

  pub contains-unrepresentable :
      (self : DirectIdSet B T) (k : T) → index_of k ≡ none → contains self k ≡ false
  unfolding contains
  contains-unrepresentable self k e = rw (e, contains) refl

  -- what a method that puts an id in or takes it out returns: whether it was there, and a valid set
  -- that has counted the change
  pub record IsToggled (self : DirectIdSet B T) (k : T) (b : Bool) (r : Bool × DirectIdSet B T)
      : Type 0 where
    pub previous : r.0 ≡ contains self k
    pub updated : contains r.1 ≡ update (contains self) k b
    pub len : r.1.len + one_if (contains self k) ≡ self.len + one_if b
    pub valid : IsValid r.1

  contains-IsFlipped :
      (self r : DirectIdSet B T) (k : T) {i : ℕ} (o : Option (Unit {0}))
      → index_of k ≡ some i
      → IsFlipped laws.limit (laws.bits self.handle) (laws.bits r.handle) i o
      → contains r ≡ update (contains self) k (is_some o)
  unfolding index_of to_usize_checked
  contains-IsFlipped self r k {i} o e f = fun_ext λ j. elim (Option-cases (index_of j)) [
    | inl far ↦
        ground (arith, contains-unrepresentable self j far, contains-unrepresentable r j far)
    | inr (n, at) ↦ ground (arith, contains-slot self j at, contains-slot r j at, f.slots n)
  ]

  pub IsToggled-IsFlipped :
      (self r : DirectIdSet B T) (k : T) {i : ℕ} (o : Option (Unit {0}))
      → IsValid self
      → index_of k ≡ some i
      → IsFlipped laws.limit (laws.bits self.handle) (laws.bits r.handle) i o
      → r.len + filled (slot (laws.bits self.handle) i) ≡ self.len + filled o
      → IsToggled self k (is_some o) (contains self k, r)
  IsToggled-IsFlipped self r k {i} o h e f count =
      let here = contains-slot self k e in
      record {
        previous = refl;
        updated = contains-IsFlipped self r k o e f;
        len = rw (here, one_if-is_some (slot (laws.bits self.handle) i), one_if-is_some o) count;
        valid = record {
          counted = omega (arith, f.entries, h.counted);
          fits = f.fits;
          keyed = λ j v at. elim (ℕ_discrete i j) [
            | yes same ↦ subst (IsIndex T) same (k, e)
            | no other ↦ h.keyed j v (ground (arith, f.slots j))
          ];
        };
      }

  -- On a valid set, `insert` of an id whose index is below the limit of the bit set returns whether
  -- the id was in the set, and a valid set that has it too and is otherwise as before, and that has
  -- counted it if it is new.
  pub insert-IsToggled :
      (self : DirectIdSet B T) (k : T) {i : ℕ}
      → IsValid self
      → index_of k ≡ some i
      → i < laws.limit
      → (r : Bool × DirectIdSet B T) × (insert self k ≡ ok r) × IsToggled self k true r
  unfolding insert
  insert-IsToggled self k {i} h e lt =
      let (handle, grown, bits) = laws.grow_and_insert_bits self.handle i lt in
      let flipped =
        pad-IsFlipped laws.limit (laws.bits self.handle) i (i + 1 - length (laws.bits self.handle))
          (some tt) (omega arith) (omega (arith, h.fits)) in
      let len = self.len + (1 - filled (slot (laws.bits self.handle) i)) in
      let room : len ≤ laws.limit = ground (
        arith,
        h.counted,
        flipped.entries,
        flipped.fits,
        occupied-le-length (
            set (laws.bits self.handle ++ replicate (i + 1 - length (laws.bits self.handle)) none) i
              (some tt)),
      ) in
      (
        (contains self k, record { handle = handle; len = len }),
        rw (index_or_oom-some k i e, grown)
            (ground (
              arith,
              laws.contains_bits self.handle i,
              contains-slot self k e,
              room,
              laws.limit_small,
            )),
        IsToggled-IsFlipped self (record { handle = handle; len = len }) k (some tt) h e
            (rw bits flipped) (ground arith),
      )
