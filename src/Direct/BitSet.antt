-- ===== src/Direct/BitSet.antt =====
-- The operations of the crate `fixedbitset` that src/direct/set.rs calls, as an interface, and what
-- their documentation says of them.
use idmap_rs.Common.{
  ℕ, suc, ◌+◌, ◌-◌, ◌<◌, ◌≤◌, ◌≡◌, Bool, Option, none, some, List, [], ◌∷◌, ◌++◌, length, set,
  replicate, slot, is_some,
}
use idmap_rs.Run.{Run, ok, Platform, usize_mod}

-- The iterators `Ones` and `IntoOnes` are the indices that they have left. The allocation of a set
-- may fail, and the unchecked operations are undefined beyond the length.
pub record FixedBitSet (B : Type 0) : Type 0 where
  pub new : B
  pub with_capacity : ℕ → Run B
  pub len : B → ℕ
  pub contains : B → ℕ → Bool
  pub contains_unchecked : B → ℕ → Run Bool
  pub grow_and_insert : B → ℕ → Run B
  pub remove_unchecked : B → ℕ → Run B
  pub clear : B → B
  pub ones : B → List ℕ

-- the bits of a set: an entry for a bit that is set
abbrev pub Bits : Type 0
Bits = List (Option (Unit {0}))

-- the indices of the bits that are set, the first bit having the given one
unfoldable pub indices : ℕ → Bits → List ℕ
indices i [] = []
indices i (none ∷ bits) = indices (suc i) bits
indices i (some _ ∷ bits) = i ∷ indices (suc i) bits

-- The set has a sequence of bits, and room for bits below a limit.
pub record IsBitSet {B : Type 0} ⦃p : Platform⦄ (fbs : FixedBitSet B) : Type 0 where
  pub limit : ℕ
  pub limit_small : limit < usize_mod
  pub bits : B → Bits
  pub new_bits : bits fbs.new ≡ []
  pub with_capacity_bits :
      (n : ℕ) → n ≤ limit → (b : B) × (fbs.with_capacity n ≡ ok b) × (bits b ≡ replicate n none)
  pub len_bits : (b : B) → fbs.len b ≡ length (bits b)
  pub contains_bits : (b : B) (i : ℕ) → fbs.contains b i ≡ is_some (slot (bits b) i)
  pub contains_unchecked_bits :
      (b : B) (i : ℕ) → i < fbs.len b → fbs.contains_unchecked b i ≡ ok (fbs.contains b i)
  pub grow_and_insert_bits :
      (b : B) (i : ℕ)
      → i < limit
      → (r : B) × (fbs.grow_and_insert b i ≡ ok r)
        × (bits r ≡ set (bits b ++ replicate (i + 1 - length (bits b)) none) i (some tt))
  pub remove_unchecked_bits :
      (b : B) (i : ℕ)
      → i < fbs.len b
      → (r : B) × (fbs.remove_unchecked b i ≡ ok r) × (bits r ≡ set (bits b) i none)
  pub clear_bits : (b : B) → bits (fbs.clear b) ≡ replicate (length (bits b)) none
  pub ones_bits : (b : B) → fbs.ones b ≡ indices 0 (bits b)
