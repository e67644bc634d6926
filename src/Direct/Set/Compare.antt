-- ===== src/Direct/Set/Compare.antt =====
-- src/direct/set.rs: `PartialEq`, `Hash`, `PartialOrd` and `Ord` of a set. The equality of bit sets is
-- that of fixedbitset, an argument here; so are the hash and the order of the ids.
pub mod Same
pub mod Equality
use Prim.Native.Nat.{Ordering}
use Prim.Native.Nat.Ordering.{lt, eq, gt}
use idmap_rs.Common.{ℕ, zero, suc, ◌&&◌, Bool, Option, none, some, List, [], ◌∷◌, ◌==◌, length}
use idmap_rs.Run.{Run, ok, out_of_fuel, ◌>>=◌, Platform}
use idmap_rs.Intid.Id.{IntegerId}
use idmap_rs.Direct.BitSet.{FixedBitSet}
use idmap_rs.Direct.Set.{DirectIdSet, Iter, iter, next}

module _ {B T : Type 0} (handle_eq : B → B → Bool) where
  unfoldable pub beq : DirectIdSet B T → DirectIdSet B T → Bool
  beq self other = (self.len == other.len) && handle_eq self.handle other.handle

-- a hasher: what it does with an integer of `usize`, and with an id
pub record Hasher (H T : Type 0) : Type 0 where
  pub write_usize : ℕ → H → H
  pub write_id : T → H → H

module _ {H T : Type 0} ⦃p : Platform⦄ ⦃id : IntegerId T⦄ (hasher : Hasher H T) where
  -- the `for` over the ids
  pub hash_loop : ℕ → Iter T → H → Run H
  hash_loop zero it state = out_of_fuel
  hash_loop (suc fuel) it state = next it >>= λ r. elim r.0 [
    | none ↦ ok state
    | some value ↦ hash_loop fuel r.1 (hasher.write_id value state)
  ]

module _ {H B T : Type 0} ⦃p : Platform⦄ ⦃fbs : FixedBitSet B⦄ ⦃id : IntegerId T⦄
    (hasher : Hasher H T) where
  unfoldable pub hash : DirectIdSet B T → H → Run H
  unfolding hash_loop next iter
  hash self state =
      hash_loop hasher (suc (length (iter self).handle)) (iter self)
        (hasher.write_usize self.len state)

-- `Iterator::cmp` and `Iterator::partial_cmp`: the ids are compared one after another, up to two that
-- are not equal or the end of one iterator. `compare` gives the result of two that are not equal.
module _ {R T : Type 0} ⦃p : Platform⦄ ⦃id : IntegerId T⦄ (compare : T → T → Option R)
    (result : Ordering → R) where
  pub cmp_loop : ℕ → Iter T → Iter T → Run R
  cmp_loop zero a b = out_of_fuel
  cmp_loop (suc fuel) a b = next a >>= λ x. next b >>= λ y. elim x.0 [
    | none ↦ elim y.0 [ none ↦ ok (result eq) | some _ ↦ ok (result lt) ]
    | some k ↦ elim y.0 [
      | none ↦ ok (result gt)
      | some j ↦ elim (compare k j) [ none ↦ cmp_loop fuel x.1 y.1 | some r ↦ ok r ]
    ]
  ]

abbrev pub unless_eq : Ordering → Option Ordering
unless_eq eq = none
unless_eq lt = some lt
unless_eq gt = some gt

abbrev pub unless_some_eq : Option Ordering → Option (Option Ordering)
unless_some_eq none = some none
unless_some_eq (some eq) = none
unless_some_eq (some lt) = some (some lt)
unless_some_eq (some gt) = some (some gt)

module _ {B T : Type 0} ⦃p : Platform⦄ ⦃fbs : FixedBitSet B⦄ ⦃id : IntegerId T⦄ where
  -- the order of the ids is an argument
  unfoldable pub cmp : (T → T → Ordering) → DirectIdSet B T → DirectIdSet B T → Run Ordering
  unfolding cmp_loop next iter
  cmp cmp_ids self other =
      cmp_loop (λ k j. unless_eq (cmp_ids k j)) (λ o. o) (suc (length (iter self).handle))
        (iter self) (iter other)

  unfoldable pub partial_cmp :
      (T → T → Option Ordering) → DirectIdSet B T → DirectIdSet B T → Run (Option Ordering)
  unfolding cmp_loop next iter
  partial_cmp cmp_ids self other =
      cmp_loop (λ k j. unless_some_eq (cmp_ids k j)) some (suc (length (iter self).handle))
        (iter self) (iter other)
