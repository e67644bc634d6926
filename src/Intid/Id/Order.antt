-- ===== src/Intid/Id/Order.antt =====
-- crates/intid/src/lib.rs: `OrderByInt`, which compares and hashes an id by its integer.
use Prim.Native.Nat.{compare, Ordering}
use Prim.Native.Nat.Ordering.{lt, eq, gt}
use idmap_rs.Common.{ℕ, ◌≡◌, ◌↔◌, ap, Bool, true, Option, some, arith, ◌==◌}
use idmap_rs.Run.{Platform}
use idmap_rs.Intid.Id.{IntegerId, IsLawful, to_int-injective}

pub record OrderByInt (K : Type 0) : Type 0 where
  pub id : K

module _ {K : Type 0} ⦃i : IntegerId K⦄ where
  unfoldable pub cmp : OrderByInt K → OrderByInt K → Ordering
  cmp self other = compare (i.to_int self.id) (i.to_int other.id)

  unfoldable pub partial_cmp : OrderByInt K → OrderByInt K → Option Ordering
  partial_cmp self other = some (cmp self other)

  unfoldable pub beq : OrderByInt K → OrderByInt K → Bool
  beq self other = i.to_int self.id == i.to_int other.id

  -- the hasher is its state and what writing an integer does to it
  unfoldable pub hash : {H : Type 0} → (ℕ → H → H) → OrderByInt K → H → H
  hash write self state = write (i.to_int self.id) state

module _ {K : Type 0} ⦃p : Platform⦄ ⦃i : IntegerId K⦄ (lawful : IsLawful i) where
  -- `==` on `OrderByInt` is equality of the wrapped ids.
  pub beq_iff : (a b : OrderByInt K) → (beq a b ≡ true) ↔ (a ≡ b)
  unfolding beq
  beq_iff a b = (
    λ e. ap (λ (k : K). record { id = k }) (to_int-injective lawful a.id b.id (ground arith)),
    λ e. ground (arith, ap (λ (o : OrderByInt K). i.to_int o.id) e),
  )

  -- For a lawful id type, `Ord`, `PartialEq` and `Hash` of `OrderByInt` agree, as their contracts
  -- ask: the order is antisymmetric and transitive, two values compare as equal exactly when they
  -- are equal, and two values that `==` accepts hash alike, for every hasher.
  pub cmp_laws :
      {H : Type 0} (write : ℕ → H → H) (a b c : OrderByInt K)
      → ((cmp a b ≡ lt) ↔ (cmp b a ≡ gt))
        × (cmp a b ≡ lt → cmp b c ≡ lt → cmp a c ≡ lt)
        × ((cmp a b ≡ eq) ↔ (a ≡ b))
        × (beq a b ≡ true → (state : H) → hash write a state ≡ hash write b state)
  unfolding cmp hash
  cmp_laws write a b c = (
    ground arith,
    ground arith,
    (
      λ e. (beq_iff a b).0 (unfold beq in ground arith),
      λ e. ground (arith, ap (λ (o : OrderByInt K). i.to_int o.id) e),
    ),
    λ e state. ap (λ (o : OrderByInt K). write (i.to_int o.id) state) ((beq_iff a b).0 e),
  )
