-- ===== src/Compose/Ids.antt =====
-- crates/intid/src/impls.rs and crates/intid-derive/src/lib.rs together: the id types that a program
-- has without an implementation of its own, which are the integers that crates/intid implements its
-- traits for and the structs that the macro derives them for, one around another.
use Prim.Native.Nat.Ordering.{eq}
use idmap_rs.Common.{ℕ, ◌<◌, ◌≡◌, ◌↔◌, refl, sym, some}
use idmap_rs.Run.{Platform}
use idmap_rs.Intid.Uint.{PrimInt, modulus}
use idmap_rs.Intid.Id.{
  IntegerId, IsLawful, ContiguousIntegerId, IsContiguous, IntegerIdCounter, checked_add,
  checked_sub, checked_add-checked_sub_iff,
}
use idmap_rs.Intid.Id.Order.{OrderByInt, cmp, cmp_laws}
use idmap_rs.Intid.Impls.{
  Word, NonZero, primint_id, primint_id-IsLawful, nonzero_id, nonzero_id-IsLawful,
  primint_contiguous, primint-IsContiguous, nonzero_contiguous, nonzero-IsContiguous,
  primint_counter, nonzero_counter,
}
use idmap_rs.Intid.Impls.NonMax.{
  NonMax, IsNonMax, nonmax_id, nonmax_id-IsLawful, nonmax_contiguous, nonmax-IsContiguous,
  nonmax_counter,
}
use idmap_rs.Derive.Newtype.{Newtype, newtype_id, newtype_id-IsLawful}

-- the types of the three macro calls of impls.rs
pub data Base : Type 0 where
  word : PrimInt → Base
  nonzero : PrimInt → Base
  nonmax : PrimInt → Base

-- one of them, or a struct with one field
pub data Kind : Type 0 where
  base : Base → Kind
  newtype : Kind → Kind

module _ ⦃p : Platform⦄ (N : PrimInt → Type 0) (ops : (t : PrimInt) → NonMax (N t)) where
  abbrev pub BaseOf : Base → Type 0
  BaseOf (word t) = Word t
  BaseOf (nonzero t) = NonZero t
  BaseOf (nonmax t) = N t

  abbrev pub base_id : (b : Base) → IntegerId (BaseOf b)
  base_id (word t) = primint_id t
  base_id (nonzero t) = nonzero_id t
  base_id (nonmax t) = nonmax_id t (ops t)

  abbrev pub IdOf : Kind → Type 0
  IdOf (base b) = BaseOf b
  IdOf (newtype k) = Newtype (IdOf k)

  abbrev pub id_of : (k : Kind) → IntegerId (IdOf k)
  id_of (base b) = base_id b
  id_of (newtype k) = newtype_id (id_of k)

  module _ (wide : (t : PrimInt) → 1 < modulus t) where
    abbrev pub base_contiguous : (b : Base) → ContiguousIntegerId (BaseOf b)
    base_contiguous (word t) = primint_contiguous t
    base_contiguous (nonzero t) = nonzero_contiguous t (wide t)
    base_contiguous (nonmax t) = nonmax_contiguous t (ops t)

    abbrev pub base_counter : (b : Base) → IntegerIdCounter (BaseOf b)
    base_counter (word t) = primint_counter t
    base_counter (nonzero t) = nonzero_counter t (wide t)
    base_counter (nonmax t) = nonmax_counter t (ops t)

module _ ⦃p : Platform⦄ (N : PrimInt → Type 0) (ops : (t : PrimInt) → NonMax (N t))
    (laws : (t : PrimInt) → IsNonMax t (ops t)) where
  base_id-IsLawful : (b : Base) → IsLawful (base_id N ops b)
  base_id-IsLawful (word t) = primint_id-IsLawful t
  base_id-IsLawful (nonzero t) = nonzero_id-IsLawful t
  base_id-IsLawful (nonmax t) = nonmax_id-IsLawful (laws t)

  lawful_of : (k : Kind) → IsLawful (id_of N ops k)
  lawful_of (base b) = base_id-IsLawful b
  lawful_of (newtype k) = newtype_id-IsLawful (id_of N ops k) (lawful_of k)

  module _ (wide : (t : PrimInt) → 1 < modulus t) where
    base-IsContiguous :
        (b : Base)
        → IsContiguous (base_id N ops b) (base_contiguous N ops wide b)
          × ((base_counter N ops wide b).start ≡ (base_contiguous N ops wide b).min_id)
          × ((base_counter N ops wide b).start_int
              ≡ (base_id N ops b).to_int (base_counter N ops wide b).start)
    base-IsContiguous (word t) = (primint-IsContiguous t, refl, refl)
    base-IsContiguous (nonzero t) = (nonzero-IsContiguous t (wide t), refl, refl)
    base-IsContiguous (nonmax t) = (nonmax-IsContiguous (laws t), refl, sym (laws t).get_zero)

    -- Every integer type that crates/intid implements `IntegerId` for, where the types of nonmax do
    -- what their documentation says and every integer type has more than one value, and every struct
    -- that is derived around one or around another such struct, is a lawful id. So `OrderByInt` finds
    -- two of its ids equal only if they are the same, and to step forward by `checked_add` and back by
    -- `checked_sub` are inverse. For those that are no structs, the valid integers are exactly those
    -- from `MIN_ID` to `MAX_ID`, `START` is `MIN_ID`, and `START_INT` is the integer of `START`.
    pub id_of-IsLawful :
        (k : Kind)
        → IsLawful (id_of N ops k)
          × ((a b : OrderByInt (IdOf N ops k)) → (cmp ⦃i = id_of N ops k⦄ a b ≡ eq) ↔ (a ≡ b))
          × ((a b : IdOf N ops k) (n : ℕ)
              → (checked_add ⦃id = id_of N ops k⦄ a n ≡ some b)
                ↔ (checked_sub ⦃id = id_of N ops k⦄ b n ≡ some a))
          × ((b : Base)
              → IsContiguous (base_id N ops b) (base_contiguous N ops wide b)
                × ((base_counter N ops wide b).start ≡ (base_contiguous N ops wide b).min_id)
                × ((base_counter N ops wide b).start_int
                    ≡ (base_id N ops b).to_int (base_counter N ops wide b).start))
    id_of-IsLawful k = (
      lawful_of k,
      λ a b.
          let (_, _, same, _) =
            cmp_laws ⦃i = id_of N ops k⦄ (lawful_of k) (λ n (state : ℕ). n) a b a in
          same,
      checked_add-checked_sub_iff ⦃id = id_of N ops k⦄ (lawful_of k),
      base-IsContiguous,
    )
