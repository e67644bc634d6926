-- ===== src/Tests/Orders.antt =====
-- src/direct/set.rs: hash, order and equality of sets at concrete inputs, and `iter_mut` of the map.
use Prim.Native.Nat.{Ordering}
use Prim.Native.Nat.Ordering.{eq}
use mathlib.Core.List.{Memᴰ}
use idmap_rs.Common.{
  Bool, [], ℕ, ◌≡◌, ◌↔◌, refl, sym, ap, ◌∙◌, fun_ext, inl, inr, true, false, none, some, List, ◌∷◌,
  ◌++◌, arith, length, slot-pad, replicate, is_some, Option-cases,
}
use idmap_rs.Run.{ok}
use idmap_rs.Intid.Uint.{from_usize_wrapping}
use idmap_rs.Intid.Id.{from_int_default, from_int_unchecked_default}
use idmap_rs.Intid.Impls.{word?}
use idmap_rs.Intid.Id.Order
use idmap_rs.Intid.Id.Order.{OrderByInt, cmp_laws}
use idmap_rs.Direct.{index_of, key_at}
use idmap_rs.Direct.BitSet.{Bits, indices}
use idmap_rs.Direct.Map.{get, values_eq}
use idmap_rs.Direct.Map.Equality.{values_eq_of_slots, slots_of_values_eq}
use idmap_rs.Direct.Set.Compare.Equality.{beq-cmp}
use idmap_rs.Direct.Map.Iter.{iter_mut, collect}
use idmap_rs.Direct.Map.Iter.Entries.{IsAscending}
use idmap_rs.Direct.Map.Iter.Collect.{items}
use idmap_rs.Direct.Map.Iter.Mutable.{IsReference, iter_mut-IsReference}
use idmap_rs.Direct.Set.{DirectIdSet, contains, new, is_visited}
use idmap_rs.Direct.Set.Membership.{IsValid, contains-slot, contains-unrepresentable}
use idmap_rs.Direct.Set.Compare.{Hasher, hash, cmp, beq}
use idmap_rs.Direct.Set.Compare.Same.{hash-contains}
use idmap_rs.Intid.Uint.{to_usize_checked}
use idmap_rs.Direct.Set.Visits.{visit_all, first_visits, visit_all-first_visits}
use idmap_rs.Tests.Setup.{one, three, x86_64, U32, u32_id, lawful, sample, sample-IsValid}
use idmap_rs.Tests.Sets.{bit_list, bit_list_laws, two_members, two_members-IsValid}

-- the same ids, with room for one more
abbrev longer : DirectIdSet Bits U32
longer = record { handle = two_members.handle ++ replicate 1 none; len = 2 }

longer-IsValid : IsValid bit_list_laws longer
longer-IsValid = record {
  counted = refl;
  fits = omega arith;
  keyed = λ i v e. two_members-IsValid.keyed i v (sym (slot-pad two_members.handle 1 i) ∙ e);
}

same_members : contains two_members ≡ contains longer
same_members = fun_ext λ k. elim (Option-cases (index_of k)) [
  | inl far ↦
      contains-unrepresentable bit_list_laws two_members k far
      ∙ sym (contains-unrepresentable bit_list_laws longer k far)
  | inr (i, at) ↦
      contains-slot bit_list_laws two_members k at
      ∙ sym (ap is_some (slot-pad two_members.handle 1 i))
      ∙ sym (contains-slot bit_list_laws longer k at)
]

-- a hasher that keeps what it is given
abbrev recorder : Hasher (List ℕ) U32
recorder = record { write_usize = λ n state. n ∷ state; write_id = λ k state. k.0 ∷ state }

longer_hashes_alike :
    (after : List ℕ) × (hash recorder two_members [] ≡ ok after)
    × (hash recorder longer [] ≡ ok after)
longer_hashes_alike =
    hash-contains bit_list_laws lawful recorder two_members longer [] two_members-IsValid
      longer-IsValid same_members

abbrev by_int : U32 → U32 → Ordering
by_int k j = Order.cmp (record { id = k }) (record { id = j })

by_int-eq_iff : (k j : U32) → (by_int k j ≡ eq) ↔ (k ≡ j)
by_int-eq_iff k j =
    let (_, _, (to, from), _) =
      cmp_laws lawful (λ n (state : List ℕ). n ∷ state) (record { id = k }) (record { id = j })
        (record { id = k }) in
    (
      λ e. ap (λ (o : OrderByInt U32). o.id) (to e),
      λ e. from (ap (λ (x : U32). record { id = x }) e),
    )

-- where the equality of bit sets sees their length, `==` of sets does too, but `cmp` does not
equal_but_not_beq :
    (cmp by_int two_members longer ≡ ok eq)
    × (beq (values_eq (λ _ _. true)) two_members longer ≡ false)
unfolding cmp beq values_eq key_at from_int_default from_int_unchecked_default word?
    from_usize_wrapping indices Order.cmp
equal_but_not_beq = (refl, refl)

abbrev bits_eq : Bits → Bits → Bool
bits_eq = values_eq (λ _ _. true)

bits_eq_iff : (a b : Bits) → (bits_eq a b ≡ true) ↔ (a ≡ b)
bits_eq_iff a b = (
  λ e. slots_of_values_eq (λ _ _. true) (λ x y _. refl) a b e,
  λ e. rw e (values_eq_of_slots (λ _ _. true) (λ x. refl) b b refl (λ j. refl)),
)

beq-cmp_example :
    ((beq bits_eq two_members longer ≡ true) ↔ (
      (contains two_members ≡ contains longer)
      × (length two_members.handle ≡ length longer.handle)))
    × ((o : Ordering) × (cmp by_int two_members longer ≡ ok o)
        × ((o ≡ eq) ↔ (contains two_members ≡ contains longer)))
beq-cmp_example =
    beq-cmp bit_list_laws lawful bits_eq by_int bits_eq_iff by_int-eq_iff two_members longer
      two_members-IsValid longer-IsValid

abbrev reference : U32 → ℕ → U32 × ℕ
reference k i = (k, i)

iter_mut-IsReference_example :
    (l : List (U32 × ℕ)) × (collect reference (iter_mut sample) ≡ ok (items reference l))
    × IsAscending l
    × (length l ≡ 2)
    × ((k : U32) (i : ℕ) → Memᴰ (k, i) l → IsReference sample k i)
    × ((k : U32) (v : ℕ) → get sample k ≡ some v → (i : ℕ) × Memᴰ (k, i) l)
iter_mut-IsReference_example = iter_mut-IsReference lawful reference sample sample-IsValid

-- visited one, three and one again
abbrev walk : List U32
walk = one ∷ three ∷ one ∷ []

visit_all-first_visits_example :
    (r : DirectIdSet Bits U32) × (visit_all walk new ≡ ok ((first_visits (λ _. false) walk).0, r))
    × IsValid bit_list_laws r
    × (is_visited r ≡ (first_visits (λ _. false) walk).1)
unfolding index_of to_usize_checked
visit_all-first_visits_example =
    visit_all-first_visits bit_list_laws walk
      ((1, refl, omega arith), ((3, refl, omega arith), ((1, refl, omega arith), tt)))

walk_answers : (first_visits (λ (k : U32). false) walk).0 ≡ true ∷ true ∷ false ∷ []
unfolding first_visits
walk_answers = refl
