-- ===== src/Tests/References.antt =====
-- Lookups by reference, and the other small operations, at concrete inputs.
use idmap_rs.Common.{ℕ, ◌≡◌, refl, true, false, Option, none, some, is_some}
use idmap_rs.Run.{ok, panic, index_out_of_bounds}
use idmap_rs.Intid.Uint.{u8, zero, one, to_usize_checked}
use idmap_rs.Intid.Id.Equivalent.{
  Ref, MutRef, EquivalentId, self_equivalent, ref_equivalent, mut_ref_equivalent,
}
use idmap_rs.Intid.Uint
use idmap_rs.Alloc.Reusing
use idmap_rs.Alloc.Unique
use idmap_rs.Derive.{from_impl}
use idmap_rs.Direct.{index_of}
use idmap_rs.Direct.Map.{get, index_ref, index_mut_ref}
use idmap_rs.Direct.Map.Iter
use idmap_rs.Direct.Set
use idmap_rs.Tests.Setup.{x86_64, U32, u32_id, u32_counter, two, three, sample}
use idmap_rs.Tests.Sets.{bit_list, two_members}

-- an id that is looked up by whatever stands for one
found_by : {Q : Type 0} ⦃e : EquivalentId U32 Q⦄ → Q → Option ℕ
found_by ⦃e⦄ q = get sample (e.as_id q)

by_value_and_reference :
    (found_by three ≡ some 30)
    × (found_by {Q = Ref U32} (record { target = three }) ≡ some 30)
    × (found_by {Q = MutRef U32} (record { target = two }) ≡ none)
unfolding found_by get index_of to_usize_checked
by_value_and_reference = (refl, refl, refl)

indexed :
    (index_ref sample (record { target = three }) ≡ ok 30)
    × (index_mut_ref sample (record { target = two }) ≡ panic index_out_of_bounds)
unfolding index_ref index_mut_ref get idmap_rs.Direct.Map.get_mut index_of to_usize_checked
indexed = (refl, refl)

-- iterating over the map itself or over a reference to it starts alike
same_start : Iter.into_iter sample ≡ Iter.iter sample
unfolding Iter.into_iter Iter.iter
same_start = refl

same_set_start : Set.into_iter two_members ≡ Set.iter two_members
unfolding Set.into_iter Set.iter
same_set_start = refl

same_item : Iter.into_iter_item {V = ℕ} three 30 ≡ Iter.iter_item three 30
same_item = refl

constants : (Uint.zero u8 ≡ 0) × (Uint.one u8 ≡ 1)
constants = (refl, refl)

defaults :
    (Unique.default {T = U32} ≡ Unique.with_start u32_counter.start)
    × (Reusing.default {T = U32} ≡ Reusing.with_start u32_counter.start)
defaults = (refl, refl)

-- `From<&Self>` is there if it is asked for
copied :
    (is_some (from_impl {T = U32} (record { from = true; counter = false; contiguous = false }))
      ≡ true)
    × (is_some (from_impl {T = U32} (record { from = false; counter = true; contiguous = true }))
        ≡ false)
unfolding from_impl
copied = (refl, refl)
