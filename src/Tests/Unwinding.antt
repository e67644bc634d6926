-- ===== src/Tests/Unwinding.antt =====
-- src/direct/set.rs: `retain` with a callback that panics, at concrete inputs.
use idmap_rs.Common.{
  ℕ, ◌+◌, ◌≡◌, refl, Bool, true, false, Option, none, some, List, [], ◌∷◌, ◌==◌, arith, length,
  replicate, if◌then◌else◌,
}
use idmap_rs.Run.{ok, unwrapped_error}
use idmap_rs.Intid.Uint.{to_usize_checked, from_usize_wrapping}
use idmap_rs.Intid.Id.{from_int_default, from_int_unchecked_default}
use idmap_rs.Intid.Impls.{word?}
use idmap_rs.Direct.{index_of, key_at}
use idmap_rs.Direct.Set.{DirectIdSet}
use idmap_rs.Direct.Set.Members.{AreKeys}
use idmap_rs.Direct.Set.Retain.{Word, retain_word}
use idmap_rs.Direct.Set.Retain.Kept.{block_ones, HasWidth}
use idmap_rs.Direct.Set.Unwind.{retain_unwinding}
use idmap_rs.Direct.Set.Unwind.Remainder.{IsRemainder}
use idmap_rs.Direct.Set.Unwind.Left.{retain_unwinding-IsRemainder}
use idmap_rs.Tests.Sets.{block_list}
use idmap_rs.Tests.Setup.{x86_64, U32, u32_id, lawful, one}

-- drops every id and counts them, and panics at 33
abbrev drop_until : ℕ → U32 → Option (Bool × ℕ)
drop_until s k = if k.0 == 33 then none else some (false, s + 1)

-- the ids 1, 32 and 33
abbrev three_ids : DirectIdSet (List Word) U32
three_ids = record {
  handle = (false ∷ true ∷ replicate 30 false) ∷ (true ∷ true ∷ replicate 30 false) ∷ [];
  len = 3;
}

abbrev ids : List U32
ids = one ∷ (32, omega arith) ∷ (33, omega arith) ∷ []

retain_unwinding-IsRemainder_example :
    (r : DirectIdSet (List Word) U32 × Option ℕ) × (left : List U32) × (retain_unwinding
        unwrapped_error drop_until three_ids 0
      ≡ ok r)
    × HasWidth 32 r.0.handle
    × AreKeys (block_ones 32 0 r.0.handle) left
    × (r.0.len ≡ length left)
    × IsRemainder drop_until 0 three_ids.handle 0 ids left r.1
unfolding index_of to_usize_checked
retain_unwinding-IsRemainder_example =
    retain_unwinding-IsRemainder lawful unwrapped_error drop_until three_ids 0 ids
      (refl, (refl, tt)) (refl, (refl, (refl, tt))) refl

-- 1 is gone, and 32 is still there, although the callback has dropped it
dropped_id_stays :
    retain_unwinding unwrapped_error drop_until three_ids 0
    ≡ ok (
      record { handle = replicate 32 false ∷ (true ∷ true ∷ replicate 30 false) ∷ []; len = 2 },
      none,
    )
unfolding retain_unwinding retain_word key_at from_usize_wrapping from_int_unchecked_default
    from_int_default word?
dropped_id_stays = refl
