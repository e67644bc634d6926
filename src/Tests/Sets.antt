-- ===== src/Tests/Sets.antt =====
-- src/direct/set.rs at concrete inputs, over a bit set that is its list of bits.
use Prim.Native.Nat.{ℕ, zero, suc, ◌≤◌, ◌+◌, ◌-◌}
use mathlib.Core.List.{Memᴰ}
use idmap_rs.Common.{
  ◌≡◌, ◌≢◌, ◌↔◌, refl, true, false, Bool, none, some, List, [], ◌∷◌, ◌++◌, arith, length, ltb, leb,
  set, replicate, slot, is_some, lt→ltb, if◌then◌else◌,
}
use idmap_rs.Run.{Run, ok, panic, undefined, capacity_overflow, assertion_failed}
use idmap_rs.Intid.Uint.{to_usize_checked}
use idmap_rs.Intid.Uint.{from_usize_wrapping}
use idmap_rs.Intid.Id.{from_int_default, from_int_unchecked_default}
use idmap_rs.Intid.Impls.{word?}
use idmap_rs.Direct.{index_of, key_at}
use idmap_rs.Direct.BitSet.{FixedBitSet, IsBitSet, Bits, indices}
use idmap_rs.Direct.Map.Iter.Entries.{IsAscending}
use idmap_rs.Direct.Set.{DirectIdSet, new, contains, iter, collect}
use idmap_rs.Direct.Set.Membership.{IsValid}
use idmap_rs.Direct.Set.Members.{paired, collect-contains}
use idmap_rs.Direct.Set.Refine.{Op, run, replay, run-replay}
use idmap_rs.Direct.Set.Retain.{Word, Blocks, retain_word, retain}
use idmap_rs.Direct.Set.Members.{AreKeys}
use idmap_rs.Direct.Set.Retain.Swept.{ones_from}
use idmap_rs.Direct.Set.Retain.Asked.{note, retain-asks_wrong}
use idmap_rs.Direct.Set.Retain.Dropped.{drop_all, retain-drop_all}
use idmap_rs.Tests.Setup.{x86_64, U32, u32_id, lawful, one, two, three}

-- room for a thousand bits
instance abbrev pub bit_list : FixedBitSet Bits
bit_list = record {
  new = [];
  with_capacity = λ n. if leb n 1000 then ok (replicate n none) else panic capacity_overflow;
  len = length;
  contains = λ b i. is_some (slot b i);
  contains_unchecked = λ b i. if ltb i (length b) then ok (is_some (slot b i)) else undefined;
  grow_and_insert = λ b i.
      if ltb i 1000
      then ok (set (b ++ replicate (i + 1 - length b) none) i (some tt))
      else panic capacity_overflow;
  remove_unchecked = λ b i. if ltb i (length b) then ok (set b i none) else undefined;
  clear = λ b. replicate (length b) none;
  ones = indices 0;
}

pub with_capacity-ok : (n : ℕ) → n ≤ 1000 → bit_list.with_capacity n ≡ ok (replicate n none)
with_capacity-ok n le = ground arith

abbrev pub bit_list_laws : IsBitSet bit_list
bit_list_laws = record {
  limit = 1000;
  limit_small = omega arith;
  bits = λ b. b;
  new_bits = refl;
  with_capacity_bits = λ n le. (replicate n none, with_capacity-ok n le, refl);
  len_bits = λ b. refl;
  contains_bits = λ b i. refl;
  contains_unchecked_bits = λ b i lt. rw (lt→ltb i (length b) lt) refl;
  grow_and_insert_bits = λ b i lt. (_, rw (lt→ltb i 1000 lt) refl, refl);
  remove_unchecked_bits = λ b i lt. (set b i none, rw (lt→ltb i (length b) lt) refl, refl);
  clear_bits = λ b. refl;
  ones_bits = λ b. refl;
}

abbrev pub two_members : DirectIdSet Bits U32
two_members = record { handle = none ∷ some tt ∷ none ∷ some tt ∷ []; len = 2 }

pub two_members-IsValid : IsValid bit_list_laws two_members
unfolding index_of to_usize_checked
two_members-IsValid = record { counted = refl; fits = omega arith; keyed = λ i v e. keyed i v e }
  where
    keyed :
        (i : ℕ) (v : Unit {0})
        → slot two_members.handle i ≡ some v
        → (k : U32) × (index_of k ≡ some i)
    keyed zero v e = absurd (cc)
    keyed (suc zero) v e = (one, refl)
    keyed (suc (suc zero)) v e = absurd (cc)
    keyed (suc (suc (suc zero))) v e = (three, refl)
    keyed (suc (suc (suc (suc i)))) v e = absurd (cc)

abbrev calls : List (Op U32)
calls = Op.insert one ∷ Op.insert three ∷ Op.remove one ∷ Op.clear ∷ Op.insert two ∷ []

run-replay_example :
    (r : DirectIdSet Bits U32) × (run calls new ≡ ok ((replay calls (λ _. false)).0, r))
    × IsValid bit_list_laws r
    × (contains r ≡ (replay calls (λ _. false)).1)
unfolding index_of to_usize_checked
run-replay_example =
    run-replay bit_list_laws calls
      ((1, refl, omega arith), ((3, refl, omega arith), ((2, refl, omega arith), tt)))

collect-contains_example :
    (ks : List U32) × (collect (iter two_members) ≡ ok ks)
    × IsAscending (paired ks)
    × (length ks ≡ 2)
    × ((k : U32) → Memᴰ k ks ↔ (contains two_members k ≡ true))
collect-contains_example = collect-contains bit_list_laws lawful two_members two_members-IsValid

-- a callback that drops the first bit that it is asked for
abbrev drop_first : Bool → ℕ → Run (Bool × Bool)
drop_first dropped bit = ok (dropped, true)

one_dropped :
    retain_word drop_first (false ∷ true ∷ true ∷ []) false
    ≡ ok (record { word = false ∷ false ∷ true ∷ []; removed = 1; state = true })
unfolding retain_word
one_dropped = refl

-- the blocks of a bit set as the bit set
instance abbrev pub block_list : Blocks (List Word)
block_list = record {
  words = λ b. b;
  with_words = λ b words. words;
  words_with_words = λ b words e. refl;
}

-- a callback that keeps all ids and lists their integers
abbrev seen : List ℕ → U32 → Bool × List ℕ
seen s k = (true, s ++ k.0 ∷ [])

-- the set of the id 64, in blocks of 64 bits
abbrev second_block : DirectIdSet (List Word) U32
second_block = record { handle = replicate 64 false ∷ (true ∷ replicate 63 false) ∷ []; len = 1 }

-- `retain` asks for the id 32, which is not in the set
retain-second_block : retain seen second_block [] ≡ ok (second_block, 32 ∷ [])
unfolding retain retain_word key_at from_usize_wrapping from_int_unchecked_default from_int_default
    word?
retain-second_block = refl

-- the set of the id 32, in blocks of 32 bits
abbrev narrow_block : DirectIdSet (List Word) U32
narrow_block = record { handle = replicate 32 false ∷ (true ∷ replicate 31 false) ∷ []; len = 1 }

retain-narrow_block : retain seen narrow_block [] ≡ ok (narrow_block, 32 ∷ [])
unfolding retain retain_word key_at from_usize_wrapping from_int_unchecked_default from_int_default
    word?
retain-narrow_block = refl

abbrev narrow_id : U32
narrow_id = (32, omega arith)

abbrev second_id : U32
second_id = (64, omega arith)

retain-asks_wrong_example :
    (r : DirectIdSet (List Word) U32 × List U32) × (retain note second_block [] ≡ ok r)
    × (r.1 ≡ narrow_id ∷ [])
    × (narrow_id ∷ [] ≢ second_id ∷ [])
unfolding index_of to_usize_checked
retain-asks_wrong_example =
    retain-asks_wrong lawful second_block (replicate 64 false) ((true ∷ replicate 63 false) ∷ [])
      (second_id ∷ []) (narrow_id ∷ []) refl (refl, (refl, tt)) (refl, tt) (λ e. cc) (refl, tt)

-- the ids of a run of integers
abbrev run_of : (n i : ℕ) → i + n ≤ 100 → List U32
run_of zero i le = []
run_of (suc n) i le = (i, omega (arith, le)) ∷ run_of n (suc i) (omega (arith, le))

run_of-AreKeys :
    (n i : ℕ) (le : i + n ≤ 100) → AreKeys (ones_from i (replicate n true)) (run_of n i le)
unfolding index_of to_usize_checked
run_of-AreKeys zero i le = tt
run_of-AreKeys (suc n) i le = (ground (arith, le), run_of-AreKeys n (suc i) (omega (arith, le)))

-- a block with 33 bits that are set
abbrev full_block : DirectIdSet (List Word) U32
full_block = record { handle = replicate 33 true ∷ []; len = 33 }

retain-drop_all_example : retain drop_all full_block (tt {0}) ≡ panic assertion_failed
retain-drop_all_example =
    retain-drop_all lawful full_block (tt {0}) (run_of 33 0 (omega arith))
      (run_of-AreKeys 33 0 (omega arith)) refl
