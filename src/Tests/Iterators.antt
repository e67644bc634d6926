-- ===== src/Tests/Iterators.antt =====
-- src/direct/map.rs: the iterators and `retain` at concrete inputs.
use Prim.Native.Nat.{ℕ, ◌+◌}
use mathlib.Core.List.{Memᴰ}
use idmap_rs.Common.{
  ◌≡◌, ◌≤◌, ◌↔◌, refl, none, some, List, [], ◌∷◌, length, ltb, Bool, true, false, Option,
}
use idmap_rs.Run.{ok}
use idmap_rs.Intid.Uint.{to_usize_checked, from_usize_wrapping}
use idmap_rs.Intid.Id.{from_int_default, from_int_unchecked_default}
use idmap_rs.Intid.Impls.{word?}
use idmap_rs.Direct.{index_of, key_at}
use idmap_rs.Direct.Map.{DirectIdMap, get}
use idmap_rs.Direct.Map.Invariant.{IsValid}
use idmap_rs.Direct.Map.Iter.{
  Iter, iter, size_hint, collect, Callback, retain, keys_item, values_item, fmt,
}
use idmap_rs.Direct.Map.Iter.Entries.{IsAscending, EntriesOf}
use idmap_rs.Direct.Map.Iter.Hint.{size_hint-play}
use idmap_rs.Direct.Map.Iter.Ends.{pull, ends_of_entries}
use idmap_rs.Ends.{End, front, back, taken, play, Fused}
use idmap_rs.Direct.Map.Iter.Collect.{IsExact, iter-IsExact, items, collect-iter}
use idmap_rs.Direct.Map.Iter.Retain.{kept, retain_lem}
use idmap_rs.Direct.Map.Iter.Unwind.{
  Answer, answered, panicked, remaining, retain_unwinding, retain_unwinding-remaining,
}
use idmap_rs.Direct.Set
use idmap_rs.Direct.Set.Ends
use idmap_rs.Tests.Sets.{bit_list, bit_list_laws, two_members, two_members-IsValid}
use idmap_rs.Tests.Setup.{x86_64, U32, u32_id, lawful, one, three, sample, sample-IsValid}

abbrev pair : U32 → ℕ → U32 × ℕ
pair k v = (k, v)

collect-iter_example :
    (l : List (U32 × ℕ)) × (collect pair (iter sample) ≡ ok (items pair l))
    × IsAscending l
    × (length l ≡ 2)
    × ((k : U32) (v : ℕ) → Memᴰ (k, v) l ↔ (get sample k ≡ some v))
collect-iter_example = collect-iter lawful pair sample sample-IsValid

abbrev listed : List (U32 × ℕ)
listed = (one, 10) ∷ (three, 30) ∷ []

listed-EntriesOf : EntriesOf sample listed
unfolding index_of to_usize_checked
listed-EntriesOf = (refl, refl, (refl, refl, tt))

listed-IsExact : IsExact (iter sample) listed
listed-IsExact = iter-IsExact sample listed sample-IsValid listed-EntriesOf

-- two calls take the entries, a third one returns none
ends_taken : taken {A = ℕ} (back ∷ front ∷ front ∷ []) (1 ∷ 2 ∷ []) ≡ some 2 ∷ some 1 ∷ none ∷ []
unfolding taken
ends_taken = refl

ends_of_entries_example :
    (xs : List (U32 × ℕ)) × (collect pair (iter sample) ≡ ok xs)
    × (length xs ≡ 2)
    × ((es : List End)
        → (it : Iter U32 ℕ) × (play (pull pair) es (iter sample) ≡ ok (taken es xs, it))
          × (2 ≤ length es → Fused (pull pair) (taken es xs, it) 2))
ends_of_entries_example = ends_of_entries lawful pair sample sample-IsValid

ends_of_members_example :
    (ks : List U32) × (Set.collect (Set.iter two_members) ≡ ok ks)
    × (length ks ≡ 2)
    × ((es : List End)
        → (it : Set.Iter U32) × (play Ends.pull es (Set.iter two_members) ≡ ok (taken es ks, it))
          × (2 ≤ length es → Fused Ends.pull (taken es ks, it) 2))
ends_of_members_example = Ends.ends_of_members bit_list_laws lawful two_members two_members-IsValid

-- a call of `next_back` with one pair left after it: the hint says two
size_hint-play_example :
    (rs : List (Option (U32 × ℕ))) × (it : Iter U32 ℕ) × (play (pull pair) (back ∷ []) (iter sample)
      ≡ ok (rs, it))
    × (size_hint it ≡ (2, some 2))
size_hint-play_example = size_hint-play lawful pair sample (back ∷ []) sample-IsValid

-- drops the first pair, and panics at the second one with its value doubled
abbrev drop_then_panic : Bool → U32 → ℕ → Answer Bool ℕ
drop_then_panic false k v = answered false v true
drop_then_panic true k v = panicked (v + v)

retain_unwinding-remaining_example :
    (r : DirectIdMap U32 ℕ × Option Bool) × (retain_unwinding drop_then_panic sample false ≡ ok r)
    × IsValid r.0
    × EntriesOf r.0 ((three, 60) ∷ [])
    × (r.1 ≡ none)
unfolding remaining
retain_unwinding-remaining_example =
    retain_unwinding-remaining lawful drop_then_panic sample false listed sample-IsValid
      listed-EntriesOf

-- keeps values below 20, doubles them, and counts its calls
abbrev small : Callback ℕ U32 ℕ
small s k v = record { keep = ltb v 20; value = v + v; state = s + 1 }

retain_lem_example :
    (r : DirectIdMap U32 ℕ × ℕ) × (retain small sample 0 ≡ ok r)
    × IsValid r.0
    × EntriesOf r.0 (kept small 0 listed).0
    × (r.1 ≡ (kept small 0 listed).1)
retain_lem_example = retain_lem lawful small sample 0 listed sample-IsValid listed-EntriesOf

retain-sample :
    retain small sample 0 ≡ ok (record { values = none ∷ some 20 ∷ none ∷ none ∷ []; len = 1 }, 2)
unfolding retain key_at from_usize_wrapping from_int_unchecked_default from_int_default word?
retain-sample = refl

numbers : U32 → ℕ → ℕ × ℕ
numbers k v = (k.0, v)

collect-sample : collect numbers (iter sample) ≡ ok ((1, 10) ∷ (3, 30) ∷ [])
unfolding numbers collect iter key_at from_usize_wrapping from_int_unchecked_default
    from_int_default word?
collect-sample = refl

keys-sample : collect (λ k v. (keys_item k v).0) (iter sample) ≡ ok (1 ∷ 3 ∷ [])
unfolding collect iter key_at from_usize_wrapping from_int_unchecked_default from_int_default word?
keys-sample = refl

values-sample : collect values_item (iter sample) ≡ ok (10 ∷ 30 ∷ [])
unfolding collect iter key_at from_usize_wrapping from_int_unchecked_default from_int_default word?
values-sample = refl

-- the number of the entries for a text
text-sample : fmt length sample ≡ ok 2
unfolding fmt key_at from_usize_wrapping from_int_unchecked_default from_int_default word?
text-sample = refl
