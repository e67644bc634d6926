-- ===== src/Tests/Documents.antt =====
-- src/direct/serde.rs at concrete inputs: a format whose document is the list of the items.
use mathlib.Core.List.{append-nil, append_assoc}
use idmap_rs.Common.{ℕ, ◌≡◌, refl, sym, ap, ◌∙◌, Option, none, some, List, [], ◌∷◌, ◌++◌, arith}
use idmap_rs.Run.{ok, ◌>>=◌}
use idmap_rs.Direct.{key_at}
use idmap_rs.Intid.Uint.{from_usize_wrapping}
use idmap_rs.Intid.Id.{from_int_default, from_int_unchecked_default}
use idmap_rs.Intid.Impls.{word?}
use idmap_rs.Direct.Map
use idmap_rs.Direct.Map.{DirectIdMap, get}
use idmap_rs.Direct.Map.Invariant.{IsValid}
use idmap_rs.Direct.Set.{DirectIdSet, contains}
use idmap_rs.Direct.Set.Membership
use idmap_rs.Direct.BitSet.{Bits, indices}
use idmap_rs.Direct.Serde.{
  Outcome, good, Serializer, Deserializer, serialize_map, deserialize_map, visit_map, serialize_seq,
  deserialize_seq,
}
use idmap_rs.Direct.Serde.Format.{Gives, write_items, written, IsFormat}
use idmap_rs.Direct.Serde.Visit.{visit_map-from_iter}
use idmap_rs.Direct.Serde.Maps.{deserialize-serialize_map}
use idmap_rs.Direct.Serde.Sets.{deserialize-serialize_seq}
use idmap_rs.Tests.Setup.{
  x86_64, U32, word_path, u32_id, lawful, one, three, sample, sample-IsValid,
}
use idmap_rs.Tests.Sets.{bit_list, bit_list_laws, two_members, two_members-IsValid}

module _ {Item : Type 0} where
  abbrev list_serializer : Serializer (List Item) ℕ (List Item) Item
  list_serializer = record {
    begin = λ n. good [];
    item = λ s x. good (s ++ x ∷ []);
    finish = λ s. good s;
  }

  abbrev next_item : List Item → Outcome ℕ (Option (Item × List Item))
  next_item [] = good none
  next_item (x ∷ l) = good (some (x, l))

  abbrev list_deserializer : Deserializer (List Item) ℕ (List Item) Item
  list_deserializer = record { access_of = λ doc. good doc; next = next_item }

  write_items-append : (l s : List Item) → write_items list_serializer l s ≡ good (s ++ l)
  unfolding write_items
  write_items-append [] s = ap good (sym (append-nil s))
  write_items-append (x ∷ l) s =
      write_items-append l (s ++ x ∷ []) ∙ ap good (append_assoc s (x ∷ []) l)

  list-Gives : (l : List Item) → Gives list_deserializer l l none
  list-Gives [] = Gives.ends refl
  list-Gives (x ∷ l) = Gives.gives refl (list-Gives l)

  list_format : IsFormat list_serializer list_deserializer
  unfolding written
  list_format = record {
    reads_back = λ l doc e.
        let made : ◌≡◌ {A = Outcome ℕ (List Item)} (good l) (good doc) =
          sym (rw (write_items-append l []) refl) ∙ e in
        (l, sym made, list-Gives l);
  }

abbrev entries : List (U32 × ℕ)
entries = (one, 10) ∷ (three, 30) ∷ []

visit_map-from_iter_example :
    visit_map list_deserializer 3 entries ≡ (Map.from_iter entries >>= λ r. ok (good r))
visit_map-from_iter_example =
    visit_map-from_iter list_deserializer 3 entries entries none (list-Gives entries) (omega arith)

two_words :
    {R : Type 0} (f : U32 → U32 → R) (a a' b b' : U32) → a.0 ≡ a'.0 → b.0 ≡ b'.0 → f a b ≡ f a' b'
two_words f a a' b b' e e' =
    ap (λ x. f x b) (word_path a a' e) ∙ ap (λ x. f a' x) (word_path b b' e')

sample_document : serialize_map list_serializer sample ≡ ok (good entries)
unfolding serialize_map key_at from_int_unchecked_default from_int_default word? from_usize_wrapping
sample_document = two_words (λ a b. ok (good ((a, 10) ∷ (b, 30) ∷ []))) _ one _ three refl refl

deserialize-serialize_map_example :
    (r : DirectIdMap U32 ℕ) × (deserialize_map list_deserializer 3 entries ≡ ok (good r))
    × IsValid r
    × (get r ≡ get sample)
deserialize-serialize_map_example =
    deserialize-serialize_map lawful list_format sample entries 3 sample-IsValid (omega arith)
      sample_document (omega arith)

members_document : serialize_seq list_serializer two_members ≡ ok (good (one ∷ three ∷ []))
unfolding serialize_seq key_at from_int_unchecked_default from_int_default word? from_usize_wrapping
    indices
members_document = two_words (λ a b. ok (good (a ∷ b ∷ []))) _ one _ three refl refl

deserialize-serialize_seq_example :
    (r : DirectIdSet Bits U32) × (deserialize_seq list_deserializer 3 (one ∷ three ∷ [])
      ≡ ok (good r))
    × Membership.IsValid bit_list_laws r
    × (contains r ≡ contains two_members)
deserialize-serialize_seq_example =
    deserialize-serialize_seq bit_list_laws lawful list_format two_members (one ∷ three ∷ []) 3
      two_members-IsValid members_document (omega arith)
