-- ===== src/Direct/Serde/Sets.antt =====
-- src/direct/serde.rs: what the serialization of a set writes, and that it is read back.
use idmap_rs.Common.{
  ℕ, zero, suc, ◌+◌, ◌<◌, ◌≤◌, ◌≡◌, fun_ext, refl, sym, ap, ◌∙◌, ◌==◌, true, false, Option, none,
  some, List, [], ◌∷◌, arith, length, is_some, inl, inr, Bool-cases,
}
use idmap_rs.Run.{of_ok, ok, Platform}
use idmap_rs.Intid.Id.{IntegerId, IsLawful}
use idmap_rs.Direct.BitSet.{FixedBitSet, IsBitSet, Bits}
use idmap_rs.Direct.Map
use idmap_rs.Direct.Map.Lookup
use idmap_rs.Direct.Map.Refine
use idmap_rs.Direct.Map.Iter.Entries.{
  IsEntries, IsEntries-IsAscending, length-IsEntries, mem-EntriesOf,
}
use idmap_rs.Direct.Set.{DirectIdSet, contains, Iter, iter}
use idmap_rs.Direct.Set.Membership.{IsValid, update}
use idmap_rs.Direct.Set.Refine.{AllKeysBelow, updates, from_iter-updates}
use idmap_rs.Direct.Set.Members.{
  Remains, next-Remains, next-none, paired, length-paired, as_map, contains-as_map, keys-exist,
  iter-Remains,
}
use idmap_rs.Direct.Serde.{
  good, Serializer, Deserializer, serialize_elements, serialize_seq, deserialize_seq,
}
use idmap_rs.Direct.Serde.Format.{next_item, around_items, write_items, written, IsFormat}
use idmap_rs.Direct.Serde.Visit.{visit_seq-from_iter}
use idmap_rs.Direct.Serde.Maps.{updates-entries}

module _ {S E Doc T : Type 0} ⦃p : Platform⦄ ⦃id : IntegerId T⦄ (lawful : IsLawful id)
    (ser : Serializer S E Doc T) where
  serialize_elements_lem :
      (fuel : ℕ) (it : Iter T) (ks : List T) (s : S)
      → length it.handle < fuel
      → Remains it ks
      → serialize_elements ser fuel it s ≡ ok (write_items ser ks s)
  unfolding serialize_elements write_items
  serialize_elements_lem zero it ks s f r = absurd (omega arith)
  serialize_elements_lem (suc fuel) it [] s f r = rw (next-none lawful it r) refl
  serialize_elements_lem (suc fuel) it (k ∷ ks) s f r =
      let (it', run, left, shorter) = next-Remains lawful it k ks r in
      rw run (
        next_item ser (ser.item s k) _ _
          (λ s'. serialize_elements_lem fuel it' ks s' (omega arith) left))

module _ {S E Doc B T : Type 0} ⦃p : Platform⦄ ⦃fbs : FixedBitSet B⦄ ⦃id : IntegerId T⦄
    (laws : IsBitSet fbs) (lawful : IsLawful id) (ser : Serializer S E Doc T) where
  -- For a lawful id type, serializing a valid set ends without a panic; it writes the ids whose bits are
  -- set, in their order and announced with their number, and returns the document or the first error of
  -- the serializer.
  pub serialize_seq-written :
      (self : DirectIdSet B T)
      → IsValid laws self
      → (ks : List T) × (serialize_seq ser self ≡ ok (written ser ks))
        × IsEntries 0 (laws.bits self.handle) (paired ks)
        × (length ks ≡ self.len)
  unfolding serialize_seq
  serialize_seq-written self h =
      let (ks, es) = keys-exist laws self h in
      let r = iter-Remains laws self ks h es in
      let count : self.len ≡ length ks = omega (
        arith,
        h.counted,
        length-IsEntries 0 (laws.bits self.handle) (paired ks) es,
        length-paired ks,
      ) in
      (
        ks,
        around_items ser self.len ks _ count (λ s.
            serialize_elements_lem lawful ser (suc (length (iter self).handle)) (iter self) ks s
              (omega arith) r),
        es,
        sym count,
      )

module _ {T : Type 0} ⦃p : Platform⦄ ⦃id : IntegerId T⦄ where
  update-is_some :
      (f : T → Option (Unit {0})) (k : T)
      → update (λ j. is_some (f j)) k true ≡ (λ j. is_some (Map.Lookup.update f k (some tt) j))
  update-is_some f k = fun_ext λ j. elim (Bool-cases (id.to_int k == id.to_int j)) [
    | inl same ↦ rw same refl
    | inr other ↦ rw other refl
  ]

  updates-paired :
      (ks : List T) (f : T → Option (Unit {0}))
      → updates ks (λ j. is_some (f j)) ≡ (λ j. is_some (Map.Refine.updates (paired ks) f j))
  unfolding updates Map.Refine.updates
  updates-paired [] f = refl
  updates-paired (k ∷ ks) f =
      ap (updates ks) (update-is_some f k) ∙ updates-paired ks (Map.Lookup.update f k (some tt))

module _ {B T : Type 0} ⦃p : Platform⦄ ⦃fbs : FixedBitSet B⦄ ⦃id : IntegerId T⦄
    (laws : IsBitSet fbs) where
  AllKeysBelow-entries :
      (i : ℕ) (bits : Bits) (ks : List T)
      → IsEntries i bits (paired ks)
      → i + length bits ≤ laws.limit
      → AllKeysBelow {T = T} laws ks
  AllKeysBelow-entries i [] [] es h = tt
  AllKeysBelow-entries i [] (_ ∷ _) es h = absurd es
  AllKeysBelow-entries i (none ∷ bits) ks es h =
      AllKeysBelow-entries (suc i) bits ks es (omega (arith, h))
  AllKeysBelow-entries i (some _ ∷ bits) [] es h = absurd es
  AllKeysBelow-entries i (some _ ∷ bits) (k ∷ ks) (at, _, es) h =
      ((i, at, omega (arith, h)), AllKeysBelow-entries (suc i) bits ks es (omega (arith, h)))

  contains-entries :
      (self : DirectIdSet B T) (ks : List T)
      → IsLawful id
      → IsEntries 0 (laws.bits self.handle) (paired ks)
      → updates ks (λ _. false) ≡ contains self
  contains-entries self ks lawful es =
      let entries =
        updates-entries (as_map laws self) (paired ks) lawful
          (IsEntries-IsAscending 0 (laws.bits self.handle) (paired ks) es)
          (λ k v. mem-EntriesOf lawful (as_map laws self) (paired ks) k v es) in
      updates-paired ks (λ _. none)
      ∙ ap (λ f j. is_some (f j)) entries
      ∙ sym (fun_ext λ k. contains-as_map laws self k)

module _ {S A E Doc B T : Type 0} ⦃p : Platform⦄ ⦃fbs : FixedBitSet B⦄ ⦃id : IntegerId T⦄
    (laws : IsBitSet fbs) (lawful : IsLawful id) {ser : Serializer S E Doc T}
    {de : Deserializer A E Doc T} (format : IsFormat ser de) where
  -- For a lawful id type, a lawful bit set and a format that reads back what it writes, if serializing
  -- a valid set gives a document, then deserializing this document with more fuel than the set has
  -- members returns, without a panic, a valid set that contains the same ids.
  pub deserialize-serialize_seq :
      (self : DirectIdSet B T) (doc : Doc) (fuel : ℕ)
      → IsValid laws self
      → serialize_seq ser self ≡ ok (good doc)
      → self.len < fuel
      → (r : DirectIdSet B T) × (deserialize_seq de fuel doc ≡ ok (good r))
        × IsValid laws r
        × (contains r ≡ contains self)
  unfolding deserialize_seq
  deserialize-serialize_seq self doc fuel h done enough =
      let (ks, wrote, es, count) = serialize_seq-written laws lawful ser self h in
      let made : written ser ks ≡ good doc = of_ok (sym wrote ∙ done) in
      let (a, access, given) = format.reads_back ks doc made in
      let below =
        AllKeysBelow-entries laws 0 (laws.bits self.handle) ks es (omega (arith, h.fits)) in
      let (r, built, _, valid, reads) = from_iter-updates laws ks below in
      (
        r,
        rw (access, deserialize_seq)
            (visit_seq-from_iter de fuel a ks none given (omega (arith, count, enough))
              ∙ rw built refl),
        valid,
        reads ∙ contains-entries laws self ks lawful es,
      )
