-- ===== src/Direct/Serde.antt =====
-- src/direct/serde.rs: `Serialize` and `Deserialize` of the maps and the sets. The crate serde and the
-- formats are not here: a serializer and the access that a deserializer gives to a visitor are
-- interfaces. The parsing of one key or value, and its errors, are the format's.
pub mod Format
pub mod Visit
pub mod Maps
pub mod Sets
use idmap_rs.Common.{ℕ, zero, suc, Option, none, some, List, [], ◌∷◌, length}
use idmap_rs.Run.{Run, ok, out_of_fuel, ◌>>=◌, Platform}
use idmap_rs.Intid.Uint.Text.{Text, codes}
use idmap_rs.Intid.Id.{IntegerId}
use idmap_rs.Direct.BitSet.{FixedBitSet}
use idmap_rs.Direct.Map
use idmap_rs.Direct.Map.{DirectIdMap}
use idmap_rs.Direct.Map.Iter
use idmap_rs.Direct.Set
use idmap_rs.Direct.Set.{DirectIdSet}

-- `Result` with an error of serde
pub data Outcome (E A : Type 0) : Type 0 where
  good : A → Outcome E A
  bad : E → Outcome E A

-- what `expecting` writes, for the messages of a deserializer that finds something else
abbrev pub map_expecting : Text
map_expecting = codes "a DirectIdMap"

abbrev pub set_expecting : Text
set_expecting = codes "a DirectIdSet"

-- `Serializer` with `SerializeMap` or `SerializeSeq`: `begin` takes the number of items, `item` is
-- `serialize_entry` or `serialize_element`; the document is what the serializer makes
pub record Serializer (S E Doc Item : Type 0) : Type 0 where
  pub begin : Option ℕ → Outcome E S
  pub item : S → Item → Outcome E S
  pub finish : S → Outcome E Doc

-- `Deserializer` with `MapAccess` or `SeqAccess`: `access_of` is what it hands to the visitor for a
-- document, or its error, `next` is `next_entry` or `next_element`
pub record Deserializer (A E Doc Item : Type 0) : Type 0 where
  pub access_of : Doc → Outcome E A
  pub next : A → Outcome E (Option (Item × A))

module _ {S E Doc K V : Type 0} ⦃p : Platform⦄ ⦃id : IntegerId K⦄
    (ser : Serializer S E Doc (K × V)) where
  -- the `for` over the entries, which an error ends
  pub serialize_entries : ℕ → Map.Iter.Iter K V → S → Run (Outcome E S)
  serialize_entries zero it map = out_of_fuel
  serialize_entries (suc fuel) it map = Map.Iter.next (λ k v. (k, v)) it >>= λ r. elim r.0 [
    | none ↦ ok (good map)
    | some entry ↦ elim (ser.item map entry) [
      | good map ↦ serialize_entries fuel r.1 map
      | bad e ↦ ok (bad e)
    ]
  ]

  unfoldable pub serialize_map : DirectIdMap K V → Run (Outcome E Doc)
  unfolding serialize_entries Map.Iter.next Map.Iter.iter
  serialize_map self = elim (ser.begin (some self.len)) [
    | bad e ↦ ok (bad e)
    | good map ↦ do
      r ← serialize_entries (suc (length self.values)) (Map.Iter.iter self) map
      elim r [ good map ↦ ok (ser.finish map) | bad e ↦ ok (bad e) ]
  ]

module _ {A E Doc K V : Type 0} ⦃p : Platform⦄ ⦃id : IntegerId K⦄
    (de : Deserializer A E Doc (K × V)) where
  -- the `while let` of `visit_map`
  pub visit_entries : ℕ → DirectIdMap K V → A → Run (Outcome E (DirectIdMap K V))
  visit_entries zero result access = out_of_fuel
  visit_entries (suc fuel) result access = elim (de.next access) [
    | bad e ↦ ok (bad e)
    | good none ↦ ok (good result)
    | good (some (entry, access)) ↦
        Map.insert result entry.0 entry.1 >>= λ r. visit_entries fuel r.1 access
  ]

  unfoldable pub visit_map : ℕ → A → Run (Outcome E (DirectIdMap K V))
  unfolding visit_entries Map.insert
  visit_map fuel access = visit_entries fuel Map.new access

  unfoldable pub deserialize_map : ℕ → Doc → Run (Outcome E (DirectIdMap K V))
  unfolding visit_map
  deserialize_map fuel doc = elim (de.access_of doc) [
    | bad e ↦ ok (bad e)
    | good access ↦ visit_map fuel access
  ]

module _ {S E Doc T : Type 0} ⦃p : Platform⦄ ⦃id : IntegerId T⦄ (ser : Serializer S E Doc T) where
  pub serialize_elements : ℕ → Set.Iter T → S → Run (Outcome E S)
  serialize_elements zero it seq = out_of_fuel
  serialize_elements (suc fuel) it seq = Set.next it >>= λ r. elim r.0 [
    | none ↦ ok (good seq)
    | some value ↦ elim (ser.item seq value) [
      | good seq ↦ serialize_elements fuel r.1 seq
      | bad e ↦ ok (bad e)
    ]
  ]

module _ {S E Doc B T : Type 0} ⦃p : Platform⦄ ⦃fbs : FixedBitSet B⦄ ⦃id : IntegerId T⦄
    (ser : Serializer S E Doc T) where
  unfoldable pub serialize_seq : DirectIdSet B T → Run (Outcome E Doc)
  unfolding serialize_elements Set.next Set.iter
  serialize_seq self = elim (ser.begin (some self.len)) [
    | bad e ↦ ok (bad e)
    | good seq ↦ do
      r ← serialize_elements ser (suc (length (Set.iter self).handle)) (Set.iter self) seq
      elim r [ good seq ↦ ok (ser.finish seq) | bad e ↦ ok (bad e) ]
  ]

module _ {A E Doc B T : Type 0} ⦃p : Platform⦄ ⦃fbs : FixedBitSet B⦄ ⦃id : IntegerId T⦄
    (de : Deserializer A E Doc T) where
  -- the `while let` of `visit_seq`
  pub visit_elements : ℕ → DirectIdSet B T → A → Run (Outcome E (DirectIdSet B T))
  visit_elements zero result seq = out_of_fuel
  visit_elements (suc fuel) result seq = elim (de.next seq) [
    | bad e ↦ ok (bad e)
    | good none ↦ ok (good result)
    | good (some (element, seq)) ↦ Set.insert result element >>= λ r. visit_elements fuel r.1 seq
  ]

  unfoldable pub visit_seq : ℕ → A → Run (Outcome E (DirectIdSet B T))
  unfolding visit_elements Set.insert
  visit_seq fuel seq = visit_elements fuel Set.new seq

  unfoldable pub deserialize_seq : ℕ → Doc → Run (Outcome E (DirectIdSet B T))
  unfolding visit_seq
  deserialize_seq fuel doc = elim (de.access_of doc) [
    | bad e ↦ ok (bad e)
    | good seq ↦ visit_seq fuel seq
  ]
