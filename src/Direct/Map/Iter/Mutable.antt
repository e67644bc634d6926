-- ===== src/Direct/Map/Iter/Mutable.antt =====
-- src/direct/map.rs: the references that `iter_mut` hands out, and what writing through them does.
use mathlib.Core.List.{Memᴰ}
use idmap_rs.Common.{
  ℕ, zero, suc, ◌+◌, ◌<◌, ◌≡◌, refl, sym, ap, ◌∙◌, Option, none, some, List, [], ◌∷◌, arith, length,
  slot, occupied, set,
}
use idmap_rs.Run.{ok, Platform}
use idmap_rs.Intid.Id.{IntegerId, IsLawful}
use idmap_rs.Direct.{index_of}
use idmap_rs.Direct.Map.{DirectIdMap, get}
use idmap_rs.Direct.Map.Invariant.{IsValid, set-IsWritten}
use idmap_rs.Direct.Map.Lookup.{get-slot, get-eq_some, update, IsUpdated-IsWritten}
use idmap_rs.Direct.Map.Iter.{iter, iter_mut, refs, write, collect}
use idmap_rs.Direct.Map.Iter.Entries.{IsAscending}
use idmap_rs.Direct.Map.Iter.Collect.{items, collect-iter}

module _ {V : Type 0} where
  length-refs : (i : ℕ) (xs : List (Option V)) → length (refs i xs) ≡ length xs
  length-refs i [] = refl
  length-refs i (none ∷ xs) = ap suc (length-refs (suc i) xs)
  length-refs i (some _ ∷ xs) = ap suc (length-refs (suc i) xs)

  slot-within : (xs : List (Option V)) (i : ℕ) (v : V) → slot xs i ≡ some v → i < length xs
  slot-within [] i v e = absurd (cc)
  slot-within (x ∷ xs) zero v e = omega arith
  slot-within (x ∷ xs) (suc i) v e = omega (arith, slot-within xs i v e)

  occupied-refs : (i : ℕ) (xs : List (Option V)) → occupied (refs i xs) ≡ occupied xs
  occupied-refs i [] = refl
  occupied-refs i (none ∷ xs) = omega (arith, occupied-refs (suc i) xs)
  occupied-refs i (some _ ∷ xs) = omega (arith, occupied-refs (suc i) xs)

  -- a reference is that of its own slot
  slot-refs :
      (i : ℕ) (xs : List (Option V)) (j r : ℕ)
      → slot (refs i xs) j ≡ some r
      → (r ≡ i + j) × (v : V) × (slot xs j ≡ some v)
  slot-refs i [] j r e = absurd (cc)
  slot-refs i (none ∷ xs) zero r e = absurd (cc)
  slot-refs i (some v ∷ xs) zero r e = (ground arith, v, refl)
  slot-refs i (none ∷ xs) (suc j) r e =
      let (at, v, found) = slot-refs (suc i) xs j r e in (omega (arith, at), v, found)
  slot-refs i (some _ ∷ xs) (suc j) r e =
      let (at, v, found) = slot-refs (suc i) xs j r e in (omega (arith, at), v, found)

  refs-slot :
      (i : ℕ) (xs : List (Option V)) (j : ℕ) (v : V)
      → slot xs j ≡ some v
      → slot (refs i xs) j ≡ some (i + j)
  refs-slot i [] j v e = absurd (cc)
  refs-slot i (none ∷ xs) zero v e = absurd (cc)
  refs-slot i (some w ∷ xs) zero v e = ground arith
  refs-slot i (none ∷ xs) (suc j) v e = ground (arith, refs-slot (suc i) xs j v e)
  refs-slot i (some _ ∷ xs) (suc j) v e = ground (arith, refs-slot (suc i) xs j v e)

  -- a write leaves the references as they are
  refs-set :
      (i : ℕ) (xs : List (Option V)) (j : ℕ) (v w : V)
      → slot xs j ≡ some v
      → refs i (set xs j (some w)) ≡ refs i xs
  refs-set i [] j v w e = absurd (cc)
  refs-set i (none ∷ xs) zero v w e = absurd (cc)
  refs-set i (some u ∷ xs) zero v w e = refl
  refs-set i (none ∷ xs) (suc j) v w e = ap (λ l. none ∷ l) (refs-set (suc i) xs j v w e)
  refs-set i (some u ∷ xs) (suc j) v w e = ap (λ l. some i ∷ l) (refs-set (suc i) xs j v w e)

module _ {K V : Type 0} ⦃p : Platform⦄ ⦃id : IntegerId K⦄ where
  -- the map of the references
  abbrev as_refs : DirectIdMap K V → DirectIdMap K ℕ
  as_refs self = record { values = refs 0 self.values; len = self.len }

  as_refs-IsValid : (self : DirectIdMap K V) → IsValid self → IsValid (as_refs self)
  as_refs-IsValid self h = record {
    counted = h.counted ∙ sym (occupied-refs 0 self.values);
    fits = omega (arith, h.fits, length-refs 0 self.values);
    keyed = λ i r e. let (_, v, found) = slot-refs 0 self.values i r e in h.keyed i v found;
  }

  -- a reference is to the slot of the id
  get-as_refs :
      (self : DirectIdMap K V) (k : K) (r : ℕ)
      → get (as_refs self) k ≡ some r
      → (index_of k ≡ some r) × (v : V) × (slot self.values r ≡ some v) × (get self k ≡ some v)
  get-as_refs self k r e =
      let (i, at, found, _) = get-eq_some (as_refs self) k e in
      let (shift, v, there) = slot-refs 0 self.values i r found in
      let same : i ≡ r = omega (arith, shift) in
      (at ∙ ap some same, v, ap (slot self.values) (sym same) ∙ there, get-slot self k at ∙ there)

-- What is known of a reference `i` that comes with the id `k`: the id is there, and a write through
-- the reference changes the value of this id and nothing else, also not the references.
pub record IsReference {K V : Type 0} ⦃p : Platform⦄ ⦃id : IntegerId K⦄ (self : DirectIdMap K V)
    (k : K) (i : ℕ) : Type 0 where
  pub found : (v : V) × (get self k ≡ some v)
  pub valid : (w : V) → IsValid (write self i w)
  pub written : (w : V) → get (write self i w) ≡ update (get self) k (some w)
  pub same_len : (w : V) → (write self i w).len ≡ self.len
  pub same_references : (w : V) → iter_mut (write self i w) ≡ iter_mut self

module _ {K V : Type 0} ⦃p : Platform⦄ ⦃id : IntegerId K⦄ where
  write-IsReference :
      (self : DirectIdMap K V) (k : K) (i : ℕ) (v : V)
      → IsValid self
      → index_of k ≡ some i
      → slot self.values i ≡ some v
      → get self k ≡ some v
      → IsReference self k i
  unfolding iter_mut
  write-IsReference self k i v h at there found =
      let u = λ (w : V). IsUpdated-IsWritten self k (some w) _ at (
        set-IsWritten self i self.len (some w) h (slot-within self.values i v there)
          (λ _ _. (k, at)) (rw there refl)) in
      record {
        found = (v, found);
        valid = λ w. (u w).valid;
        written = λ w. (u w).updated;
        same_len = λ w. refl;
        same_references = λ w.
            ap (λ l. record { source = record { count = 0; rest = l }; len = self.len })
              (refs-set 0 self.values i v w there);
      }

module _ {K V Item : Type 0} ⦃p : Platform⦄ ⦃id : IntegerId K⦄ (lawful : IsLawful id)
    (item : K → ℕ → Item) where
  -- For a lawful id type, walking over `iter_mut` of a valid map to the end yields a reference for each
  -- id that `get` finds and for no other, in strictly ascending order of the index, without a panic.
  -- Writing through any of them leaves a valid map that reads as before but for the written value at
  -- that id, with the same `len` and the same references.
  pub iter_mut-IsReference :
      (self : DirectIdMap K V)
      → IsValid self
      → (l : List (K × ℕ)) × (collect item (iter_mut self) ≡ ok (items item l))
        × IsAscending l
        × (length l ≡ self.len)
        × ((k : K) (i : ℕ) → Memᴰ (k, i) l → IsReference self k i)
        × ((k : K) (v : V) → get self k ≡ some v → (i : ℕ) × Memᴰ (k, i) l)
  unfolding iter_mut iter
  iter_mut-IsReference self h =
      let (l, run, up, count, mem) =
        collect-iter lawful item (as_refs self) (as_refs-IsValid self h) in
      (
        l,
        run,
        up,
        count,
        λ k i m.
            let (at, v, there, found) = get-as_refs self k i ((mem k i).0 m) in
            write-IsReference self k i v h at there found,
        λ k v e.
            let (i, at, found, _) = get-eq_some self k e in
            (
              i,
              (mem k i).1 (
                  get-slot (as_refs self) k at ∙ ground (arith, refs-slot 0 self.values i v found)),
            ),
      )
