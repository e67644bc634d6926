-- ===== src/Direct/Map/Iter/Entries.antt =====
-- src/direct/map.rs: the entries that an iterator has left, as a list of pairs.
use mathlib.Core.List.Memᴰ
use mathlib.Core.List.{Memᴰ}
use idmap_rs.Common.{
  ℕ, zero, suc, ◌+◌, ◌≤◌, ◌≡◌, refl, sym, ap, ◌∙◌, ◌↔◌, Option, none, some, List, [], ◌∷◌, arith,
  length, slot, occupied, inl, inr,
}
use idmap_rs.Run.{Platform}
use idmap_rs.Intid.Id.{IntegerId, IsLawful}
use idmap_rs.Direct.{index_of, IsIndex, index_of-injective}
use idmap_rs.Direct.Map.{DirectIdMap, get}
use idmap_rs.Direct.Map.Invariant.{IsValid}
use idmap_rs.Direct.Map.Lookup.{get-slot, get-eq_some}

module _ (K : Type 0) {V : Type 0} ⦃p : Platform⦄ ⦃id : IntegerId K⦄ where
  -- `keyed` of the invariant, for elements numbered from `i`
  abbrev pub AllKeyed : ℕ → List (Option V) → Type 0
  AllKeyed i xs = (j : ℕ) (v : V) → slot xs j ≡ some v → IsIndex K (i + j)

  pub AllKeyed-tail :
      (i : ℕ) (x : Option V) (xs : List (Option V)) → AllKeyed i (x ∷ xs) → AllKeyed (suc i) xs
  AllKeyed-tail i x xs h j v e =
      let shift : i + suc j ≡ suc i + j = omega arith in rw shift at (h (suc j) v e)

module _ {K V : Type 0} ⦃p : Platform⦄ ⦃id : IntegerId K⦄ where
  -- the list has a pair for each entry, in order; the elements are numbered from `i`
  abbrev pub IsEntries : ℕ → List (Option V) → List (K × V) → Type 0
  IsEntries i [] [] = Unit
  IsEntries i [] (_ ∷ _) = ⊥
  IsEntries i (none ∷ xs) l = IsEntries (suc i) xs l
  IsEntries i (some v ∷ xs) [] = ⊥
  IsEntries i (some v ∷ xs) ((k, w) ∷ l) = (index_of k ≡ some i) × (w ≡ v) × IsEntries (suc i) xs l

  -- every pair's index is at least `i`
  abbrev pub From : ℕ → List (K × V) → Type 0
  From i [] = Unit
  From i ((k, v) ∷ l) = ((n : ℕ) × (index_of k ≡ some n) × (i ≤ n)) × From i l

  -- the indices strictly grow
  abbrev pub IsAscending : List (K × V) → Type 0
  IsAscending [] = Unit
  IsAscending ((k, v) ∷ l) = ((n : ℕ) × (index_of k ≡ some n) × From (suc n) l) × IsAscending l

  -- a list of pairs is there
  pub IsEntries-exist :
      (i : ℕ) (xs : List (Option V)) → AllKeyed K i xs → (l : List (K × V)) × IsEntries i xs l
  IsEntries-exist i [] h = ([], tt)
  IsEntries-exist i (none ∷ xs) h = IsEntries-exist (suc i) xs (AllKeyed-tail K i none xs h)
  IsEntries-exist i (some v ∷ xs) h =
      let (l, es) = IsEntries-exist (suc i) xs (AllKeyed-tail K i (some v) xs h) in
      let here : i + 0 ≡ i = omega arith in
      let (k, at) : IsIndex K i = rw here at (h 0 v refl) in ((k, v) ∷ l, (at, refl, es))

  pub length-IsEntries :
      (i : ℕ) (xs : List (Option V)) (l : List (K × V)) → IsEntries i xs l → length l ≡ occupied xs
  length-IsEntries i [] [] es = refl
  length-IsEntries i [] (_ ∷ _) es = absurd es
  length-IsEntries i (none ∷ xs) l es = omega (arith, length-IsEntries (suc i) xs l es)
  length-IsEntries i (some v ∷ xs) [] es = absurd es
  length-IsEntries i (some v ∷ xs) (e ∷ l) es = omega (arith, length-IsEntries (suc i) xs l es.2)

  pub From-weaken : (i : ℕ) (l : List (K × V)) → From (suc i) l → From i l
  From-weaken i [] h = tt
  From-weaken i ((k, v) ∷ l) ((n, at, le), rest) = ((n, at, omega arith), From-weaken i l rest)

  IsEntries-From : (i : ℕ) (xs : List (Option V)) (l : List (K × V)) → IsEntries i xs l → From i l
  IsEntries-From i [] [] es = tt
  IsEntries-From i [] (_ ∷ _) es = absurd es
  IsEntries-From i (none ∷ xs) l es = From-weaken i l (IsEntries-From (suc i) xs l es)
  IsEntries-From i (some v ∷ xs) [] es = absurd es
  IsEntries-From i (some v ∷ xs) ((k, w) ∷ l) (at, same, es) =
      ((i, at, omega arith), From-weaken i l (IsEntries-From (suc i) xs l es))

  pub IsEntries-IsAscending :
      (i : ℕ) (xs : List (Option V)) (l : List (K × V)) → IsEntries i xs l → IsAscending l
  IsEntries-IsAscending i [] [] es = tt
  IsEntries-IsAscending i [] (_ ∷ _) es = absurd es
  IsEntries-IsAscending i (none ∷ xs) l es = IsEntries-IsAscending (suc i) xs l es
  IsEntries-IsAscending i (some v ∷ xs) [] es = absurd es
  IsEntries-IsAscending i (some v ∷ xs) ((k, w) ∷ l) (at, same, es) =
      ((i, at, IsEntries-From (suc i) xs l es), IsEntries-IsAscending (suc i) xs l es)

  -- a pair of the list is an entry of the vector
  entry_of_mem :
      (i : ℕ) (xs : List (Option V)) (l : List (K × V)) (k : K) (v : V)
      → IsEntries i xs l
      → Memᴰ (k, v) l
      → (j : ℕ) × (index_of k ≡ some (i + j)) × (slot xs j ≡ some v)
  entry_of_mem i [] [] k v es m = absurd (Memᴰ.not-nil m)
  entry_of_mem i [] (_ ∷ _) k v es m = absurd es
  entry_of_mem i (none ∷ xs) l k v es m =
      let (j, at, found) = entry_of_mem (suc i) xs l k v es m in (suc j, ground arith, found)
  entry_of_mem i (some w ∷ xs) [] k v es m = absurd es
  entry_of_mem i (some w ∷ xs) ((k', u) ∷ l) k v (at, same, es) m = elim (Memᴰ.cases_cons m) [
    | inl e ↦ (0, here e, ap some (sym same ∙ sym (ap (λ (x : K × V). x.1) e)))
    | inr later ↦
        let (j, at', found) = entry_of_mem (suc i) xs l k v es later in (suc j, ground arith, found)
  ]
    where
      here : ◌≡◌ {A = K × V} (k, v) (k', u) → index_of k ≡ some (i + 0)
      here e =
          let zero_more : i + 0 ≡ i = omega arith in
          rw zero_more (ap (λ (x : K × V). index_of x.0) e ∙ at)

  -- an entry of the vector is a pair of the list, with the id of its index
  pub mem_of_entry :
      (i : ℕ) (xs : List (Option V)) (l : List (K × V)) (j : ℕ) (v : V)
      → IsEntries i xs l
      → slot xs j ≡ some v
      → (k : K) × (index_of k ≡ some (i + j)) × Memᴰ (k, v) l
  mem_of_entry i [] l j v es e = absurd (ground arith)
  mem_of_entry i (none ∷ xs) l zero v es e = absurd (ground arith)
  mem_of_entry i (none ∷ xs) l (suc j) v es e =
      let (k, at, m) = mem_of_entry (suc i) xs l j v es e in (k, ground arith, m)
  mem_of_entry i (some w ∷ xs) [] j v es e = absurd es
  mem_of_entry i (some w ∷ xs) ((k, u) ∷ l) zero v (at, same, es) e =
      let read : v ≡ u = cc in (k, ground arith, Memᴰ.head (ap (λ x. (k, x)) read))
  mem_of_entry i (some w ∷ xs) ((k, u) ∷ l) (suc j) v (at, same, es) e =
      let (k', at', m) = mem_of_entry (suc i) xs l j v es e in (k', ground arith, Memᴰ.tail m)

  pub IsEntries-keyed :
      (i : ℕ) (xs : List (Option V)) (l : List (K × V)) → IsEntries i xs l → AllKeyed K i xs
  IsEntries-keyed i xs l es j v e = let (k, at, _) = mem_of_entry i xs l j v es e in (k, at)

module _ {K V : Type 0} ⦃p : Platform⦄ ⦃id : IntegerId K⦄ where
  -- the pairs of a map
  abbrev pub EntriesOf : DirectIdMap K V → List (K × V) → Type 0
  EntriesOf self l = IsEntries 0 self.values l

  pub EntriesOf-exist :
      (self : DirectIdMap K V) → IsValid self → (l : List (K × V)) × EntriesOf self l
  EntriesOf-exist self h =
      IsEntries-exist 0 self.values
        (λ j v e. let start : 0 + j ≡ j = omega arith in rw start (h.keyed j v e))

module _ {K V : Type 0} ⦃p : Platform⦄ ⦃id : IntegerId K⦄ (lawful : IsLawful id) where
  -- the list has a pair exactly for each id that `get` finds, with the value found
  pub mem-EntriesOf :
      (self : DirectIdMap K V) (l : List (K × V)) (k : K) (v : V)
      → EntriesOf self l
      → Memᴰ (k, v) l ↔ (get self k ≡ some v)
  mem-EntriesOf self l k v es = (
    λ m.
        let (j, at, found) = entry_of_mem 0 self.values l k v es m in
        let at' : index_of k ≡ some j = ground arith in get-slot self k at' ∙ found,
    λ e.
        let (j, at, found, _) = get-eq_some self k e in
        let (k', at', m) = mem_of_entry 0 self.values l j v es found in
        let same = index_of-injective lawful k k' j at (ground arith) in
        Memᴰ.cast (ap (λ x. (x, v)) same) m,
  )
