-- ===== src/Direct/Set/Members.antt =====
-- src/direct/set.rs: iterating over a set. The bits that are set are the entries of a map to the
-- unit type, whose lemmas on entries apply.
mod Paired
pub use Paired.*
use mathlib.Core.List.Memᴰ
use mathlib.Core.List.{Memᴰ}
use idmap_rs.Common.{
  ℕ, zero, suc, ◌+◌, ◌-◌, ◌<◌, ◌≡◌, refl, sym, ap, ◌∙◌, ◌↔◌, inl, inr, true, Option, none, some,
  List, [], ◌∷◌, arith, length, map, is_some, Option-cases,
}
use idmap_rs.Run.{ok, Platform}
use idmap_rs.Intid.Id.{IntegerId, IsLawful}
use idmap_rs.Direct.{index_of, key_at-index_of}
use idmap_rs.Direct.BitSet.{FixedBitSet, IsBitSet, Bits, indices}
use idmap_rs.Direct.Map.{DirectIdMap, get}
use idmap_rs.Direct.Map.Lookup.{get-slot, get-unrepresentable}
use idmap_rs.Direct.Map.Iter.Entries.{
  IsEntries, IsEntries-exist, IsEntries-IsAscending, length-IsEntries, IsAscending, mem-EntriesOf,
}
use idmap_rs.Direct.Set.{DirectIdSet, contains, Iter, iter, next, collect_loop, collect}
use idmap_rs.Direct.Set.Membership.{IsValid, contains-slot, contains-unrepresentable}

module _ {T : Type 0} ⦃p : Platform⦄ ⦃id : IntegerId T⦄ where
  -- the ids of a list of indices
  abbrev pub AreKeys : List ℕ → List T → Type 0
  AreKeys [] [] = Unit
  AreKeys (i ∷ is) (k ∷ ks) = (index_of k ≡ some i) × AreKeys is ks
  AreKeys _ _ = ⊥

  indices-AreKeys :
      (i : ℕ) (bits : Bits) (ks : List T)
      → IsEntries i bits (paired ks)
      → AreKeys (indices i bits) ks
  unfolding indices
  indices-AreKeys i [] [] es = tt
  indices-AreKeys i [] (k ∷ ks) es = absurd es
  indices-AreKeys i (none ∷ bits) ks es = indices-AreKeys (suc i) bits ks es
  indices-AreKeys i (some _ ∷ bits) [] es = absurd es
  indices-AreKeys i (some _ ∷ bits) (k ∷ ks) (at, _, es) = (at, indices-AreKeys (suc i) bits ks es)

  -- the iterator has the ids left, and counts them
  pub record Remains (it : Iter T) (ks : List T) : Type 0 where
    pub keys : AreKeys it.handle ks
    pub exact : it.len ≡ length ks

module _ {T : Type 0} ⦃p : Platform⦄ ⦃id : IntegerId T⦄ (lawful : IsLawful id) where
  next-keys :
      (len : ℕ) (handle : List ℕ) (k : T) (ks : List T)
      → AreKeys handle (k ∷ ks)
      → len ≡ suc (length ks)
      → (it : Iter T) × (next (record { len = len; handle = handle }) ≡ ok (some k, it))
        × Remains it ks
        × (length it.handle < length handle)
  unfolding next
  next-keys len [] k ks keys e = absurd keys
  next-keys len (i ∷ is) k ks (at, keys) e = (
    record { len = len - 1; handle = is },
    ground (arith, key_at-index_of lawful k i at),
    record { keys = keys; exact = omega arith },
    omega arith,
  )

  -- For a lawful id type, `next` returns the first id that is left, keeps the others and counts
  -- down.
  pub next-Remains :
      (it : Iter T) (k : T) (ks : List T)
      → Remains it (k ∷ ks)
      → (it' : Iter T) × (next it ≡ ok (some k, it'))
        × Remains it' ks
        × (length it'.handle < length it.handle)
  next-Remains it k ks r = next-keys it.len it.handle k ks r.keys r.exact

  pub next-none : (it : Iter T) → Remains it [] → next it ≡ ok (none, it)
  unfolding next
  next-none it r = at_end it.len it.handle r.keys r.exact
    where
      at_end :
          (len : ℕ) (handle : List ℕ)
          → AreKeys {T = T} handle []
          → len ≡ 0
          → next {T = T} (record { len = len; handle = handle })
            ≡ ok (none, record { len = len; handle = handle })
      at_end len [] keys e = ground arith
      at_end len (_ ∷ _) keys e = absurd keys

  collect_loop_lem :
      (fuel : ℕ) (it : Iter T) (ks : List T)
      → length it.handle < fuel
      → Remains it ks
      → collect_loop fuel it ≡ ok ks
  unfolding collect_loop
  collect_loop_lem zero it ks f r = absurd (omega arith)
  collect_loop_lem (suc fuel) it [] f r = rw (next-none it r) refl
  collect_loop_lem (suc fuel) it (k ∷ ks) f r =
      let (it', run, left, shorter) = next-Remains it k ks r in
      rw run (rw (collect_loop_lem fuel it' ks (omega arith) left) refl)

  pub collect-Remains : (it : Iter T) (ks : List T) → Remains it ks → collect it ≡ ok ks
  unfolding collect
  collect-Remains it ks r = collect_loop_lem (suc (length it.handle)) it ks (omega arith) r

is_some_iff : (o : Option (Unit {0})) → (o ≡ some tt) ↔ (is_some o ≡ true)
is_some_iff none = (λ e. absurd (ground arith), λ e. absurd (ground arith))
is_some_iff (some _) = (λ e. refl, λ e. refl)

module _ {B T : Type 0} ⦃p : Platform⦄ ⦃fbs : FixedBitSet B⦄ ⦃id : IntegerId T⦄
    (laws : IsBitSet fbs) where
  -- the set as a map to the unit type
  abbrev pub as_map : DirectIdSet B T → DirectIdMap T (Unit {0})
  as_map self = record { values = laws.bits self.handle; len = self.len }

  pub contains-as_map :
      (self : DirectIdSet B T) (k : T) → contains self k ≡ is_some (get (as_map self) k)
  contains-as_map self k = elim (Option-cases (index_of k)) [
    | inl far ↦
        contains-unrepresentable laws self k far
        ∙ sym (ap is_some (get-unrepresentable (as_map self) k far))
    | inr (i, e) ↦ contains-slot laws self k e ∙ sym (ap is_some (get-slot (as_map self) k e))
  ]

  pub keys-exist :
      (self : DirectIdSet B T)
      → IsValid laws self
      → (ks : List T) × IsEntries 0 (laws.bits self.handle) (paired ks)
  keys-exist self h =
      let (l, es) =
        IsEntries-exist 0 (laws.bits self.handle)
          (λ j v e. let start : 0 + j ≡ j = omega arith in rw start (h.keyed j v e)) in
      (ids l, rw (paired-ids l) es)

  pub iter-Remains :
      (self : DirectIdSet B T) (ks : List T)
      → IsValid laws self
      → IsEntries 0 (laws.bits self.handle) (paired ks)
      → Remains (iter self) ks
  unfolding iter
  iter-Remains self ks h es = record {
    keys = rw (laws.ones_bits self.handle) (indices-AreKeys 0 (laws.bits self.handle) ks es);
    exact = omega (
      arith,
      h.counted,
      length-IsEntries 0 (laws.bits self.handle) (paired ks) es,
      length-paired ks,
    );
  }

  -- the members of a set, which its iterator has left
  pub members :
      (lawful : IsLawful id) (self : DirectIdSet B T)
      → IsValid laws self
      → (ks : List T) × Remains (iter self) ks
        × IsAscending (paired ks)
        × (length ks ≡ self.len)
        × ((k : T) → Memᴰ k ks ↔ (contains self k ≡ true))
  members lawful self h =
      let (ks, es) = keys-exist self h in
      (
        ks,
        iter-Remains self ks h es,
        IsEntries-IsAscending 0 (laws.bits self.handle) (paired ks) es,
        omega (
          arith,
          h.counted,
          length-IsEntries 0 (laws.bits self.handle) (paired ks) es,
          length-paired ks,
        ),
        λ k.
            let (to, from) = mem-EntriesOf lawful (as_map self) (paired ks) k tt es in
            let (some_to, some_from) = is_some_iff (get (as_map self) k) in
            (
              λ m. contains-as_map self k ∙ some_to (to ((mem-paired k ks).0 m)),
              λ e. (mem-paired k ks).1 (from (some_from (sym (contains-as_map self k) ∙ e))),
            ),
      )

  -- For a lawful id type, iterating over a valid set to the end yields the ids that `contains` finds
  -- and no other, in strictly ascending order of the index and as many as `len` says. No step of it
  -- panics or meets an invalid integer.
  pub collect-contains :
      (lawful : IsLawful id) (self : DirectIdSet B T)
      → IsValid laws self
      → (ks : List T) × (collect (iter self) ≡ ok ks)
        × IsAscending (paired ks)
        × (length ks ≡ self.len)
        × ((k : T) → Memᴰ k ks ↔ (contains self k ≡ true))
  collect-contains lawful self h =
      let (ks, r, up, count, mem) = members lawful self h in
      (ks, collect-Remains lawful (iter self) ks r, up, count, mem)
