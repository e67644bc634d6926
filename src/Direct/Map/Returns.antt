-- ===== src/Direct/Map/Returns.antt =====
-- src/direct/map.rs: what is known of a call of `insert` or `remove` that has returned.
use native.Mathlib.Decide.{dec_lt, dec_le}
use idmap_rs.Common.{
  arith, ℕ, ◌≡◌, sym, ◌∙◌, ◌⊎◌, inl, inr, none, some, Option, length, Option-cases,
}
use idmap_rs.Run.{ok, panic, Panic, of_ok, Platform}
use idmap_rs.Intid.Id.{IntegerId}
use idmap_rs.Direct.{index_of}
use idmap_rs.Direct.Map.{DirectIdMap, insert, remove}
use idmap_rs.Direct.Map.Growth.{HasRoom, new_len}
use idmap_rs.Direct.Map.Invariant.{IsValid}
use idmap_rs.Direct.Map.Lookup.{
  IsUpdated, insert_lem, insert-panic, remove_lem, remove-unrepresentable,
}

module _ {K V : Type 0} ⦃p : Platform⦄ ⦃id : IntegerId K⦄ where
  HasRoom-cases : (self : DirectIdMap K V) (i : ℕ) → HasRoom self i ⊎ (¬ HasRoom self i)
  HasRoom-cases self i = elim (dec_lt i (length self.values)) [
    | yes within ↦ inl (inl within)
    | no beyond ↦ elim (dec_le (new_len self i) p.vec_cap) [
      | yes fits ↦ inl (inr fits)
      | no full ↦ inr (λ room. elim room [ inl within ↦ beyond within | inr fits ↦ full fits ])
    ]
  ]

  -- On a valid map, `insert` of an id whose index fits `usize` and for which there is room returns
  -- the previous value of the id, and a valid map that reads as before but for the new value at
  -- that id, with one entry more if the id had none. `insert` without room panics, and so does
  -- `insert` of an id beyond `usize`.
  pub insert-cases :
      (self : DirectIdMap K V) (k : K) (v : V)
      → IsValid self
      → ((i : ℕ) × (r : Option V × DirectIdMap K V) × (index_of k ≡ some i)
          × HasRoom self i
          × (insert self k v ≡ ok r)
          × IsUpdated self k (some v) r)
        ⊎ (((i : ℕ) → index_of k ≡ some i → ¬ HasRoom self i)
            × ((e : Panic) × (insert self k v ≡ panic e)))
  insert-cases self k v h = elim (Option-cases (index_of k)) [
    | inl far ↦
        let none_fits : (i : ℕ) → index_of k ≡ some i → ¬ HasRoom self i = λ i at. absurd (cc) in
        inr (none_fits, insert-panic self k v h none_fits)
    | inr (i, at) ↦ elim (HasRoom-cases self i) [
      | inl room ↦ let (r, run, u) = insert_lem self k v h at room in inl (i, r, at, room, run, u)
      | inr full ↦
          let none_fits : (j : ℕ) → index_of k ≡ some j → ¬ HasRoom self j =
            λ j at' room. let there : j ≡ i = ground arith in full (rw there at room) in
          inr (none_fits, insert-panic self k v h none_fits)
    ]
  ]

  pub insert-IsUpdated :
      (self : DirectIdMap K V) (k : K) (v : V) (r : Option V × DirectIdMap K V)
      → IsValid self
      → insert self k v ≡ ok r
      → IsUpdated self k (some v) r
  insert-IsUpdated self k v r h e = elim (insert-cases self k v h) [
    | inl (_, s, _, _, run, u) ↦ rw (of_ok (sym run ∙ e)) at u
    | inr (_, refused) ↦ let (x, panicked) = refused in absurd (cc)
  ]

  pub remove-IsUpdated :
      (self : DirectIdMap K V) (k : K) (r : Option V × DirectIdMap K V)
      → IsValid self
      → remove self k ≡ ok r
      → IsUpdated self k none r
  remove-IsUpdated self k r h e = elim (Option-cases (index_of k)) [
    | inl far ↦ let (_, run) = remove-unrepresentable self k far in absurd (cc)
    | inr (i, at) ↦ let (s, run, u) = remove_lem self k h at in rw (of_ok (sym run ∙ e)) at u
  ]
