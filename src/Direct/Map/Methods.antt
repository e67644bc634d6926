-- ===== src/Direct/Map/Methods.antt =====
-- src/direct/map.rs: `clear`, `shrink_to_fit`, the mutable references and `Index`.
use idmap_rs.Common.{
  ℕ, ◌≤◌, ◌≡◌, ◌≢◌, refl, sym, ap, ◌∙◌, fun_ext, none, some, List, [], ◌∷◌, ◌++◌, reverse, Option,
  arith, length, slot, occupied, length-append, Option-cases, set, get_elem?-slot, inl, inr,
  slot-pad, occupied-pad,
}
use mathlib.Core.List.{reverse-cons, reverse-reverse, reverse-append}
use mathlib.Core.Path.{subst}
use idmap_rs.Run.{panic, index_out_of_bounds, Platform}
use idmap_rs.Intid.Id.{IntegerId}
use idmap_rs.Direct.{index_of}
use idmap_rs.Direct.Map.{
  DirectIdMap, new, clear, pop_empty, shrink_to_fit, get, get_mut, index, index_mut,
}
use idmap_rs.Direct.Map.Invariant.{IsValid, set-IsWritten}
use idmap_rs.Direct.Map.Lookup.{
  update, get-eq_some, IsUpdated-IsWritten, get-slot, get-unrepresentable,
}

module _ {V : Type 0} where
  -- `before` is `after` with empty slots behind it
  record IsTrim (before after : List (Option V)) : Type 0 where
    same_slots : (j : ℕ) → slot after j ≡ slot before j
    same_count : occupied after ≡ occupied before
    no_longer : length after ≤ length before

  reverse_one : (xs : List (Option V)) → reverse (none ∷ xs) ≡ reverse xs ++ none ∷ []
  reverse_one xs = reverse-cons none xs

  pop_empty-IsTrim : (xs : List (Option V)) → IsTrim (reverse xs) (reverse (pop_empty xs))
  unfolding pop_empty
  pop_empty-IsTrim [] = record {
    same_slots = λ j. refl;
    same_count = refl;
    no_longer = omega arith;
  }
  pop_empty-IsTrim (none ∷ xs) =
      let ih = pop_empty-IsTrim xs in
      rw reverse_one (record {
        same_slots = λ j. ih.same_slots j ∙ sym (slot-pad (reverse xs) 1 j);
        same_count = ih.same_count ∙ sym (occupied-pad (reverse xs) 1);
        no_longer = omega (arith, ih.no_longer, length-append (reverse xs) (none ∷ []));
      })
  pop_empty-IsTrim (some v ∷ xs) = record {
    same_slots = λ j. refl;
    same_count = refl;
    no_longer = omega arith;
  }

  shrunk-IsTrim : (xs : List (Option V)) → IsTrim xs (reverse (pop_empty (reverse xs)))
  shrunk-IsTrim xs =
      subst (λ ys. IsTrim ys (reverse (pop_empty (reverse xs)))) (reverse-reverse xs)
        (pop_empty-IsTrim (reverse xs))

  pop_empty-head : (xs : List (Option V)) (rest : List (Option V)) → pop_empty xs ≢ none ∷ rest
  unfolding pop_empty
  pop_empty-head [] rest e = cc
  pop_empty-head (none ∷ xs) rest e = pop_empty-head xs rest e
  pop_empty-head (some v ∷ xs) rest e = cc

module _ {K V : Type 0} ⦃p : Platform⦄ ⦃id : IntegerId K⦄ where
  get_of_slots :
      (a b : DirectIdMap K V) → ((j : ℕ) → slot a.values j ≡ slot b.values j) → get a ≡ get b
  get_of_slots a b same = fun_ext λ k. elim (Option-cases (index_of k)) [
    | inl far ↦ get-unrepresentable a k far ∙ sym (get-unrepresentable b k far)
    | inr (i, at) ↦ get-slot a k at ∙ same i ∙ sym (get-slot b k at)
  ]

  -- `shrink_to_fit` changes nothing that a caller can look up: a valid map stays valid, reads the
  -- same and has the same `len`. Its vector gets no longer and no longer ends in an empty slot.
  pub shrink_to_fit_lem :
      (self : DirectIdMap K V)
      → IsValid self
      → IsValid (shrink_to_fit self)
        × (get (shrink_to_fit self) ≡ get self)
        × ((shrink_to_fit self).len ≡ self.len)
        × (length (shrink_to_fit self).values ≤ length self.values)
        × ((rest : List (Option V)) → (shrink_to_fit self).values ≢ rest ++ none ∷ [])
  unfolding shrink_to_fit
  shrink_to_fit_lem self h =
      let t = shrunk-IsTrim self.values in
      (
        record {
          counted = h.counted ∙ sym t.same_count;
          fits = omega (arith, t.no_longer, h.fits);
          keyed = λ i v e. h.keyed i v (sym (t.same_slots i) ∙ e);
        },
        get_of_slots _ self t.same_slots,
        refl,
        t.no_longer,
        λ rest e.
            pop_empty-head (reverse self.values) (reverse rest)
              (sym (reverse-reverse _) ∙ ap reverse e ∙ reverse-append rest (none ∷ [])),
      )

  pub get-new : get {K = K} {V = V} new ≡ (λ _. none)
  get-new = fun_ext λ k. elim (Option-cases (index_of k)) [
    | inl far ↦ get-unrepresentable new k far
    | inr (i, at) ↦ get-slot new k at
  ]

  -- `clear` leaves the valid map that reads as nothing and counts nothing, whatever was in it.
  pub clear_lem :
      (self : DirectIdMap K V)
      → IsValid (clear self) × (get (clear self) ≡ (λ _. none)) × ((clear self).len ≡ 0)
  unfolding clear
  clear_lem self =
      (record { counted = refl; fits = omega arith; keyed = λ i v e. cc }, get-new, refl)

  -- In a valid map, where `get` finds a value `get_mut` has a reference to it.
  -- Writing through it leaves the map valid, with the same `len`, and reading as before but for
  -- the written value at that id.
  pub get_mut_lem :
      (self : DirectIdMap K V) (k : K) (v : V)
      → IsValid self
      → get self k ≡ some v
      → (write : V → DirectIdMap K V) × (get_mut self k ≡ some (v, write))
        × ((w : V)
            → IsValid (write w)
              × (get (write w) ≡ update (get self) k (some w))
              × ((write w).len ≡ self.len))
  unfolding get_mut
  get_mut_lem self k v h e =
      let (i, at, found, within) = get-eq_some self k e in
      (
        λ w. record self { values = set self.values i (some w) },
        rw (at, get_elem?-slot self.values i within, found),
        λ w.
            let u =
              IsUpdated-IsWritten self k (some w) _ at (
                set-IsWritten self i self.len (some w) h within (λ _ _. (k, at)) (rw found refl)) in
            (u.valid, u.updated, refl),
      )

  get_mut-eq_none : (self : DirectIdMap K V) (k : K) → get self k ≡ none → get_mut self k ≡ none
  unfolding get get_mut
  get_mut-eq_none self k e = ground arith

  -- Where `get` finds nothing there is no reference either, and both indexing operators panic.
  pub get_mut-none :
      (self : DirectIdMap K V) (k : K)
      → get self k ≡ none
      → (get_mut self k ≡ none)
        × (index self k ≡ panic index_out_of_bounds)
        × (index_mut self k ≡ panic index_out_of_bounds)
  unfolding index index_mut
  get_mut-none self k e = ground (arith, get_mut-eq_none self k e)
