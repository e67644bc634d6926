-- ===== src/Direct/Map/Equality.antt =====
-- src/direct/map.rs: `PartialEq`, which compares the counts and the vectors.
use idmap_rs.Common.{
  ℕ, suc, ◌≡◌, ◌↔◌, refl, sym, ap, ◌∙◌, Option, none, some, List, [], ◌∷◌, Bool, true, ◌&&◌, arith,
  length, occupied, slot, Option-cases, inl, inr, ==_iff,
}
use mathlib.Core.Path.{ap₂}
use idmap_rs.Run.{Platform}
use idmap_rs.Intid.Id.{IntegerId}
use idmap_rs.Direct.Map.{DirectIdMap, get, entry_eq, values_eq, beq}
use idmap_rs.Direct.Map.Invariant.{IsValid}
use idmap_rs.Direct.Map.Lookup.{get-slot}

module _ {V : Type 0} (eq : V → V → Bool) where
  pub and_true : {a b : Bool} → (a && b) ≡ true → (a ≡ true) × (b ≡ true)
  and_true h = ground arith

  values_eq-length : (xs ys : List (Option V)) → values_eq eq xs ys ≡ true → length xs ≡ length ys
  unfolding values_eq
  values_eq-length [] [] h = refl
  values_eq-length [] (y ∷ ys) h = absurd (ground arith)
  values_eq-length (x ∷ xs) [] h = absurd (ground arith)
  values_eq-length (x ∷ xs) (y ∷ ys) h = ap suc (values_eq-length xs ys (and_true h).1)

  entry_eq_refl : ((a : V) → eq a a ≡ true) → (o : Option V) → entry_eq eq o o ≡ true
  entry_eq_refl reflexive none = refl
  entry_eq_refl reflexive (some v) = reflexive v

  pub values_eq_of_slots :
      ((a : V) → eq a a ≡ true)
      → (xs ys : List (Option V)) → length xs ≡ length ys
      → ((j : ℕ) → slot xs j ≡ slot ys j)
      → values_eq eq xs ys ≡ true
  unfolding values_eq
  values_eq_of_slots reflexive [] [] e h = refl
  values_eq_of_slots reflexive [] (y ∷ ys) e h = absurd (omega arith)
  values_eq_of_slots reflexive (x ∷ xs) [] e h = absurd (omega arith)
  values_eq_of_slots reflexive (x ∷ xs) (y ∷ ys) e h =
      let head : x ≡ y = h 0 in
      rw (head, entry_eq_refl reflexive y)
        (values_eq_of_slots reflexive xs ys (omega arith) (λ j. h (suc j)))

  occupied_of_slots :
      (xs ys : List (Option V))
      → length xs ≡ length ys
      → ((j : ℕ) → slot xs j ≡ slot ys j)
      → occupied xs ≡ occupied ys
  occupied_of_slots [] [] e h = refl
  occupied_of_slots [] (y ∷ ys) e h = absurd (omega arith)
  occupied_of_slots (x ∷ xs) [] e h = absurd (omega arith)
  occupied_of_slots (x ∷ xs) (y ∷ ys) e h =
      let head : x ≡ y = h 0 in rw (head, occupied_of_slots xs ys (omega arith) (λ j. h (suc j)))

  pub slots_of_values_eq :
      ((a b : V) → eq a b ≡ true → a ≡ b)
      → (xs ys : List (Option V)) → values_eq eq xs ys ≡ true
      → xs ≡ ys
  unfolding values_eq
  slots_of_values_eq sound [] [] h = refl
  slots_of_values_eq sound [] (y ∷ ys) h = absurd (ground arith)
  slots_of_values_eq sound (x ∷ xs) [] h = absurd (ground arith)
  slots_of_values_eq sound (none ∷ xs) (none ∷ ys) h =
      ap (◌∷◌ none) (slots_of_values_eq sound xs ys h)
  slots_of_values_eq sound (none ∷ xs) (some b ∷ ys) h = absurd (ground arith)
  slots_of_values_eq sound (some a ∷ xs) (none ∷ ys) h = absurd (ground arith)
  slots_of_values_eq sound (some a ∷ xs) (some b ∷ ys) h =
      let (here, later) = and_true h in
      ap₂ ◌∷◌ (ap some (sound a b here)) (slots_of_values_eq sound xs ys later)

module _ {K V : Type 0} ⦃p : Platform⦄ ⦃id : IntegerId K⦄ where
  slots_le_get :
      (a b : DirectIdMap K V)
      → IsValid a
      → get a ≡ get b
      → (j : ℕ) {v : V} → slot a.values j ≡ some v
      → slot b.values j ≡ some v
  slots_le_get a b h same j {v} e =
      let (k, at) = h.keyed j v e in
      sym (get-slot b k at) ∙ sym (ap (λ (f : K → Option V). f k) same) ∙ get-slot a k at ∙ e

  slots_of_get :
      (a b : DirectIdMap K V)
      → IsValid a
      → IsValid b
      → get a ≡ get b
      → (j : ℕ) → slot a.values j ≡ slot b.values j
  slots_of_get a b h h' same j = elim (Option-cases (slot a.values j)) [
    | inr (v, e) ↦ e ∙ sym (slots_le_get a b h same j e)
    | inl e ↦ elim (Option-cases (slot b.values j)) [
      | inl e' ↦ e ∙ sym e'
      | inr (w, e') ↦ slots_le_get b a h' (sym same) j e' ∙ sym e'
    ]
  ]

  pub beq_sound :
      (eq : V → V → Bool)
      → ((a b : V) → eq a b ≡ true → a ≡ b)
      → (self other : DirectIdMap K V) → beq eq self other ≡ true
      → (get self ≡ get other) × (self.len ≡ other.len)
  unfolding beq
  beq_sound eq sound self other h =
      let (count, values) = and_true eq h in
      let vectors = slots_of_values_eq eq sound self.values other.values values in
      let lens = (==_iff self.len other.len).0 count in
      (ap get (λ i. record { values = vectors i; len = lens i }), lens)

  pub beq-iff_length :
      (eq : V → V → Bool)
      → ((a : V) → eq a a ≡ true)
      → (self other : DirectIdMap K V) → IsValid self
      → IsValid other
      → get self ≡ get other
      → (beq eq self other ≡ true) ↔ (length self.values ≡ length other.values)
  unfolding beq
  beq-iff_length eq reflexive self other h h' same = (
    λ e. values_eq-length eq self.values other.values (and_true eq e).1,
    λ e.
        let slots = slots_of_get self other h h' same in
        let lens : self.len ≡ other.len =
          h.counted ∙ occupied_of_slots eq self.values other.values e slots ∙ sym h'.counted in
        rw ((==_iff self.len other.len).1 lens)
          (values_eq_of_slots eq reflexive self.values other.values e slots),
  )

  -- If `==` of the values accepts exactly equal values, `==` accepts two valid maps exactly if they
  -- read the same at every id and their vectors have the same length: slots that were once allocated
  -- count, even if nothing is in them.
  pub beq_iff :
      (eq : V → V → Bool)
      → ((a b : V) → (eq a b ≡ true) ↔ (a ≡ b))
      → (self other : DirectIdMap K V) → IsValid self
      → IsValid other
      → (beq eq self other ≡ true)
        ↔ ((get self ≡ get other) × (length self.values ≡ length other.values))
  beq_iff eq law self other h h' = (
    λ e.
        let (same, _) = beq_sound eq (λ a b. (law a b).0) self other e in
        (same, (beq-iff_length eq (λ a. (law a a).1 refl) self other h h' same).0 e),
    λ both. (beq-iff_length eq (λ a. (law a a).1 refl) self other h h' both.0).1 both.1,
  )
