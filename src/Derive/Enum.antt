-- ===== src/Derive/Enum.antt =====
-- crates/intid-derive/src/lib.rs: the implementation that is generated for a C-like enum.
use native.Mathlib.Bridge.{le_prop}
use native.Mathlib.Decide.{dec_lt}
use mathlib.Core.HLevel.{Σ_prop_path}
use idmap_rs.Common.{
  ℕ, ◌<◌, ◌≡◌, refl, sym, ap, ◌∙◌, ◌⊎◌, inl, inr, Option, none, some, and_then, List, [], arith,
  length, Option-cases,
}
use idmap_rs.Run.{ok, undefined, Platform}
use idmap_rs.Intid.Uint
use idmap_rs.Intid.Uint.{modulus}
use idmap_rs.Intid.Id.{
  IntegerId, from_int_default, from_int_default-some, from_int_default-none, IsLawful,
}
use idmap_rs.Derive.{Variant, Arm, variants_loop}
use idmap_rs.Derive.Discriminants.{
  discriminants, entry, find_arm, numbered, variants_loop-IsCounted, find_arm-entry, entry-find_arm,
}

-- the values of the enum, by the number of the variant
abbrev pub EnumOf : List Variant → Type 0
EnumOf vs = (i : ℕ) × (i < length vs)

value_of : (vs : List Variant) (i : ℕ) → Dec (i < length vs) → Option (EnumOf vs)
value_of vs i (yes h) = some (i, h)
value_of vs i (no _) = none

module _ ⦃p : Platform⦄ (vs : List Variant) (arms : List Arm) where
  unfoldable pub enum_from_int_checked : ℕ → Option (EnumOf vs)
  unfolding find_arm value_of dec_lt
  enum_from_int_checked x = and_then (find_arm arms x) λ i. value_of vs i (dec_lt i (length vs))

  -- `self as usize`
  unfoldable pub enum_to_int : EnumOf vs → ℕ
  unfolding discriminants
  enum_to_int self = entry (discriminants 0 vs) self.0

  -- the `_` arm of `from_int_unchecked` is undefined; `from_int` is the provided method
  abbrev pub enum_id : IntegerId (EnumOf vs)
  enum_id = record {
    int = Uint.usize;
    from_int = from_int_default enum_from_int_checked;
    from_int_checked = enum_from_int_checked;
    from_int_unchecked = λ x. elim (enum_from_int_checked x) [ some k ↦ ok k | none ↦ undefined ];
    to_int = enum_to_int;
  }

value_of_lem :
    (vs : List Variant) (k : EnumOf vs) (d : Dec (k.0 < length vs)) → value_of vs k.0 d ≡ some k
unfolding value_of
value_of_lem vs k (yes h) = ap some (Σ_prop_path (λ n. le_prop) refl)
value_of_lem vs k (no h) = absurd (h k.1)

value_of-number :
    (vs : List Variant) (i : ℕ) (d : Dec (i < length vs)) (k : EnumOf vs)
    → value_of vs i d ≡ some k
    → k.0 ≡ i
unfolding value_of
value_of-number vs i (yes h) k e = cc
value_of-number vs i (no h) k e = cc

module _ ⦃p : Platform⦄ (vs : List Variant) (arms : List Arm) where
  enum_to_int-entry :
      (n : ℕ) (k : EnumOf vs)
      → arms ≡ numbered 0 (discriminants 0 vs)
      → enum_from_int_checked vs arms n ≡ some k
      → enum_to_int vs arms k ≡ n
  unfolding enum_from_int_checked enum_to_int
  enum_to_int-entry n k same e = elim (Option-cases (find_arm arms n)) [
    | inl none_fits ↦ absurd (ground (arith, e))
    | inr (m, fits) ↦
        let (i, at, lt, found) = entry-find_arm 0 (discriminants 0 vs) n m (rw (sym same) fits) in
        let number = value_of-number vs m (dec_lt m (length vs)) k (ground (arith, e)) in
        let here : k.0 ≡ i = omega (arith, number, at) in rw here found
  ]

  enum_from_int_checked-to_int :
      (k : EnumOf vs)
      → arms ≡ numbered 0 (discriminants 0 vs)
      → length (discriminants 0 vs) ≡ length vs
      → ((i j : ℕ)
          → i < length (discriminants 0 vs)
          → j < length (discriminants 0 vs)
          → entry (discriminants 0 vs) i ≡ entry (discriminants 0 vs) j
          → i ≡ j)
      → enum_from_int_checked vs arms (enum_to_int vs arms k) ≡ some k
  unfolding enum_from_int_checked enum_to_int
  enum_from_int_checked-to_int k same size distinct =
      let arm : find_arm arms (entry (discriminants 0 vs) k.0) ≡ some k.0 = rw same (
        find_arm-entry 0 (discriminants 0 vs) k.0 (omega (arith, k.1, size)) distinct
        ∙ ap some (omega arith)) in
      rw arm (value_of_lem vs k (dec_lt k.0 (length vs)))

module _ ⦃p : Platform⦄ (vs : List Variant) (arms : List Arm) where
  -- the variant of the arm that fits is one of the enum
  pub find_arm-cases :
      (x : ℕ)
      → variants_loop 0 0 vs ≡ ok (arms, [])
      → ((find_arm arms x ≡ none) × (enum_from_int_checked vs arms x ≡ none))
        ⊎ ((k : EnumOf vs) × (find_arm arms x ≡ some k.0)
            × (enum_from_int_checked vs arms x ≡ some k))
  unfolding enum_from_int_checked
  find_arm-cases x run =
      let h = variants_loop-IsCounted 0 0 vs arms [] run in
      elim (Option-cases (find_arm arms x)) [
        | inl none_fits ↦ inl (none_fits, rw none_fits refl)
        | inr (m, fits) ↦
            let (i, at, lt, _) = entry-find_arm 0 (discriminants 0 vs) x m (rw h.same at fits) in
            let k : EnumOf vs = (m, omega (arith, at, lt, h.size)) in
            inr (k, fits, rw fits (value_of_lem vs k (dec_lt m (length vs))))
      ]

module _ ⦃p : Platform⦄ (vs : List Variant) (arms : List Arm) where
  -- If the macro gets through the variants of an enum without an error and without overflow of its
  -- counter, and the language gives different discriminants to different variants, as the compiler
  -- asks, then the derived id, with the arms of the generated `match`, is lawful.
  pub enum_id-IsLawful :
      variants_loop 0 0 vs ≡ ok (arms, [])
      → ((i j : ℕ)
          → i < length vs
          → j < length vs
          → entry (discriminants 0 vs) i ≡ entry (discriminants 0 vs) j
          → i ≡ j)
      → IsLawful (enum_id vs arms)
  unfolding enum_to_int
  enum_id-IsLawful run distinct =
      let h = variants_loop-IsCounted 0 0 vs arms [] run in
      record {
        in_range = λ k. h.small k.0 k.1;
        checked-to_int = λ k.
            enum_from_int_checked-to_int vs arms k h.same h.size
              (λ i j li lj. distinct i j (omega (arith, h.size)) (omega (arith, h.size)));
        to_int-checked = λ n k e. enum_to_int-entry vs arms n k h.same e;
        unchecked_of_checked = λ n k e. ground arith;
        from_int_of_checked = from_int_default-some (enum_from_int_checked vs arms);
        from_int_of_none = from_int_default-none (enum_from_int_checked vs arms);
      }
