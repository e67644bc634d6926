-- ===== src/Derive/Discriminants.antt =====
-- crates/intid-derive/src/lib.rs: the discriminants that the language gives to the variants of a
-- C-like enum, against the loop of the macro and the arms that it makes.
use idmap_rs.Common.{
  ℕ, zero, suc, ◌+◌, ◌<◌, ◌≡◌, refl, sym, ap, inl, inr, Option, none, some, List, [], ◌∷◌, arith,
  ◌==◌, if◌then◌else◌, length, Bool-cases,
}
use idmap_rs.Run.{ok, Platform, usize_mod, usize_add, >>=-eq_ok}
use idmap_rs.Derive.{
  Error, Discriminant, implicit, literal, expression, Variant, Arm, next_idx, variants_loop,
}

-- the rule of the language, for the discriminants that the macro accepts: a variant without one has
-- that of the variant before it plus one, and the first one 0
abbrev pub discriminant_from : ℕ → Discriminant → ℕ
discriminant_from next (literal (some n)) = n
discriminant_from next _ = next

unfoldable pub discriminants : ℕ → List Variant → List ℕ
discriminants next [] = []
discriminants next (v ∷ vs) =
    let d = discriminant_from next v.discriminant in d ∷ discriminants (suc d) vs

abbrev pub entry : List ℕ → ℕ → ℕ
entry [] i = 0
entry (d ∷ ds) zero = d
entry (d ∷ ds) (suc i) = entry ds i

-- the generated `match`: the first arm that fits
unfoldable pub find_arm : List Arm → ℕ → Option ℕ
find_arm [] x = none
find_arm (a ∷ arms) x = let rest = find_arm arms x in if a.idx == x then some a.variant else rest

-- the arms for a list of discriminants, of the variants from number `n` on
abbrev pub numbered : ℕ → List ℕ → List Arm
numbered n [] = []
numbered n (d ∷ ds) = record { idx = d; variant = n } ∷ numbered (suc n) ds

first_or_later :
    {m : ℕ} (d : ℕ) (ds : List ℕ) (n : ℕ)
    → d < m
    → ((i : ℕ) → i < n → entry ds i < m)
    → (i : ℕ) → i < suc n
    → entry (d ∷ ds) i < m
first_or_later d ds n lt h zero le = lt
first_or_later d ds n lt h (suc i) le = h i (omega arith)

module _ ⦃p : Platform⦄ where
  -- the macro counts as the language does
  pub record IsCounted (n idx : ℕ) (vs : List Variant) (arms : List Arm) : Type 0 where
    pub same : arms ≡ numbered n (discriminants idx vs)
    pub size : length (discriminants idx vs) ≡ length vs
    pub small : (i : ℕ) → i < length vs → entry (discriminants idx vs) i < usize_mod

  pub next_idx-discriminant_from :
      (idx : ℕ) (d : Discriminant) → (next_idx idx d).0 ≡ discriminant_from idx d
  next_idx-discriminant_from idx implicit = refl
  next_idx-discriminant_from idx (literal (some n)) = refl
  next_idx-discriminant_from idx (literal none) = refl
  next_idx-discriminant_from idx expression = refl

  pub variants_loop-IsCounted :
      (n idx : ℕ) (vs : List Variant) (arms : List Arm) (es : List Error)
      → variants_loop n idx vs ≡ ok (arms, es)
      → IsCounted n idx vs arms
  unfolding variants_loop discriminants
  variants_loop-IsCounted n idx [] arms es e = record {
    same = ground arith;
    size = refl;
    small = λ i lt. absurd (omega arith);
  }
  variants_loop-IsCounted n idx (v ∷ vs) arms es e =
      let d = discriminant_from idx v.discriminant in
      let here = next_idx-discriminant_from idx v.discriminant in
      let (next, fits, e') = >>=-eq_ok (usize_add (next_idx idx v.discriminant).0 1) _ e in
      let (rest, ran, e'') = >>=-eq_ok (variants_loop (suc n) next vs) _ e' in
      let up : (next ≡ suc d) × (d < usize_mod) = (ground arith, ground arith) in
      let again : variants_loop (suc n) (suc d) vs ≡ ok (rest.0, rest.1) = rw (sym up.0) ran in
      let h = variants_loop-IsCounted (suc n) (suc d) vs rest.0 rest.1 again in
      let split : arms ≡ record { idx = (next_idx idx v.discriminant).0; variant = n } ∷ rest.0 =
        ground arith in
      record {
        same = ground (arith, here, h.same);
        size = ap suc h.size;
        small = λ i lt. first_or_later d (discriminants (suc d) vs) (length vs) up.1 h.small i lt;
      }

module _ where
  pub find_arm-entry :
      (n : ℕ) (ds : List ℕ) (i : ℕ)
      → i < length ds
      → ((i j : ℕ) → i < length ds → j < length ds → entry ds i ≡ entry ds j → i ≡ j)
      → find_arm (numbered n ds) (entry ds i) ≡ some (n + i)
  unfolding find_arm
  find_arm-entry n [] i lt h = absurd (omega arith)
  find_arm-entry n (d ∷ ds) zero lt h = ground arith
  find_arm-entry n (d ∷ ds) (suc i) lt h = ground (
    arith,
    h 0 (suc i),
    find_arm-entry (suc n) ds i (omega arith)
        (λ a b la lb e. omega (arith, h (suc a) (suc b) (omega arith) (omega arith) e)),
  )

  pub entry-find_arm :
      (n : ℕ) (ds : List ℕ) (x m : ℕ)
      → find_arm (numbered n ds) x ≡ some m
      → (i : ℕ) × (m ≡ n + i) × (i < length ds) × (entry ds i ≡ x)
  unfolding find_arm
  entry-find_arm n [] x m e = absurd (ground arith)
  entry-find_arm n (d ∷ ds) x m e = elim (Bool-cases (d == x)) [
    | inl here ↦ (0, ground arith, omega arith, ground arith)
    | inr there ↦
        let (i, at, lt, found) = entry-find_arm (suc n) ds x m (ground arith) in
        (suc i, omega arith, omega arith, found)
  ]
