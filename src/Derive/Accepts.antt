-- ===== src/Derive/Accepts.antt =====
-- crates/intid-derive/src/lib.rs: which items the macro accepts.
use idmap_rs.Common.{
  ℕ, zero, suc, ◌≡◌, refl, sym, ap, ◌∙◌, ◌↔◌, inl, inr, Bool, true, false, none, some, List, [],
  ◌∷◌, ◌++◌, arith, if◌then◌else◌,
}
use idmap_rs.Run.{of_ok, ok, Platform, usize_add, >>=-eq_ok}
use idmap_rs.Derive.{
  Error, not_for_enums, struct_generated, enum_generated, Parsed, done, failed, Meta, Attribute,
  Options, attr_options, Discriminant, implicit, literal, expression, Variant, Input, struct, enum,
  union, Arm, Generated, newtype, arms, next_idx, field_errors, variants_loop, option_errors,
  item_generated, impl_integer_id,
}
use idmap_rs.Derive.Words.{
  is_counter, is_contiguous, has, words, asked, AreOptions, attr_options-done, attr_options-cases,
}

abbrev is_simple : Discriminant → Bool
is_simple implicit = true
is_simple (literal (some _)) = true
is_simple _ = false

-- no variant has fields, and each has no discriminant or a literal that fits `usize`
abbrev pub AreCLike : List Variant → Type 0
AreCLike [] = Unit
AreCLike (v ∷ vs) = (v.has_fields ≡ false) × (is_simple v.discriminant ≡ true) × AreCLike vs

-- the items that are supported with given words
abbrev pub IsSupported : List Meta → Input → Type 0
IsSupported metas (struct fields) = fields ≡ 1
IsSupported metas (enum vs) =
    AreCLike vs × (has is_counter metas ≡ false) × (has is_contiguous metas ≡ false)
IsSupported metas union = ⊥

-- the errors of a variant are none exactly if it is as the macro asks
variant_errors :
    (idx : ℕ) (v : Variant) (es : List Error)
    → (field_errors v ++ (next_idx idx v.discriminant).1 ++ es ≡ [])
      ↔ ((v.has_fields ≡ false) × (is_simple v.discriminant ≡ true) × (es ≡ []))
variant_errors idx v es = by_parts v.has_fields v.discriminant
  where
    by_parts :
        (b : Bool) (d : Discriminant)
        → ((if b then Error.not_c_like ∷ [] else []) ++ (next_idx idx d).1 ++ es ≡ [])
          ↔ ((b ≡ false) × (is_simple d ≡ true) × (es ≡ []))
    by_parts true d = (λ e. absurd (ground arith), λ e. absurd (ground arith))
    by_parts false implicit = (λ e. (refl, refl, e), λ e. e.2)
    by_parts false (literal (some n)) = (λ e. (refl, refl, e), λ e. e.2)
    by_parts false (literal none) = (λ e. absurd (ground arith), λ e. absurd (ground arith))
    by_parts false expression = (λ e. absurd (ground arith), λ e. absurd (ground arith))

-- no errors of the variants and of the options
pub no_errors :
    (o : Options) (es : List Error)
    → (es ++ option_errors o ≡ []) ↔ ((es ≡ []) × (o.counter ≡ false) × (o.contiguous ≡ false))
no_errors o es = by_parts es o.counter o.contiguous
  where
    by_parts :
        (es : List Error) (b c : Bool)
        → (es ++ ((if b then not_for_enums ∷ [] else []) ++ (if c then not_for_enums ∷ [] else []))
            ≡ [])
          ↔ ((es ≡ []) × (b ≡ false) × (c ≡ false))
    by_parts (e ∷ es) b c = (λ h. absurd (ground arith), λ h. absurd (ground (arith, h.0)))
    by_parts [] true c = (λ h. absurd (ground arith), λ (a, b, c). absurd (ground (arith, b)))
    by_parts [] false true = (λ h. absurd (ground arith), λ (a, b, c). absurd (ground (arith, c)))
    by_parts [] false false = (λ h. (refl, refl, refl), λ h. refl)

-- an enum is accepted exactly without errors
enum_generated_iff :
    (o : Options) (ms : List Arm) (es : List Error)
    → ((g : Generated) × (enum_generated o ms es ≡ done g)) ↔ (es ≡ [])
enum_generated_iff o ms [] = (λ h. refl, λ h. (arms o ms, refl))
enum_generated_iff o ms (e ∷ es) = (λ h. absurd (ground (arith, h.1)), λ h. absurd (ground arith))

struct_generated_iff :
    (o : Options) (fields : ℕ)
    → ((g : Generated) × (struct_generated o fields ≡ done g)) ↔ (fields ≡ 1)
struct_generated_iff o zero = (λ h. absurd (ground (arith, h.1)), λ h. absurd (ground arith))
struct_generated_iff o (suc zero) = (λ h. refl, λ h. (newtype o, refl))
struct_generated_iff o (suc (suc n)) =
    (λ h. absurd (ground (arith, h.1)), λ h. absurd (omega (arith, h)))

module _ ⦃p : Platform⦄ where
  variants_loop_errors :
      (n idx : ℕ) (vs : List Variant) (r : List Arm × List Error)
      → variants_loop n idx vs ≡ ok r
      → (r.1 ≡ []) ↔ AreCLike vs
  unfolding variants_loop
  variants_loop_errors n idx [] r e = (λ _. tt, λ _. ground arith)
  variants_loop_errors n idx (v ∷ vs) r e =
      let (next, fits, e') = >>=-eq_ok (usize_add (next_idx idx v.discriminant).0 1) _ e in
      let (rest, ran, e'') = >>=-eq_ok (variants_loop (suc n) next vs) _ e' in
      let (to, from) = variants_loop_errors (suc n) next vs rest ran in
      let (into, out) = variant_errors idx v rest.1 in
      let errors : field_errors v ++ (next_idx idx v.discriminant).1 ++ rest.1 ≡ r.1 =
        ap (λ q. q.1) (of_ok e'') in
      (
        λ none_left. let (a, b, c) = into (errors ∙ none_left) in (a, b, to c),
        λ like. sym errors ∙ out (like.0, like.1, from like.2),
      )

  item_generated_iff :
      (metas : List Meta) (input : Input) (r : Parsed Generated)
      → item_generated (asked metas) input ≡ ok r
      → ((g : Generated) × (r ≡ done g)) ↔ IsSupported metas input
  item_generated_iff metas (struct fields) r e =
      let (to, from) = struct_generated_iff (asked metas) fields in
      let same : struct_generated (asked metas) fields ≡ r = of_ok e in
      (λ h. to (h.0, same ∙ h.1), λ h. ((from h).0, sym same ∙ (from h).1))
  item_generated_iff metas union r e = (λ h. absurd (ground (arith, h.1)), λ h. absurd h)
  item_generated_iff metas (enum vs) r e =
      let (found, ran, e') = >>=-eq_ok (variants_loop 0 0 vs) _ e in
      let like = variants_loop_errors 0 0 vs found ran in
      let nothing = no_errors (asked metas) found.1 in
      let accepted =
        enum_generated_iff (asked metas) found.0 (found.1 ++ option_errors (asked metas)) in
      let same : enum_generated (asked metas) found.0 (found.1 ++ option_errors (asked metas)) ≡ r =
        of_ok e' in
      (
        λ h. let (a, b, c) = nothing.0 (accepted.0 (h.0, same ∙ h.1)) in (like.0 a, b, c),
        λ h. let (g, is) = accepted.1 (nothing.1 (like.1 h.0, h.1, h.2)) in (g, sym same ∙ is),
      )

  pub impl_of_done :
      (attr : List Attribute) (input : Input) (o : Options)
      → attr_options attr ≡ done o
      → impl_integer_id attr input ≡ item_generated o input
  unfolding impl_integer_id
  impl_of_done attr input o e = rw (e, impl_integer_id) refl

  pub impl_of_failed :
      (attr : List Attribute) (input : Input) (es : List Error)
      → attr_options attr ≡ failed es
      → impl_integer_id attr input ≡ ok (failed es)
  unfolding impl_integer_id
  impl_of_failed attr input es e = rw (e, impl_integer_id) refl

  -- Where the macro returns, it generates an implementation for exactly these: words of the attribute
  -- that are known, `counter` among them only with `contiguous`; a struct with one field, or an enum
  -- whose variants have no fields and no discriminants but literals, and then neither of these two
  -- words. For everything else it returns errors.
  pub accepts_iff :
      (attr : List Attribute) (input : Input) (r : Parsed Generated)
      → impl_integer_id attr input ≡ ok r
      → ((g : Generated) × (r ≡ done g))
        ↔ (AreOptions (words attr) × IsSupported (words attr) input)
  accepts_iff attr input r e = elim (attr_options-cases attr) [
    | inl right ↦
        let made = sym (impl_of_done attr input _ (attr_options-done attr right)) ∙ e in
        let supported = item_generated_iff (words attr) input r made in
        (λ h. (right, supported.0 h), λ h. supported.1 h.1)
    | inr (x, wrong) ↦
        let made : failed (x ∷ []) ≡ r =
          of_ok (sym (impl_of_failed attr input (x ∷ []) wrong) ∙ e) in
        (
          λ h. absurd (ground (arith, made, h.1)),
          λ h. absurd (ground (arith, attr_options-done attr h.0, wrong)),
        )
  ]
