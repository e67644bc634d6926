-- ===== src/Derive/Output.antt =====
-- crates/intid-derive/src/lib.rs: what the macro returns.
use idmap_rs.Common.{
  ℕ, zero, suc, ◌≡◌, refl, sym, ap, ◌∙◌, ◌⊎◌, inl, inr, List, [], ◌∷◌, ◌++◌, arith, ◌<◌,
}
use idmap_rs.Run.{of_ok, ok, Platform, usize_mod, usize_add, >>=-eq_ok}
use idmap_rs.Derive.{
  Error, Parsed, done, failed, Options, Attribute, Input, struct, enum, union, Arm, Generated,
  newtype, arms, Variant, field_errors, next_idx, variants_loop, option_errors, struct_generated,
  enum_generated, item_generated, impl_integer_id, Meta, Tokens, integer_id,
}
use idmap_rs.Derive.Words.{words, asked, AreOptions, attr_options-done, attr_options-cases}
use idmap_rs.Derive.Discriminants.{
  discriminants, numbered, variants_loop-IsCounted, next_idx-discriminant_from, discriminant_from,
}
use idmap_rs.Derive.Accepts.{IsSupported, accepts_iff, impl_of_done, impl_of_failed}

-- what is generated for an item that is supported: the words as options, and an arm for each variant
-- with the discriminant that the language gives it
unfoldable pub expected : List Meta → Input → Generated
expected metas (struct fields) = newtype (asked metas)
expected metas (enum vs) = arms (asked metas) (numbered 0 (discriminants 0 vs))
expected metas union = newtype (asked metas)  -- no union is supported

-- an output, or one error at least
abbrev Is : Parsed Generated → Type 0
Is r = ((g : Generated) × (r ≡ done g)) ⊎ ((e : Error) × (es : List Error) × (r ≡ failed (e ∷ es)))

struct_generated-cases : (o : Options) (fields : ℕ) → Is (struct_generated o fields)
struct_generated-cases o zero = inr (_, _, refl)
struct_generated-cases o (suc zero) = inl (_, refl)
struct_generated-cases o (suc (suc n)) = inr (_, _, refl)

enum_generated-cases : (o : Options) (ms : List Arm) (es : List Error) → Is (enum_generated o ms es)
enum_generated-cases o ms [] = inl (_, refl)
enum_generated-cases o ms (e ∷ es) = inr (_, _, refl)

enum_generated-done :
    (o : Options) (ms : List Arm) (es : List Error) (g : Generated)
    → enum_generated o ms es ≡ done g
    → g ≡ arms o ms
enum_generated-done o ms [] g e = cc
enum_generated-done o ms (x ∷ es) g e = absurd (cc)

struct_generated-done :
    (o : Options) (fields : ℕ) (g : Generated) → struct_generated o fields ≡ done g → g ≡ newtype o
struct_generated-done o zero g e = absurd (cc)
struct_generated-done o (suc zero) g e = cc
struct_generated-done o (suc (suc n)) g e = absurd (cc)

module _ ⦃p : Platform⦄ where
  abbrev AllBelow : List ℕ → Type 0
  AllBelow [] = Unit
  AllBelow (d ∷ ds) = (suc d < usize_mod) × AllBelow ds

  -- the counter of the macro does not overflow: the discriminants are below the largest `usize`
  abbrev pub IsCountable : Input → Type 0
  IsCountable (enum vs) = AllBelow (discriminants 0 vs)
  IsCountable _ = Unit

  item_generated-cases :
      (o : Options) (input : Input) (r : Parsed Generated) → item_generated o input ≡ ok r → Is r
  item_generated-cases o (struct fields) r e = rw (of_ok e) at (struct_generated-cases o fields)
  item_generated-cases o (enum vs) r e =
      let (found, ran, e') = >>=-eq_ok (variants_loop 0 0 vs) _ e in
      rw (of_ok e') at (enum_generated-cases o found.0 (found.1 ++ option_errors o))
  item_generated-cases o union r e = inr (_, _, sym (of_ok e))

  item_generated-done :
      (metas : List Meta) (input : Input) (g : Generated)
      → item_generated (asked metas) input ≡ ok (done g)
      → g ≡ expected metas input
  unfolding expected
  item_generated-done metas (struct fields) g e =
      struct_generated-done (asked metas) fields g (of_ok e)
  item_generated-done metas (enum vs) g e =
      let (found, ran, e') = >>=-eq_ok (variants_loop 0 0 vs) _ e in
      enum_generated-done (asked metas) found.0 (found.1 ++ option_errors (asked metas)) g
        (of_ok e')
      ∙ ap (arms (asked metas)) (variants_loop-IsCounted 0 0 vs found.0 found.1 ran).same
  item_generated-done metas union g e = absurd (cc)

  variants_loop-returns :
      (n idx : ℕ) (vs : List Variant)
      → AllBelow (discriminants idx vs)
      → (r : List Arm × List Error) × (variants_loop n idx vs ≡ ok r)
  unfolding variants_loop discriminants
  variants_loop-returns n idx [] h = (_, refl)
  variants_loop-returns n idx (v ∷ vs) (small, h) =
      let here = next_idx-discriminant_from idx v.discriminant in
      let up : usize_add (next_idx idx v.discriminant).0 1
          ≡ ok (suc (discriminant_from idx v.discriminant)) =
        ground arith in
      let (rest, ran) =
        variants_loop-returns (suc n) (suc (discriminant_from idx v.discriminant)) vs h in
      (
        (
          record { idx = (next_idx idx v.discriminant).0; variant = n } ∷ rest.0,
          field_errors v ++ (next_idx idx v.discriminant).1 ++ rest.1,
        ),
        rw (up, ran) refl,
      )

  item_generated-returns :
      (o : Options) (input : Input)
      → IsCountable input
      → (r : Parsed Generated) × (item_generated o input ≡ ok r)
  item_generated-returns o (struct fields) h = (_, refl)
  item_generated-returns o (enum vs) h =
      let (found, ran) = variants_loop-returns 0 0 vs h in
      (enum_generated o found.0 (found.1 ++ option_errors o), rw ran refl)
  item_generated-returns o union h = (_, refl)

  impl_integer_id-returns :
      (attrs : List Attribute) (input : Input)
      → IsCountable input
      → (r : Parsed Generated) × (impl_integer_id attrs input ≡ ok r)
  impl_integer_id-returns attrs input h = elim (attr_options-cases attrs) [
    | inl right ↦
        let (r, run) = item_generated-returns (asked (words attrs)) input h in
        (r, impl_of_done attrs input _ (attr_options-done attrs right) ∙ run)
    | inr (x, wrong) ↦ (failed (x ∷ []), impl_of_failed attrs input (x ∷ []) wrong)
  ]

  output-cases :
      (attrs : List Attribute) (input : Input) (r : Parsed Generated)
      → impl_integer_id attrs input ≡ ok r
      → (AreOptions (words attrs) × IsSupported (words attrs) input
          → r ≡ done (expected (words attrs) input))
        × (¬ (AreOptions (words attrs) × IsSupported (words attrs) input)
            → (e : Error) × (es : List Error) × (r ≡ failed (e ∷ es)))
  output-cases attrs input r e =
      let (to, from) = accepts_iff attrs input r e in
      elim (attr_options-cases attrs) [
        | inl right ↦
            let made = sym (impl_of_done attrs input _ (attr_options-done attrs right)) ∙ e in
            (
              λ good.
                  let (g, is) = from good in
                  is ∙ ap done (item_generated-done (words attrs) input g (made ∙ ap ok is)),
              λ bad. elim (item_generated-cases (asked (words attrs)) input r made) [
                | inl accepted ↦ absurd (bad (to accepted))
                | inr refused ↦ refused
              ],
            )
        | inr (x, wrong) ↦
            let made : failed (x ∷ []) ≡ r =
              of_ok (sym (impl_of_failed attrs input (x ∷ []) wrong) ∙ e) in
            (
              λ good. absurd (ground (arith, attr_options-done attrs good.0, wrong)),
              λ bad. (x, [], sym made),
            )
      ]

  -- Where the discriminants of an enum are below the largest `usize`, the macro returns: for an item
  -- that is supported, with words that are, it generates what they ask for, and for an enum an arm
  -- for each variant with the discriminant that the language gives it; for everything else it
  -- returns at least one error and generates nothing.
  pub output_lem :
      (attrs : List Attribute) (input : Input)
      → IsCountable input
      → (r : Parsed Generated) × (impl_integer_id attrs input ≡ ok r)
        × (AreOptions (words attrs) × IsSupported (words attrs) input
            → r ≡ done (expected (words attrs) input))
        × (¬ (AreOptions (words attrs) × IsSupported (words attrs) input)
            → (e : Error) × (es : List Error) × (r ≡ failed (e ∷ es)))
  output_lem attrs input h =
      let (r, run) = impl_integer_id-returns attrs input h in
      let (good, bad) = output-cases attrs input r run in (r, run, good, bad)

module _ {S : Type 0} ⦃p : Platform⦄ (tokens : Tokens S) where
  -- The derive macro as a whole, on tokens that parse as an item whose discriminants, if it is an
  -- enum, are below the largest `usize`: for an item that is supported, with words that are, it
  -- returns the tokens of what they ask for, and for an enum those of an arm for each variant with
  -- the discriminant that the language gives it. For everything else it returns the tokens of at
  -- least one error.
  pub integer_id_lem :
      (input : S) (attrs : List Attribute) (item : Input)
      → tokens.parse input ≡ done (attrs, item)
      → IsCountable item
      → (AreOptions (words attrs) × IsSupported (words attrs) item
          → integer_id tokens input ≡ ok (tokens.quote (expected (words attrs) item)))
        × (¬ (AreOptions (words attrs) × IsSupported (words attrs) item)
            → (e : Error) × (es : List Error) × (integer_id tokens input
                ≡ ok (tokens.into_compile_error (e ∷ es))))
  unfolding integer_id
  integer_id_lem input attrs item e h =
      let (r, run, good, bad) = output_lem attrs item h in
      (
        λ supported. rw (e, run, good supported, integer_id) refl,
        λ other. let (x, es, is) = bad other in (x, es, rw (e, run, is, integer_id) refl),
      )
