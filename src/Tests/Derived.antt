-- ===== src/Tests/Derived.antt =====
-- crates/intid-derive/src/lib.rs at concrete inputs.
use idmap_rs.Common.{ℕ, zero, suc, ◌<◌, ◌≡◌, refl, true, false, none, some, List, [], ◌∷◌, arith}
use idmap_rs.Run.{ok}
use idmap_rs.Intid.Uint.{u8}
use idmap_rs.Intid.Id.{IsLawful, IsContiguous}
use idmap_rs.Intid.Impls.{Word, primint_id, primint_contiguous, primint_counter}
use idmap_rs.Derive.{
  unreadable, Tokens, integer_id, Error, default_options, counter_requires_contiguous, not_c_like,
  not_for_enums, done, failed, Meta, implicit, literal, Variant, struct, enum, Arm, intid, newtype,
  arms, Options, variants_loop, impl_integer_id,
}
use idmap_rs.Derive.Newtype.{newtype_id, newtype_contiguous, newtype-not_IsContiguous}
use idmap_rs.Derive.Discriminants.{discriminants, entry}
use idmap_rs.Derive.Enum.{enum_id, enum_id-IsLawful}
use idmap_rs.Derive.Words.{AreOptions}
use idmap_rs.Derive.Accepts.{IsSupported}
use idmap_rs.Derive.Output.{integer_id_lem}
use idmap_rs.Derive.Emitted.{Member, Trait, field_name, emit, from_int_checked, to_int, start_int}
use idmap_rs.Derive.Emitted.Meaning.{Site, body, run_body, num, whole, variant, just}
use idmap_rs.Derive.Emitted.Means.{MeansNewtype, MeansEnum, emit-newtype, emit-enum}
use idmap_rs.Derive.Emitted.Missing.{missing, missing-emit}
use idmap_rs.Tests.Setup.{x86_64}

newtype-not_IsContiguous_example :
    ¬ IsContiguous (newtype_id (primint_id u8)) (newtype_contiguous (primint_contiguous u8))
newtype-not_IsContiguous_example =
    newtype-not_IsContiguous (primint_id u8) (primint_contiguous u8) (omega arith)

-- enum Color { Red, Green = 5, Blue }
abbrev color : List Variant
color =
    record { has_fields = false; discriminant = implicit }
    ∷ record { has_fields = false; discriminant = literal (some 5) }
    ∷ record { has_fields = false; discriminant = implicit }
    ∷ []

abbrev color_arms : List Arm
color_arms =
    record { idx = 0; variant = 0 }
    ∷ record { idx = 5; variant = 1 }
    ∷ record { idx = 6; variant = 2 }
    ∷ []

color_distinct :
    (i j : ℕ)
    → i < 3
    → j < 3
    → entry (discriminants 0 color) i ≡ entry (discriminants 0 color) j
    → i ≡ j
unfolding discriminants
color_distinct zero zero li lj e = refl
color_distinct zero (suc zero) li lj e = absurd (omega (arith, e))
color_distinct zero (suc (suc zero)) li lj e = absurd (omega (arith, e))
color_distinct (suc zero) zero li lj e = absurd (omega (arith, e))
color_distinct (suc zero) (suc zero) li lj e = refl
color_distinct (suc zero) (suc (suc zero)) li lj e = absurd (omega (arith, e))
color_distinct (suc (suc zero)) zero li lj e = absurd (omega (arith, e))
color_distinct (suc (suc zero)) (suc zero) li lj e = absurd (omega (arith, e))
color_distinct (suc (suc zero)) (suc (suc zero)) li lj e = refl
color_distinct (suc (suc (suc i))) j li lj e = absurd (omega (arith, li))
color_distinct i (suc (suc (suc j))) li lj e = absurd (omega (arith, lj))

color_run : variants_loop 0 0 color ≡ ok (color_arms, [])
unfolding variants_loop
color_run = refl

enum_id-IsLawful_example : IsLawful (enum_id color color_arms)
enum_id-IsLawful_example = enum_id-IsLawful color color_arms color_run color_distinct

-- #[intid(counter, contiguous)] struct Id(u32);
counted_accepted :
    impl_integer_id (intid (Meta.counter ∷ Meta.contiguous ∷ []) ∷ []) (struct 1)
    ≡ ok (done (newtype (record { from = false; counter = true; contiguous = true })))
unfolding impl_integer_id
counted_accepted = refl

-- tokens are numbers: a struct by the number of its fields, 1 for code and 0 for errors
abbrev as_numbers : Tokens ℕ
as_numbers = record {
  parse = λ n. done (intid (Meta.counter ∷ Meta.contiguous ∷ []) ∷ [], struct n);
  quote = λ g. 1;
  into_compile_error = λ es. 0;
}

integer_id_lem_example :
    (AreOptions (Meta.counter ∷ Meta.contiguous ∷ [])
        × IsSupported (Meta.counter ∷ Meta.contiguous ∷ []) (struct 2)
      → integer_id as_numbers 2 ≡ ok 1)
    × (¬ (
          AreOptions (Meta.counter ∷ Meta.contiguous ∷ [])
          × IsSupported (Meta.counter ∷ Meta.contiguous ∷ []) (struct 2))
        → (e : Error) × (es : List Error) × (integer_id as_numbers 2 ≡ ok 0))
integer_id_lem_example =
    integer_id_lem as_numbers 2 (intid (Meta.counter ∷ Meta.contiguous ∷ []) ∷ []) (struct 2) refl
      tt

-- a second attribute is not read
second_ignored :
    impl_integer_id (intid [] ∷ intid (Meta.other ∷ []) ∷ []) (struct 1)
    ≡ ok (done (newtype default_options))
unfolding impl_integer_id
second_ignored = refl

-- `#[intid(from = 1)]`
value_refused :
    impl_integer_id (intid (Meta.from ∷ Meta.malformed ∷ []) ∷ []) (struct 1)
    ≡ ok (failed (unreadable ∷ []))
unfolding impl_integer_id
value_refused = refl

counter_alone :
    impl_integer_id (intid (Meta.counter ∷ []) ∷ []) (struct 1)
    ≡ ok (failed (counter_requires_contiguous ∷ []))
unfolding impl_integer_id
counter_alone = refl

-- #[intid(contiguous)] enum E { A(..), B }
enum_with_fields :
    impl_integer_id (intid (Meta.contiguous ∷ []) ∷ []) (
      enum (
        record { has_fields = true; discriminant = implicit }
        ∷ record { has_fields = false; discriminant = implicit }
        ∷ []))
    ≡ ok (failed (not_c_like ∷ not_for_enums ∷ []))
unfolding impl_integer_id
enum_with_fields = refl

-- struct Id { id: u8 }, and enum Color
abbrev site : Site (Word u8)
site = record {
  field = Member.named 7;
  id = primint_id u8;
  contiguous = primint_contiguous u8;
  counter = primint_counter u8;
  discriminants = discriminants 0 color;
}

abbrev counted : Options
counted = record { from = true; counter = true; contiguous = true }

emit-newtype_example : MeansNewtype site counted (emit (field_name (some 7)) (newtype counted))
emit-newtype_example = emit-newtype site (some 7) counted refl

emit-enum_example :
    MeansEnum site color color_arms (emit (field_name none) (arms default_options color_arms))
emit-enum_example = emit-enum site (field_name none) default_options color color_arms color_run refl

missing-emit_example : missing (emit (field_name (some 7)) (newtype counted)) ≡ start_int ∷ []
missing-emit_example = missing-emit (field_name (some 7)) (newtype counted)

-- the emitted code, run
color_from_five :
    run_body site
      (body
        (emit (field_name none) (arms default_options color_arms))
        Trait.integer_id
        from_int_checked)
      (num 5)
    ≡ ok (some (just (variant 1)))
unfolding run_body emit
color_from_five = refl

-- a field of another name is ill typed
wrong_field :
    run_body site
      (body (emit (Member.unnamed 0) (newtype counted)) Trait.integer_id to_int)
      (whole (record { field = (3, omega arith) }))
    ≡ ok none
unfolding run_body emit
wrong_field = refl
