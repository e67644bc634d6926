-- ===== src/Derive/Emitted/Means.antt =====
-- crates/intid-derive/src/lib.rs: the emitted code means the implementations of Derive/Newtype.antt
-- and Derive/Enum.antt, and which items it lacks.
use idmap_rs.Common.{
  ℕ, ◌≡◌, refl, true, inl, inr, Option, none, some, List, [], ==_iff, Bool-cases, and_then,
}
use idmap_rs.Run.{Run, ok, panic, undefined, out_of_fuel, ◌>>=◌, Platform}
use idmap_rs.Derive.{Options, Generated, arms, Variant, Arm, variants_loop}
use idmap_rs.Derive.Newtype.{Newtype, newtype_id, newtype_start}
use idmap_rs.Derive.Discriminants.{discriminants}
use idmap_rs.Derive.Enum.{EnumOf, enum_id, enum_to_int, find_arm-cases}
use idmap_rs.Derive.Emitted.{
  Member, field_name, integer_id, contiguous_integer_id, integer_id_counter, from_ref, int_type,
  from_int, from_int_checked, from_int_unchecked, to_int, min_id, max_id, start, from, Impl, emit,
  struct_impls, construct, item, dereference, parameter,
}
use idmap_rs.Derive.Emitted.Meaning.{
  Site, Value, num, inner, whole, variant, nothing, just, type_of, run_body, body, same_member,
  match_value, attempt_value, then_value, result_of, construct_value, value, inner_or_nothing,
}

same_field : (field : Option ℕ) → same_member (field_name field) (field_name field) ≡ true
same_field none = refl
same_field (some ident) = (==_iff ident ident).1 refl

module _ {K : Type 0} where
  abbrev pub whole_or_nothing : Option (Newtype K) → Value K
  whole_or_nothing none = nothing
  whole_or_nothing (some w) = just (whole w)

  abbrev pub variant_or_nothing : (vs : List Variant) → Option (EnumOf vs) → Value K
  variant_or_nothing vs none = nothing
  variant_or_nothing vs (some k) = just (variant k.0)

-- each function and constant of the emitted implementations is well typed, and gives what
-- the implementation for a newtype gives; `MAX_ID` is made of the smallest id of the field, as
-- `MIN_ID` is
pub record MeansNewtype {K : Type 0} (site : Site K) (options : Options) (impls : List Impl)
    : Type 0 where
  pub int :
      (arg : Value K)
      → run_body site (body impls integer_id int_type) arg
        ≡ ok (some (type_of (newtype_id site.id).int))
  pub of_int :
      (n : ℕ)
      → run_body site (body impls integer_id from_int) (num n)
        ≡ ((newtype_id site.id).from_int n >>= λ w. ok (some (whole w)))
  pub of_int_checked :
      (n : ℕ)
      → run_body site (body impls integer_id from_int_checked) (num n)
        ≡ ok (some (whole_or_nothing ((newtype_id site.id).from_int_checked n)))
  pub of_int_unchecked :
      (n : ℕ)
      → run_body site (body impls integer_id from_int_unchecked) (num n)
        ≡ ((newtype_id site.id).from_int_unchecked n >>= λ w. ok (some (whole w)))
  pub to_int :
      (w : Newtype K)
      → run_body site (body impls integer_id to_int) (whole w)
        ≡ ok (some (num ((newtype_id site.id).to_int w)))
  pub min :
      options.contiguous ≡ true
      → (arg : Value K)
      → run_body site (body impls contiguous_integer_id min_id) arg
        ≡ ok (some (whole (record { field = site.contiguous.min_id })))
  pub max :
      options.contiguous ≡ true
      → (arg : Value K)
      → run_body site (body impls contiguous_integer_id max_id) arg
        ≡ ok (some (whole (record { field = site.contiguous.min_id })))
  pub start :
      options.counter ≡ true
      → (arg : Value K)
      → run_body site (body impls integer_id_counter start) arg
        ≡ ok (some (whole (newtype_start site.counter)))
  pub copied :
      options.from ≡ true
      → (w : Newtype K) → run_body site (body impls from_ref from) (whole w) ≡ ok (some (whole w))

module _ {K : Type 0} (site : Site K) (m : Member) (same : same_member m site.field ≡ true) where
  constructed : (k : K) → construct_value site m (inner k) ≡ value (whole (record { field = k }))
  constructed k = rw same refl

  delegated :
      (r : Run K)
      → (((r >>= λ k. ok (value (inner k))) >>= λ f.
            then_value f λ v. ok (construct_value site m v))
          >>= λ f. ok (result_of f))
        ≡ ((r >>= λ k. ok (record { field = k })) >>= λ (w : Newtype K). ok (some (whole w)))
  delegated (ok k) = rw same refl
  delegated (panic e) = refl
  delegated undefined = refl
  delegated out_of_fuel = refl

  attempted :
      (o : Option K)
      → (((ok (attempt_value (inner_or_nothing o)) >>= λ f.
              then_value f λ v. ok (construct_value site m v))
            >>= λ f. then_value f λ v. ok (value (just v)))
          >>= λ f. ok (result_of f))
        ≡ ok (some (whole_or_nothing (and_then o λ k. some (record { field = k }))))
  attempted (some k) = rw same refl
  attempted none = refl

start_body :
    (m : Member) (o : Options)
    → o.counter ≡ true
    → body (struct_impls m o) integer_id_counter start
      ≡ some (construct m (item integer_id_counter start))
start_body m o e = elim (Bool-cases o.contiguous) [
  | inl given ↦ rw (given, e) refl
  | inr left_out ↦ rw (left_out, e) refl
]

from_body :
    (m : Member) (o : Options)
    → o.from ≡ true
    → body (struct_impls m o) from_ref from ≡ some (dereference parameter)
from_body m o e = elim (Bool-cases o.contiguous) [
  | inl given ↦ elim (Bool-cases o.counter) [
    | inl counted ↦ rw (given, counted, e) refl
    | inr not_counted ↦ rw (given, not_counted, e) refl
  ]
  | inr left_out ↦ elim (Bool-cases o.counter) [
    | inl counted ↦ rw (left_out, counted, e) refl
    | inr not_counted ↦ rw (left_out, not_counted, e) refl
  ]
]

module _ {K : Type 0} where
  -- The bodies that are emitted for a struct are well typed, whether its field has a name or a
  -- position. Those of `IntegerId` mean the id of Derive/Newtype.antt. With the options that ask for
  -- them, `MIN_ID` and `MAX_ID` are both the struct around the smallest id of the field, `START` is
  -- the struct around that of the field, and `from` is the copy.
  pub emit-newtype :
      (site : Site K) (field : Option ℕ) (options : Options)
      → site.field ≡ field_name field
      → MeansNewtype site options (emit (field_name field) (Generated.newtype options))
  unfolding emit run_body
  emit-newtype site field options at =
      let same : same_member (field_name field) site.field ≡ true = rw at (same_field field) in
      record {
        int = λ arg. refl;
        of_int = λ n. delegated site (field_name field) same (site.id.from_int n);
        of_int_checked = λ n. attempted site (field_name field) same (site.id.from_int_checked n);
        of_int_unchecked =
            λ n. delegated site (field_name field) same (site.id.from_int_unchecked n);
        to_int = λ w. rw same refl;
        min = λ e arg. rw (e, same) refl;
        max = λ e arg. rw (e, same) refl;
        start = λ e arg. rw (start_body (field_name field) options e, same) refl;
        copied = λ e w. rw (from_body (field_name field) options e) refl;
      }

-- each function of the emitted implementation is well typed, and gives what the
-- implementation for an enum gives; `from_int` is not emitted, and so the provided one
pub record MeansEnum {K : Type 0} ⦃p : Platform⦄ (site : Site K) (vs : List Variant)
    (matches : List Arm) (impls : List Impl) : Type 0 where
  pub int :
      (arg : Value K)
      → run_body site (body impls integer_id int_type) arg
        ≡ ok (some (type_of (enum_id vs matches).int))
  pub of_int : body impls integer_id from_int ≡ none
  pub of_int_checked :
      (n : ℕ)
      → run_body site (body impls integer_id from_int_checked) (num n)
        ≡ ok (some (variant_or_nothing vs ((enum_id vs matches).from_int_checked n)))
  pub of_int_unchecked :
      (n : ℕ)
      → run_body site (body impls integer_id from_int_unchecked) (num n)
        ≡ ((enum_id vs matches).from_int_unchecked n >>= λ k. ok (some (variant k.0)))
  pub to_int :
      (k : EnumOf vs)
      → run_body site (body impls integer_id to_int) (variant k.0)
        ≡ ok (some (num ((enum_id vs matches).to_int k)))

module _ {K : Type 0} ⦃p : Platform⦄ where
  -- If the macro gets through the variants of an enum without an error and without overflow of its
  -- counter, then the bodies that are emitted are well typed and mean those of Derive/Enum.antt,
  -- with `as usize` as the language defines it.
  pub emit-enum :
      (site : Site K) (m : Member) (options : Options) (vs : List Variant) (matches : List Arm)
      → variants_loop 0 0 vs ≡ ok (matches, [])
      → site.discriminants ≡ discriminants 0 vs
      → MeansEnum site vs matches (emit m (arms options matches))
  unfolding emit run_body enum_to_int
  emit-enum site m options vs matches run at = record {
    int = λ arg. refl;
    of_int = refl;
    of_int_checked = λ n. elim (find_arm-cases vs matches n run) [
      | inl (no_arm, no_id) ↦ rw (no_arm, no_id, match_value) refl
      | inr (k, arm, found) ↦ rw (arm, found, match_value) refl
    ];
    of_int_unchecked = λ n. elim (find_arm-cases vs matches n run) [
      | inl (no_arm, no_id) ↦ rw (no_arm, enum_id, no_id, match_value) refl
      | inr (k, arm, found) ↦ rw (arm, enum_id, found, match_value) refl
    ];
    to_int = λ k. rw at refl;
  }
