-- ===== src/Derive/Emitted.antt =====
-- crates/intid-derive/src/lib.rs: the code inside `quote!`, as data. An implementation is the trait
-- and its items, each with its body. Names of fields are numbers, and attributes, spans and the
-- name of the type are left out.
pub mod Meaning
pub mod Means
pub mod Missing
use idmap_rs.Common.{
  ℕ, Bool, true, false, ◌&&◌, not, ◌==◌, Option, none, some, List, [], ◌∷◌, ◌++◌, if◌then◌else◌,
}
use idmap_rs.Derive.{Options, Arm, Generated, newtype, arms}

-- `syn::Member`: a field by its name or by its position
pub data Member : Type 0 where
  named : ℕ → Member
  unnamed : ℕ → Member

-- the traits that the generated code implements or calls
pub data Trait : Type 0 where
  integer_id : Trait
  contiguous_integer_id : Trait
  integer_id_counter : Trait
  from_ref : Trait

-- their items
pub data Name : Type 0 where
  int_type : Name
  from_int : Name
  from_int_checked : Name
  from_int_unchecked : Name
  to_int : Name
  min_id : Name
  max_id : Name
  start : Name
  start_int : Name
  from : Name

-- The bodies: the parameter, a value of the struct by its one field, that field of a value, a function
-- or a constant of a trait of the field's type, `?`, `Some`, `*`, the type `usize`, `as usize`, and
-- a `match` whose arms are variants, inside `Some` with `_ => return None` or with the `_` arm that
-- is unreachable.
pub data Code : Type 0 where
  parameter : Code
  construct : Member → Code → Code
  select : Code → Member → Code
  call : Trait → Name → Code → Code
  item : Trait → Name → Code
  attempt : Code → Code
  some_of : Code → Code
  dereference : Code → Code
  usize_type : Code
  as_usize : Code → Code
  match_or_return : Code → List Arm → Code
  match_or_unreachable : Code → List Arm → Code

pub record Impl : Type 0 where
  pub of_trait : Trait
  pub items : List (Name × Code)

-- `field_name`: the name of the one field, or its position
abbrev pub field_name : Option ℕ → Member
field_name none = unnamed 0
field_name (some ident) = named ident

abbrev pub from_code : Bool → List Impl
from_code true = record { of_trait = from_ref; items = (from, dereference parameter) ∷ [] } ∷ []
from_code false = []

module _ (member : Member) where
  -- the closure `int_constructor`
  abbrev pub int_constructor : Name → Bool → Code
  int_constructor method_name needs_try =
      let called = call integer_id method_name parameter in
      construct member (if needs_try then attempt called else called)

  abbrev pub impl_decl : Impl
  impl_decl = record {
    of_trait = integer_id;
    items =
        (int_type, item integer_id int_type)
        ∷ (from_int, int_constructor from_int false)
        ∷ (from_int_checked, some_of (int_constructor from_int_checked true))
        ∷ (from_int_unchecked, int_constructor from_int_unchecked false)
        ∷ (to_int, call integer_id to_int (select parameter member))
        ∷ [];
  }

  abbrev pub contiguous_impl : Bool → List Impl
  contiguous_impl true =
      record {
        of_trait = contiguous_integer_id;
        items =
            (min_id, construct member (item contiguous_integer_id min_id))
            ∷ (max_id, construct member (item contiguous_integer_id min_id))
            ∷ [];
      }
      ∷ []
  contiguous_impl false = []

  abbrev pub counter_impl : Bool → List Impl
  counter_impl true =
      record {
        of_trait = integer_id_counter;
        items = (start, construct member (item integer_id_counter start)) ∷ [];
      }
      ∷ []
  counter_impl false = []

  abbrev pub struct_impls : Options → List Impl
  struct_impls options =
      impl_decl ∷ contiguous_impl options.contiguous
      ++ counter_impl options.counter
      ++ from_code options.from

abbrev pub enum_impl : List Arm → Impl
enum_impl variant_matches = record {
  of_trait = integer_id;
  items =
      (int_type, usize_type)
      ∷ (from_int_checked, some_of (match_or_return parameter variant_matches))
      ∷ (from_int_unchecked, match_or_unreachable parameter variant_matches)
      ∷ (to_int, as_usize parameter)
      ∷ [];
}

-- what `quote!` is given, for a struct with its field
unfoldable pub emit : Member → Generated → List Impl
emit member (newtype options) = struct_impls member options
emit member (arms options matches) = enum_impl matches ∷ from_code options.from
