-- ===== src/Derive.antt =====
-- crates/intid-derive/src/lib.rs: what the derive macro accepts, and what it generates. The input is
-- the parsed item, and the generated implementations are functions (`Newtype` and `Enum`); the parsing
-- of Rust by the crate syn and the writing of tokens by the crate quote are parameters (`Tokens`). The
-- `usize` of the macro, that of the compiler's host, is taken to be as wide as that of the target.
pub mod Newtype
pub mod Discriminants
pub mod Enum
pub mod Words
pub mod Accepts
pub mod Output
pub mod Emitted
use idmap_rs.Common.{
  ℕ, zero, suc, Bool, true, false, not, ◌&&◌, Option, none, some, List, [], ◌∷◌, ◌++◌,
  if◌then◌else◌,
}
use idmap_rs.Run.{Run, ok, panic, unwrapped_error, ◌>>=◌, Platform, usize_add}

-- the errors, by their message
pub data Error : Type 0 where
  invalid_attribute : Error
  unreadable : Error  -- syn's own
  counter_requires_contiguous : Error
  empty_struct : Error
  many_fields : Error
  not_c_like : Error
  bad_literal : Error
  too_complex : Error
  not_for_enums : Error
  union_unsupported : Error

-- `syn::Result`, an error with those combined with it
pub data Parsed {ℓ} (A : Type ℓ) : Type ℓ where
  done : A → Parsed A
  failed : List Error → Parsed A

infixl 5 ◌>>?◌
abbrev pub ◌>>?◌ {ℓ κ} : {A : Type ℓ} {B : Type κ} → Parsed A → (A → Parsed B) → Parsed B
done a >>? f = f a
failed es >>? f = failed es

-- What `parse_nested_meta` comes upon in an `intid` attribute: a word, or what makes it return an
-- error of its own, which `#[intid]` has in place of words and `#[intid(from = 1)]` after a word.
pub data Meta : Type 0 where
  from : Meta
  counter : Meta
  contiguous : Meta
  other : Meta
  malformed : Meta

-- the spans of the options are not kept, only which ones are there
pub record Options : Type 0 where
  pub from : Bool
  pub counter : Bool
  pub contiguous : Bool

abbrev pub default_options : Options
default_options = record { from = false; counter = false; contiguous = false }

-- the loop of `parse_nested_meta`, which stops at the first error
pub parse_metas : Options → List Meta → Parsed Options
parse_metas res [] = done res
parse_metas res (Meta.from ∷ metas) = parse_metas (record res { from = true }) metas
parse_metas res (Meta.counter ∷ metas) = parse_metas (record res { counter = true }) metas
parse_metas res (Meta.contiguous ∷ metas) = parse_metas (record res { contiguous = true }) metas
parse_metas res (Meta.other ∷ metas) = failed (invalid_attribute ∷ [])
parse_metas res (Meta.malformed ∷ metas) = failed (unreadable ∷ [])

unfoldable pub parse_attr : List Meta → Parsed Options
unfolding parse_metas
parse_attr metas = parse_metas default_options metas >>? λ res.
    if res.counter && not res.contiguous
    then failed (counter_requires_contiguous ∷ [])
    else done res

-- an attribute of the item: one with the path `intid`, with what syn comes upon in it, or another one
pub data Attribute : Type 0 where
  intid : List Meta → Attribute
  foreign : Attribute

-- `find`, which takes the first attribute with the path `intid`
pub find_intid : List Attribute → Option (List Meta)
find_intid [] = none
find_intid (intid metas ∷ attrs) = some metas
find_intid (foreign ∷ attrs) = find_intid attrs

unfoldable pub attr_options : List Attribute → Parsed Options
unfolding parse_attr find_intid
attr_options attrs = elim (find_intid attrs) [
  | none ↦ done default_options
  | some metas ↦ parse_attr metas
]

-- `impl From<&Self>`, if it is asked for: a copy
unfoldable pub from_impl : {T : Type 0} → Options → Option (T → T)
from_impl options = if options.from then some (λ this. this) else none

-- the discriminant of a variant: none, a literal (`none` where `base10_parse` fails), or another
-- expression
pub data Discriminant : Type 0 where
  implicit : Discriminant
  literal : Option ℕ → Discriminant
  expression : Discriminant

pub record Variant : Type 0 where
  pub has_fields : Bool
  pub discriminant : Discriminant

-- the item that the macro is applied to: a struct by the number of its fields
pub data Input : Type 0 where
  struct : ℕ → Input
  enum : List Variant → Input
  union : Input

-- an arm `idx => Name::Variant` of the generated `match`, with the number of the variant
pub record Arm : Type 0 where
  pub idx : ℕ
  pub variant : ℕ

-- what is generated, with the options, of which `from_impl` is read: an implementation for a struct with those of
-- `ContiguousIntegerId` and `IntegerIdCounter` if they are asked for, or the arms of one for an enum
pub data Generated : Type 0 where
  newtype : Options → Generated
  arms : Options → List Arm → Generated

abbrev pub field_errors : Variant → List Error
field_errors v = if v.has_fields then not_c_like ∷ [] else []

-- `idx` after the `match` on the discriminant, and its errors
abbrev pub next_idx : ℕ → Discriminant → ℕ × List Error
next_idx idx implicit = (idx, [])
next_idx idx (literal (some n)) = (n, [])
next_idx idx (literal none) = (idx, bad_literal ∷ [])
next_idx idx expression = (idx, too_complex ∷ [])

abbrev pub option_errors : Options → List Error
option_errors o =
    (if o.counter then not_for_enums ∷ [] else [])
    ++ (if o.contiguous then not_for_enums ∷ [] else [])

abbrev pub struct_generated : Options → ℕ → Parsed Generated
struct_generated options zero = failed (empty_struct ∷ [])
struct_generated options (suc zero) = done (newtype options)
struct_generated options (suc (suc _)) = failed (many_fields ∷ [])

abbrev pub enum_generated : Options → List Arm → List Error → Parsed Generated
enum_generated options matches [] = done (arms options matches)
enum_generated options matches (e ∷ es) = failed (e ∷ es)

module _ ⦃p : Platform⦄ where
  -- the `for` over the variants, from variant number `n` on
  unfoldable pub variants_loop : ℕ → ℕ → List Variant → Run (List Arm × List Error)
  variants_loop n idx [] = ok ([], [])
  variants_loop n idx (v ∷ vs) = do
    let here = next_idx idx v.discriminant
    idx' ← usize_add here.0 1
    rest ← variants_loop (suc n) idx' vs
    ok (record { idx = here.0; variant = n } ∷ rest.0, field_errors v ++ here.1 ++ rest.1)

  abbrev pub item_generated : Options → Input → Run (Parsed Generated)
  item_generated options (struct fields) = ok (struct_generated options fields)
  item_generated options (enum variants) = do
    r ← variants_loop 0 0 variants
    ok (enum_generated options r.0 (r.1 ++ option_errors options))
  item_generated options union = ok (failed (union_unsupported ∷ []))

  -- the attributes and the item
  unfoldable pub impl_integer_id : List Attribute → Input → Run (Parsed Generated)
  unfolding variants_loop attr_options
  impl_integer_id attrs input = elim (attr_options attrs) [
    | done options ↦ item_generated options input
    | failed es ↦ ok (failed es)
  ]

-- What syn and quote do is given: to parse tokens into an item or an error, and to write tokens for
-- what is generated and for errors.
pub record Tokens (S : Type 0) : Type 0 where
  pub parse : S → Parsed (List Attribute × Input)
  pub quote : Generated → S
  pub into_compile_error : List Error → S

-- the macro itself
module _ {S : Type 0} ⦃p : Platform⦄ (tokens : Tokens S) where
  unfoldable pub integer_id : S → Run S
  unfolding impl_integer_id
  integer_id input = elim (tokens.parse input) [
    | failed es ↦ panic unwrapped_error
    | done ast ↦ impl_integer_id ast.0 ast.1 >>= λ r. elim r [
      | done generated ↦ ok (tokens.quote generated)
      | failed es ↦ ok (tokens.into_compile_error es)
    ]
  ]
