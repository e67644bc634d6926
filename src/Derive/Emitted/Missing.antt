-- ===== src/Derive/Emitted/Missing.antt =====
-- crates/intid-derive/src/lib.rs: the items that the emitted implementations do not define, by the
-- traits of crates/intid/src/lib.rs.
use idmap_rs.Common.{
  ◌≡◌, refl, Bool, true, false, inl, inr, none, some, List, [], ◌∷◌, ◌++◌, if◌then◌else◌,
  Bool-cases,
}
use idmap_rs.Derive.{Generated, arms}
use idmap_rs.Derive.Emitted.{
  Member, Trait, integer_id, contiguous_integer_id, integer_id_counter, from_ref, Name, int_type,
  from_int_checked, to_int, min_id, max_id, start, start_int, from, Code, Impl, emit, struct_impls,
}
use idmap_rs.Derive.Emitted.Meaning.{find_item}

-- the items of the traits that have no provided body, which an implementation has to define
abbrev pub required : Trait → List Name
required integer_id = int_type ∷ from_int_checked ∷ to_int ∷ []
required contiguous_integer_id = min_id ∷ max_id ∷ []
required integer_id_counter = start ∷ start_int ∷ []
required from_ref = from ∷ []

abbrev without : List (Name × Code) → List Name → List Name
without items [] = []
without items (n ∷ names) = elim (find_item n items) [
  | none ↦ n ∷ without items names
  | some _ ↦ without items names
]

-- the items that implementations lack
abbrev pub missing : List Impl → List Name
missing [] = []
missing (i ∷ impls) = without i.items (required i.of_trait) ++ missing impls

-- what the implementations lack: the options, and the items
abbrev pub lacking : Generated → List Name
lacking (Generated.newtype options) = if options.counter then start_int ∷ [] else []
lacking (arms options matches) = []

missing_struct :
    (m : Member) (a c f : Bool)
    → missing (struct_impls m (record { from = f; counter = c; contiguous = a }))
      ≡ (if c then start_int ∷ [] else [])
missing_struct m true true true = refl
missing_struct m true true false = refl
missing_struct m true false true = refl
missing_struct m true false false = refl
missing_struct m false true true = refl
missing_struct m false true false = refl
missing_struct m false false true = refl
missing_struct m false false false = refl

-- The implementations that are emitted, whatever is asked for, define every item that their traits
-- require, except that with the option `counter` that of `IntegerIdCounter` lacks `START_INT`.
pub missing-emit : (m : Member) (g : Generated) → missing (emit m g) ≡ lacking g
unfolding emit
missing-emit m (Generated.newtype o) = missing_struct m o.contiguous o.counter o.from
missing-emit m (arms o matches) = elim (Bool-cases o.from) [
  | inl copied ↦ rw copied refl
  | inr not_copied ↦ rw not_copied refl
]
