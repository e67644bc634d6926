-- ===== src/Derive/Emitted/Meaning.antt =====
-- What the code that the derive macro emits means, by the rules of the language, over what the
-- implementations of the field's type do.
use idmap_rs.Common.{ℕ, Bool, true, false, ◌==◌, Option, none, some, List, [], ◌∷◌, if◌then◌else◌}
use idmap_rs.Run.{Run, ok, undefined, ◌>>=◌}
use idmap_rs.Intid.Uint
use idmap_rs.Intid.Uint.{PrimInt}
use idmap_rs.Intid.Id.{IntegerId, ContiguousIntegerId, IntegerIdCounter}
use idmap_rs.Derive.{Arm}
use idmap_rs.Derive.Newtype.{Newtype}
use idmap_rs.Derive.Discriminants.{entry, find_arm}
use idmap_rs.Derive.Emitted.{
  Member, named, unnamed, Trait, integer_id, contiguous_integer_id, integer_id_counter, from_ref,
  Name, int_type, from_int, from_int_checked, from_int_unchecked, to_int, min_id, max_id, start,
  start_int, from, Code, parameter, construct, select, call, item, attempt, some_of, dereference,
  usize_type, as_usize, match_or_return, match_or_unreachable, Impl,
}

-- where the code stands: the field of the struct with what its type implements, and the
-- discriminants of the enum
pub record Site (K : Type 0) : Type 0 where
  pub field : Member
  pub id : IntegerId K
  pub contiguous : ContiguousIntegerId K
  pub counter : IntegerIdCounter K
  pub discriminants : List ℕ

-- A value: an integer, one of the field's type, of the struct, of the enum by the number of the
-- variant, an optional one, or an integer type
pub data Value (K : Type 0) : Type 0 where
  num : ℕ → Value K
  inner : K → Value K
  whole : Newtype K → Value K
  variant : ℕ → Value K
  nothing : Value K
  just : Value K → Value K
  type_of : PrimInt → Value K

-- an expression has a value, returns from the function with one, or is ill typed
pub data Flow (K : Type 0) : Type 0 where
  value : Value K → Flow K
  returned : Value K → Flow K
  ill_typed : Flow K

abbrev pub same_member : Member → Member → Bool
same_member (named a) (named b) = a == b
same_member (unnamed a) (unnamed b) = a == b
same_member _ _ = false

module _ {K : Type 0} where
  abbrev pub inner_or_nothing : Option K → Value K
  inner_or_nothing none = nothing
  inner_or_nothing (some k) = just (inner k)

  abbrev pub attempt_value : Value K → Flow K
  attempt_value nothing = returned nothing
  attempt_value (just v) = value v
  attempt_value _ = ill_typed

  abbrev pub match_value : List Arm → Run (Flow K) → Value K → Run (Flow K)
  match_value arms otherwise (num x) = elim (find_arm arms x) [
    | some i ↦ ok (value (variant i))
    | none ↦ otherwise
  ]
  match_value arms otherwise _ = ok ill_typed

  -- the rest of an expression, once a part has a value
  abbrev pub then_value : Flow K → (Value K → Run (Flow K)) → Run (Flow K)
  then_value (value v) rest = rest v
  then_value (returned v) rest = ok (returned v)
  then_value ill_typed rest = ok ill_typed

  -- the body of a function: none if it is ill typed
  abbrev pub result_of : Flow K → Option (Value K)
  result_of (value v) = some v
  result_of (returned v) = some v
  result_of ill_typed = none

module _ {K : Type 0} (site : Site K) where
  -- the functions of the field's type
  abbrev call_value : Trait → Name → Value K → Run (Flow K)
  call_value integer_id from_int (num n) = site.id.from_int n >>= λ k. ok (value (inner k))
  call_value integer_id from_int_checked (num n) =
      ok (value (inner_or_nothing (site.id.from_int_checked n)))
  call_value integer_id from_int_unchecked (num n) =
      site.id.from_int_unchecked n >>= λ k. ok (value (inner k))
  call_value integer_id to_int (inner k) = ok (value (num (site.id.to_int k)))
  call_value _ _ _ = ok ill_typed

  abbrev item_value : Trait → Name → Flow K
  item_value integer_id int_type = value (type_of site.id.int)
  item_value contiguous_integer_id min_id = value (inner site.contiguous.min_id)
  item_value contiguous_integer_id max_id = value (inner site.contiguous.max_id)
  item_value integer_id_counter start = value (inner site.counter.start)
  item_value integer_id_counter start_int = value (num site.counter.start_int)
  item_value _ _ = ill_typed

  abbrev pub construct_value : Member → Value K → Flow K
  construct_value m (inner k) =
      if same_member m site.field then value (whole (record { field = k })) else ill_typed
  construct_value m _ = ill_typed

  abbrev select_value : Value K → Member → Flow K
  select_value (whole w) m = if same_member m site.field then value (inner w.field) else ill_typed
  select_value _ m = ill_typed

  abbrev cast_value : Value K → Flow K
  cast_value (variant i) = value (num (entry site.discriminants i))
  cast_value _ = ill_typed

  unfoldable pub eval : Code → Value K → Run (Flow K)
  unfolding find_arm
  eval parameter arg = ok (value arg)
  eval (construct m c) arg = eval c arg >>= λ f. then_value f λ v. ok (construct_value m v)
  eval (select c m) arg = eval c arg >>= λ f. then_value f λ v. ok (select_value v m)
  eval (call t n c) arg = eval c arg >>= λ f. then_value f (call_value t n)
  eval (item t n) arg = ok (item_value t n)
  eval (attempt c) arg = eval c arg >>= λ f. then_value f λ v. ok (attempt_value v)
  eval (some_of c) arg = eval c arg >>= λ f. then_value f λ v. ok (value (just v))
  eval (dereference c) arg = eval c arg
  eval usize_type arg = ok (value (type_of Uint.usize))
  eval (as_usize c) arg = eval c arg >>= λ f. then_value f λ v. ok (cast_value v)
  eval (match_or_return c arms) arg =
      eval c arg >>= λ f. then_value f (match_value arms (ok (returned nothing)))
  eval (match_or_unreachable c arms) arg =
      eval c arg >>= λ f. then_value f (match_value arms undefined)

  unfoldable pub run_body : Option Code → Value K → Run (Option (Value K))
  unfolding eval
  run_body none arg = ok none
  run_body (some c) arg = eval c arg >>= λ f. ok (result_of f)

abbrev same_name : Name → Name → Bool
same_name int_type int_type = true
same_name from_int from_int = true
same_name from_int_checked from_int_checked = true
same_name from_int_unchecked from_int_unchecked = true
same_name to_int to_int = true
same_name min_id min_id = true
same_name max_id max_id = true
same_name start start = true
same_name start_int start_int = true
same_name from from = true
same_name _ _ = false

abbrev same_trait : Trait → Trait → Bool
same_trait integer_id integer_id = true
same_trait contiguous_integer_id contiguous_integer_id = true
same_trait integer_id_counter integer_id_counter = true
same_trait from_ref from_ref = true
same_trait _ _ = false

abbrev pub find_item : Name → List (Name × Code) → Option Code
find_item n [] = none
find_item n ((m, c) ∷ items) =
    let rest = find_item n items in if same_name n m then some c else rest

-- the body of an item of an implementation
abbrev pub body : List Impl → Trait → Name → Option Code
body [] t n = none
body (i ∷ impls) t n =
    let rest = body impls t n in if same_trait t i.of_trait then find_item n i.items else rest
