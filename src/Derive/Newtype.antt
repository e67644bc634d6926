-- ===== src/Derive/Newtype.antt =====
-- crates/intid-derive/src/lib.rs: the implementations that are generated for a struct with one field,
-- whose type is an id.
use idmap_rs.Common.{◌<◌, some, and_then, arith}
use idmap_rs.Run.{ok, ◌>>=◌, Platform}
use idmap_rs.Intid.Id.{IntegerId, IsLawful, IntegerIdCounter, ContiguousIntegerId, IsContiguous}

pub record Newtype (K : Type 0) : Type 0 where
  pub field : K

module _ {K : Type 0} where
  -- a value of the struct, by its one field
  abbrev pub int_constructor : K → Newtype K
  int_constructor k = record { field = k }

module _ {K : Type 0} (id : IntegerId K) where
  -- each method delegates to that of the field
  abbrev pub newtype_id : IntegerId (Newtype K)
  newtype_id = record {
    int = id.int;
    from_int = λ int. id.from_int int >>= λ k. ok (int_constructor k);
    from_int_checked = λ int. and_then (id.from_int_checked int) λ k. some (int_constructor k);
    from_int_unchecked = λ int. id.from_int_unchecked int >>= λ k. ok (int_constructor k);
    to_int = λ self. id.to_int self.field;
  }

module _ {K : Type 0} (c : ContiguousIntegerId K) where
  -- both constants are made of the `MIN_ID` of the field
  abbrev pub newtype_contiguous : ContiguousIntegerId (Newtype K)
  newtype_contiguous = record {
    min_id = record { field = c.min_id };
    max_id = record { field = c.min_id };
  }

module _ {K : Type 0} (c : IntegerIdCounter K) where
  -- the one constant of the derived `IntegerIdCounter`, which has no `START_INT`
  abbrev pub newtype_start : Newtype K
  newtype_start = record { field = c.start }

module _ {K : Type 0} ⦃p : Platform⦄ (id : IntegerId K) where
  -- The id that is derived for a struct around a lawful id is lawful.
  pub newtype_id-IsLawful : IsLawful id → IsLawful (newtype_id id)
  newtype_id-IsLawful h = record {
    in_range = λ k. h.in_range k.field;
    checked-to_int = λ k. ground (arith, h.checked-to_int k.field);
    to_int-checked = λ n k e. ground (arith, h.to_int-checked n k.field);
    unchecked_of_checked = λ n k e. ground (arith, h.unchecked_of_checked n k.field);
    from_int_of_checked = λ n k e. ground (arith, h.from_int_of_checked n k.field);
    from_int_of_none = λ n e. ground (arith, h.from_int_of_none n);
  }

module _ {K : Type 0} (id : IntegerId K) (c : ContiguousIntegerId K) where
  -- What is derived with the option `contiguous` does not meet the contract of `ContiguousIntegerId`
  -- where the type of the field has two ids at least: the derived `MAX_ID` is its smallest one.
  pub newtype-not_IsContiguous :
      id.to_int c.min_id < id.to_int c.max_id
      → ¬ IsContiguous (newtype_id id) (newtype_contiguous c)
  newtype-not_IsContiguous lt h = omega (arith, (h.within (record { field = c.max_id })).1)
