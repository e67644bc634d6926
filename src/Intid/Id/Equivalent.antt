-- ===== src/Intid/Id/Equivalent.antt =====
-- crates/intid/src/lib.rs: `EquivalentId`, for looking an id up by a reference to it. A reference is
-- the value that it leads to.
pub record Ref (K : Type 0) : Type 0 where
  pub target : K

pub record MutRef (K : Type 0) : Type 0 where
  pub target : K

pub record EquivalentId (K Q : Type 0) : Type 0 where
  pub as_id : Q → K

module _ {K : Type 0} where
  instance abbrev pub self_equivalent : EquivalentId K K
  self_equivalent = record { as_id = λ k. k }

  instance abbrev pub ref_equivalent : EquivalentId K (Ref K)
  ref_equivalent = record { as_id = λ k. k.target }

  instance abbrev pub mut_ref_equivalent : EquivalentId K (MutRef K)
  mut_ref_equivalent = record { as_id = λ k. k.target }
