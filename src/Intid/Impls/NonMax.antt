-- ===== src/Intid/Impls/NonMax.antt =====
-- crates/intid/src/impls.rs: the ids that the `NonMax` integers of the crate nonmax are. The crate is not
-- here: its types are an interface, with their documented behaviour as laws.
use idmap_rs.Common.{ℕ, ◌+◌, ◌<◌, ◌≡◌, sym, Option, some, arith}
use idmap_rs.Run.{Run, ok, Platform}
use idmap_rs.Intid.Uint.{PrimInt, modulus}
use idmap_rs.Intid.Id.{
  IntegerId, from_int_default, from_int_default-some, from_int_default-none, IsLawful,
  ContiguousIntegerId, IsContiguous, IntegerIdCounter,
}

-- the operations of a `NonMax` type
pub record NonMax (N : Type 0) : Type 0 where
  pub new : ℕ → Option N
  pub new_unchecked : ℕ → Run N
  pub get : N → ℕ
  pub zero : N
  pub max : N

-- every integer of the type but the largest one is a value
pub record IsNonMax {N : Type 0} ⦃p : Platform⦄ (t : PrimInt) (ops : NonMax N) : Type 0 where
  pub get_small : (k : N) → ops.get k + 1 < modulus t
  pub new_get : (k : N) → ops.new (ops.get k) ≡ some k
  pub get_new : (n : ℕ) (k : N) → ops.new n ≡ some k → ops.get k ≡ n
  pub new_small : (n : ℕ) → n + 1 < modulus t → (k : N) × (ops.new n ≡ some k)
  pub unchecked_new : (n : ℕ) (k : N) → ops.new n ≡ some k → ops.new_unchecked n ≡ ok k
  pub get_zero : ops.get ops.zero ≡ 0
  pub get_max : ops.get ops.max + 2 ≡ modulus t

module _ {N : Type 0} ⦃p : Platform⦄ (t : PrimInt) (ops : NonMax N) where
  abbrev pub nonmax_id : IntegerId N
  nonmax_id = record {
    int = t;
    from_int = from_int_default ops.new;
    from_int_checked = ops.new;
    from_int_unchecked = ops.new_unchecked;
    to_int = ops.get;
  }

  abbrev pub nonmax_contiguous : ContiguousIntegerId N
  nonmax_contiguous = record { min_id = ops.zero; max_id = ops.max }

  abbrev pub nonmax_counter : IntegerIdCounter N
  nonmax_counter = record { start = ops.zero; start_int = 0 }

module _ {N : Type 0} ⦃p : Platform⦄ {t : PrimInt} {ops : NonMax N} (laws : IsNonMax t ops) where
  pub nonmax_id-IsLawful : IsLawful (nonmax_id t ops)
  nonmax_id-IsLawful = record {
    in_range = λ k. omega (arith, laws.get_small k);
    checked-to_int = laws.new_get;
    to_int-checked = laws.get_new;
    unchecked_of_checked = laws.unchecked_new;
    from_int_of_checked = from_int_default-some ops.new;
    from_int_of_none = from_int_default-none ops.new;
  }

  -- the integers from `ZERO` to `MAX` are those of the ids
  pub nonmax-IsContiguous : IsContiguous (nonmax_id t ops) (nonmax_contiguous t ops)
  nonmax-IsContiguous = record {
    valid = λ n low high. laws.new_small n (omega (arith, laws.get_max, high));
    within = λ k. (omega (arith, laws.get_zero), omega (arith, laws.get_max, laws.get_small k));
  }

  -- `START_INT` is the integer of `START`
  nonmax_counter_lem : (nonmax_counter t ops).start_int ≡ ops.get (nonmax_counter t ops).start
  nonmax_counter_lem = sym laws.get_zero
