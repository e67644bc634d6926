-- ===== src/Intid/Id.antt =====
-- crates/intid/src/lib.rs: the traits of integer ids, their provided methods, and what the
-- documentation asks of an implementation.
pub mod Order
pub mod Equivalent
use idmap_rs.Common.{
  ℕ, ◌+◌, ◌-◌, ◌≤◌, ◌<◌, ◌≡◌, ◌↔◌, sym, ◌∙◌, ap, Option, none, some, arith, and_then,
}
use idmap_rs.Run.{Run, ok, panic, Panic, invalid_id, Platform}
use idmap_rs.Intid.Uint
use idmap_rs.Intid.Uint.{PrimInt, modulus}

-- `trait IntegerId`; `from_int` and `from_int_unchecked` have provided bodies, which an
-- implementation may replace. An invalid argument of `from_int_unchecked` is undefined behaviour.
pub record IntegerId (K : Type 0) : Type 0 where
  pub int : PrimInt
  pub from_int : ℕ → Run K
  pub from_int_checked : ℕ → Option K
  pub from_int_unchecked : ℕ → Run K
  pub to_int : K → ℕ

-- the provided `from_int`, over `from_int_checked`
unfoldable pub from_int_default : {K : Type 0} → (ℕ → Option K) → ℕ → Run K
from_int_default checked id = elim (checked id) [
  | some success ↦ ok success
  | none ↦ panic (invalid_id id)
]

-- the provided `from_int_unchecked`, over `from_int`
unfoldable pub from_int_unchecked_default : {K : Type 0} → (ℕ → Run K) → ℕ → Run K
from_int_unchecked_default from_int id = from_int id

module _ {K : Type 0} (checked : ℕ → Option K) (n : ℕ) where
  pub from_int_default-some : (k : K) → checked n ≡ some k → from_int_default checked n ≡ ok k
  unfolding from_int_default
  from_int_default-some k e = ground arith

  pub from_int_default-none : checked n ≡ none → from_int_default checked n ≡ panic (invalid_id n)
  unfolding from_int_default
  from_int_default-none e = ground arith

-- What the documentation of the trait asks: a lossless conversion to a value of the integer type,
-- and the same answer from the three ways back.
pub record IsLawful {K : Type 0} ⦃p : Platform⦄ (id : IntegerId K) : Type 0 where
  pub in_range : (k : K) → id.to_int k < modulus id.int
  pub checked-to_int : (k : K) → id.from_int_checked (id.to_int k) ≡ some k
  pub to_int-checked : (n : ℕ) (k : K) → id.from_int_checked n ≡ some k → id.to_int k ≡ n
  pub unchecked_of_checked :
      (n : ℕ) (k : K) → id.from_int_checked n ≡ some k → id.from_int_unchecked n ≡ ok k
  pub from_int_of_checked : (n : ℕ) (k : K) → id.from_int_checked n ≡ some k → id.from_int n ≡ ok k
  pub from_int_of_none :
      (n : ℕ) → id.from_int_checked n ≡ none → id.from_int n ≡ panic (invalid_id n)

-- `trait ContiguousIntegerId`
pub record ContiguousIntegerId (K : Type 0) : Type 0 where
  pub min_id : K
  pub max_id : K

-- exactly the integers from `MIN_ID` to `MAX_ID` are valid
pub record IsContiguous {K : Type 0} (id : IntegerId K) (c : ContiguousIntegerId K) : Type 0 where
  pub valid :
      (n : ℕ)
      → id.to_int c.min_id ≤ n
      → n ≤ id.to_int c.max_id
      → (k : K) × (id.from_int_checked n ≡ some k)
  pub within : (k : K) → (id.to_int c.min_id ≤ id.to_int k) × (id.to_int k ≤ id.to_int c.max_id)

-- `trait IntegerIdCounter`
pub record IntegerIdCounter (K : Type 0) : Type 0 where
  pub start : K
  pub start_int : ℕ

module _ {K : Type 0} ⦃p : Platform⦄ ⦃id : IntegerId K⦄ where
  -- the provided methods of `IntegerIdCounter`
  unfoldable pub checked_add : K → ℕ → Option K
  checked_add this offset =
      and_then (Uint.checked_add id.int (id.to_int this) offset) id.from_int_checked

  unfoldable pub checked_sub : K → ℕ → Option K
  checked_sub this offset =
      and_then (Uint.checked_sub id.int (id.to_int this) offset) id.from_int_checked

module _ {K : Type 0} ⦃p : Platform⦄ ⦃id : IntegerId K⦄ (lawful : IsLawful id) where
  open lawful use {checked-to_int, to_int-checked, in_range}

  some_inj : {a b : K} → some a ≡ some b → a ≡ b
  some_inj e = cc

  -- Two ids with the same integer are the same id.
  pub to_int-injective : (a b : K) → id.to_int a ≡ id.to_int b → a ≡ b
  to_int-injective a b e =
      some_inj (sym (checked-to_int a) ∙ ap id.from_int_checked e ∙ checked-to_int b)

  pub checked_add-to_int :
      (a : K) (n : ℕ) (b : K) → checked_add a n ≡ some b → id.to_int b ≡ id.to_int a + n
  unfolding checked_add Uint.checked_add
  checked_add-to_int a n b e = ground (arith, to_int-checked (id.to_int a + n) b)

  -- For a lawful id type, stepping an id forward by an offset and stepping it back are inverse: `a
  -- + n` is the id `b` exactly when `b - n` is the id `a`.
  pub checked_add-checked_sub_iff :
      (a b : K) (n : ℕ) → (checked_add a n ≡ some b) ↔ (checked_sub b n ≡ some a)
  unfolding checked_add checked_sub Uint.checked_add Uint.checked_sub
  checked_add-checked_sub_iff a b n = (
    λ e. ground (arith, to_int-checked (id.to_int a + n) b, checked-to_int a),
    λ e. ground (arith, to_int-checked (id.to_int b - n) a, checked-to_int b, in_range b),
  )
