-- ===== src/Intid/Uint.antt =====
-- crates/intid/src/uint.rs and uint/sealed.rs: the unsigned primitive integers. A value of an
-- integer type is a number below its modulus; `usize` has the width of the target.
pub mod Text
use native.Mathlib.Nat.{one-le-pow, mod-eq_of_lt}
use idmap_rs.Common.{
  ℕ, ◌+◌, ◌-◌, ◌%◌, ◌^◌, ◌<◌, ◌≡◌, ◌↔◌, Option, none, some, arith, ltb, leb, if◌then◌else◌,
}
use idmap_rs.Run.{Platform, usize_mod}

-- the types that `impl_primint!` lists
pub data PrimInt : Type 0 where
  u8 u16 u32 u64 u128 usize : PrimInt

module _ ⦃p : Platform⦄ where
  abbrev pub bits : PrimInt → ℕ
  bits u8 = 8
  bits u16 = 16
  bits u32 = 32
  bits u64 = 64
  bits u128 = 128
  bits usize = p.usize_bits

  abbrev pub modulus : PrimInt → ℕ
  modulus t = 2 ^ bits t

  abbrev pub zero : PrimInt → ℕ
  zero t = 0

  abbrev pub one : PrimInt → ℕ
  one t = 1

  abbrev pub max_value : PrimInt → ℕ
  max_value t = modulus t - 1

  unfoldable pub checked_add : PrimInt → ℕ → ℕ → Option ℕ
  checked_add t left right = if ltb (left + right) (modulus t) then some (left + right) else none

  unfoldable pub checked_sub : PrimInt → ℕ → ℕ → Option ℕ
  checked_sub t left right = if leb right left then some (left - right) else none

  -- `try_from(val).ok()`
  unfoldable pub from_usize_checked : PrimInt → ℕ → Option ℕ
  from_usize_checked t val = if ltb val (modulus t) then some val else none

  -- `val as $target`
  unfoldable pub from_usize_wrapping : PrimInt → ℕ → ℕ
  from_usize_wrapping t val = val % modulus t

  -- `this as usize`
  unfoldable pub to_usize_wrapping : PrimInt → ℕ → ℕ
  to_usize_wrapping t val = val % usize_mod

  -- `usize::try_from(this).ok()`
  unfoldable pub to_usize_checked : PrimInt → ℕ → Option ℕ
  to_usize_checked t val = if ltb val usize_mod then some val else none

module _ ⦃p : Platform⦄ where
  pub modulus_pos : (t : PrimInt) → 0 < modulus t
  modulus_pos t = one-le-pow (bits t) 2 (omega arith)

  pub to_usize_checked-eq_some :
      (t : PrimInt) (n : ℕ) {i : ℕ} → to_usize_checked t n ≡ some i → (n ≡ i) × (i < usize_mod)
  unfolding to_usize_checked
  to_usize_checked-eq_some t n h = ground arith

  -- A value of an integer type that survives the checked conversion to `usize` comes back
  -- unchanged by the wrapping conversion from `usize`.
  pub from_usize_wrapping-to_usize_checked :
      (t : PrimInt) (n : ℕ) {i : ℕ}
      → n < modulus t
      → to_usize_checked t n ≡ some i
      → from_usize_wrapping t i ≡ n
  unfolding from_usize_wrapping to_usize_checked
  from_usize_wrapping-to_usize_checked t n h e = ground (arith, mod-eq_of_lt h)

  -- The two checked conversions are inverse partial functions: for a value `n` of the integer
  -- type and an index `i` of `usize`, `n` converts to `i` exactly when `i` converts to `n`.
  pub to_usize_checked-from_usize_checked_iff :
      (t : PrimInt) (n i : ℕ)
      → n < modulus t
      → i < usize_mod
      → (to_usize_checked t n ≡ some i) ↔ (from_usize_checked t i ≡ some n)
  unfolding to_usize_checked from_usize_checked
  to_usize_checked-from_usize_checked_iff t n i h k = ground arith

  -- Checked addition and subtraction undo one another: for a value `c` of the integer type,
  -- `a + b` is `c` without overflow exactly when `c - b` is `a` without underflow.
  pub checked_sub-checked_add_iff :
      (t : PrimInt) (a b c : ℕ)
      → c < modulus t
      → (checked_add t a b ≡ some c) ↔ (checked_sub t c b ≡ some a)
  unfolding checked_add checked_sub
  checked_sub-checked_add_iff t a b c h = ground arith
