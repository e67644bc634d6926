-- ===== src/Intid/Impls.antt =====
-- crates/intid/src/impls.rs: the ids that the primitive integers and the `NonZero` integers are.
-- The macros are read once for all the types that they list: the type is an argument. The
-- `NonMax` integers are those of another crate.
pub mod NonMax
use native.Mathlib.Bridge.{le_prop}
use native.Mathlib.Decide.{dec_lt}
use mathlib.Core.HLevel.{Σ_prop_path, ×_prop}
use idmap_rs.Common.{ℕ, ◌<◌, ◌≡◌, refl, ap, Option, none, some, arith}
use idmap_rs.Run.{Run, ok, undefined, Platform}
use idmap_rs.Intid.Uint.{PrimInt, modulus, max_value, modulus_pos}
use idmap_rs.Intid.Id.{
  IntegerId, from_int_default, from_int_default-some, from_int_default-none,
  from_int_unchecked_default, IsLawful, ContiguousIntegerId, IsContiguous, IntegerIdCounter,
}

module _ ⦃p : Platform⦄ where
  -- the values of an integer type
  abbrev pub Word : PrimInt → Type 0
  Word t = (n : ℕ) × (n < modulus t)

  word_of : (t : PrimInt) (n : ℕ) → Dec (n < modulus t) → Option (Word t)
  word_of t n (yes h) = some (n, h)
  word_of t n (no _) = none

  -- `Self::Int` is the type itself: a number that is no value of it cannot be passed
  unfoldable pub word? : (t : PrimInt) → ℕ → Option (Word t)
  unfolding word_of dec_lt
  word? t n = word_of t n (dec_lt n (modulus t))

  abbrev pub primint_id : (t : PrimInt) → IntegerId (Word t)
  primint_id t = record {
    int = t;
    from_int = from_int_default (word? t);
    from_int_checked = word? t;
    from_int_unchecked = from_int_unchecked_default (from_int_default (word? t));
    to_int = λ w. w.0;
  }

  abbrev pub primint_contiguous : (t : PrimInt) → ContiguousIntegerId (Word t)
  primint_contiguous t = record {
    min_id = (0, modulus_pos t);
    max_id = (max_value t, omega (arith, modulus_pos t));
  }

  abbrev pub primint_counter : (t : PrimInt) → IntegerIdCounter (Word t)
  primint_counter t = record { start = (0, modulus_pos t); start_int = 0 }

  -- the values of `NonZero`
  abbrev pub NonZero : PrimInt → Type 0
  NonZero t = (n : ℕ) × ((0 < n) × (n < modulus t))

  nonzero_of : (t : PrimInt) (n : ℕ) → Dec (0 < n) → Dec (n < modulus t) → Option (NonZero t)
  nonzero_of t n (yes pos) (yes h) = some (n, (pos, h))
  nonzero_of t n (yes pos) (no _) = none
  nonzero_of t n (no _) _ = none

  -- `NonZero::new`
  unfoldable pub nonzero? : (t : PrimInt) → ℕ → Option (NonZero t)
  unfolding nonzero_of dec_lt
  nonzero? t n = nonzero_of t n (dec_lt 0 n) (dec_lt n (modulus t))

  -- `NonZero::new_unchecked` is undefined at zero
  unfoldable pub nonzero_unchecked : (t : PrimInt) → ℕ → Run (NonZero t)
  nonzero_unchecked t n = elim (nonzero? t n) [ some w ↦ ok w | none ↦ undefined ]

  abbrev pub nonzero_id : (t : PrimInt) → IntegerId (NonZero t)
  nonzero_id t = record {
    int = t;
    from_int = from_int_default (nonzero? t);
    from_int_checked = nonzero? t;
    from_int_unchecked = nonzero_unchecked t;
    to_int = λ w. w.0;
  }

  module _ (t : PrimInt) (wide : 1 < modulus t) where
    abbrev pub nonzero_contiguous : ContiguousIntegerId (NonZero t)
    nonzero_contiguous = record {
      min_id = (1, (omega arith, wide));
      max_id = (max_value t, (omega arith, omega arith));
    }

    abbrev pub nonzero_counter : IntegerIdCounter (NonZero t)
    nonzero_counter = record { start = (1, (omega arith, wide)); start_int = 1 }

-- from here on the conversions stay shut behind these facts
module _ ⦃p : Platform⦄ (t : PrimInt) where
  word_of_lem : (w : Word t) (d : Dec (w.0 < modulus t)) → word_of t w.0 d ≡ some w
  unfolding word_of
  word_of_lem w (yes h) = ap some (Σ_prop_path (λ n. le_prop) refl)
  word_of_lem w (no h) = absurd (h w.1)

  to_int-word_of : (n : ℕ) (d : Dec (n < modulus t)) (w : Word t) → word_of t n d ≡ some w → w.0 ≡ n
  unfolding word_of
  to_int-word_of n (yes h) w e = cc
  to_int-word_of n (no h) w e = cc

  nonzero_of_lem :
      (w : NonZero t) (d : Dec (0 < w.0)) (e : Dec (w.0 < modulus t))
      → nonzero_of t w.0 d e ≡ some w
  unfolding nonzero_of
  nonzero_of_lem w (yes q) (yes h) = ap some (Σ_prop_path (λ n. ×_prop le_prop le_prop) refl)
  nonzero_of_lem w (yes q) (no h) = absurd (h w.1.1)
  nonzero_of_lem w (no q) e = absurd (q w.1.0)

  to_int-nonzero_of :
      (n : ℕ) (d : Dec (0 < n)) (e : Dec (n < modulus t)) (w : NonZero t)
      → nonzero_of t n d e ≡ some w
      → w.0 ≡ n
  unfolding nonzero_of
  to_int-nonzero_of n (yes q) (yes h) w k = cc
  to_int-nonzero_of n (yes q) (no h) w k = cc
  to_int-nonzero_of n (no q) e w k = cc

  -- Every primitive integer type is a lawful id: its conversions lose nothing and agree.
  pub primint_id-IsLawful : IsLawful (primint_id t)
  unfolding word? from_int_unchecked_default
  primint_id-IsLawful = record {
    in_range = λ w. w.1;
    checked-to_int = λ w. word_of_lem w (dec_lt w.0 (modulus t));
    to_int-checked = λ n w e. to_int-word_of n (dec_lt n (modulus t)) w e;
    unchecked_of_checked = from_int_default-some (word? t);
    from_int_of_checked = from_int_default-some (word? t);
    from_int_of_none = from_int_default-none (word? t);
  }

  -- Every `NonZero` integer type is a lawful id: its conversions lose nothing and agree on every
  -- integer but zero, which they refuse.
  pub nonzero_id-IsLawful : IsLawful (nonzero_id t)
  unfolding nonzero? nonzero_unchecked
  nonzero_id-IsLawful = record {
    in_range = λ w. w.1.1;
    checked-to_int = λ w. nonzero_of_lem w (dec_lt 0 w.0) (dec_lt w.0 (modulus t));
    to_int-checked = λ n w e. to_int-nonzero_of n (dec_lt 0 n) (dec_lt n (modulus t)) w e;
    unchecked_of_checked = λ n w e. ground arith;
    from_int_of_checked = from_int_default-some (nonzero? t);
    from_int_of_none = from_int_default-none (nonzero? t);
  }

  pub primint-IsContiguous : IsContiguous (primint_id t) (primint_contiguous t)
  primint-IsContiguous = record {
    valid = λ n low high.
        let w : Word t = (n, omega (arith, modulus_pos t)) in
        (w, primint_id-IsLawful.checked-to_int w);
    within = λ w. (omega arith, omega (arith, w.1));
  }

  pub nonzero-IsContiguous :
      (wide : 1 < modulus t) → IsContiguous (nonzero_id t) (nonzero_contiguous t wide)
  nonzero-IsContiguous wide = record {
    valid = λ n low high.
        let w : NonZero t = (n, (omega arith, omega arith)) in
        (w, nonzero_id-IsLawful.checked-to_int w);
    within = λ w. (omega (arith, w.1.0), omega (arith, w.1.1));
  }
