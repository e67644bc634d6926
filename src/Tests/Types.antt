-- ===== src/Tests/Types.antt =====
-- The id types of crates/intid and the structs around them at concrete inputs, with a type of
-- integers below the largest one for those of the crate nonmax.
use native.Mathlib.Bridge.{le_prop}
use native.Mathlib.Decide.{dec_lt}
use mathlib.Core.HLevel.{Σ_prop_path}
use Prim.Native.Nat.Ordering.{eq}
use idmap_rs.Common.{ℕ, ◌+◌, ◌-◌, ◌<◌, ◌≡◌, ◌↔◌, refl, ap, Option, none, some, arith}
use idmap_rs.Run.{ok, undefined}
use idmap_rs.Intid.Uint.{PrimInt, u8, u16, u32, u64, u128, usize, modulus}
use idmap_rs.Intid.Id.{IsLawful, IsContiguous, checked_add, checked_sub}
use idmap_rs.Intid.Id.Order.{OrderByInt, cmp}
use idmap_rs.Intid.Impls.NonMax.{NonMax, IsNonMax}
use idmap_rs.Compose.Ids.{
  Kind, base, newtype, nonmax, IdOf, id_of, id_of-IsLawful, base_id, base_contiguous, base_counter,
  Base,
}
use idmap_rs.Tests.Setup.{x86_64}

wide : (t : PrimInt) → 1 < modulus t
wide u8 = omega arith
wide u16 = omega arith
wide u32 = omega arith
wide u64 = omega arith
wide u128 = omega arith
wide usize = omega arith

abbrev Below : PrimInt → Type 0
Below t = (n : ℕ) × (n + 1 < modulus t)

abbrev below_of : (t : PrimInt) (n : ℕ) → Dec (n + 1 < modulus t) → Option (Below t)
below_of t n (yes h) = some (n, h)
below_of t n (no _) = none

abbrev below : (t : PrimInt) → NonMax (Below t)
below t = record {
  new = λ n. below_of t n (dec_lt (n + 1) (modulus t));
  new_unchecked =
      λ n. elim (below_of t n (dec_lt (n + 1) (modulus t))) [ some k ↦ ok k | none ↦ undefined ];
  get = λ k. k.0;
  zero = (0, wide t);
  max = (modulus t - 2, omega (arith, wide t));
}

below_of_lem :
    (t : PrimInt) (k : Below t) (d : Dec (k.0 + 1 < modulus t)) → below_of t k.0 d ≡ some k
below_of_lem t k (yes h) = ap some (Σ_prop_path (λ n. le_prop) refl)
below_of_lem t k (no h) = absurd (h k.1)

get-below_of :
    (t : PrimInt) (n : ℕ) (d : Dec (n + 1 < modulus t)) (k : Below t)
    → below_of t n d ≡ some k
    → k.0 ≡ n
get-below_of t n (yes h) k e = cc
get-below_of t n (no h) k e = cc

below-IsNonMax : (t : PrimInt) → IsNonMax t (below t)
below-IsNonMax t = record {
  get_small = λ k. k.1;
  new_get = λ k. below_of_lem t k (dec_lt (k.0 + 1) (modulus t));
  get_new = λ n k e. get-below_of t n (dec_lt (n + 1) (modulus t)) k e;
  new_small = λ n lt. ((n, lt), below_of_lem t (n, lt) (dec_lt (n + 1) (modulus t)));
  unchecked_new = λ n k e. rw (e, below) refl;
  get_zero = refl;
  get_max = omega (arith, wide t);
}

-- a struct around a struct around `NonMaxU32`
abbrev around : Kind
around = newtype (newtype (base (nonmax u32)))

id_of-IsLawful_example :
    IsLawful (id_of Below below around)
    × ((a b : OrderByInt (IdOf Below below around))
        → (cmp ⦃i = id_of Below below around⦄ a b ≡ eq) ↔ (a ≡ b))
    × ((a b : IdOf Below below around) (n : ℕ)
        → (checked_add ⦃id = id_of Below below around⦄ a n ≡ some b)
          ↔ (checked_sub ⦃id = id_of Below below around⦄ b n ≡ some a))
    × ((b : Base)
        → IsContiguous (base_id Below below b) (base_contiguous Below below wide b)
          × ((base_counter Below below wide b).start ≡ (base_contiguous Below below wide b).min_id)
          × ((base_counter Below below wide b).start_int
              ≡ (base_id Below below b).to_int (base_counter Below below wide b).start))
id_of-IsLawful_example = id_of-IsLawful Below below below-IsNonMax wide around
