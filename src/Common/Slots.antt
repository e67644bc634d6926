-- ===== src/Common/Slots.antt =====
-- A `Vec<Option<V>>` read as a partial function from indices, and the number of its entries.
use Prim.Native.Nat.{ℕ, zero, suc, ◌+◌, ◌≤◌, ◌<◌}
use mathlib.Core.Path.{◌≡◌, refl}
use mathlib.Core.List.{List, [], ◌∷◌, ◌++◌}
use mathlib.Core.Option.{Option, none, some}
use native.Mathlib.Omega.{arith}
use idmap_rs.Common.Tests.{◌==◌, if◌then◌else◌, and_then}
use idmap_rs.Common.Lists.{length, get_elem?, set, replicate}

-- 1 for an occupied slot and 0 for an empty one
abbrev pub filled {ℓ} : {V : Type ℓ} → Option V → ℕ
filled none = 0
filled (some _) = 1

module _ {ℓ} {V : Type ℓ} where
  -- the entry at an index, with `none` beyond the end
  abbrev pub slot : List (Option V) → ℕ → Option V
  slot [] i = none
  slot (x ∷ xs) zero = x
  slot (x ∷ xs) (suc i) = slot xs i

  abbrev pub occupied : List (Option V) → ℕ
  occupied [] = 0
  occupied (x ∷ xs) = filled x + occupied xs

module _ {ℓ} {V : Type ℓ} where
  pub get_elem?-slot :
      (xs : List (Option V)) (i : ℕ) → i < length xs → get_elem? xs i ≡ some (slot xs i)
  get_elem?-slot [] i h = absurd (omega arith)
  get_elem?-slot (x ∷ xs) zero h = refl
  get_elem?-slot (x ∷ xs) (suc i) h = get_elem?-slot xs i (omega arith)

  pub slot_beyond : (xs : List (Option V)) (i : ℕ) → length xs ≤ i → slot xs i ≡ none
  slot_beyond [] i h = refl
  slot_beyond (x ∷ xs) zero h = absurd (omega arith)
  slot_beyond (x ∷ xs) (suc i) h = slot_beyond xs i (omega arith)

  pub slot-set :
      (xs : List (Option V)) (i j : ℕ) (o : Option V)
      → i < length xs
      → slot (set xs i o) j ≡ (if i == j then o else slot xs j)
  slot-set [] i j o h = absurd (omega arith)
  slot-set (x ∷ xs) zero zero o h = refl
  slot-set (x ∷ xs) zero (suc j) o h = ground arith
  slot-set (x ∷ xs) (suc i) zero o h = ground arith
  slot-set (x ∷ xs) (suc i) (suc j) o h = ground (arith, slot-set xs i j o)

  pub slot-pad : (xs : List (Option V)) (n j : ℕ) → slot (xs ++ replicate n none) j ≡ slot xs j
  slot-pad [] zero j = refl
  slot-pad [] (suc n) zero = refl
  slot-pad [] (suc n) (suc j) = slot-pad [] n j
  slot-pad (x ∷ xs) n zero = refl
  slot-pad (x ∷ xs) n (suc j) = slot-pad xs n j

  pub occupied-set :
      (xs : List (Option V)) (i : ℕ) (o : Option V)
      → i < length xs
      → occupied (set xs i o) + filled (slot xs i) ≡ occupied xs + filled o
  occupied-set [] i o h = absurd (omega arith)
  occupied-set (x ∷ xs) zero o h = omega arith
  occupied-set (x ∷ xs) (suc i) o h = omega (arith, occupied-set xs i o (omega arith))

  pub occupied-pad :
      (xs : List (Option V)) (n : ℕ) → occupied (xs ++ replicate n none) ≡ occupied xs
  occupied-pad [] zero = refl
  occupied-pad [] (suc n) = omega (arith, occupied-pad [] n)
  occupied-pad (x ∷ xs) n = omega (arith, occupied-pad xs n)

  filled-le-one : (o : Option V) → filled o ≤ 1
  filled-le-one none = omega arith
  filled-le-one (some v) = omega arith

  pub occupied-le-length : (xs : List (Option V)) → occupied xs ≤ length xs
  occupied-le-length [] = omega arith
  occupied-le-length (x ∷ xs) = omega (arith, filled-le-one x, occupied-le-length xs)

  -- an occupied slot is counted
  pub filled-le-occupied : (xs : List (Option V)) (i : ℕ) → filled (slot xs i) ≤ occupied xs
  filled-le-occupied [] i = omega arith
  filled-le-occupied (x ∷ xs) zero = omega arith
  filled-le-occupied (x ∷ xs) (suc i) = omega (arith, filled-le-occupied xs i)

  -- the `?` chain of the sources reads a slot
  pub get_elem?-and_then :
      (xs : List (Option V)) (i : ℕ) → and_then (get_elem? xs i) (λ entry. entry) ≡ slot xs i
  get_elem?-and_then [] i = refl
  get_elem?-and_then (x ∷ xs) zero = refl
  get_elem?-and_then (x ∷ xs) (suc i) = get_elem?-and_then xs i
