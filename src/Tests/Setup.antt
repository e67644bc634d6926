-- ===== src/Tests/Setup.antt =====
-- The target and the values that the tests share.
use Prim.Native.Nat.{ℕ, zero, suc, ◌^◌}
use native.Mathlib.Bridge.{le_prop}
use mathlib.Core.HLevel.{Σ_prop_path}
use idmap_rs.Common.{◌≡◌, refl, slot, none, some, [], ◌∷◌, arith}
use idmap_rs.Run.{Platform}
use idmap_rs.Intid.Uint.{u32, to_usize_checked}
use idmap_rs.Intid.Id.{IntegerId, IsLawful, ContiguousIntegerId, IsContiguous, IntegerIdCounter}
use idmap_rs.Intid.Impls.{
  Word, primint_id, primint_id-IsLawful, primint_contiguous, primint-IsContiguous, primint_counter,
}
use idmap_rs.Direct.{index_of}
use idmap_rs.Direct.Map.{DirectIdMap}
use idmap_rs.Direct.Map.Invariant.{IsValid}

-- a 64-bit target, with elements of 32 bytes
instance abbrev pub x86_64 : Platform
x86_64 = record { usize_bits = 64; vec_cap = 2 ^ 58; vec_cap_small = omega arith }

abbrev pub U32 : Type 0
U32 = Word u32

instance abbrev pub u32_id : IntegerId U32
u32_id = primint_id u32

instance abbrev pub u32_contiguous : ContiguousIntegerId U32
u32_contiguous = primint_contiguous u32

instance abbrev pub u32_counter : IntegerIdCounter U32
u32_counter = primint_counter u32

abbrev pub lawful : IsLawful u32_id
lawful = primint_id-IsLawful u32

abbrev pub contiguous : IsContiguous u32_id u32_contiguous
contiguous = primint-IsContiguous u32

abbrev pub one : U32
one = (1, omega arith)

abbrev pub two : U32
two = (2, omega arith)

abbrev pub three : U32
three = (3, omega arith)

-- the largest id
abbrev pub last : U32
last = (0xffff_ffff, omega arith)

pub word_path : (a b : U32) → a.0 ≡ b.0 → a ≡ b
word_path a b e = Σ_prop_path (λ n. le_prop) e

-- entries at 1 and 3
abbrev pub sample : DirectIdMap U32 ℕ
sample = record { values = none ∷ some 10 ∷ none ∷ some 30 ∷ []; len = 2 }

pub sample-IsValid : IsValid sample
unfolding index_of to_usize_checked
sample-IsValid = record { counted = refl; fits = omega arith; keyed = λ i v e. keyed i v e }
  where
    keyed : (i v : ℕ) → slot sample.values i ≡ some v → (k : U32) × (index_of k ≡ some i)
    keyed zero v e = absurd (cc)
    keyed (suc zero) v e = (one, refl)
    keyed (suc (suc zero)) v e = absurd (cc)
    keyed (suc (suc (suc zero))) v e = (three, refl)
    keyed (suc (suc (suc (suc i)))) v e = absurd (cc)
