-- ===== src/Alloc/Reusing/Dense.antt =====
-- crates/intid-alloactor/src/reusing.rs: how large the ids become.
use idmap_rs.Common.{
  ℕ, zero, suc, ◌+◌, ◌-◌, ◌≤◌, ◌<◌, ◌≡◌, refl, ap, List, [], ◌∷◌, arith, length, if◌then◌else◌, ltb,
  leb, ◌&&◌,
}
use idmap_rs.Run.{Platform}
use idmap_rs.Intid.Id.{IntegerId, IsLawful, ContiguousIntegerId, IsContiguous, IntegerIdCounter}
use idmap_rs.Alloc.{allocated}
use idmap_rs.Alloc.Reusing.{try_alloc}
use idmap_rs.Alloc.Reusing.Heap.{count}
use idmap_rs.Alloc.Reusing.System.{System, Reach}
use idmap_rs.Alloc.Reusing.Least.{try_alloc_least}

module _ {T : Type 0} ⦃id : IntegerId T⦄ where
  -- how often the `n` integers from `low` on stand in a list of ids
  total : ℕ → ℕ → List T → ℕ
  total low zero l = 0
  total low (suc n) l = count (low + n) l + total low n l

  total-nil : (low n : ℕ) (l : List T) → l ≡ [] → total low n l ≡ 0
  unfolding total count
  total-nil low zero l e = refl
  total-nil low (suc n) l e = omega (arith, ap (count (low + n)) e, total-nil low n l e)

  -- an id counts for one of them at most
  total-cons :
      (low n : ℕ) (k : T) (l : List T)
      → total low n (k ∷ l)
        ≡ (if leb low (id.to_int k) && ltb (id.to_int k) (low + n) then 1 else 0) + total low n l
  unfolding total count
  total-cons low zero k l = ground arith
  total-cons low (suc n) k l = ground (arith, total-cons low n k l)

  total-le_length : (low n : ℕ) (l : List T) → total low n l ≤ length l
  total-le_length low n [] = omega (arith, total-nil low n [] refl)
  total-le_length low n (k ∷ l) = ground (arith, total-cons low n k l, total-le_length low n l)

  total-all :
      (low n : ℕ) (l : List T)
      → ((m : ℕ) → low ≤ m → m < low + n → count m l ≡ 1)
      → total low n l ≡ n
  unfolding total
  total-all low zero l h = refl
  total-all low (suc n) l h = omega (
    arith,
    h (low + n) (omega arith) (omega arith),
    total-all low n l (λ m a b. h m a (omega (arith, b))),
  )

module _ {T : Type 0} ⦃p : Platform⦄ ⦃id : IntegerId T⦄ ⦃d : ContiguousIntegerId T⦄
    ⦃c : IntegerIdCounter T⦄ (lawful : IsLawful id) (contiguous : IsContiguous id d) where
  -- For a lawful and contiguous id type, the ids stay dense: an id that `try_alloc` returns in a
  -- reachable state is no further above `START` than there are ids held.
  pub try_alloc_dense :
      {s : System T} {k : T}
      → Reach s
      → (try_alloc s.allocator).0 ≡ allocated k
      → id.to_int k ≤ id.to_int c.start + length s.held
  try_alloc_dense {s} {k} r e =
      let (low, _, below) = try_alloc_least lawful contiguous r e in
      let n = id.to_int k - id.to_int c.start in
      omega (
        arith,
        low,
        total-all (id.to_int c.start) n s.held (λ m a b. below m a (omega (arith, b, low))),
        total-le_length (id.to_int c.start) n s.held,
      )
