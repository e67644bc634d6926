-- ===== src/Tests/Maps.antt =====
-- src/direct/map.rs at concrete inputs.
use Prim.Native.Nat.{ℕ, zero, suc}
use idmap_rs.Common.{
  ◌≡◌, ◌↔◌, ◌⊎◌, refl, sym, ◌∙◌, fun_ext, slot, Option-cases, inl, inr, true, false, none, some,
  List, [], ◌∷◌, Option, Bool, arith, length, ◌==◌, ==_iff,
}
use idmap_rs.Run.{Run, ok, ◌>>=◌, panic, Panic, oom_id, Platform}
use idmap_rs.Intid.Uint.{u128, to_usize_checked}
use idmap_rs.Intid.Impls.{Word, primint_id}
use idmap_rs.Direct.{index_of, index_or_oom}
use idmap_rs.Direct.Map.{DirectIdMap, new, get, insert, remove, from_iter, beq}
use idmap_rs.Direct.Map.Growth.{HasRoom}
use idmap_rs.Direct.Map.Invariant.{IsValid, new-IsValid}
use idmap_rs.Direct.Map.Lookup.{
  get-slot, get-unrepresentable, IsUpdated, insert_lem, insert-panic, remove-unrepresentable,
}
use idmap_rs.Direct.Map.Returns.{insert-cases}
use idmap_rs.Direct.Map.Refine.{Op, run, replay, run_refines}
use idmap_rs.Direct.Map.Equality.{beq_iff}
use idmap_rs.Tests.Setup.{x86_64, U32, u32_id, one, two, three, sample, sample-IsValid}

-- a target that has room for no vector longer than four
abbrev tiny : Platform
tiny = record { usize_bits = 64; vec_cap = 4; vec_cap_small = omega arith }

abbrev five : U32
five = (5, omega arith)

no_room : (i : ℕ) → index_of ⦃p = tiny⦄ five ≡ some i → ¬ HasRoom {K = U32} {V = ℕ} ⦃p = tiny⦄ new i
unfolding index_of to_usize_checked
no_room i e room = ground arith

insert-cases_example :
    ((i : ℕ) × (r : Option ℕ × DirectIdMap U32 ℕ) × (index_of ⦃p = tiny⦄ five ≡ some i)
      × HasRoom {K = U32} {V = ℕ} ⦃p = tiny⦄ new i
      × (insert ⦃p = tiny⦄ new five 50 ≡ ok r)
      × IsUpdated ⦃p = tiny⦄ new five (some 50) r)
    ⊎ (((i : ℕ) → index_of ⦃p = tiny⦄ five ≡ some i → ¬ HasRoom {K = U32} {V = ℕ} ⦃p = tiny⦄ new i)
        × ((e : Panic) × (insert {V = ℕ} ⦃p = tiny⦄ new five 50 ≡ panic e)))
insert-cases_example = insert-cases ⦃p = tiny⦄ new five 50 (new-IsValid ⦃p = tiny⦄)

-- it panics there, and does not on the usual target
insert_panics : (e : Panic) × (insert {V = ℕ} ⦃p = tiny⦄ new five 50 ≡ panic e)
insert_panics = insert-panic ⦃p = tiny⦄ new five 50 (new-IsValid ⦃p = tiny⦄) no_room

insert_returns :
    (r : Option ℕ × DirectIdMap U32 ℕ) × (insert sample two 20 ≡ ok r)
    × IsUpdated sample two (some 20) r
unfolding index_of to_usize_checked
insert_returns = insert_lem sample two 20 sample-IsValid refl (inl (omega arith))

-- an id beyond `usize`
abbrev far : Word u128
far = (0x1_0000_0000_0000_0000, omega arith)

far_panics :
    (get {V = ℕ} ⦃id = primint_id u128⦄ new far ≡ none)
    × (remove {V = ℕ} ⦃id = primint_id u128⦄ new far ≡ panic (oom_id 0x1_0000_0000_0000_0000))
unfolding index_of to_usize_checked
far_panics = remove-unrepresentable ⦃id = primint_id u128⦄ new far refl

abbrev calls : List (Op U32 ℕ)
calls = Op.insert three 30 ∷ Op.insert one 10 ∷ Op.remove three ∷ Op.shrink_to_fit ∷ []

run_refines_example :
    (r : DirectIdMap U32 ℕ) × (run calls new ≡ ok r)
    × IsValid r
    × (get r ≡ replay calls (λ _. none))
unfolding index_of to_usize_checked
run_refines_example =
    run_refines calls
      ((3, refl, omega arith), ((1, refl, omega arith), ((3, refl, omega arith), (tt, tt))))

abbrev pairs : List (U32 × ℕ)
pairs = (one, 10) ∷ (two, 20) ∷ (one, 11) ∷ []

eq_sound : (a b : ℕ) → (a == b) ≡ true → a ≡ b
eq_sound a b = (==_iff a b).0

-- the sample with an empty slot more, as a removed entry leaves it
abbrev longer : DirectIdMap U32 ℕ
longer = record { values = none ∷ some 10 ∷ none ∷ some 30 ∷ none ∷ []; len = 2 }

longer-IsValid : IsValid longer
longer-IsValid = record {
  counted = refl;
  fits = omega arith;
  keyed = λ i v e. sample-IsValid.keyed i v (same i v e);
}
  where
    same : (i v : ℕ) → slot longer.values i ≡ some v → slot sample.values i ≡ some v
    same zero v e = absurd (cc)
    same (suc zero) v e = e
    same (suc (suc zero)) v e = e
    same (suc (suc (suc zero))) v e = e
    same (suc (suc (suc (suc zero)))) v e = absurd (cc)
    same (suc (suc (suc (suc (suc i))))) v e = absurd (cc)

longer_reads : get longer ≡ get sample
longer_reads = fun_ext λ k. elim (Option-cases (index_of k)) [
  | inl far ↦ get-unrepresentable longer k far ∙ sym (get-unrepresentable sample k far)
  | inr (i, at) ↦ get-slot longer k at ∙ same i ∙ sym (get-slot sample k at)
]
  where
    same : (i : ℕ) → slot longer.values i ≡ slot sample.values i
    same zero = refl
    same (suc zero) = refl
    same (suc (suc zero)) = refl
    same (suc (suc (suc zero))) = refl
    same (suc (suc (suc (suc zero)))) = refl
    same (suc (suc (suc (suc (suc i))))) = refl

-- two valid maps that read the same and are not equal
beq_iff_example :
    (beq ◌==◌ longer sample ≡ true)
    ↔ ((get longer ≡ get sample) × (length longer.values ≡ length sample.values))
beq_iff_example = beq_iff ◌==◌ ==_iff longer sample longer-IsValid sample-IsValid

abbrev zero_id : U32
zero_id = (0, omega arith)

-- the vectors of two maps, by their lengths, and `==`
built : List (U32 × ℕ) → List (U32 × ℕ) → Run (ℕ × ℕ × Bool)
unfolding from_iter beq
built xs ys = do
  a ← from_iter xs
  b ← from_iter ys
  ok (length a.values, length b.values, beq ◌==◌ a b)

-- The order of insertion shows.
insertion_order :
    built ((zero_id, 0) ∷ (one, 1) ∷ (two, 2) ∷ []) ((two, 2) ∷ (one, 1) ∷ (zero_id, 0) ∷ [])
    ≡ ok (4, 3, false)
unfolding built index_or_oom to_usize_checked
insertion_order = refl
