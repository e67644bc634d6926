-- ===== src/Alloc/Reusing/Heap.antt =====
-- crates/intid-alloactor/src/reusing.rs: the ids on the heap, counted by their integers.
use idmap_rs.Common.{
  ℕ, ◌+◌, ◌<◌, ◌≡◌, refl, ap, none, some, List, [], ◌∷◌, ◌++◌, arith, ◌==◌, if◌then◌else◌,
  Option-cases, inl, inr,
}
use idmap_rs.Intid.Id.{IntegerId}
use idmap_rs.Intid.Id.Order
use idmap_rs.Intid.Id.Order.{OrderByInt}
use idmap_rs.Alloc.Reusing.{Reverse, reverse_cmp, pop}

module _ {T : Type 0} ⦃id : IntegerId T⦄ where
  -- 1 if the id has this integer
  abbrev pub hit : ℕ → T → ℕ
  hit n k = if id.to_int k == n then 1 else 0

  -- how many of the ids have this integer
  unfoldable pub count : ℕ → List T → ℕ
  count n [] = 0
  count n (k ∷ ks) = hit n k + count n ks

  unfoldable pub count_heap : ℕ → List (Reverse (OrderByInt T)) → ℕ
  count_heap n [] = 0
  count_heap n (k ∷ ks) = hit n k.inner.id + count_heap n ks

  -- `popped` took out an element with the smallest integer
  pub record IsPopped (before : List (Reverse (OrderByInt T)))
      (popped : Reverse (OrderByInt T) × List (Reverse (OrderByInt T))) : Type 0 where
    pub counts : (n : ℕ) → count_heap n before ≡ hit n popped.0.inner.id + count_heap n popped.1
    pub least : (n : ℕ) → n < id.to_int popped.0.inner.id → count_heap n before ≡ 0

  pub pop-none :
      (heap : List (Reverse (OrderByInt T))) → pop (reverse_cmp Order.cmp) heap ≡ none → heap ≡ []
  unfolding pop Order.cmp
  pop-none [] e = refl
  pop-none (x ∷ xs) e = absurd (ground arith)

  pub pop-some :
      (heap : List (Reverse (OrderByInt T)))
      → (r : Reverse (OrderByInt T) × List (Reverse (OrderByInt T)))
      → pop (reverse_cmp Order.cmp) heap ≡ some r
      → IsPopped heap r
  unfolding pop Order.cmp count_heap
  pop-some [] r e = absurd (ground arith)
  pop-some (x ∷ xs) r e = elim (Option-cases (pop (reverse_cmp Order.cmp) xs)) [
    | inl none_left ↦
        let empty = pop-none xs none_left in
        record {
          counts = λ n. ground (arith, ap (count_heap n) empty);
          least = λ n lt. ground (arith, ap (count_heap n) empty);
        }
    | inr (s, e') ↦
        let rest = pop-some xs s e' in
        record {
          counts = λ n. ground (arith, rest.counts n);
          least = λ n lt. ground (arith, rest.counts n, rest.least n);
        }
  ]

  pub count-append : (n : ℕ) (xs ys : List T) → count n (xs ++ ys) ≡ count n xs + count n ys
  unfolding count
  count-append n [] ys = omega arith
  count-append n (x ∷ xs) ys = omega (arith, count-append n xs ys)
