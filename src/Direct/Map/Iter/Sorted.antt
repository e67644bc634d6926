-- ===== src/Direct/Map/Iter/Sorted.antt =====
-- src/direct/map.rs: the order of the entries, which makes their list unique.
use mathlib.Core.List.Memᴰ
use mathlib.Core.List.{Memᴰ}
use idmap_rs.Common.{
  ℕ, suc, ◌≤◌, ◌≡◌, refl, sym, ap, ◌∙◌, ◌↔◌, inl, inr, some, List, [], ◌∷◌, arith,
}
use idmap_rs.Run.{Platform}
use idmap_rs.Intid.Id.{IntegerId}
use idmap_rs.Direct.{index_of}
use idmap_rs.Direct.Map.Iter.Entries.{From, From-weaken, IsAscending}

module _ {K V : Type 0} ⦃p : Platform⦄ ⦃id : IntegerId K⦄ where
  pub From-not_Mem :
      (n : ℕ) (l : List (K × V)) (k : K) (v : V)
      → index_of k ≡ some n
      → From (suc n) l
      → ¬ Memᴰ (k, v) l
  From-not_Mem n [] k v at from m = Memᴰ.not-nil m
  From-not_Mem n ((k', w) ∷ l) k v at ((n', at', le), from) m = elim (Memᴰ.cases_cons m) [
    | inl e ↦
        let same : index_of k ≡ index_of k' = ap (λ (x : K × V). index_of x.0) e in
        let read : some n ≡ some n' = sym at ∙ same ∙ at' in ground (arith, read, le)
    | inr later ↦ From-not_Mem n l k v at from later
  ]

  -- the entries with an index from `i` on
  From-index :
      (i n : ℕ) (l : List (K × V)) (k : K) (v : V)
      → From i l
      → Memᴰ (k, v) l
      → index_of k ≡ some n
      → i ≤ n
  From-index i n [] k v from m at = absurd (Memᴰ.not-nil m)
  From-index i n ((k', w) ∷ l) k v ((n', at', le), from) m at = elim (Memᴰ.cases_cons m) [
    | inl e ↦
        let same : index_of k ≡ index_of k' = ap (λ (x : K × V). index_of x.0) e in
        let read : some n ≡ some n' = sym at ∙ same ∙ at' in ground (arith, read, le)
    | inr later ↦ From-index i n l k v from later at
  ]

  -- the head of one list stands in the other one, at its head or later
  head_index :
      (n n' : ℕ) (k k' : K) (v w : V) (l : List (K × V))
      → index_of k ≡ some n
      → index_of k' ≡ some n'
      → From (suc n') l
      → Memᴰ (k, v) ((k', w) ∷ l)
      → n' ≤ n
  head_index n n' k k' v w l at at' from m =
      From-index n' n ((k', w) ∷ l) k v ((n', at', omega arith), From-weaken n' l from) m at

  tail_of :
      (n : ℕ) (k x : K) (v y : V) (l : List (K × V))
      → index_of k ≡ some n
      → From (suc n) l
      → Memᴰ (x, y) l
      → ¬ (◌≡◌ {A = K × V} (x, y) (k, v))
  tail_of n k x v y l at from m e =
      From-not_Mem n l x y (ap (λ (q : K × V). index_of q.0) e ∙ at) from m

  -- two lists in ascending order with the same entries are the same
  pub ascending_unique :
      (l m : List (K × V))
      → IsAscending l
      → IsAscending m
      → ((k : K) (v : V) → Memᴰ (k, v) l ↔ Memᴰ (k, v) m)
      → l ≡ m
  ascending_unique [] [] ul um same = refl
  ascending_unique [] ((k, v) ∷ m) ul um same =
      absurd (Memᴰ.not-nil ((same k v).1 (Memᴰ.head refl)))
  ascending_unique ((k, v) ∷ l) [] ul um same =
      absurd (Memᴰ.not-nil ((same k v).0 (Memᴰ.head refl)))
  ascending_unique ((k, v) ∷ l) ((k', w) ∷ m) ((n, at, from), ul) ((n', at', from'), um) same =
      let below = head_index n n' k k' v w m at at' from' ((same k v).0 (Memᴰ.head refl)) in
      let above = head_index n' n k' k w v l at' at from ((same k' w).1 (Memᴰ.head refl)) in
      let one : n ≡ n' = omega (arith, below, above) in
      let heads : ◌≡◌ {A = K × V} (k, v) (k', w) =
        elim (Memᴰ.cases_cons ((same k v).0 (Memᴰ.head refl))) [
          | inl e ↦ e
          | inr later ↦ absurd (From-not_Mem n' m k v (at ∙ ap some one) from' later)
        ] in
      let tails = ascending_unique l m ul um (λ x y. (
        λ at_l. elim (Memᴰ.cases_cons ((same x y).0 (Memᴰ.tail at_l))) [
          | inl e ↦ absurd (tail_of n k x v y l at from at_l (e ∙ sym heads))
          | inr later ↦ later
        ],
        λ at_m. elim (Memᴰ.cases_cons ((same x y).1 (Memᴰ.tail at_m))) [
          | inl e ↦ absurd (tail_of n' k' x w y m at' from' at_m (e ∙ heads))
          | inr later ↦ later
        ],
      )) in
      ap (λ h. h ∷ l) heads ∙ ap (λ r. (k', w) ∷ r) tails
