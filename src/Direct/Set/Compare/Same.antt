-- ===== src/Direct/Set/Compare/Same.antt =====
-- src/direct/set.rs: hash and order see the ids of a set, and nothing else of it.
use Prim.Native.Nat.{Ordering}
use Prim.Native.Nat.Ordering.{lt, eq, gt}
use mathlib.Core.List.{Memᴰ, head-eq_of_cons-eq, tail-eq_of_cons-eq}
use idmap_rs.Common.{
  ℕ, zero, suc, ◌<◌, ◌≡◌, refl, sym, ap, ◌∙◌, ◌↔◌, fun_ext, inl, inr, Bool, true, Option, none,
  some, List, [], ◌∷◌, arith, length, Option-cases,
}
use idmap_rs.Run.{ok, Platform}
use idmap_rs.Intid.Id.{IntegerId, IsLawful}
use idmap_rs.Direct.BitSet.{FixedBitSet, IsBitSet}
use idmap_rs.Direct.Map.Iter.Entries.{IsAscending}
use idmap_rs.Direct.Map.Iter.Sorted.{ascending_unique}
use idmap_rs.Direct.Set.{DirectIdSet, contains, Iter, iter}
use idmap_rs.Direct.Set.Membership.{IsValid}
use idmap_rs.Direct.Set.Members.{
  Remains, next-Remains, next-none, paired, mem-paired, paired-injective, members,
}
use idmap_rs.Direct.Set.Compare.{Hasher, hash_loop, hash, cmp_loop, unless_eq, cmp}

-- the ids, hashed one after another
hash_ids : {H T : Type 0} → Hasher H T → List T → H → H
hash_ids hasher [] state = state
hash_ids hasher (k ∷ ks) state = hash_ids hasher ks (hasher.write_id k state)

-- the lexicographic order
lex : {R T : Type 0} → (T → T → Option R) → (Ordering → R) → List T → List T → R
lex compare result [] [] = result eq
lex compare result [] (_ ∷ _) = result lt
lex compare result (_ ∷ _) [] = result gt
lex compare result (k ∷ ks) (j ∷ js) = elim (compare k j) [
  | none ↦ lex compare result ks js
  | some r ↦ r
]

module _ {T : Type 0} ⦃p : Platform⦄ ⦃id : IntegerId T⦄ (lawful : IsLawful id) where
  hash_loop_lem :
      {H : Type 0} (hasher : Hasher H T) (fuel : ℕ) (it : Iter T) (ks : List T) (state : H)
      → length it.handle < fuel
      → Remains it ks
      → hash_loop hasher fuel it state ≡ ok (hash_ids hasher ks state)
  unfolding hash_loop hash_ids
  hash_loop_lem hasher zero it ks state f r = absurd (omega arith)
  hash_loop_lem hasher (suc fuel) it [] state f r = rw (next-none lawful it r) refl
  hash_loop_lem hasher (suc fuel) it (k ∷ ks) state f r =
      let (it', run, left, shorter) = next-Remains lawful it k ks r in
      rw run (hash_loop_lem hasher fuel it' ks (hasher.write_id k state) (omega arith) left)

  cmp_loop_lem :
      {R : Type 0} (compare : T → T → Option R) (result : Ordering → R) (fuel : ℕ) (a b : Iter T)
      (ks js : List T)
      → length a.handle < fuel
      → Remains a ks
      → Remains b js
      → cmp_loop compare result fuel a b ≡ ok (lex compare result ks js)
  unfolding cmp_loop lex
  cmp_loop_lem compare result zero a b ks js f ra rb = absurd (omega arith)
  cmp_loop_lem compare result (suc fuel) a b [] [] f ra rb =
      rw (next-none lawful a ra, next-none lawful b rb) refl
  cmp_loop_lem compare result (suc fuel) a b [] (j ∷ js) f ra rb =
      let (b', run, _, _) = next-Remains lawful b j js rb in rw (next-none lawful a ra, run) refl
  cmp_loop_lem compare result (suc fuel) a b (k ∷ ks) [] f ra rb =
      let (a', run, _, _) = next-Remains lawful a k ks ra in rw (run, next-none lawful b rb) refl
  cmp_loop_lem compare result (suc fuel) a b (k ∷ ks) (j ∷ js) f ra rb =
      let (a', run, left, shorter) = next-Remains lawful a k ks ra in
      let (b', run', left', _) = next-Remains lawful b j js rb in
      rw (run, run')
        (elim (Option-cases (compare k j)) [
          | inl equal ↦
              rw (equal, lex)
                (cmp_loop_lem compare result fuel a' b' ks js (omega arith) left left')
          | inr (r, differ) ↦ rw (differ, lex) refl
        ])

  -- the list of the members is that of the predicate
  pub members_unique :
      (f : T → Bool) (ks js : List T)
      → IsAscending (paired ks)
      → IsAscending (paired js)
      → ((k : T) → Memᴰ k ks ↔ (f k ≡ true))
      → ((k : T) → Memᴰ k js ↔ (f k ≡ true))
      → ks ≡ js
  members_unique f ks js uk uj mk mj = paired-injective ks js (
      ascending_unique (paired ks) (paired js) uk uj λ k v. (
        λ m. (mem-paired k js).0 ((mj k).1 ((mk k).0 ((mem-paired k ks).1 m))),
        λ m. (mem-paired k ks).0 ((mk k).1 ((mj k).0 ((mem-paired k js).1 m))),
      ))

-- with an order that finds only an id equal to itself, the lists compare as equal only if they are
unless_eq_iff : (o : Ordering) → (unless_eq o ≡ none) ↔ (o ≡ eq)
unless_eq_iff eq = (λ e. refl, λ e. refl)
unless_eq_iff lt = (λ e. absurd (cc), λ e. absurd (cc))
unless_eq_iff gt = (λ e. absurd (cc), λ e. absurd (cc))

unless_eq-some : (o r : Ordering) → unless_eq o ≡ some r → ¬ (r ≡ eq)
unless_eq-some eq r e same = cc
unless_eq-some lt r e same = cc
unless_eq-some gt r e same = cc

lex-eq_iff :
    {T : Type 0} (cmp_ids : T → T → Ordering)
    → ((k j : T) → (cmp_ids k j ≡ eq) ↔ (k ≡ j))
    → (ks js : List T) → (lex (λ k j. unless_eq (cmp_ids k j)) (λ o. o) ks js ≡ eq) ↔ (ks ≡ js)
unfolding lex
lex-eq_iff cmp_ids same [] [] = (λ e. refl, λ e. refl)
lex-eq_iff cmp_ids same [] (j ∷ js) = (λ e. absurd (cc), λ e. absurd (cc))
lex-eq_iff cmp_ids same (k ∷ ks) [] = (λ e. absurd (cc), λ e. absurd (cc))
lex-eq_iff cmp_ids same (k ∷ ks) (j ∷ js) = elim (Option-cases (unless_eq (cmp_ids k j))) [
  | inl equal ↦
      let key : k ≡ j = (same k j).0 ((unless_eq_iff (cmp_ids k j)).0 equal) in
      let (to, from) = lex-eq_iff cmp_ids same ks js in
      rw (equal, lex)
        (λ e. ap (λ x. x ∷ ks) key ∙ ap (λ l. j ∷ l) (to e), λ e. from (tail-eq_of_cons-eq e))
  | inr (r, differ) ↦
      rw (differ, lex)
        (
          λ e. absurd (unless_eq-some (cmp_ids k j) r differ e),
          λ e. absurd (
              unless_eq-some (cmp_ids k j) r differ (
                absurd (
                  ground (
                    arith,
                    differ,
                    (unless_eq_iff (cmp_ids k j)).1 ((same k j).1 (head-eq_of_cons-eq e)),
                  )))),
        )
]

module _ {B T : Type 0} ⦃p : Platform⦄ ⦃fbs : FixedBitSet B⦄ ⦃id : IntegerId T⦄
    (laws : IsBitSet fbs) (lawful : IsLawful id) where
  -- For a lawful id type, two valid sets that contain the same ids hash alike, for every hasher, every
  -- hash of an id and from every state of the hasher, without a panic.
  pub hash-contains :
      {H : Type 0} (hasher : Hasher H T) (self other : DirectIdSet B T) (state : H)
      → IsValid laws self
      → IsValid laws other
      → contains self ≡ contains other
      → (after : H) × (hash hasher self state ≡ ok after) × (hash hasher other state ≡ ok after)
  unfolding hash
  hash-contains hasher self other state h h' same =
      let (ks, r, up, count, mem) = members laws lawful self h in
      let (js, r', up', count', mem') = members laws lawful other h' in
      let one : ks ≡ js = members_unique lawful (contains self) ks js up up' mem (rw same mem') in
      let len : self.len ≡ other.len = sym count ∙ ap length one ∙ count' in
      (
        hash_ids hasher ks (hasher.write_usize self.len state),
        hash_loop_lem lawful hasher (suc (length (iter self).handle)) (iter self) ks _ (omega arith)
            r,
        hash_loop_lem lawful hasher (suc (length (iter other).handle)) (iter other) js _
              (omega arith) r'
            ∙ ap (λ l. ok (hash_ids hasher l (hasher.write_usize other.len state))) (sym one)
            ∙ ap (λ n. ok (hash_ids hasher ks (hasher.write_usize n state))) (sym len),
      )

  members-contains :
      (self other : DirectIdSet B T) (ks js : List T)
      → ((k : T) → Memᴰ k ks ↔ (contains self k ≡ true))
      → ((k : T) → Memᴰ k js ↔ (contains other k ≡ true))
      → ks ≡ js
      → contains self ≡ contains other
  members-contains self other ks js mk mj same = fun_ext λ k.
      let forth : contains self k ≡ true → contains other k ≡ true =
        λ e. (mj k).0 (rw same at ((mk k).1 e)) in
      let back : contains other k ≡ true → contains self k ≡ true =
        λ e. (mk k).0 (rw (sym same) at ((mj k).1 e)) in
      ground (arith, forth, back)

  pub cmp-contains :
      (cmp_ids : T → T → Ordering) (self other : DirectIdSet B T)
      → ((k j : T) → (cmp_ids k j ≡ eq) ↔ (k ≡ j))
      → IsValid laws self
      → IsValid laws other
      → (o : Ordering) × (cmp cmp_ids self other ≡ ok o)
        × ((o ≡ eq) ↔ (contains self ≡ contains other))
  unfolding cmp
  cmp-contains cmp_ids self other order h h' =
      let (ks, r, up, count, mem) = members laws lawful self h in
      let (js, r', up', count', mem') = members laws lawful other h' in
      let (to, from) = lex-eq_iff cmp_ids order ks js in
      (
        lex (λ k j. unless_eq (cmp_ids k j)) (λ o. o) ks js,
        cmp_loop_lem lawful (λ k j. unless_eq (cmp_ids k j)) (λ o. o)
            (suc (length (iter self).handle)) (iter self) (iter other) ks js (omega arith) r r',
        (
          λ e. members-contains self other ks js mem mem' (to e),
          λ e. from (members_unique lawful (contains self) ks js up up' mem (rw e mem')),
        ),
      )
