-- ===== src/Direct/Set/Ends.antt =====
-- src/direct/set.rs: calls of `next` and `next_back` in any order.
use mathlib.Core.List.{reverse-append, reverse-reverse}
use idmap_rs.Common.{
  ℕ, suc, ◌-◌, ◌≤◌, ◌≡◌, refl, sym, ap, ◌∙◌, inl, inr, Option, none, some, List, [], ◌∷◌, ◌++◌,
  arith, length, length-append, reverse,
}
use idmap_rs.Run.{Run, ok, of_ok, Platform}
use idmap_rs.Ends.{
  End, front, back, at_end, but_end, taken, play, play-taken, snoc_cases, play-Fused, Fused,
}
use idmap_rs.Intid.Id.{IntegerId, IsLawful}
use idmap_rs.Direct.{index_of, key_at-index_of}
use idmap_rs.Direct.BitSet.{FixedBitSet, IsBitSet}
use idmap_rs.Direct.Set.{DirectIdSet, Iter, iter, next, next_back, collect}
use idmap_rs.Direct.Set.Membership.{IsValid}
use idmap_rs.Direct.Set.Members.{
  AreKeys, Remains, next-Remains, next-none, members, collect-Remains,
}

module _ {T : Type 0} ⦃p : Platform⦄ ⦃id : IntegerId T⦄ where
  -- a call at one of the ends
  unfoldable pub pull : End → Iter T → Run (Option T × Iter T)
  pull front it = next it
  pull back it = next_back it

  -- the last index is that of the last key
  AreKeys-snoc :
      (is : List ℕ) (but : List T) (k : T)
      → AreKeys is (but ++ k ∷ [])
      → (js : List ℕ) × (j : ℕ) × (is ≡ js ++ j ∷ []) × AreKeys js but × (index_of k ≡ some j)
  AreKeys-snoc [] [] k keys = absurd keys
  AreKeys-snoc [] (_ ∷ _) k keys = absurd keys
  AreKeys-snoc (i ∷ []) [] k (at, keys) = ([], i, refl, tt, at)
  AreKeys-snoc (i ∷ _ ∷ _) [] k (at, keys) = absurd keys
  AreKeys-snoc (i ∷ is) (b ∷ but) k (at, keys) =
      let (js, j, e, keys', at') = AreKeys-snoc is but k keys in
      (i ∷ js, j, ap (◌∷◌ i) e, (at, keys'), at')

module _ {T : Type 0} ⦃p : Platform⦄ ⦃id : IntegerId T⦄ (lawful : IsLawful id) where
  next_back-handle :
      (len : ℕ) (handle js : List ℕ) (j : ℕ) (k : T) (ks : List T)
      → reverse handle ≡ j ∷ reverse js
      → index_of k ≡ some j
      → AreKeys js ks
      → len ≡ suc (length ks)
      → (it : Iter T) × (next_back (record { len = len; handle = handle }) ≡ ok (some k, it))
        × Remains it ks
  unfolding next_back
  next_back-handle len handle js j k ks e at keys count = (
    record { len = len - 1; handle = js },
    ground (arith, e, key_at-index_of lawful k j at, reverse-reverse js),
    record { keys = keys; exact = omega arith },
  )

  next_back-Remains :
      (it : Iter T) (but : List T) (k : T)
      → Remains it (but ++ k ∷ [])
      → (it' : Iter T) × (next_back it ≡ ok (some k, it')) × Remains it' but
  next_back-Remains it but k r =
      let (js, j, e, keys, at) = AreKeys-snoc it.handle but k r.keys in
      next_back-handle it.len it.handle js j k but (ap reverse e ∙ reverse-append js (j ∷ [])) at
        keys (omega (arith, r.exact, length-append but (k ∷ [])))

  next_back-none : (it : Iter T) → Remains it [] → next_back it ≡ ok (none, it)
  unfolding next_back
  next_back-none it r = over it.len it.handle r.keys r.exact
    where
      over :
          (len : ℕ) (handle : List ℕ)
          → AreKeys {T = T} handle []
          → len ≡ 0
          → next_back {T = T} (record { len = len; handle = handle })
            ≡ ok (none, record { len = len; handle = handle })
      over len [] keys e = ground arith
      over len (_ ∷ _) keys e = absurd keys

  pull-Remains :
      (e : End) (it : Iter T) (ks : List T)
      → Remains it ks
      → (it' : Iter T) × (pull e it ≡ ok (at_end e ks, it')) × Remains it' (but_end e ks)
  unfolding pull
  pull-Remains front it [] r = (it, next-none lawful it r, r)
  pull-Remains front it (k ∷ ks) r =
      let (it', run, r', _) = next-Remains lawful it k ks r in (it', run, r')
  pull-Remains back it ks r = elim (snoc_cases ks) [
    | inl e ↦ (it, rw e (next_back-none it (rw e at r)), rw e (rw e at r))
    | inr (but, k, e, at, rest) ↦
        let (it', run, r') = next_back-Remains it but k (rw e at r) in
        (it', run ∙ ap (λ x. ok (x, it')) (sym at), rw (sym rest) at r')
  ]

module _ {B T : Type 0} ⦃p : Platform⦄ ⦃fbs : FixedBitSet B⦄ ⦃id : IntegerId T⦄
    (laws : IsBitSet fbs) (lawful : IsLawful id) where
  taken_of_members :
      (self : DirectIdSet B T)
      → IsValid laws self
      → (ks : List T) × (collect (iter self) ≡ ok ks)
        × (length ks ≡ self.len)
        × ((es : List End) → (it : Iter T) × (play pull es (iter self) ≡ ok (taken es ks, it)))
  taken_of_members self h =
      let (ks, r, _, count, _) = members laws lawful self h in
      (
        ks,
        collect-Remains lawful (iter self) ks r,
        count,
        λ es.
            let (it, run, _) = play-taken pull Remains (pull-Remains lawful) es (iter self) ks r in
            (it, run),
      )

  members-Fused :
      (self : DirectIdSet B T) (es : List End)
      → IsValid laws self
      → self.len ≤ length es
      → (r : List (Option T) × Iter T) × (play pull es (iter self) ≡ ok r) × Fused pull r self.len
  members-Fused self es h enough =
      let (ks, r, _, count, _) = members laws lawful self h in
      let (r', run, fused) =
        play-Fused pull Remains (pull-Remains lawful) es (iter self) ks r (omega (arith, count)) in
      (r', run, (fused.0 ∙ count, fused.1))

  -- For a lawful id type, and an iterator over a valid set: iterating to the end collects `len` ids,
  -- and calls of `next` and `next_back` in any order return what is taken, in that order, from the
  -- two ends of their list. Once `len` calls have been made, `len` of them have returned an id, and
  -- every later call of either returns `None`, past the assertion that the count has come down to 0.
  pub ends_of_members :
      (self : DirectIdSet B T)
      → IsValid laws self
      → (ks : List T) × (collect (iter self) ≡ ok ks)
        × (length ks ≡ self.len)
        × ((es : List End)
            → (it : Iter T) × (play pull es (iter self) ≡ ok (taken es ks, it))
              × (self.len ≤ length es → Fused pull (taken es ks, it) self.len))
  ends_of_members self h =
      let (ks, run, size, ends) = taken_of_members self h in
      (
        ks,
        run,
        size,
        λ es.
            let (it, played) = ends es in
            (
              it,
              played,
              λ enough.
                  let (r, again, fused) = members-Fused self es h enough in
                  rw (of_ok (sym again ∙ played)) at fused,
            ),
      )
