-- ===== src/Direct/Map/Iter/Hint.antt =====
-- src/direct/map.rs: the size hint after calls of `next` and `next_back`.
use idmap_rs.Common.{
  ℕ, suc, true, none, ◌+◌, ◌-◌, ◌≡◌, refl, sym, ap, ◌∙◌, inl, inr, some, List, [], ◌∷◌, arith, ltb,
  if◌then◌else◌, length, length-append, Option,
}
use idmap_rs.Run.{ok, Platform}
use idmap_rs.Ends.{End, front, back, play, snoc_cases}
use idmap_rs.Intid.Id.{IntegerId, IsLawful}
use idmap_rs.Direct.Map.{DirectIdMap}
use idmap_rs.Direct.Map.Invariant.{IsValid}
use idmap_rs.Direct.Map.Iter.{Iter, iter, size_hint}
use idmap_rs.Direct.Map.Iter.Entries.{EntriesOf-exist}
use idmap_rs.Direct.Map.Iter.Deque.{Remains, next-cons, next-nil, next_back-snoc, next_back-nil}
use idmap_rs.Direct.Map.Iter.Collect.{iter-IsExact}
use idmap_rs.Direct.Map.Iter.Ends.{pull}

-- how many calls of `next_back` return an item, of calls on an iterator with `n` items
abbrev pub returned_back : List End → ℕ → ℕ
returned_back [] n = 0
returned_back (front ∷ es) n = returned_back es (n - 1)
returned_back (back ∷ es) n = (if ltb 0 n then 1 else 0) + returned_back es (n - 1)

less : (n : ℕ) → suc n - 1 ≡ n
less n = omega arith

one_more : (es : List End) (n : ℕ) → returned_back (back ∷ es) (n + 1) ≡ 1 + returned_back es n
one_more es n =
    let least : n + 1 - 1 ≡ n = omega arith in
    let positive : ltb 0 (n + 1) ≡ true = ground arith in rw (least, positive) refl

module _ {K V Item : Type 0} ⦃p : Platform⦄ ⦃id : IntegerId K⦄ (lawful : IsLawful id)
    (item : K → V → Item) where
  -- calls on an iterator whose count is too high by `c`
  play-len :
      (es : List End) (it : Iter K V) (l : List (K × V)) (c : ℕ)
      → Remains it l
      → it.len ≡ length l + c
      → (r : List (Option Item) × Iter K V) × (play (pull item) es it ≡ ok r)
        × (r.1.len ≡ (length l - length es) + (c + returned_back es (length l)))
  unfolding play pull
  play-len [] it l c r e = (([], it), refl, omega (arith, e))
  play-len (front ∷ es) it [] c r e =
      let (it', run, r', same) = next-nil lawful item it r in
      let (later, ran, count) = play-len es it' [] c r' (omega (arith, same, e)) in
      ((none ∷ later.0, later.1), rw run (rw ran refl), omega (arith, count))
  play-len (front ∷ es) it ((k, v) ∷ l) c r e =
      let (it', run, r', one, _) = next-cons lawful item it k v l r in
      let (later, ran, count) = play-len es it' l c r' (omega (arith, one, e)) in
      (
        (some (item k v) ∷ later.0, later.1),
        rw run (rw ran refl),
        omega (arith, count, ap (returned_back es) (less (length l))),
      )
  play-len (back ∷ es) it l c r e = elim (snoc_cases l) [
    | inl none_left ↦
        let (it', run, r', same) = next_back-nil lawful item it (rw none_left at r) in
        let (later, ran, count) =
          play-len es it' [] c r' (omega (arith, same, e, ap length none_left)) in
        (
          (none ∷ later.0, later.1),
          rw run (rw ran refl),
          rw (ap length none_left) (omega (arith, count)),
        )
    | inr (but, (k, v), whole, _, _) ↦
        let size : length l ≡ length but + 1 = ap length whole ∙ length-append but ((k, v) ∷ []) in
        let (it', run, r', same) = next_back-snoc lawful item it k v but (rw whole at r) in
        let (later, ran, count) = play-len es it' but (c + 1) r' (omega (arith, same, e, size)) in
        (
          (some (item k v) ∷ later.0, later.1),
          rw run (rw ran refl),
          rw size (omega (arith, count, one_more es (length but))),
        )
  ]

  -- For a lawful id type, and an iterator over a valid map: calls of `next` and `next_back` in any
  -- order do not panic, and both bounds of the size hint after them are the number of the items that
  -- are left and, on top of it, that of the calls of `next_back` that have returned an item: it
  -- is exact only as long as none has.
  pub size_hint-play :
      (self : DirectIdMap K V) (es : List End)
      → IsValid self
      → (rs : List (Option Item)) × (it : Iter K V) × (play (pull item) es (iter self)
          ≡ ok (rs, it))
        × (let n = (self.len - length es) + returned_back es self.len in size_hint it ≡ (n, some n))
  unfolding size_hint iter
  size_hint-play self es h =
      let (l, entries) = EntriesOf-exist self h in
      let (r, exact) = iter-IsExact self l h entries in
      let none_missing : (iter self).len ≡ length l + 0 = omega (arith, exact) in
      let (ended, run, count) = play-len es (iter self) l 0 r none_missing in
      let size : length l ≡ self.len = sym exact in
      let total : ended.1.len ≡ (self.len - length es) + returned_back es self.len =
        omega (arith, count, size, ap (returned_back es) size) in
      (ended.0, ended.1, run, rw total refl)
