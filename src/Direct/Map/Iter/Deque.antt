-- ===== src/Direct/Map/Iter/Deque.antt =====
-- src/direct/map.rs: `next` and `next_back` take the two ends of the pairs that are left.
use mathlib.Core.List.{reverse-cons, reverse-reverse}
use idmap_rs.Common.{
  ℕ, suc, ◌+◌, ◌-◌, ◌≤◌, ◌<◌, ◌≡◌, ◌≢◌, refl, Option, none, some, List, [], ◌∷◌, ◌++◌, arith,
  length, reverse, length-append, length-reverse,
}
use idmap_rs.Run.{ok, Platform}
use idmap_rs.Intid.Id.{IntegerId, IsLawful}
use idmap_rs.Direct.{index_of, key_at-index_of}
use idmap_rs.Direct.Map.Iter.{Iter, next_loop, next, next_back_loop, next_back}
use idmap_rs.Direct.Map.Iter.Entries.{IsEntries}

module _ {K V : Type 0} ⦃p : Platform⦄ ⦃id : IntegerId K⦄ where
  -- the iterator has the pairs `l` left, and has not counted too few
  pub record Remains (it : Iter K V) (l : List (K × V)) : Type 0 where
    pub entries : IsEntries it.source.count it.source.rest l
    pub enough : length l ≤ it.len

  pop_none :
      (i : ℕ) (xs : List (Option V)) (l : List (K × V))
      → IsEntries i (xs ++ none ∷ []) l
      → IsEntries i xs l
  pop_none i [] [] es = tt
  pop_none i [] (_ ∷ _) es = absurd es
  pop_none i (none ∷ xs) l es = pop_none (suc i) xs l es
  pop_none i (some v ∷ xs) [] es = absurd es
  pop_none i (some v ∷ xs) (e ∷ l) (at, same, es) = (at, same, pop_none (suc i) xs l es)

  not_empty :
      (i : ℕ) (xs : List (Option V)) (w : V) (l : List (K × V))
      → IsEntries i (xs ++ some w ∷ []) l
      → l ≢ []
  not_empty i [] w [] es = absurd es
  not_empty i [] w (_ ∷ _) es = λ e. cc
  not_empty i (none ∷ xs) w l es = not_empty (suc i) xs w l es
  not_empty i (some v ∷ xs) w [] es = absurd es
  not_empty i (some v ∷ xs) w (_ ∷ _) es = λ e. cc

  pop_some :
      (i : ℕ) (xs : List (Option V)) (w : V) (l : List (K × V)) (k : K) (v : V)
      → IsEntries i (xs ++ some w ∷ []) (l ++ (k, v) ∷ [])
      → (index_of k ≡ some (i + length xs)) × (v ≡ w) × IsEntries i xs l
  pop_some i [] w [] k v (at, same, es) = (ground arith, same, tt)
  pop_some i [] w (_ ∷ []) k v (at, same, es) = absurd es
  pop_some i [] w (_ ∷ _ ∷ _) k v (at, same, es) = absurd es
  pop_some i (none ∷ xs) w l k v es =
      let (at, same, rest) = pop_some (suc i) xs w l k v es in (ground arith, same, rest)
  pop_some i (some u ∷ xs) w [] k v (at, same, es) = absurd (not_empty (suc i) xs w [] es refl)
  pop_some i (some u ∷ xs) w (e ∷ l) k v (at, same, es) =
      let (at', same', rest) = pop_some (suc i) xs w l k v es in
      (ground arith, same', (at, same, rest))

module _ {K V Item : Type 0} ⦃p : Platform⦄ ⦃id : IntegerId K⦄ (lawful : IsLawful id)
    (item : K → V → Item) where
  next_loop-cons :
      (i : ℕ) (xs : List (Option V)) (len : ℕ) (k : K) (v : V) (l : List (K × V))
      → IsEntries i xs ((k, v) ∷ l)
      → suc (length l) ≤ len
      → (it : Iter K V) × (next_loop item i xs len ≡ ok (some (item k v), it))
        × Remains it l
        × (it.len + 1 ≡ len)
        × (length it.source.rest < length xs)
  unfolding next_loop
  next_loop-cons i [] len k v l es h = absurd es
  next_loop-cons i (none ∷ xs) len k v l es h =
      let (it, run, left, one, shorter) = next_loop-cons (suc i) xs len k v l es h in
      (it, run, left, one, omega arith)
  next_loop-cons i (some w ∷ xs) len k v l (at, same, es) h = (
    record { source = record { count = suc i; rest = xs }; len = len - 1 },
    ground (arith, key_at-index_of lawful k i),
    record { entries = es; enough = omega arith },
    omega arith,
    omega arith,
  )

  next_loop-nil :
      (i : ℕ) (xs : List (Option V)) (len : ℕ)
      → IsEntries {K = K} i xs []
      → (it : Iter K V) × (next_loop item i xs len ≡ ok (none, it)) × Remains it [] × (it.len ≡ len)
  unfolding next_loop
  next_loop-nil i [] len es = (_, refl, record { entries = tt; enough = omega arith }, refl)
  next_loop-nil i (none ∷ xs) len es = next_loop-nil (suc i) xs len es
  next_loop-nil i (some w ∷ xs) len es = absurd es

  -- For a lawful id type, `next` returns the first pair that is left and keeps the others. It
  -- counts down by one, does not underflow, and never makes an id of an invalid integer.
  pub next-cons :
      (it : Iter K V) (k : K) (v : V) (l : List (K × V))
      → Remains it ((k, v) ∷ l)
      → (it' : Iter K V) × (next item it ≡ ok (some (item k v), it'))
        × Remains it' l
        × (it'.len + 1 ≡ it.len)
        × (length it'.source.rest < length it.source.rest)
  unfolding next
  next-cons it k v l r =
      next_loop-cons it.source.count it.source.rest it.len k v l r.entries r.enough

  -- With no pair left `next` returns `None`, now and at every later call.
  pub next-nil :
      (it : Iter K V)
      → Remains it []
      → (it' : Iter K V) × (next item it ≡ ok (none, it')) × Remains it' [] × (it'.len ≡ it.len)
  unfolding next
  next-nil it r = next_loop-nil it.source.count it.source.rest it.len r.entries

  next_back_loop-snoc :
      (i : ℕ) (ys : List (Option V)) (len : ℕ) (k : K) (v : V) (l : List (K × V))
      → IsEntries i (reverse ys) (l ++ (k, v) ∷ [])
      → length l ≤ len
      → (it : Iter K V) × (next_back_loop item i ys len ≡ ok (some (item k v), it))
        × Remains it l
        × (it.len ≡ len)
  unfolding next_back_loop
  next_back_loop-snoc i [] len k v [] es h = absurd es
  next_back_loop-snoc i [] len k v (_ ∷ _) es h = absurd es
  next_back_loop-snoc i (none ∷ ys) len k v l es h =
      next_back_loop-snoc i ys len k v l
        (pop_none i (reverse ys) (l ++ (k, v) ∷ []) (rw reverse-cons at es)) h
  next_back_loop-snoc i (some w ∷ ys) len k v l es h =
      let (at, same, rest) = pop_some i (reverse ys) w l k v (rw reverse-cons at es) in
      (
        record { source = record { count = i; rest = reverse ys }; len = len },
        ground (arith, key_at-index_of lawful k (i + length ys), length-reverse ys),
        record { entries = rest; enough = h },
        refl,
      )

  -- For a lawful id type, `next_back` returns the last pair that is left and keeps the others, but
  -- leaves the count as it was.
  pub next_back-snoc :
      (it : Iter K V) (k : K) (v : V) (l : List (K × V))
      → Remains it (l ++ (k, v) ∷ [])
      → (it' : Iter K V) × (next_back item it ≡ ok (some (item k v), it'))
        × Remains it' l
        × (it'.len ≡ it.len)
  unfolding next_back
  next_back-snoc it k v l r =
      next_back_loop-snoc it.source.count (reverse it.source.rest) it.len k v l
        (rw (reverse-reverse it.source.rest) r.entries)
        (omega (arith, r.enough, length-append l ((k, v) ∷ [])))

  next_back_loop-nil :
      (i : ℕ) (ys : List (Option V)) (len : ℕ)
      → IsEntries {K = K} i (reverse ys) []
      → (it : Iter K V) × (next_back_loop item i ys len ≡ ok (none, it))
        × Remains it []
        × (it.len ≡ len)
  unfolding next_back_loop
  next_back_loop-nil i [] len es = (_, refl, record { entries = tt; enough = omega arith }, refl)
  next_back_loop-nil i (none ∷ ys) len es =
      next_back_loop-nil i ys len (pop_none i (reverse ys) [] (rw reverse-cons at es))
  next_back_loop-nil i (some w ∷ ys) len es =
      absurd (not_empty i (reverse ys) w [] (rw reverse-cons at es) refl)

  pub next_back-nil :
      (it : Iter K V)
      → Remains it []
      → (it' : Iter K V) × (next_back item it ≡ ok (none, it'))
        × Remains it' []
        × (it'.len ≡ it.len)
  unfolding next_back
  next_back-nil it r =
      next_back_loop-nil it.source.count (reverse it.source.rest) it.len
        (rw (reverse-reverse it.source.rest) r.entries)
