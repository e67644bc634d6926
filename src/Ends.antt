-- ===== src/Ends.antt =====
-- Double-ended iteration: calls of `next` and `next_back` in any order, beside the two ends of a list.
use idmap_rs.Common.{
  ℕ, ◌+◌, ◌-◌, ◌≤◌, ◌≡◌, refl, ap, ◌∙◌, ◌⊎◌, inl, inr, Option, none, some, List, [], ◌∷◌, ◌++◌,
  arith, length, replicate, nil_of_length, filled, occupied,
}
use idmap_rs.Run.{Run, ok, ◌>>=◌}

-- which end a call takes from
pub data End : Type 0 where
  front : End
  back : End

module _ {A : Type 0} where
  -- the element at an end of a list, and the other elements
  abbrev pub last : List A → Option A
  last [] = none
  last (x ∷ []) = some x
  last (_ ∷ y ∷ l) = last (y ∷ l)

  abbrev pub but_last : List A → List A
  but_last [] = []
  but_last (x ∷ []) = []
  but_last (x ∷ y ∷ l) = x ∷ but_last (y ∷ l)

  abbrev pub at_end : End → List A → Option A
  at_end front [] = none
  at_end front (x ∷ l) = some x
  at_end back l = last l

  abbrev pub but_end : End → List A → List A
  but_end front [] = []
  but_end front (x ∷ l) = l
  but_end back l = but_last l

  -- what is taken from the ends of a list, in order
  unfoldable pub taken : List End → List A → List (Option A)
  taken [] l = []
  taken (e ∷ es) l = at_end e l ∷ taken es (but_end e l)

  -- what is left
  unfoldable pub left_over : List End → List A → List A
  left_over [] l = l
  left_over (e ∷ es) l = left_over es (but_end e l)

-- the calls of an iterator, one after another
module _ {I A : Type 0} (pull : End → I → Run (Option A × I)) where
  unfoldable pub play : List End → I → Run (List (Option A) × I)
  play [] it = ok ([], it)
  play (e ∷ es) it = do r ← pull e it; rest ← play es r.1; ok (r.0 ∷ rest.0, rest.1)

  -- An iterator that has the elements of a list left, by a relation that its calls keep, yields
  -- what is taken from the ends of the list.
  pub play-taken :
      (R : I → List A → Type 0)
      → ((e : End) (it : I) (l : List A)
          → R it l
          → (it' : I) × (pull e it ≡ ok (at_end e l, it')) × R it' (but_end e l))
      → (es : List End) (it : I) (l : List A) → R it l
      → (it' : I) × (play es it ≡ ok (taken es l, it')) × R it' (left_over es l)
  unfolding play taken left_over
  play-taken R keeps [] it l r = (it, refl, r)
  play-taken R keeps (e ∷ es) it l r =
      let (it', run, r') = keeps e it l r in
      let (it'', rest, r'') = play-taken R keeps es it' (but_end e l) r' in
      (it'', rw run (rw rest refl), r'')

module _ {A : Type 0} where
  pub last-snoc :
      (l : List A) (x : A) → (last (l ++ x ∷ []) ≡ some x) × (but_last (l ++ x ∷ []) ≡ l)
  last-snoc [] x = (refl, refl)
  last-snoc (y ∷ []) x = (refl, refl)
  last-snoc (y ∷ z ∷ l) x = let (at, but) = last-snoc (z ∷ l) x in (at, ap (◌∷◌ y) but)

  -- a list is empty or has a last element
  pub snoc_cases :
      (l : List A)
      → (l ≡ [])
        ⊎ ((but : List A) × (x : A) × (l ≡ but ++ x ∷ []) × (last l ≡ some x) × (but_last l ≡ but))
  snoc_cases [] = inl refl
  snoc_cases (x ∷ l) = elim (snoc_cases l) [
    | inl e ↦ inr ([], x, ap (◌∷◌ x) e, ap (λ r. last (x ∷ r)) e, ap (λ r. but_last (x ∷ r)) e)
    | inr (but, y, e, _, _) ↦
        let whole = ap (◌∷◌ x) e in
        let (at, rest) = last-snoc (x ∷ but) y in
        inr (x ∷ but, y, whole, ap last whole ∙ at, ap but_last whole ∙ rest)
  ]

  length-but_last : (l : List A) → length (but_last l) ≡ length l - 1
  length-but_last [] = refl
  length-but_last (x ∷ []) = refl
  length-but_last (x ∷ y ∷ l) = omega (arith, length-but_last (y ∷ l))

  length-but_end : (e : End) (l : List A) → length (but_end e l) ≡ length l - 1
  length-but_end front [] = refl
  length-but_end front (x ∷ l) = omega arith
  length-but_end back l = length-but_last l

  length-left_over : (es : List End) (l : List A) → length (left_over es l) ≡ length l - length es
  unfolding left_over
  length-left_over [] l = omega arith
  length-left_over (e ∷ es) l = omega (arith, length-left_over es (but_end e l), length-but_end e l)

  -- an empty list has nothing at its ends
  taken-nil : (es : List End) → taken {A = A} es [] ≡ replicate (length es) none
  unfolding taken
  taken-nil [] = refl
  taken-nil (front ∷ es) = ap (◌∷◌ none) (taken-nil es)
  taken-nil (back ∷ es) = ap (◌∷◌ none) (taken-nil es)

  filled-last : (l : List A) → filled (last l) + length (but_last l) ≡ length l
  filled-last [] = refl
  filled-last (x ∷ []) = refl
  filled-last (x ∷ y ∷ l) = omega (arith, filled-last (y ∷ l))

  filled-at_end : (e : End) (l : List A) → filled (at_end e l) + length (but_end e l) ≡ length l
  filled-at_end front [] = refl
  filled-at_end front (x ∷ l) = omega arith
  filled-at_end back l = filled-last l

  -- each element is taken once or is left
  occupied-taken :
      (es : List End) (l : List A) → occupied (taken es l) + length (left_over es l) ≡ length l
  unfolding taken left_over
  occupied-taken [] l = omega arith
  occupied-taken (e ∷ es) l = ground (arith, filled-at_end e l, occupied-taken es (but_end e l))

module _ {I A : Type 0} (pull : End → I → Run (Option A × I)) where
  -- `n` calls returned an element, of those that were made, and no later call returns one
  abbrev pub Fused : List (Option A) × I → ℕ → Type 0
  Fused r n =
      (occupied r.0 ≡ n)
      × ((later : List End)
          → (it : I) × (play pull later r.1 ≡ ok (replicate (length later) none, it)))

  pub play-Fused :
      (R : I → List A → Type 0)
      → ((e : End) (it : I) (l : List A)
          → R it l
          → (it' : I) × (pull e it ≡ ok (at_end e l, it')) × R it' (but_end e l))
      → (es : List End) (it : I) (l : List A) → R it l
      → length l ≤ length es
      → (r : List (Option A) × I) × (play pull es it ≡ ok r) × Fused r (length l)
  play-Fused R keeps es it l r enough =
      let (it', run, r') = play-taken pull R keeps es it l r in
      let none_left : left_over es l ≡ [] =
        nil_of_length (left_over es l) (omega (arith, length-left_over es l)) in
      (
        (taken es l, it'),
        run,
        (
          omega (arith, occupied-taken es l, length-left_over es l),
          λ later.
              let (it'', more, _) = play-taken pull R keeps later it' [] (rw none_left at r') in
              (it'', more ∙ ap (λ x. ok (x, it'')) (taken-nil later)),
        ),
      )
