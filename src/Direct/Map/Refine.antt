-- ===== src/Direct/Map/Refine.antt =====
-- src/direct/map.rs: what a caller can observe over any sequence of calls, against a function.
use idmap_rs.Common.{
  ℕ, ◌+◌, ◌*◌, ◌≤◌, ◌≡◌, refl, ap, ◌∙◌, inl, inr, none, some, List, [], ◌∷◌, Option, arith, length,
  occupied-le-length,
}
use native.Mathlib.Decide.{dec_lt}
use idmap_rs.Run.{Run, ok, ◌>>=◌, Platform}
use idmap_rs.Intid.Id.{IntegerId}
use idmap_rs.Direct.{index_of}
use idmap_rs.Direct.Map
use idmap_rs.Direct.Map.{DirectIdMap, new, get, extend, from_iter, direct_idmap}
use idmap_rs.Direct.Map.Growth.{HasRoom}
use idmap_rs.Direct.Map.Invariant.{IsValid, new-IsValid}
use idmap_rs.Direct.Map.Lookup.{update, insert_lem, remove_lem}
use idmap_rs.Direct.Map.Methods.{get-new, clear_lem, shrink_to_fit_lem}

pub data Op (K V : Type 0) : Type 0 where
  insert : K → V → Op K V
  remove : K → Op K V
  clear : Op K V
  shrink_to_fit : Op K V

module _ {K V : Type 0} ⦃p : Platform⦄ ⦃id : IntegerId K⦄ where
  step : Op K V → DirectIdMap K V → Run (DirectIdMap K V)
  step (Op.insert k v) m = Map.insert m k v >>= λ r. ok r.1
  step (Op.remove k) m = Map.remove m k >>= λ r. ok r.1
  step Op.clear m = ok (Map.clear m)
  step Op.shrink_to_fit m = ok (Map.shrink_to_fit m)

  unfoldable pub run : List (Op K V) → DirectIdMap K V → Run (DirectIdMap K V)
  unfolding step
  run [] m = ok m
  run (op ∷ ops) m = step op m >>= run ops

  -- the same calls, on a function
  abbrev pub effect : Op K V → (K → Option V) → K → Option V
  effect (Op.insert k v) f = update f k (some v)
  effect (Op.remove k) f = update f k none
  effect Op.clear f = λ _. none
  effect Op.shrink_to_fit f = f

  unfoldable pub replay : List (Op K V) → (K → Option V) → K → Option V
  replay [] f = f
  replay (op ∷ ops) f = replay ops (effect op f)

-- the index of the id lies in the first half of the longest vector
abbrev pub IsSmall : {K : Type 0} ⦃p : Platform⦄ ⦃id : IntegerId K⦄ → K → Type 0
IsSmall ⦃p⦄ k = (i : ℕ) × (index_of k ≡ some i) × (2 * (i + 1) ≤ p.vec_cap)

module _ {K V : Type 0} ⦃p : Platform⦄ ⦃id : IntegerId K⦄ where
  abbrev pub IsSmallOp : Op K V → Type 0
  IsSmallOp (Op.insert k v) = IsSmall k
  IsSmallOp (Op.remove k) = IsSmall k
  IsSmallOp _ = Unit

  abbrev pub AllSmall : List (Op K V) → Type 0
  AllSmall [] = Unit
  AllSmall (op ∷ ops) = IsSmallOp op × AllSmall ops

  abbrev pub AllSmallKeys : List (K × V) → Type 0
  AllSmallKeys [] = Unit
  AllSmallKeys ((k, _) ∷ iter) = IsSmall k × AllSmallKeys iter

  pub HasRoom-of_small :
      (self : DirectIdMap K V) (i : ℕ) → IsValid self → 2 * (i + 1) ≤ p.vec_cap → HasRoom self i
  HasRoom-of_small self i h small = elim (dec_lt i (length self.values)) [
    | yes within ↦ inl within
    | no short ↦ inr (omega (arith, h.counted, occupied-le-length self.values))
  ]

  step_refines :
      (op : Op K V) (m : DirectIdMap K V)
      → IsValid m
      → IsSmallOp op
      → (r : DirectIdMap K V) × (step op m ≡ ok r) × IsValid r × (get r ≡ effect op (get m))
  unfolding step
  step_refines (Op.insert k v) m h (i, at, small) =
      let (r, done, u) = insert_lem m k v h at (HasRoom-of_small m i h small) in
      (r.1, rw done, u.valid, u.updated)
  step_refines (Op.remove k) m h (i, at, small) =
      let (r, done, u) = remove_lem m k h at in (r.1, rw done, u.valid, u.updated)
  step_refines Op.clear m h s = (Map.clear m, refl, (clear_lem m).0, (clear_lem m).1)
  step_refines Op.shrink_to_fit m h s =
      (Map.shrink_to_fit m, refl, (shrink_to_fit_lem m h).0, (shrink_to_fit_lem m h).1)

  pub run_refines_from :
      (ops : List (Op K V)) (m : DirectIdMap K V)
      → IsValid m
      → AllSmall ops
      → (r : DirectIdMap K V) × (run ops m ≡ ok r) × IsValid r × (get r ≡ replay ops (get m))
  unfolding run replay
  run_refines_from [] m h s = (m, refl, h, refl)
  run_refines_from (op ∷ ops) m h (small, rest) =
      let (n, done, valid, reads) = step_refines op m h small in
      let (r, ran, valid', reads') = run_refines_from ops n valid rest in
      (r, rw done ran, valid', reads' ∙ ap (replay ops) reads)

  -- Every sequence of calls of `insert`, `remove`, `clear` and `shrink_to_fit` on a new map, with
  -- ids in the first half of the index range that a vector can have, runs without a panic; it ends
  -- in a valid map that reads exactly as the same calls on a function from ids to values do.
  pub run_refines :
      (ops : List (Op K V))
      → AllSmall ops
      → (r : DirectIdMap K V) × (run ops new ≡ ok r) × IsValid r × (get r ≡ replay ops (λ _. none))
  run_refines ops s =
      let (r, ran, valid, reads) = run_refines_from ops new new-IsValid s in
      (r, ran, valid, reads ∙ ap (replay ops) get-new)

  -- the pairs, written one after another
  unfoldable pub updates : List (K × V) → (K → Option V) → K → Option V
  updates [] f = f
  updates ((k, v) ∷ iter) f = updates iter (update f k (some v))

  -- On a valid map, `extend` with ids in the first half of the index range runs without a panic and
  -- leaves a valid map that reads as before with the pairs written over it in their order.
  pub extend_lem :
      (iter : List (K × V)) (self : DirectIdMap K V)
      → IsValid self
      → AllSmallKeys iter
      → (r : DirectIdMap K V) × (extend self iter ≡ ok r)
        × IsValid r
        × (get r ≡ updates iter (get self))
  unfolding extend updates
  extend_lem [] self h s = (self, refl, h, refl)
  extend_lem ((k, v) ∷ iter) self h ((i, at, small), rest) =
      let (r, done, u) = insert_lem self k v h at (HasRoom-of_small self i h small) in
      let (m, ran, valid, reads) = extend_lem iter r.1 u.valid rest in
      (m, rw done ran, valid, reads ∙ ap (updates iter) u.updated)

  -- For ids in the first half of the index range, `from_iter` and `direct_idmap!` run without a
  -- panic and build the same valid map, which reads as the pairs written over nothing in their
  -- order: the last pair of an id wins.
  pub from_iter_lem :
      (iter : List (K × V))
      → AllSmallKeys iter
      → (r : DirectIdMap K V) × (from_iter iter ≡ ok r)
        × (direct_idmap iter ≡ ok r)
        × IsValid r
        × (get r ≡ updates iter (λ _. none))
  unfolding from_iter direct_idmap
  from_iter_lem iter s =
      let (m, ran, valid, reads) = extend_lem iter new new-IsValid s in
      (m, ran, ran, valid, reads ∙ ap (updates iter) get-new)
