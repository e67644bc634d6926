-- ===== src/Direct/Set/Refine.antt =====
-- src/direct/set.rs: what a caller can observe over any sequence of calls, against a predicate.
use idmap_rs.Common.{ℕ, ◌<◌, ◌≡◌, refl, ap, ◌∙◌, Bool, true, false, some, List, [], ◌∷◌, ◌++◌}
use idmap_rs.Run.{Run, ok, ◌>>=◌, Platform}
use idmap_rs.Intid.Id.{IntegerId}
use idmap_rs.Direct.{index_of}
use idmap_rs.Direct.BitSet.{FixedBitSet, IsBitSet}
use idmap_rs.Direct.Set
use idmap_rs.Direct.Set.{DirectIdSet, new, contains, extend, from_iter, direct_idset, visit}
use idmap_rs.Direct.Set.Membership.{update, IsValid, insert-IsToggled}
use idmap_rs.Direct.Set.Removal.{remove-IsToggled}
use idmap_rs.Direct.Set.Empty.{clear-IsValid, new-IsValid, contains-new}

pub data Op (T : Type 0) : Type 0 where
  insert : T → Op T
  remove : T → Op T
  clear : Op T

module _ {B T : Type 0} ⦃p : Platform⦄ ⦃fbs : FixedBitSet B⦄ ⦃id : IntegerId T⦄ where
  -- a call, with its answer (none of `clear`)
  step : Op T → DirectIdSet B T → Run (List Bool × DirectIdSet B T)
  step (Op.insert k) s = Set.insert s k >>= λ r. ok (r.0 ∷ [], r.1)
  step (Op.remove k) s = Set.remove s k >>= λ r. ok (r.0 ∷ [], r.1)
  step Op.clear s = ok ([], Set.clear s)

  -- the answers of the calls, and the set after them
  unfoldable pub run : List (Op T) → DirectIdSet B T → Run (List Bool × DirectIdSet B T)
  unfolding step
  run [] s = ok ([], s)
  run (op ∷ ops) s = step op s >>= λ r. run ops r.1 >>= λ t. ok (r.0 ++ t.0, t.1)

module _ {T : Type 0} ⦃p : Platform⦄ ⦃id : IntegerId T⦄ where
  -- the same calls on a predicate, and their answers
  abbrev pub effect : Op T → (T → Bool) → T → Bool
  effect (Op.insert k) f = update f k true
  effect (Op.remove k) f = update f k false
  effect Op.clear f = λ _. false

  abbrev pub answer : Op T → (T → Bool) → List Bool
  answer (Op.insert k) f = f k ∷ []
  answer (Op.remove k) f = f k ∷ []
  answer Op.clear f = []

  unfoldable pub replay : List (Op T) → (T → Bool) → List Bool × (T → Bool)
  replay [] f = ([], f)
  replay (op ∷ ops) f = let later = replay ops (effect op f) in (answer op f ++ later.0, later.1)

  -- the ids that are inserted have an index below the limit
  abbrev pub AllBelow : ℕ → List (Op T) → Type 0
  AllBelow limit [] = Unit
  AllBelow limit (Op.insert k ∷ ops) =
      ((i : ℕ) × (index_of k ≡ some i) × (i < limit)) × AllBelow limit ops
  AllBelow limit (_ ∷ ops) = AllBelow limit ops

module _ {B T : Type 0} ⦃p : Platform⦄ ⦃fbs : FixedBitSet B⦄ ⦃id : IntegerId T⦄
    (laws : IsBitSet fbs) where
  run-replay_from :
      (ops : List (Op T)) (s : DirectIdSet B T)
      → IsValid laws s
      → AllBelow laws.limit ops
      → (r : DirectIdSet B T) × (run ops s ≡ ok ((replay ops (contains s)).0, r))
        × IsValid laws r
        × (contains r ≡ (replay ops (contains s)).1)
  unfolding run replay
  run-replay_from [] s h below = (s, refl, h, refl)
  run-replay_from (Op.insert k ∷ ops) s h ((i, at, lt), below) =
      let (r, done, t) = insert-IsToggled laws s k h at lt in
      let (z, ran, valid, reads) = run-replay_from ops r.1 t.valid below in
      (
        z,
        rw done (rw ran (rw (t.previous, t.updated) refl)),
        valid,
        reads ∙ ap (λ f. (replay ops f).1) t.updated,
      )
  run-replay_from (Op.remove k ∷ ops) s h below =
      let (r, done, t) = remove-IsToggled laws s k h in
      let (z, ran, valid, reads) = run-replay_from ops r.1 t.valid below in
      (
        z,
        rw done (rw ran (rw (t.previous, t.updated) refl)),
        valid,
        reads ∙ ap (λ f. (replay ops f).1) t.updated,
      )
  run-replay_from (Op.clear ∷ ops) s h below =
      let (valid, empty, _) = clear-IsValid laws s h in
      let (z, ran, valid', reads) = run-replay_from ops (Set.clear s) valid below in
      (z, rw ran (rw empty refl), valid', reads ∙ ap (λ f. (replay ops f).1) empty)

  -- Every sequence of calls of `insert`, `remove` and `clear` on a new set, where an id that is
  -- inserted has an index below the limit of the bit set, runs without a panic. Its answers are those
  -- of the same calls on a predicate on ids, and it ends in a valid set whose `contains` is the
  -- predicate that these calls end in.
  pub run-replay :
      (ops : List (Op T))
      → AllBelow laws.limit ops
      → (r : DirectIdSet B T) × (run ops new ≡ ok ((replay ops (λ _. false)).0, r))
        × IsValid laws r
        × (contains r ≡ (replay ops (λ _. false)).1)
  run-replay ops below =
      let (r, ran, valid, reads) = run-replay_from ops new (new-IsValid laws) below in
      let start : contains {B = B} {T = T} new ≡ (λ _. false) = contains-new laws in
      (r, rw start at ran, valid, rw start at reads)

  -- the ids put in, one after another
  abbrev pub AllKeysBelow : List T → Type 0
  AllKeysBelow [] = Unit
  AllKeysBelow (k ∷ iter) = ((i : ℕ) × (index_of k ≡ some i) × (i < laws.limit)) × AllKeysBelow iter

module _ {T : Type 0} ⦃p : Platform⦄ ⦃id : IntegerId T⦄ where
  unfoldable pub updates : List T → (T → Bool) → T → Bool
  updates [] f = f
  updates (k ∷ iter) f = updates iter (update f k true)

module _ {B T : Type 0} ⦃p : Platform⦄ ⦃fbs : FixedBitSet B⦄ ⦃id : IntegerId T⦄
    (laws : IsBitSet fbs) where
  pub extend-updates :
      (iter : List T) (self : DirectIdSet B T)
      → IsValid laws self
      → AllKeysBelow {T = T} laws iter
      → (r : DirectIdSet B T) × (extend self iter ≡ ok r)
        × IsValid laws r
        × (contains r ≡ updates iter (contains self))
  unfolding extend updates
  extend-updates [] self h below = (self, refl, h, refl)
  extend-updates (k ∷ iter) self h ((i, at, lt), below) =
      let (r, done, t) = insert-IsToggled laws self k h at lt in
      let (z, ran, valid, reads) = extend-updates iter r.1 t.valid below in
      (z, rw done ran, valid, reads ∙ ap (updates iter) t.updated)

  -- For ids with an index below the limit of the bit set, `from_iter` and `direct_idset!` run without
  -- a panic and build the same valid set, whose `contains` is the empty predicate with the ids put in
  -- one after another.
  pub from_iter-updates :
      (iter : List T)
      → AllKeysBelow {T = T} laws iter
      → (r : DirectIdSet B T) × (from_iter iter ≡ ok r)
        × (direct_idset iter ≡ ok r)
        × IsValid laws r
        × (contains r ≡ updates iter (λ _. false))
  unfolding from_iter direct_idset
  from_iter-updates iter below =
      let (r, ran, valid, reads) = extend-updates iter new (new-IsValid laws) below in
      (r, ran, ran, valid, reads ∙ ap (updates iter) (contains-new laws))
