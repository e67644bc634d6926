-- ===== src/Direct/Map/Iter/Retain.antt =====
-- src/direct/map.rs: `retain`, against a filter of the list of pairs.
use idmap_rs.Common.{
  ℕ, suc, ◌+◌, ◌-◌, ◌≤◌, ◌<◌, ◌≡◌, refl, sym, ap, Option, none, some, List, [], ◌∷◌, true, false,
  arith, length, occupied, if◌then◌else◌, Bool-cases, inl, inr,
}
use mathlib.Core.Path.{subst}
use idmap_rs.Run.{ok, Platform}
use idmap_rs.Intid.Id.{IntegerId, IsLawful}
use idmap_rs.Direct.{index_of, key_at-index_of}
use idmap_rs.Direct.Map.{DirectIdMap}
use idmap_rs.Direct.Map.Invariant.{IsValid}
use idmap_rs.Direct.Map.Iter.{Callback, retain_loop, retain}
use idmap_rs.Direct.Map.Iter.Entries.{IsEntries, EntriesOf, IsEntries-keyed}

-- the callback is asked of each pair in order, with its state handed on; the pairs that it keeps
-- stay, with the value that it leaves
module _ {S K V : Type 0} (func : Callback S K V) where
  pub kept : S → List (K × V) → List (K × V) × S
  kept s [] = ([], s)
  kept s ((k, v) ∷ l) =
      let answer = func s k v in
      let rest = kept answer.state l in
      (if answer.keep then (k, answer.value) ∷ rest.0 else rest.0, rest.1)

module _ {S K V : Type 0} ⦃p : Platform⦄ ⦃id : IntegerId K⦄ (lawful : IsLawful id)
    (func : Callback S K V) where
  -- what the loop makes of the entries from index `i` on
  record IsRetained (i : ℕ) (xs : List (Option V)) (len : ℕ) (s : S) (l : List (K × V))
      (r : record { values : List (Option V); len : ℕ; state : S }) : Type 0 where
    entries : IsEntries i r.values (kept func s l).0
    state : r.state ≡ (kept func s l).1
    counted : r.len + occupied xs ≡ len + occupied r.values
    same_length : length r.values ≡ length xs

  abbrev Retains : ℕ → List (Option V) → ℕ → S → List (K × V) → Type 0
  Retains i xs len s l =
      (r : record { values : List (Option V); len : ℕ; state : S }) × (retain_loop func i xs len s
        ≡ ok r)
      × IsRetained i xs len s l r

  -- one entry that the callback is asked about, before the rest of the loop
  retain_kept :
      (i : ℕ) (v : V) (xs : List (Option V)) (len : ℕ) (s : S) (k : K) (l : List (K × V))
      → index_of k ≡ some i
      → (func s k v).keep ≡ true
      → Retains (suc i) xs len (func s k v).state l
      → Retains i (some v ∷ xs) len s ((k, v) ∷ l)
  unfolding retain_loop kept
  retain_kept i v xs len s k l at keep (r, run, t) = (
    record { values = some (func s k v).value ∷ r.values; len = r.len; state = r.state },
    rw (key_at-index_of lawful k i at, keep, run),
    record {
      entries = rw keep (at, refl, t.entries);
      state = t.state;
      counted = omega (arith, t.counted);
      same_length = ap suc t.same_length;
    },
  )

  retain_dropped :
      (i : ℕ) (v : V) (xs : List (Option V)) (len : ℕ) (s : S) (k : K) (l : List (K × V))
      → index_of k ≡ some i
      → (func s k v).keep ≡ false
      → 0 < len
      → Retains (suc i) xs (len - 1) (func s k v).state l
      → Retains i (some v ∷ xs) len s ((k, v) ∷ l)
  unfolding retain_loop kept
  retain_dropped i v xs len s k l at drop pos (r, run, t) = (
    record { values = none ∷ r.values; len = r.len; state = r.state },
    ground (arith, key_at-index_of lawful k i at),
    record {
      entries = rw drop t.entries;
      state = t.state;
      counted = omega (arith, t.counted);
      same_length = ap suc t.same_length;
    },
  )

  retain_loop_lem :
      (i : ℕ) (xs : List (Option V)) (len : ℕ) (s : S) (l : List (K × V))
      → IsEntries i xs l
      → occupied xs ≤ len
      → Retains i xs len s l
  unfolding retain_loop kept
  retain_loop_lem i [] len s [] es h = (
    record { values = []; len = len; state = s },
    refl,
    record { entries = tt; state = refl; counted = refl; same_length = refl },
  )
  retain_loop_lem i [] len s (_ ∷ _) es h = absurd es
  retain_loop_lem i (none ∷ xs) len s l es h =
      let (r, run, t) = retain_loop_lem (suc i) xs len s l es (omega arith) in
      (
        record { values = none ∷ r.values; len = r.len; state = r.state },
        rw run refl,
        record {
          entries = t.entries;
          state = t.state;
          counted = omega (arith, t.counted);
          same_length = ap suc t.same_length;
        },
      )
  retain_loop_lem i (some v ∷ xs) len s [] es h = absurd es
  retain_loop_lem i (some v ∷ xs) len s ((k, w) ∷ l) (at, same, es) h =
      subst (λ u. Retains i (some v ∷ xs) len s ((k, u) ∷ l)) (sym same)
        (elim (Bool-cases (func s k v).keep) [
          | inl keep ↦
              retain_kept i v xs len s k l at keep
                (retain_loop_lem (suc i) xs len (func s k v).state l es (omega arith))
          | inr drop ↦
              retain_dropped i v xs len s k l at drop (omega arith)
                (retain_loop_lem (suc i) xs (len - 1) (func s k v).state l es (omega arith))
        ])

  -- `retain` on a valid map of a lawful id type does not panic. It calls the callback once for each
  -- pair of the map, in ascending order of the index and with the callback's state handed on; it
  -- leaves a valid map of exactly the pairs that the callback kept, each with the value that the
  -- callback left behind its reference, and returns the callback's last state.
  pub retain_lem :
      (self : DirectIdMap K V) (s : S) (l : List (K × V))
      → IsValid self
      → EntriesOf self l
      → (r : DirectIdMap K V × S) × (retain func self s ≡ ok r)
        × IsValid r.0
        × EntriesOf r.0 (kept func s l).0
        × (r.1 ≡ (kept func s l).1)
  unfolding retain
  retain_lem self s l h es =
      let (r, run, t) = retain_loop_lem 0 self.values self.len s l es (omega (arith, h.counted)) in
      (
        (record { values = r.values; len = r.len }, r.state),
        rw run refl,
        record {
          counted = omega (arith, t.counted, h.counted);
          fits = omega (arith, t.same_length, h.fits);
          keyed = λ i v e.
              let start : 0 + i ≡ i = omega arith in
              rw start at (IsEntries-keyed 0 r.values (kept func s l).0 t.entries i v e);
        },
        t.entries,
        t.state,
      )
