-- ===== src/Direct/Map/Iter/Unwind.antt =====
-- src/direct/map.rs: `retain` with a callback that may panic, which unwinds out of the loop and
-- leaves the map behind.
use idmap_rs.Common.{
  ℕ, suc, ◌+◌, ◌-◌, ◌≤◌, ◌<◌, ◌≡◌, refl, sym, ap, Bool, Option, none, some, List, [], ◌∷◌, true,
  false, arith, length, occupied, if◌then◌else◌,
}
use mathlib.Core.Path.{subst}
use idmap_rs.Run.{Run, ok, ◌>>=◌, Platform, usize_sub}
use idmap_rs.Intid.Id.{IntegerId, IsLawful}
use idmap_rs.Direct.{key_at, index_of, key_at-index_of}
use idmap_rs.Direct.Map.{DirectIdMap}
use idmap_rs.Direct.Map.Invariant.{IsValid}
use idmap_rs.Direct.Map.Iter.Entries.{IsEntries, EntriesOf, IsEntries-keyed}

-- What a call of the callback does: it answers, or it panics and leaves a value behind the
-- reference.
pub data Answer (S V : Type 0) : Type 0 where
  answered : (keep : Bool) (value : V) (state : S) → Answer S V
  panicked : (value : V) → Answer S V

-- the vector and the count that are left, and the last state if no call has panicked
abbrev pub Left : Type 0 → Type 0 → Type 0
Left S V = record { values : List (Option V); len : ℕ; state : Option S }

module _ {S K V : Type 0} ⦃p : Platform⦄ ⦃id : IntegerId K⦄ (func : S → K → V → Answer S V) where
  -- the `for` of `retain`, from the entry with the given index on, as far as it comes
  unfoldable pub unwinding_loop : ℕ → List (Option V) → ℕ → S → Run (Left S V)
  unwinding_loop index [] len s = ok (record { values = []; len = len; state = some s })
  unwinding_loop index (none ∷ entries) len s = do
    r ← unwinding_loop (suc index) entries len s
    ok (record { values = none ∷ r.values; len = r.len; state = r.state })
  unwinding_loop index (some v ∷ entries) len s = key_at index >>= λ key. elim (func s key v) [
    | panicked value ↦ ok (record { values = some value ∷ entries; len = len; state = none })
    | answered keep value state ↦ do
      left ← if keep then ok len else usize_sub len 1
      r ← unwinding_loop (suc index) entries left state
      ok (record {
        values = (if keep then some value else none) ∷ r.values;
        len = r.len;
        state = r.state;
      })
  ]

  -- the map that is left, also after a panic
  unfoldable pub retain_unwinding : DirectIdMap K V → S → Run (DirectIdMap K V × Option S)
  unfolding unwinding_loop
  retain_unwinding self s = do
    r ← unwinding_loop 0 self.values self.len s
    ok (record { values = r.values; len = r.len }, r.state)

-- the pairs that are left: of those asked about, the kept ones with the value that the callback left;
-- the one whose call panicked, with its value; and those that were not asked about
module _ {S K V : Type 0} (func : S → K → V → Answer S V) where
  unfoldable pub remaining : S → List (K × V) → List (K × V) × Option S
  remaining s [] = ([], some s)
  remaining s ((k, v) ∷ l) = elim (func s k v) [
    | panicked value ↦ ((k, value) ∷ l, none)
    | answered keep value state ↦
        let rest = remaining state l in (if keep then (k, value) ∷ rest.0 else rest.0, rest.1)
  ]

module _ {S K V : Type 0} ⦃p : Platform⦄ ⦃id : IntegerId K⦄ (lawful : IsLawful id)
    (func : S → K → V → Answer S V) where
  -- what the loop leaves of the entries from index `i` on
  record IsLeft (i : ℕ) (xs : List (Option V)) (len : ℕ) (s : S) (l : List (K × V)) (r : Left S V)
      : Type 0 where
    entries : IsEntries i r.values (remaining func s l).0
    state : r.state ≡ (remaining func s l).1
    counted : r.len + occupied xs ≡ len + occupied r.values
    same_length : length r.values ≡ length xs

  abbrev Leaves : ℕ → List (Option V) → ℕ → S → List (K × V) → Type 0
  Leaves i xs len s l =
      (r : Left S V) × (unwinding_loop func i xs len s ≡ ok r) × IsLeft i xs len s l r

  -- one entry that the callback is asked about, before the rest of the loop
  one_asked :
      (i : ℕ) (v : V) (xs : List (Option V)) (len : ℕ) (s : S) (k : K) (l : List (K × V))
      → index_of k ≡ some i
      → IsEntries (suc i) xs l
      → occupied xs < len
      → ((later : ℕ) (s' : S) → occupied xs ≤ later → Leaves (suc i) xs later s' l)
      → (a : Answer S V) → func s k v ≡ a
      → Leaves i (some v ∷ xs) len s ((k, v) ∷ l)
  unfolding unwinding_loop remaining
  one_asked i v xs len s k l at es lt rest (panicked value) e = (
    record { values = some value ∷ xs; len = len; state = none },
    rw (key_at-index_of lawful k i at, e) refl,
    record {
      entries = rw (e, remaining) (at, refl, es);
      state = rw (e, remaining) refl;
      counted = omega arith;
      same_length = refl;
    },
  )
  one_asked i v xs len s k l at es lt rest (answered true value state) e =
      let (r, run, t) = rest len state (omega arith) in
      (
        record { values = some value ∷ r.values; len = r.len; state = r.state },
        rw (key_at-index_of lawful k i at, e, run) refl,
        record {
          entries = rw (e, remaining) (at, refl, t.entries);
          state = rw (e, remaining) t.state;
          counted = omega (arith, t.counted);
          same_length = ap suc t.same_length;
        },
      )
  one_asked i v xs len s k l at es lt rest (answered false value state) e =
      let (r, run, t) = rest (len - 1) state (omega arith) in
      let fits : usize_sub len 1 ≡ ok (len - 1) = ground arith in
      (
        record { values = none ∷ r.values; len = r.len; state = r.state },
        rw (key_at-index_of lawful k i at, e) (rw (fits, run) refl),
        record {
          entries = rw (e, remaining) t.entries;
          state = rw (e, remaining) t.state;
          counted = omega (arith, t.counted);
          same_length = ap suc t.same_length;
        },
      )

  unwinding_loop_lem :
      (i : ℕ) (xs : List (Option V)) (len : ℕ) (s : S) (l : List (K × V))
      → IsEntries i xs l
      → occupied xs ≤ len
      → Leaves i xs len s l
  unfolding unwinding_loop remaining
  unwinding_loop_lem i [] len s [] es h = (
    record { values = []; len = len; state = some s },
    refl,
    record { entries = tt; state = refl; counted = refl; same_length = refl },
  )
  unwinding_loop_lem i [] len s (_ ∷ _) es h = absurd es
  unwinding_loop_lem i (none ∷ xs) len s l es h =
      let (r, run, t) = unwinding_loop_lem (suc i) xs len s l es (omega arith) in
      (
        record { values = none ∷ r.values; len = r.len; state = r.state },
        rw run refl,
        record {
          entries = t.entries;
          state = t.state;
          counted = omega (arith, t.counted);
          same_length = ap suc t.same_length;
        },
      )
  unwinding_loop_lem i (some v ∷ xs) len s [] es h = absurd es
  unwinding_loop_lem i (some v ∷ xs) len s ((k, w) ∷ l) (at, same, es) h =
      subst (λ u. Leaves i (some v ∷ xs) len s ((k, u) ∷ l)) (sym same)
        (one_asked i v xs len s k l at es (omega arith)
          (λ later s' le. unwinding_loop_lem (suc i) xs later s' l es le) (func s k v) refl)

  -- `retain` on a valid map of a lawful id type, with a callback that may panic, leaves a valid map,
  -- whether a call panics or none does. It has the pairs that the callback kept, with the values that
  -- it left, the pair whose call panicked, with the value left behind its reference, and all those
  -- after it. It returns the callback's last state, and none after a panic.
  pub retain_unwinding-remaining :
      (self : DirectIdMap K V) (s : S) (l : List (K × V))
      → IsValid self
      → EntriesOf self l
      → (r : DirectIdMap K V × Option S) × (retain_unwinding func self s ≡ ok r)
        × IsValid r.0
        × EntriesOf r.0 (remaining func s l).0
        × (r.1 ≡ (remaining func s l).1)
  unfolding retain_unwinding
  retain_unwinding-remaining self s l h es =
      let (r, run, t) =
        unwinding_loop_lem 0 self.values self.len s l es (omega (arith, h.counted)) in
      (
        (record { values = r.values; len = r.len }, r.state),
        rw run refl,
        record {
          counted = omega (arith, t.counted, h.counted);
          fits = omega (arith, t.same_length, h.fits);
          keyed = λ i v e.
              let start : 0 + i ≡ i = omega arith in
              rw start at (IsEntries-keyed 0 r.values (remaining func s l).0 t.entries i v e);
        },
        t.entries,
        t.state,
      )
