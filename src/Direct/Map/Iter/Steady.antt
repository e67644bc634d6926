-- ===== src/Direct/Map/Iter/Steady.antt =====
-- src/direct/map.rs: `retain` with a callback that does not panic, in both models of it.
use idmap_rs.Common.{ℕ, suc, ◌≡◌, refl, Option, none, some, List, [], ◌∷◌, if◌then◌else◌}
use idmap_rs.Run.{Run, ok, panic, undefined, out_of_fuel, ◌>>=◌, >>=-through, Platform, usize_sub}
use idmap_rs.Intid.Id.{IntegerId}
use idmap_rs.Direct.{key_at}
use idmap_rs.Direct.Map.{DirectIdMap}
use idmap_rs.Direct.Map.Iter.{Callback, retain_loop, retain}
use idmap_rs.Direct.Map.Iter.Unwind.{Answer, answered, Left, unwinding_loop, retain_unwinding}

-- a callback that never panics
module _ {S K V : Type 0} ⦃p : Platform⦄ ⦃id : IntegerId K⦄ (func : Callback S K V) where
  abbrev pub steady : S → K → V → Answer S V
  steady s k v = let a = func s k v in answered a.keep a.value a.state

  abbrev Kept : Type 0
  Kept = record { values : List (Option V); len : ℕ; state : S }

  abbrev ended : Kept → Run (Left S V)
  ended r = ok (record { values = r.values; len = r.len; state = some r.state })

  abbrev map_of : List (Option V) → ℕ → DirectIdMap K V
  map_of values len = record { values = values; len = len }

  entry_before :
      (o : Option V) (r : Run Kept)
      → ((r >>= ended) >>= λ l. ok (record { values = o ∷ l.values; len = l.len; state = l.state }))
        ≡ ((r >>= λ l. ok (record { values = o ∷ l.values; len = l.len; state = l.state }))
            >>= ended)
  entry_before o (ok r) = refl
  entry_before o (panic e) = refl
  entry_before o undefined = refl
  entry_before o out_of_fuel = refl

  unwinding_loop-steady :
      (i : ℕ) (xs : List (Option V)) (len : ℕ) (s : S)
      → unwinding_loop steady i xs len s ≡ (retain_loop func i xs len s >>= ended)
  unfolding unwinding_loop retain_loop
  unwinding_loop-steady i [] len s = refl
  unwinding_loop-steady i (none ∷ xs) len s =
      rw (unwinding_loop-steady (suc i) xs len s) (entry_before none _)
  unwinding_loop-steady i (some v ∷ xs) len s = >>=-through (key_at i) _ _ ended λ k.
      >>=-through (if (func s k v).keep then ok len else usize_sub len 1) _ _ ended λ left.
        rw (unwinding_loop-steady (suc i) xs left (func s k v).state)
          (entry_before (if (func s k v).keep then some (func s k v).value else none) _)

  -- With a callback that never panics it is `retain`.
  retain_unwinding-retain :
      (self : DirectIdMap K V) (s : S)
      → retain_unwinding steady self s ≡ (retain func self s >>= λ r. ok (r.0, some r.1))
  unfolding retain_unwinding retain
  retain_unwinding-retain self s =
      rw (unwinding_loop-steady 0 self.values self.len s)
        (swapped (retain_loop func 0 self.values self.len s))
    where
      swapped :
          (r : Run Kept)
          → ◌>>=◌ {B = DirectIdMap K V × Option S}
              (r >>= ended)
              (λ l. ok (map_of l.values l.len, l.state))
            ≡ (◌>>=◌ {B = DirectIdMap K V × S} r (λ l. ok (map_of l.values l.len, l.state)) >>= λ r.
                ok (r.0, some r.1))
      swapped (ok r) = refl
      swapped (panic e) = refl
      swapped undefined = refl
      swapped out_of_fuel = refl
