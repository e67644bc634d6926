-- ===== src/Direct/Map/Growth.antt =====
-- src/direct/map.rs: `grow_to` and `grow_fallback`.
use idmap_rs.Common.{
  ℕ, ◌+◌, ◌-◌, ◌*◌, ◌≤◌, ◌<◌, ◌≡◌, refl, ◌⊎◌, inl, inr, max, none, List, ◌++◌, Option, arith,
  length, replicate, slot, occupied, length-append, length-replicate, take-eq_self, slot-pad,
  occupied-pad, Bool-cases, ltb, leb, if◌then◌else◌,
}
use idmap_rs.Run.{ok, panic, oom_id, capacity_overflow, Platform, usize_mod, resize}
use idmap_rs.Intid.Id.{IntegerId}
use idmap_rs.Direct.Map.{DirectIdMap, grow_to, grow_fallback}

module _ {K V : Type 0} ⦃p : Platform⦄ ⦃id : IntegerId K⦄ where
  -- the length that `grow_fallback` asks for
  abbrev pub new_len : DirectIdMap K V → ℕ → ℕ
  new_len self max_id = max (self.len * 2) (max_id + 1)

  -- there is a slot for the index, or the vector can grow to one
  abbrev pub HasRoom : DirectIdMap K V → ℕ → Type 0
  HasRoom self i = (i < length self.values) ⊎ (new_len self i ≤ p.vec_cap)

  -- `grown` has a slot for the index, and all else as before
  pub record IsGrown (self : DirectIdMap K V) (i : ℕ) (grown : DirectIdMap K V) : Type 0 where
    pub roomy : i < length grown.values
    pub fits : length grown.values ≤ p.vec_cap
    pub same_len : grown.len ≡ self.len
    pub same_slots : (j : ℕ) → slot grown.values j ≡ slot self.values j
    pub same_count : occupied grown.values ≡ occupied self.values

  padded : DirectIdMap K V → ℕ → DirectIdMap K V
  padded self n = record self { values = self.values ++ replicate (n - length self.values) none }

  grow_fallback-ok :
      (self : DirectIdMap K V) (i : ℕ)
      → length self.values ≤ i
      → new_len self i ≤ p.vec_cap
      → grow_fallback self i ≡ ok (padded self (new_len self i))
  unfolding grow_fallback resize padded
  grow_fallback-ok self i h room =
      ground (arith, p.vec_cap_small, take-eq_self (new_len self i) self.values)

  padded-IsGrown :
      (self : DirectIdMap K V) (i : ℕ)
      → length self.values ≤ i
      → new_len self i ≤ p.vec_cap
      → IsGrown self i (padded self (new_len self i))
  unfolding padded
  padded-IsGrown self i h room =
      let pad : List (Option V) = replicate (new_len self i - length self.values) none in
      let size = length-append self.values pad in
      let padding = length-replicate {A = Option V} (new_len self i - length self.values) none in
      record {
        roomy = omega (arith, size, padding);
        fits = omega (arith, size, padding);
        same_len = refl;
        same_slots = slot-pad self.values _;
        same_count = occupied-pad self.values _;
      }

  -- Where there is room, `grow_to` returns a map with a slot for the index and the same entries.
  pub grow_to-ok :
      (self : DirectIdMap K V) (i : ℕ)
      → length self.values ≤ p.vec_cap
      → HasRoom self i
      → (grown : DirectIdMap K V) × (grow_to self i ≡ ok grown) × IsGrown self i grown
  unfolding grow_to
  grow_to-ok self i fits room = elim (Bool-cases (leb (length self.values) i)) [
    | inl short ↦
        let within : new_len self i ≤ p.vec_cap = ground arith in
        (
          padded self (new_len self i),
          rw short (grow_fallback-ok self i (ground arith) within),
          padded-IsGrown self i (ground arith) within,
        )
    | inr long ↦ (
      self,
      rw long,
      record {
        roomy = ground arith;
        fits = fits;
        same_len = refl;
        same_slots = λ j. refl;
        same_count = refl;
      },
    )
  ]

  -- Without room it panics: on an index beyond `usize` when one is added, else on the capacity.
  pub grow_to-panic :
      (self : DirectIdMap K V) (i : ℕ)
      → self.len ≤ p.vec_cap
      → length self.values ≤ i
      → p.vec_cap < new_len self i
      → grow_to self i ≡ panic (if ltb (i + 1) usize_mod then capacity_overflow else oom_id i)
  unfolding grow_to grow_fallback resize
  grow_to-panic self i small short full = ground (arith, p.vec_cap_small)
