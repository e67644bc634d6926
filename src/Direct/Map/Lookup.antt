-- ===== src/Direct/Map/Lookup.antt =====
-- src/direct/map.rs: each method as a change to the partial function that `get` reads.
use idmap_rs.Common.{
  ℕ, ◌+◌, ◌≤◌, ◌<◌, ◌≡◌, refl, sym, ◌∙◌, fun_ext, inl, inr, none, some, Option, arith, length, slot,
  filled, if◌then◌else◌, ◌==◌, get_elem?-and_then, leb, ltb, Bool-cases, Option-cases, slot_beyond,
  occupied-le-length,
}
use native.Mathlib.Decide.{dec_le, dec_lt}
use idmap_rs.Intid.Uint.{to_usize_checked}
use idmap_rs.Run.{ok, panic, Panic, oom_id, capacity_overflow, Platform, usize_mod}
use idmap_rs.Intid.Id.{IntegerId}
use idmap_rs.Direct.{index_of, index_or_oom-some, index_or_oom-none}
use idmap_rs.Direct.Map.{DirectIdMap, get, insert, remove}
use idmap_rs.Direct.Map.Growth.{HasRoom, new_len, grow_to-ok, grow_to-panic}
use idmap_rs.Direct.Map.Invariant.{IsValid, IsWritten, insert_at-IsWritten, remove_at-IsWritten}

module _ {K V : Type 0} ⦃p : Platform⦄ ⦃id : IntegerId K⦄ where
  -- a partial function, changed at one id
  abbrev pub update : (K → Option V) → K → Option V → K → Option V
  update f k o j = if id.to_int k == id.to_int j then o else f j

  -- `get` reads the slot at the index of the id
  pub get-slot :
      (self : DirectIdMap K V) (k : K) {i : ℕ}
      → index_of k ≡ some i
      → get self k ≡ slot self.values i
  unfolding get
  get-slot self k {i} e = rw e (get_elem?-and_then self.values i)

  pub get-unrepresentable : (self : DirectIdMap K V) (k : K) → index_of k ≡ none → get self k ≡ none
  unfolding get
  get-unrepresentable self k e = rw e

  pub get-eq_some :
      (self : DirectIdMap K V) (k : K) {v : V}
      → get self k ≡ some v
      → (i : ℕ) × (index_of k ≡ some i) × (slot self.values i ≡ some v) × (i < length self.values)
  get-eq_some self k {v} e = elim (Option-cases (index_of k)) [
    | inl far ↦ absurd (ground (arith, get-unrepresentable self k far))
    | inr (i, at) ↦
        let found : slot self.values i ≡ some v = sym (get-slot self k at) ∙ e in
        (
          i,
          at,
          found,
          elim (dec_lt i (length self.values)) [
            | yes within ↦ within
            | no beyond ↦ absurd (ground (arith, slot_beyond self.values i (omega arith)))
          ],
        )
  ]

  -- a write at the index of an id is an update of the function
  get-IsWritten :
      (self : DirectIdMap K V) (k : K) {i : ℕ} (o : Option V) (r : Option V × DirectIdMap K V)
      → index_of k ≡ some i
      → IsWritten self i o r
      → get r.1 ≡ update (get self) k o
  unfolding index_of to_usize_checked
  get-IsWritten self k {i} o r e w = fun_ext λ j. elim (Option-cases (index_of j)) [
    | inl far ↦ ground (arith, get-unrepresentable self j far, get-unrepresentable r.1 j far)
    | inr (n, at) ↦ ground (arith, get-slot self j at, get-slot r.1 j at, w.slots n)
  ]

  -- what a method that writes `o` at an id returns: the previous value, and a valid map that reads
  -- as the updated function and has counted the change
  pub record IsUpdated (self : DirectIdMap K V) (k : K) (o : Option V)
      (r : Option V × DirectIdMap K V) : Type 0 where
    pub previous : r.0 ≡ get self k
    pub updated : get r.1 ≡ update (get self) k o
    pub len : r.1.len + filled (get self k) ≡ self.len + filled o
    pub valid : IsValid r.1

  pub IsUpdated-IsWritten :
      (self : DirectIdMap K V) (k : K) {i : ℕ} (o : Option V) (r : Option V × DirectIdMap K V)
      → index_of k ≡ some i
      → IsWritten self i o r
      → IsUpdated self k o r
  IsUpdated-IsWritten self k o r e w = record {
    previous = w.previous ∙ sym (get-slot self k e);
    updated = get-IsWritten self k o r e w;
    len = rw (get-slot self k e) w.len;
    valid = w.valid;
  }

  pub insert_lem :
      (self : DirectIdMap K V) (k : K) (v : V) {i : ℕ}
      → IsValid self
      → index_of k ≡ some i
      → HasRoom self i
      → (r : Option V × DirectIdMap K V) × (insert self k v ≡ ok r) × IsUpdated self k (some v) r
  unfolding insert
  insert_lem self k v {i} h e room =
      let (grown, run, g) = grow_to-ok self i h.fits room in
      let (r, stored, w) = insert_at-IsWritten self grown i v h g (k, e) in
      (r, rw (index_or_oom-some k i e, run) stored, IsUpdated-IsWritten self k (some v) r e w)

  pub insert-panic :
      (self : DirectIdMap K V) (k : K) (v : V)
      → IsValid self
      → ((i : ℕ) → index_of k ≡ some i → ¬ HasRoom self i)
      → (e : Panic) × (insert self k v ≡ panic e)
  unfolding insert
  insert-panic self k v h full = elim (Option-cases (index_of k)) [
    | inl far ↦ (oom_id (id.to_int k), rw (index_or_oom-none k far))
    | inr (i, at) ↦ (
      (if ltb (i + 1) usize_mod then capacity_overflow else oom_id i),
      rw (
        index_or_oom-some k i at,
        grow_to-panic self i (omega (arith, h.counted, h.fits, occupied-le-length self.values))
            (no_slot i (full i at)) (no_growth i (full i at)),
      ),
    )
  ]
    where
      no_slot : (i : ℕ) → ¬ HasRoom self i → length self.values ≤ i
      no_slot i none_left = elim (dec_le (length self.values) i) [
        | yes short ↦ short
        | no long ↦ absurd (none_left (inl (omega arith)))
      ]

      no_growth : (i : ℕ) → ¬ HasRoom self i → p.vec_cap < new_len self i
      no_growth i none_left = elim (dec_lt p.vec_cap (new_len self i)) [
        | yes full ↦ full
        | no fits ↦ absurd (none_left (inr (omega arith)))
      ]

  -- On a valid map, `remove` of an id whose index fits `usize` never panics: it returns the value
  -- of the id, and a valid map without it that reads as before at every other id, with one entry
  -- less if the id had one.
  pub remove_lem :
      (self : DirectIdMap K V) (k : K) {i : ℕ}
      → IsValid self
      → index_of k ≡ some i
      → (r : Option V × DirectIdMap K V) × (remove self k ≡ ok r) × IsUpdated self k none r
  unfolding remove
  remove_lem self k {i} h e = elim (Bool-cases (leb (length self.values) i)) [
    | inl beyond ↦
        let empty : slot self.values i ≡ none = slot_beyond self.values i (ground arith) in
        (
          (none, self),
          rw (index_or_oom-some k i e, beyond),
          IsUpdated-IsWritten self k none (none, self) e
              (record {
                previous = sym empty;
                slots = λ j. ground (arith, empty);
                len = rw empty refl;
                valid = h;
              }),
        )
    | inr within ↦
        let (r, stored, w) = remove_at-IsWritten self i h (ground arith) in
        (r, rw (index_or_oom-some k i e, within) stored, IsUpdated-IsWritten self k none r e w)
  ]

  -- For an id whose integer does not fit `usize`, `get` finds nothing, while `remove` panics with
  -- the message of an id that is too large to store.
  pub remove-unrepresentable :
      (self : DirectIdMap K V) (k : K)
      → index_of k ≡ none
      → (get self k ≡ none) × (remove self k ≡ panic (oom_id (id.to_int k)))
  unfolding remove
  remove-unrepresentable self k far = (get-unrepresentable self k far, rw (index_or_oom-none k far))
