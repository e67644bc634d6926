-- ===== src/Direct/Map/Invariant.antt =====
-- src/direct/map.rs: what holds of every map that the methods build, and that they keep it.
use idmap_rs.Common.{
  ℕ, ◌+◌, ◌-◌, ◌≤◌, ◌<◌, ◌≡◌, refl, none, some, Option, arith, length, set, slot, occupied, filled,
  get_elem?-slot, slot-set, occupied-set, length-set, filled-le-occupied, occupied-le-length,
  if◌then◌else◌, ◌==◌,
}
use native.Mathlib.Decide.{ℕ_discrete}
use mathlib.Core.Path.{subst}
use idmap_rs.Run.{ok, Platform}
use idmap_rs.Intid.Id.{IntegerId}
use idmap_rs.Direct.{IsIndex}
use idmap_rs.Direct.Map.{DirectIdMap, new, insert_at, remove_at}
use idmap_rs.Direct.Map.Growth.{IsGrown}

-- `len` counts the entries, the vector is one that can exist, and an entry stands only at the
-- index of an id (the safety argument of the iterators).
pub record IsValid {K V : Type 0} ⦃p : Platform⦄ ⦃id : IntegerId K⦄ (self : DirectIdMap K V)
    : Type 0 where
  pub counted : self.len ≡ occupied self.values
  pub fits : length self.values ≤ p.vec_cap
  pub keyed : (i : ℕ) (v : V) → slot self.values i ≡ some v → IsIndex K i

module _ {K V : Type 0} ⦃p : Platform⦄ ⦃id : IntegerId K⦄ where
  pub new-IsValid : IsValid {K = K} {V = V} new
  new-IsValid = record { counted = refl; fits = omega arith; keyed = λ i v e. cc }

  insert_at-ok :
      (self : DirectIdMap K V) (i : ℕ) (v : V)
      → i < length self.values
      → self.len ≡ occupied self.values
      → length self.values ≤ p.vec_cap
      → insert_at self i v
        ≡ ok (
          slot self.values i,
          record {
            values = set self.values i (some v);
            len = self.len + (1 - filled (slot self.values i));
          },
        )
  unfolding insert_at
  insert_at-ok self i v h e f =
      ground
        (arith, get_elem?-slot self.values i h, p.vec_cap_small, occupied-le-length self.values)

  -- what writing `o` at index `i` makes of a map: the previous entry, and every slot and the count
  pub record IsWritten (self : DirectIdMap K V) (i : ℕ) (o : Option V)
      (r : Option V × DirectIdMap K V) : Type 0 where
    pub previous : r.0 ≡ slot self.values i
    pub slots : (j : ℕ) → slot r.1.values j ≡ (if i == j then o else slot self.values j)
    pub len : r.1.len + filled (slot self.values i) ≡ self.len + filled o
    pub valid : IsValid r.1

  pub insert_at-IsWritten :
      (self : DirectIdMap K V) (grown : DirectIdMap K V) (i : ℕ) (v : V)
      → IsValid self
      → IsGrown self i grown
      → IsIndex K i
      → (r : Option V × DirectIdMap K V) × (insert_at grown i v ≡ ok r)
        × IsWritten self i (some v) r
  insert_at-IsWritten self grown i v h g at = (
    (
      slot grown.values i,
      record {
        values = set grown.values i (some v);
        len = grown.len + (1 - filled (slot grown.values i));
      },
    ),
    insert_at-ok grown i v g.roomy (ground (arith, h.counted, g.same_len, g.same_count)) g.fits,
    record {
      previous = g.same_slots i;
      slots = λ j. ground (arith, slot-set grown.values i j (some v) g.roomy, g.same_slots j);
      len = ground (arith, g.same_len, g.same_slots i);
      valid = record {
        counted = ground (arith, occupied-set grown.values i (some v) g.roomy, h.counted);
        fits = omega (arith, length-set grown.values i (some v), g.fits);
        keyed = λ j w e. elim (ℕ_discrete i j) [
          | yes same ↦ subst (IsIndex K) same at
          | no other ↦
              h.keyed j w
                (ground (arith, slot-set grown.values i j (some v) g.roomy, g.same_slots j))
        ];
      };
    },
  )

  -- a write within the vector that counts its change, of nothing or at the index of an id
  pub set-IsWritten :
      (self : DirectIdMap K V) (i n : ℕ) (o : Option V)
      → IsValid self
      → i < length self.values
      → ((v : V) → o ≡ some v → IsIndex K i)
      → n + filled (slot self.values i) ≡ self.len + filled o
      → IsWritten self i o (slot self.values i, record { values = set self.values i o; len = n })
  set-IsWritten self i n o h lt at count =
      let reads = λ (j : ℕ). slot-set self.values i j o lt in
      record {
        previous = refl;
        slots = reads;
        len = count;
        valid = record {
          counted = omega (arith, occupied-set self.values i o lt, h.counted);
          fits = omega (arith, length-set self.values i o, h.fits);
          keyed = λ j w e. elim (ℕ_discrete i j) [
            | yes same ↦ subst (IsIndex K) same (at w (ground (arith, reads j)))
            | no other ↦ h.keyed j w (ground (arith, reads j))
          ];
        };
      }

  remove_at-ok :
      (self : DirectIdMap K V) (i : ℕ)
      → i < length self.values
      → self.len ≡ occupied self.values
      → remove_at self i
        ≡ ok (
          slot self.values i,
          record { values = set self.values i none; len = self.len - filled (slot self.values i) },
        )
  unfolding remove_at
  remove_at-ok self i h e =
      ground (arith, get_elem?-slot self.values i h, filled-le-occupied self.values i)

  pub remove_at-IsWritten :
      (self : DirectIdMap K V) (i : ℕ)
      → IsValid self
      → i < length self.values
      → (r : Option V × DirectIdMap K V) × (remove_at self i ≡ ok r) × IsWritten self i none r
  remove_at-IsWritten self i h lt = (
    (
      slot self.values i,
      record { values = set self.values i none; len = self.len - filled (slot self.values i) },
    ),
    remove_at-ok self i lt h.counted,
    set-IsWritten self i _ none h lt (λ v e. cc)
        (omega (arith, h.counted, filled-le-occupied self.values i)),
  )
