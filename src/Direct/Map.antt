-- ===== src/Direct/Map.antt =====
-- src/direct/map.rs: `DirectIdMap` and its methods, but for the iterators (`Iter`). A method that
-- changes the map returns the new one; the key type of `PhantomData` is a parameter of the record.
-- `EquivalentId` is the identity on ids in each of its three implementations, so a key is an id.
pub mod Growth
pub mod Invariant
pub mod Lookup
pub mod Returns
pub mod Methods
pub mod Refine
pub mod Iter
pub mod Equality
use idmap_rs.Common.{
  ℕ, max, Bool, true, false, ◌&&◌, Option, none, some, List, [], ◌∷◌, reverse, ltb, leb, ◌==◌,
  if◌then◌else◌, is_none, is_some, and_then, length, get_elem?, set,
}
use idmap_rs.Run.{
  Run, ok, panic, Panic, oom_id, capacity_overflow, index_out_of_bounds, ◌>>=◌, ◌>>◌, or_panic,
  assert, Platform, usize_checked_add, usize_checked_mul, usize_add, usize_sub, resize,
}
use idmap_rs.Intid.Id.{IntegerId}
use idmap_rs.Intid.Id.Equivalent.{Ref}
use idmap_rs.Direct.{index_of, index_or_oom}

pub record DirectIdMap (K V : Type 0) : Type 0 where
  pub values : List (Option V)
  pub len : ℕ

-- `self.values[id]`
abbrev pub load {ℓ} : {A : Type ℓ} → List A → ℕ → Run A
load xs i = or_panic (get_elem? xs i) index_out_of_bounds

-- `while matches!(values.last(), Some(None)) { values.pop(); }`, on the reversed vector
pub pop_empty : {V : Type 0} → List (Option V) → List (Option V)
pop_empty [] = []
pop_empty (none ∷ xs) = pop_empty xs
pop_empty (some v ∷ xs) = some v ∷ xs

module _ {K V : Type 0} where
  abbrev pub new : DirectIdMap K V
  new = record { values = []; len = 0 }

  abbrev pub default : DirectIdMap K V
  default = new

  abbrev pub is_empty : DirectIdMap K V → Bool
  is_empty self = self.len == 0

  unfoldable pub clear : DirectIdMap K V → DirectIdMap K V
  clear self = record self { values = []; len = 0 }

  -- the capacity of a vector is not modelled
  unfoldable pub shrink_to_fit : DirectIdMap K V → DirectIdMap K V
  unfolding pop_empty
  shrink_to_fit self = record self { values = reverse (pop_empty (reverse self.values)) }

module _ {K V : Type 0} ⦃p : Platform⦄ ⦃id : IntegerId K⦄ where
  unfoldable pub get : DirectIdMap K V → K → Option V
  get self k = and_then (index_of k) λ i. and_then (get_elem? self.values i) λ entry. entry

  -- a reference to change: the value, and the map after writing another one through it
  unfoldable pub get_mut : DirectIdMap K V → K → Option (V × (V → DirectIdMap K V))
  get_mut self k = and_then (index_of k) λ i. and_then (get_elem? self.values i) λ entry.
      and_then entry λ v. some (v, λ w. record self { values = set self.values i (some w) })

  unfoldable pub index : DirectIdMap K V → K → Run V
  index self k = or_panic (get self k) index_out_of_bounds

  unfoldable pub index_mut : DirectIdMap K V → K → Run (V × (V → DirectIdMap K V))
  index_mut self k = or_panic (get_mut self k) index_out_of_bounds

  -- `self[&k]`
  unfoldable pub index_ref : DirectIdMap K V → Ref K → Run V
  index_ref self k = or_panic (get self k.target) index_out_of_bounds

  unfoldable pub index_mut_ref : DirectIdMap K V → Ref K → Run (V × (V → DirectIdMap K V))
  index_mut_ref self k = or_panic (get_mut self k.target) index_out_of_bounds

  pub grow_fallback : DirectIdMap K V → ℕ → Run (DirectIdMap K V)
  grow_fallback self max_id = do
    doubled ← or_panic (usize_checked_mul self.len 2) capacity_overflow
    needed ← or_panic (usize_checked_add max_id 1) (oom_id max_id)
    let new_len = max doubled needed
    assert (leb (length self.values) new_len)
    assert (ltb max_id new_len)
    values ← resize self.values new_len none
    ok (record self { values = values })

  pub grow_to : DirectIdMap K V → ℕ → Run (DirectIdMap K V)
  grow_to self max_id =
      if leb (length self.values) max_id then grow_fallback self max_id else ok self

  -- the rest of `insert`, once there is a slot at index `i`
  pub insert_at : DirectIdMap K V → ℕ → V → Run (Option V × DirectIdMap K V)
  insert_at self i value = do
    old_value ← load self.values i
    let values = set self.values i (some value)
    len ← if is_none old_value then usize_add self.len 1 else ok self.len
    ok (old_value, record { values = values; len = len })

  unfoldable pub insert : DirectIdMap K V → K → V → Run (Option V × DirectIdMap K V)
  unfolding insert_at grow_to grow_fallback resize
  insert self k value = do i ← index_or_oom k; grown ← grow_to self i; insert_at grown i value

  -- the rest of `remove`, at an index within the vector
  pub remove_at : DirectIdMap K V → ℕ → Run (Option V × DirectIdMap K V)
  remove_at self i = do
    old_value ← load self.values i
    let values = set self.values i none
    len ← if is_some old_value then usize_sub self.len 1 else ok self.len
    ok (old_value, record { values = values; len = len })

  unfoldable pub remove : DirectIdMap K V → K → Run (Option V × DirectIdMap K V)
  unfolding remove_at
  remove self k = do
    i ← index_or_oom k
    if leb (length self.values) i then ok (none, self) else remove_at self i

  -- `extend` inserts pair after pair
  unfoldable pub extend : DirectIdMap K V → List (K × V) → Run (DirectIdMap K V)
  extend self [] = ok self
  extend self ((k, v) ∷ iter) = insert self k v >>= λ r. extend r.1 iter

  unfoldable pub from_iter : List (K × V) → Run (DirectIdMap K V)
  unfolding extend insert
  from_iter iter = extend new iter

  -- `direct_idmap!`
  unfoldable pub direct_idmap : List (K × V) → Run (DirectIdMap K V)
  unfolding extend insert
  direct_idmap pairs = extend new pairs

-- `==` of vectors of options, by the `PartialEq` of the values
module _ {V : Type 0} (eq : V → V → Bool) where
  abbrev pub entry_eq : Option V → Option V → Bool
  entry_eq none none = true
  entry_eq (some a) (some b) = eq a b
  entry_eq _ _ = false

  unfoldable pub values_eq : List (Option V) → List (Option V) → Bool
  values_eq [] [] = true
  values_eq (a ∷ xs) (b ∷ ys) = entry_eq a b && values_eq xs ys
  values_eq _ _ = false

  unfoldable pub beq : {K : Type 0} → DirectIdMap K V → DirectIdMap K V → Bool
  unfolding values_eq
  beq self other = self.len == other.len && values_eq self.values other.values
