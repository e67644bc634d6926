-- ===== src/Direct/Set.antt =====
-- src/direct/set.rs: `DirectIdSet`, its methods and its iterators, over a `FixedBitSet`. A method
-- that changes the set returns the new one; the type of the bit set is a parameter of the record.
mod Flipped
pub mod Membership
pub mod Removal
pub mod Empty
pub mod Members
pub mod Ends
pub mod Refine
pub mod Visits
pub mod Unwind
pub mod Compare
pub mod Debug
pub mod Retain
use idmap_rs.Common.{
  ℕ, zero, suc, Bool, true, false, not, Option, none, some, List, [], ◌∷◌, reverse, leb, ◌==◌,
  if◌then◌else◌, length,
}
use idmap_rs.Run.{Run, ok, out_of_fuel, ◌>>=◌, ◌>>◌, assert, Platform, usize_add, usize_sub}
use idmap_rs.Intid.Id.{IntegerId}
use idmap_rs.Direct.{index_of, index_or_oom, key_at}
use idmap_rs.Direct.BitSet.{FixedBitSet}

pub record DirectIdSet (B T : Type 0) : Type 0 where
  pub handle : B
  pub len : ℕ

module _ {B T : Type 0} ⦃fbs : FixedBitSet B⦄ where
  abbrev pub new : DirectIdSet B T
  new = record { handle = fbs.new; len = 0 }

  abbrev pub default : DirectIdSet B T
  default = new

  unfoldable pub with_capacity : ℕ → Run (DirectIdSet B T)
  with_capacity max_id =
      fbs.with_capacity max_id >>= λ handle. ok (record { handle = handle; len = 0 })

  unfoldable pub clear : DirectIdSet B T → DirectIdSet B T
  clear self = record { handle = fbs.clear self.handle; len = 0 }

  abbrev pub is_empty : DirectIdSet B T → Bool
  is_empty self = self.len == 0

module _ {B T : Type 0} ⦃p : Platform⦄ ⦃fbs : FixedBitSet B⦄ ⦃id : IntegerId T⦄ where
  unfoldable pub insert : DirectIdSet B T → T → Run (Bool × DirectIdSet B T)
  insert self value = do
    index ← index_or_oom value
    let was_present = fbs.contains self.handle index
    handle ← fbs.grow_and_insert self.handle index
    len ← if not was_present then usize_add self.len 1 else ok self.len
    ok (was_present, record { handle = handle; len = len })

  -- the rest of `remove`, at an index within the bit set
  pub remove_at : DirectIdSet B T → ℕ → Run (Bool × DirectIdSet B T)
  remove_at self index = do
    was_present ← fbs.contains_unchecked self.handle index
    handle ← fbs.remove_unchecked self.handle index
    len ← if was_present then usize_sub self.len 1 else ok self.len
    ok (was_present, record { handle = handle; len = len })

  unfoldable pub remove : DirectIdSet B T → T → Run (Bool × DirectIdSet B T)
  unfolding remove_at
  remove self value = elim (index_of value) [
    | none ↦ ok (false, self)
    | some index ↦
        if leb (fbs.len self.handle) index then ok (false, self) else remove_at self index
  ]

  unfoldable pub contains : DirectIdSet B T → T → Bool
  contains self value = elim (index_of value) [ none ↦ false | some x ↦ fbs.contains self.handle x ]

  -- `self[value]`
  abbrev pub index : DirectIdSet B T → T → Bool
  index self value = if contains self value then true else false

  unfoldable pub extend : DirectIdSet B T → List T → Run (DirectIdSet B T)
  extend self [] = ok self
  extend self (value ∷ iter) = insert self value >>= λ r. extend r.1 iter

  unfoldable pub from_iter : List T → Run (DirectIdSet B T)
  unfolding extend insert
  from_iter iter = extend new iter

  -- `direct_idset!`
  unfoldable pub direct_idset : List T → Run (DirectIdSet B T)
  unfolding extend insert
  direct_idset values = extend new values

  -- `VisitMap` of petgraph
  unfoldable pub visit : DirectIdSet B T → T → Run (Bool × DirectIdSet B T)
  unfolding insert
  visit self a = insert self a >>= λ r. ok (not r.0, r.1)

  abbrev pub is_visited : DirectIdSet B T → T → Bool
  is_visited self value = contains self value

  abbrev pub unvisit : DirectIdSet B T → T → Run (Bool × DirectIdSet B T)
  unvisit self a = remove self a

-- `Iter` and `IntoIter`, with the indices that the bit set's iterator has left
pub record Iter (T : Type 0) : Type 0 where
  pub len : ℕ
  pub handle : List ℕ

module _ {B T : Type 0} ⦃fbs : FixedBitSet B⦄ where
  unfoldable pub iter : DirectIdSet B T → Iter T
  iter self = record { len = self.len; handle = fbs.ones self.handle }

  -- `into_iter` of a reference
  abbrev pub into_iter_ref : DirectIdSet B T → Iter T
  into_iter_ref self = iter self

  -- `into_iter` of the set itself, with `into_ones`
  unfoldable pub into_iter : DirectIdSet B T → Iter T
  into_iter self = record { len = self.len; handle = fbs.ones self.handle }

module _ {T : Type 0} where
  unfoldable pub size_hint : Iter T → ℕ × Option ℕ
  size_hint self = (self.len, some self.len)

  abbrev pub count : Iter T → ℕ
  count self = self.len

module _ {T : Type 0} ⦃p : Platform⦄ ⦃id : IntegerId T⦄ where
  unfoldable pub next : Iter T → Run (Option T × Iter T)
  next self = elim self.handle [
    | [] ↦ assert (self.len == 0) >> ok (none, self)
    | index ∷ handle ↦ usize_sub self.len 1 >>= λ len.
        key_at index >>= λ key. ok (some key, record { len = len; handle = handle })
  ]

  unfoldable pub next_back : Iter T → Run (Option T × Iter T)
  next_back self = elim (reverse self.handle) [
    | [] ↦ assert (self.len == 0) >> ok (none, self)
    | index ∷ handle ↦ usize_sub self.len 1 >>= λ len.
        key_at index >>= λ key. ok (some key, record { len = len; handle = reverse handle })
  ]

  -- `for value in iterator`, collected: `next` until it returns `None`
  pub collect_loop : ℕ → Iter T → Run (List T)
  collect_loop zero self = out_of_fuel
  collect_loop (suc fuel) self = next self >>= λ r. elim r.0 [
    | none ↦ ok []
    | some x ↦ collect_loop fuel r.1 >>= λ xs. ok (x ∷ xs)
  ]

  unfoldable pub collect : Iter T → Run (List T)
  unfolding collect_loop next
  collect self = collect_loop (suc (length self.handle)) self

-- `Debug`, over what `debug_set` of the formatter makes of the members
module _ {B T Text : Type 0} ⦃p : Platform⦄ ⦃fbs : FixedBitSet B⦄ ⦃id : IntegerId T⦄
    (debug_set : List T → Text) where
  unfoldable pub fmt : DirectIdSet B T → Run Text
  unfolding collect iter
  fmt self = collect (iter self) >>= λ entries. ok (debug_set entries)
