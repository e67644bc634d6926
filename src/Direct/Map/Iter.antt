-- ===== src/Direct/Map/Iter.antt =====
-- src/direct/map.rs: the iterators that `impl_direct_iter!` defines, and `retain`. The vector's own
-- iterator, numbered by `enumerate`, is the number of the next element and the elements that are
-- left. The macro is read once: `item` is the expression that it puts in `Some(...)`, so that
-- `IntoIter` and `Iter` yield pairs, `Values` values and `Keys` keys. A mutable iterator walks in
-- the same way over the references to the values, which are their positions in the vector.
pub mod Entries
pub mod Sorted
pub mod Same
pub mod Deque
pub mod Collect
pub mod Ends
pub mod Hint
pub mod Mutable
pub mod Retain
pub mod Unwind
pub mod Steady
use idmap_rs.Common.{
  ℕ, zero, suc, ◌+◌, Bool, Option, none, some, List, [], ◌∷◌, reverse, length, set, if◌then◌else◌,
}
use idmap_rs.Run.{Run, ok, out_of_fuel, ◌>>=◌, Platform, usize_sub}
use idmap_rs.Intid.Id.{IntegerId}
use idmap_rs.Direct.{key_at}
use idmap_rs.Direct.Map.{DirectIdMap}

-- `Enumerate` over the iterator of a vector or a slice
pub record Enumerate (A : Type 0) : Type 0 where
  pub count : ℕ
  pub rest : List A

-- `Iter`, and the other five, which have the same fields; of the mutable ones the vector is one of
-- references
pub record Iter (K V : Type 0) : Type 0 where
  pub source : Enumerate (Option V)
  pub len : ℕ

abbrev pub IntoIter : Type 0 → Type 0 → Type 0
IntoIter K V = Iter K V

abbrev pub IterMut : Type 0 → Type 0
IterMut K = Iter K ℕ

abbrev pub Values : Type 0 → Type 0 → Type 0
Values K V = Iter K V

abbrev pub ValuesMut : Type 0 → Type 0
ValuesMut K = Iter K ℕ

abbrev pub Keys : Type 0 → Type 0
Keys K = Iter K ℕ

module _ {V : Type 0} where
  -- `iter_mut` of a slice, whose elements are numbered from `i`
  abbrev pub refs : ℕ → List (Option V) → List (Option ℕ)
  refs i [] = []
  refs i (none ∷ xs) = none ∷ refs (suc i) xs
  refs i (some _ ∷ xs) = some i ∷ refs (suc i) xs

-- what the mutable iterators make of a key and a reference
module _ {K : Type 0} where
  abbrev pub iter_mut_item : K → ℕ → K × ℕ
  iter_mut_item key value = (key, value)

  abbrev pub values_mut_item : K → ℕ → ℕ
  values_mut_item key value = value

module _ {K V : Type 0} where
  unfoldable pub iter : DirectIdMap K V → Iter K V
  iter self = record { source = record { count = 0; rest = self.values }; len = self.len }

  -- `into_iter` of a reference
  abbrev pub into_iter_ref : DirectIdMap K V → Iter K V
  into_iter_ref self = iter self

  -- `into_iter` of the map itself
  unfoldable pub into_iter : DirectIdMap K V → IntoIter K V
  into_iter self = record { source = record { count = 0; rest = self.values }; len = self.len }

  -- what the six iterators make of a key and a value
  abbrev pub into_iter_item : K → V → K × V
  into_iter_item key value = (key, value)

  abbrev pub iter_item : K → V → K × V
  iter_item key value = (key, value)

  abbrev pub values_item : K → V → V
  values_item key value = value

  abbrev pub keys_item : K → V → K
  keys_item key value = key

  unfoldable pub iter_mut : DirectIdMap K V → IterMut K
  iter_mut self = record {
    source = record { count = 0; rest = refs 0 self.values };
    len = self.len;
  }

  -- `into_iter` of a mutable reference
  abbrev pub into_iter_mut : DirectIdMap K V → IterMut K
  into_iter_mut self = iter_mut self

  -- `*value = w` through a reference that `iter_mut` has handed out
  abbrev pub write : DirectIdMap K V → ℕ → V → DirectIdMap K V
  write self i w = record self { values = set self.values i (some w) }

  unfoldable pub size_hint : Iter K V → ℕ × Option ℕ
  size_hint self = (self.len, some self.len)

module _ {K V Item : Type 0} ⦃p : Platform⦄ ⦃id : IntegerId K⦄ (item : K → V → Item) where
  -- the `loop` of `next`, at element number `i`
  pub next_loop : ℕ → List (Option V) → ℕ → Run (Option Item × Iter K V)
  next_loop i [] len = ok (none, record { source = record { count = i; rest = [] }; len = len })
  next_loop i (none ∷ xs) len = next_loop (suc i) xs len
  next_loop i (some v ∷ xs) len = do
    k ← key_at i
    left ← usize_sub len 1
    ok (some (item k v), record { source = record { count = suc i; rest = xs }; len = left })

  unfoldable pub next : Iter K V → Run (Option Item × Iter K V)
  unfolding next_loop
  next self = next_loop self.source.count self.source.rest self.len

  -- the `loop` of `next_back`, on the reversed rest; it leaves `len` as it is
  pub next_back_loop : ℕ → List (Option V) → ℕ → Run (Option Item × Iter K V)
  next_back_loop i [] len =
      ok (none, record { source = record { count = i; rest = [] }; len = len })
  next_back_loop i (none ∷ xs) len = next_back_loop i xs len
  next_back_loop i (some v ∷ xs) len = do
    k ← key_at (i + length xs)
    ok (some (item k v), record { source = record { count = i; rest = reverse xs }; len = len })

  unfoldable pub next_back : Iter K V → Run (Option Item × Iter K V)
  unfolding next_back_loop
  next_back self = next_back_loop self.source.count (reverse self.source.rest) self.len

  -- `for item in iterator`, collected: `next` until it returns `None`
  pub collect_loop : ℕ → Iter K V → Run (List Item)
  collect_loop zero self = out_of_fuel
  collect_loop (suc fuel) self = next self >>= λ r. elim r.0 [
    | none ↦ ok []
    | some x ↦ collect_loop fuel r.1 >>= λ xs. ok (x ∷ xs)
  ]

  -- a call of `next` takes one element of the vector at least
  unfoldable pub collect : Iter K V → Run (List Item)
  unfolding collect_loop next
  collect self = collect_loop (suc (length self.source.rest)) self

-- `Debug`, over what `debug_map` of the formatter makes of the entries
module _ {K V Text : Type 0} ⦃p : Platform⦄ ⦃id : IntegerId K⦄
    (debug_map : List (K × V) → Text) where
  unfoldable pub fmt : DirectIdMap K V → Run Text
  unfolding collect iter
  fmt self = collect iter_item (iter self) >>= λ entries. ok (debug_map entries)

-- the callback of `retain`: a state of its own, and the value that it leaves behind the reference
abbrev pub Callback : Type 0 → Type 0 → Type 0 → Type 0
Callback S K V = S → K → V → record { keep : Bool; value : V; state : S }

module _ {S K V : Type 0} ⦃p : Platform⦄ ⦃id : IntegerId K⦄ (func : Callback S K V) where
  -- the `for` of `retain`, from the entry with the given index on
  pub retain_loop :
      ℕ → List (Option V) → ℕ → S → Run (record { values : List (Option V); len : ℕ; state : S })
  retain_loop index [] len s = ok (record { values = []; len = len; state = s })
  retain_loop index (none ∷ entries) len s = do
    r ← retain_loop (suc index) entries len s
    ok (record { values = none ∷ r.values; len = r.len; state = r.state })
  retain_loop index (some v ∷ entries) len s = do
    key ← key_at index
    let answer = func s key v
    left ← if answer.keep then ok len else usize_sub len 1
    r ← retain_loop (suc index) entries left answer.state
    ok (record {
      values = (if answer.keep then some answer.value else none) ∷ r.values;
      len = r.len;
      state = r.state;
    })

  unfoldable pub retain : DirectIdMap K V → S → Run (DirectIdMap K V × S)
  unfolding retain_loop
  retain self s = do
    r ← retain_loop 0 self.values self.len s
    ok (record { values = r.values; len = r.len }, r.state)
