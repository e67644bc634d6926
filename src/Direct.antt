-- ===== src/Direct.antt =====
-- src/direct.rs, and what the map and the set share: from an id to an index of `usize`.
pub mod Map
pub mod BitSet
pub mod Set
pub mod Serde
use idmap_rs.Common.{ℕ, ◌≡◌, sym, ◌∙◌, Option, none, some, arith, ◌<◌, ◌++◌}
use idmap_rs.Run.{Run, ok, panic, oom_id, or_panic, Platform, usize_mod}
use idmap_rs.Intid.Uint.Text.{Text, codes, debug_desc}
use idmap_rs.Intid.Uint.{
  PrimInt, from_usize_wrapping, to_usize_checked, to_usize_checked-eq_some,
  from_usize_wrapping-to_usize_checked,
}
use idmap_rs.Intid.Id.{IntegerId, IsLawful, to_int-injective}

module _ {K : Type 0} ⦃p : Platform⦄ ⦃id : IntegerId K⦄ where
  -- `to_usize_checked(id.to_int())`
  unfoldable pub index_of : K → Option ℕ
  index_of k = to_usize_checked id.int (id.to_int k)

  -- the same, with `unwrap_or_else(|| oom_id(id))`
  unfoldable pub index_or_oom : K → Run ℕ
  unfolding index_of
  index_or_oom k = or_panic (index_of k) (oom_id (id.to_int k))

  -- `K::from_int_unchecked(from_usize_wrapping(index))`
  unfoldable pub key_at : ℕ → Run K
  key_at i = id.from_int_unchecked (from_usize_wrapping id.int i)

-- the message of `oom_id`
module _ ⦃p : Platform⦄ where
  unfoldable pub oom_id_message : PrimInt → ℕ → Text
  unfolding debug_desc
  oom_id_message t id = codes "Storing id would exhaust memory: " ++ debug_desc t id

-- the index is that of an id
abbrev pub IsIndex : (K : Type 0) ⦃p : Platform⦄ ⦃id : IntegerId K⦄ → ℕ → Type 0
IsIndex K i = (k : K) × (index_of k ≡ some i)

module _ {K : Type 0} ⦃p : Platform⦄ ⦃id : IntegerId K⦄ (lawful : IsLawful id) where
  -- The index of an id of a lawful type converts back to that id, without an invalid integer given
  -- to `from_int_unchecked`.
  pub key_at-index_of : (k : K) (i : ℕ) → index_of k ≡ some i → key_at i ≡ ok k
  unfolding key_at index_of
  key_at-index_of k i e =
      rw (from_usize_wrapping-to_usize_checked id.int (id.to_int k) (lawful.in_range k) e, key_at)
        (lawful.unchecked_of_checked (id.to_int k) k (lawful.checked-to_int k))

  pub index_of-injective : (a b : K) (i : ℕ) → index_of a ≡ some i → index_of b ≡ some i → a ≡ b
  unfolding index_of
  index_of-injective a b i e f = to_int-injective lawful a b (
      (to_usize_checked-eq_some id.int (id.to_int a) e).0
      ∙ sym (to_usize_checked-eq_some id.int (id.to_int b) f).0)

module _ {K : Type 0} ⦃p : Platform⦄ ⦃id : IntegerId K⦄ where
  pub index_of-lt : (k : K) (i : ℕ) → index_of k ≡ some i → i < usize_mod
  unfolding index_of
  index_of-lt k i e = (to_usize_checked-eq_some id.int (id.to_int k) e).1

  pub index_or_oom-some : (k : K) (i : ℕ) → index_of k ≡ some i → index_or_oom k ≡ ok i
  unfolding index_or_oom
  index_or_oom-some k i e = ground arith

  pub index_or_oom-none :
      (k : K) → index_of k ≡ none → index_or_oom k ≡ panic (oom_id (id.to_int k))
  unfolding index_or_oom
  index_or_oom-none k e = ground arith
