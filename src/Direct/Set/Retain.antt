-- ===== src/Direct/Set/Retain.antt =====
-- src/direct/set.rs: `retain`, which walks the blocks of the bit set, and `retain_word`, which walks
-- the bits of one block. A block is its bits, the lowest first; a callback carries a state.
mod Bits
pub mod Sweep
pub mod Swept
pub mod Kept
pub mod Asked
pub mod Dropped
use mathlib.Core.Path.{◌≡◌}
use idmap_rs.Common.{
  ℕ, zero, suc, ◌+◌, ◌*◌, Bool, true, false, not, List, [], ◌∷◌, ltb, leb, if◌then◌else◌, length,
  set, replicate,
}
use idmap_rs.Run.{Run, ok, out_of_fuel, ◌>>=◌, ◌>>◌, assert, Platform, usize_sub}
use idmap_rs.Intid.Id.{IntegerId}
use idmap_rs.Direct.{key_at}
use idmap_rs.Direct.Set.{DirectIdSet}

abbrev pub Word : Type 0
Word = List Bool

-- what `retain_word` returns, with the last state of the callback
abbrev pub Retained : Type 0 → Type 0
Retained S = record { word : Word; removed : ℕ; state : S }

-- `word != 0`
abbrev pub is_nonzero : Word → Bool
is_nonzero [] = false
is_nonzero (true ∷ word) = true
is_nonzero (false ∷ word) = is_nonzero word

abbrev pub trailing_zeros : Word → ℕ
trailing_zeros [] = 0
trailing_zeros (true ∷ word) = 0
trailing_zeros (false ∷ word) = suc (trailing_zeros word)

-- `word & (1 << bit) != 0`
abbrev pub has_bit : Word → ℕ → Bool
has_bit [] bit = false
has_bit (b ∷ word) zero = b
has_bit (b ∷ word) (suc bit) = has_bit word bit

module _ {S : Type 0} (func : S → ℕ → Run (Bool × S)) where
  -- the `while` of `retain_word`
  pub retain_word_loop : ℕ → Word → Word → ℕ → S → Run (Retained S)
  retain_word_loop zero remaining result removed s = out_of_fuel
  retain_word_loop (suc fuel) remaining result removed s =
      if not (is_nonzero remaining)
      then assert (leb removed 32) >> ok (record { word = result; removed = removed; state = s })
      else assert (has_bit result (trailing_zeros remaining))
        >> (func s (trailing_zeros remaining) >>= λ answer.
            retain_word_loop fuel (set remaining (trailing_zeros remaining) false)
              (if answer.0 then result else set result (trailing_zeros remaining) false)
              (if answer.0 then removed else removed + 1) answer.1)

  -- a turn clears a bit of the word
  unfoldable pub retain_word : Word → S → Run (Retained S)
  unfolding retain_word_loop
  retain_word original_word s =
      retain_word_loop (suc (length original_word)) original_word original_word 0 s

module _ {S T : Type 0} ⦃p : Platform⦄ ⦃id : IntegerId T⦄ (func : S → T → Bool × S) where
  -- the closure that `retain` gives to `retain_word`
  abbrev pub on_bit : ℕ → S → ℕ → Run (Bool × S)
  on_bit word_index s bit = key_at (word_index * 32 + bit) >>= λ key. ok (func s key)

  -- the `for` of `retain`, from the block with the given index on
  pub retain_words : ℕ → List Word → ℕ → S → Run (record { words : List Word; len : ℕ; state : S })
  unfolding retain_word
  retain_words word_index [] len s = ok (record { words = []; len = len; state = s })
  retain_words word_index (word ∷ words) len s = do
    updated ← retain_word (on_bit word_index) word s
    left ← usize_sub len updated.removed
    rest ← retain_words (suc word_index) words left updated.state
    ok (record { words = updated.word ∷ rest.words; len = rest.len; state = rest.state })

-- `as_mut_slice` of a bit set: its blocks, and the set after writing as many of them
pub record Blocks (B : Type 0) : Type 0 where
  pub words : B → List Word
  pub with_words : B → List Word → B
  pub words_with_words :
      (b : B) (ws : List Word) → length ws ≡ length (words b) → words (with_words b ws) ≡ ws

module _ {B S T : Type 0} ⦃p : Platform⦄ ⦃blocks : Blocks B⦄ ⦃id : IntegerId T⦄
    (func : S → T → Bool × S) where
  unfoldable pub retain : DirectIdSet B T → S → Run (DirectIdSet B T × S)
  unfolding retain_words
  retain self s = do
    r ← retain_words func 0 (blocks.words self.handle) self.len s
    ok (record { handle = blocks.with_words self.handle r.words; len = r.len }, r.state)
