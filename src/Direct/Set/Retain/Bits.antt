-- ===== src/Direct/Set/Retain/Bits.antt =====
-- src/direct/set.rs: the bit operations of `retain_word` on a word whose lowest bits are known.
use idmap_rs.Common.{
  ℕ, zero, suc, ◌≡◌, refl, ap, Bool, true, false, [], ◌∷◌, ◌++◌, length, set, replicate,
}
use idmap_rs.Direct.Set.Retain.{Word, is_nonzero, trailing_zeros, has_bit}

-- the number of bits that are set
abbrev pub count_ones : Word → ℕ
count_ones [] = 0
count_ones (true ∷ word) = suc (count_ones word)
count_ones (false ∷ word) = count_ones word

abbrev pub zeros : ℕ → Word
zeros n = replicate n false

pub is_nonzero-zeros : (n : ℕ) (word : Word) → is_nonzero (zeros n ++ word) ≡ is_nonzero word
is_nonzero-zeros zero word = refl
is_nonzero-zeros (suc n) word = is_nonzero-zeros n word

pub trailing_zeros-zeros : (n : ℕ) (word : Word) → trailing_zeros (zeros n ++ true ∷ word) ≡ n
trailing_zeros-zeros zero word = refl
trailing_zeros-zeros (suc n) word = ap suc (trailing_zeros-zeros n word)

pub set_here :
    (pre : Word) (b c : Bool) (word : Word) → set (pre ++ b ∷ word) (length pre) c ≡ pre ++ c ∷ word
set_here [] b c word = refl
set_here (d ∷ pre) b c word = ap (◌∷◌ d) (set_here pre b c word)

pub has_bit_here :
    (pre : Word) (b : Bool) (word : Word) → has_bit (pre ++ b ∷ word) (length pre) ≡ b
has_bit_here [] b word = refl
has_bit_here (d ∷ pre) b word = has_bit_here pre b word

pub zeros_snoc : (n : ℕ) (word : Word) → zeros n ++ false ∷ word ≡ zeros (suc n) ++ word
zeros_snoc zero word = refl
zeros_snoc (suc n) word = ap (◌∷◌ false) (zeros_snoc n word)

pub snoc_assoc : (pre : Word) (b : Bool) (word : Word) → (pre ++ b ∷ []) ++ word ≡ pre ++ b ∷ word
snoc_assoc [] b word = refl
snoc_assoc (d ∷ pre) b word = ap (◌∷◌ d) (snoc_assoc pre b word)

pub length_snoc : (pre : Word) (b : Bool) → length (pre ++ b ∷ []) ≡ suc (length pre)
length_snoc [] b = refl
length_snoc (d ∷ pre) b = ap suc (length_snoc pre b)
