-- ===== src/Direct/Set/Retain/Dropped.antt =====
-- src/direct/set.rs: `retain` with a callback that drops every id, and the last assertion of
-- `retain_word`, for blocks of any width.
use idmap_rs.Common.{
  ℕ, suc, ◌+◌, ◌-◌, ◌*◌, ◌≤◌, ◌≡◌, refl, ◌∙◌, Bool, true, false, not, ◌||◌, List, [], ◌∷◌, arith,
  leb, le→leb, if◌then◌else◌, Bool-cases, inl, inr,
}
use idmap_rs.Run.{ok, panic, assertion_failed, Platform}
use idmap_rs.Intid.Id.{IntegerId, IsLawful}
use idmap_rs.Direct.{key_at-index_of}
use idmap_rs.Direct.Set.{DirectIdSet}
use idmap_rs.Direct.Set.Members.{AreKeys}
use idmap_rs.Direct.Set.Retain.{Word, retain_word, on_bit, retain_words, Blocks, retain}
use idmap_rs.Direct.Set.Retain.Bits.{count_ones}
use idmap_rs.Direct.Set.Retain.Sweep.{sweep, retain_word-sweep}
use idmap_rs.Direct.Set.Retain.Swept.{ones_from}
use idmap_rs.Direct.Set.Retain.Kept.{block_ones}
use idmap_rs.Direct.Set.Retain.Asked.{AreKeys-split}

-- a callback that drops all ids
abbrev pub drop_all : {S T : Type 0} → S → T → Bool × S
drop_all s k = (false, s)

abbrev pub cleared : Word → Word
cleared [] = []
cleared (_ ∷ word) = false ∷ cleared word

abbrev pub all_cleared : List Word → List Word
all_cleared [] = []
all_cleared (word ∷ words) = cleared word ∷ all_cleared words

-- the number of the bits that are set in blocks
abbrev pub total_ones : List Word → ℕ
total_ones [] = 0
total_ones (word ∷ words) = count_ones word + total_ones words

-- more than 32 bits are set in one of the blocks
abbrev pub is_overfull : List Word → Bool
is_overfull [] = false
is_overfull (word ∷ words) = not (leb (count_ones word) 32) || is_overfull words

module _ {S T : Type 0} ⦃p : Platform⦄ ⦃id : IntegerId T⦄ (lawful : IsLawful id) where
  sweep-drop_all :
      (n bit : ℕ) (word : Word) (s : S) (ks : List T)
      → AreKeys (ones_from (n * 32 + bit) word) ks
      → sweep (on_bit {T = T} drop_all n) bit word s
        ≡ ok (record { word = cleared word; removed = count_ones word; state = s })
  unfolding sweep
  sweep-drop_all n bit [] s ks keys = refl
  sweep-drop_all n bit (false ∷ word) s ks keys =
      let shift : suc (n * 32 + bit) ≡ n * 32 + suc bit = omega arith in
      rw (sweep-drop_all n (suc bit) word s ks (rw shift at keys)) refl
  sweep-drop_all n bit (true ∷ word) s [] keys = absurd keys
  sweep-drop_all n bit (true ∷ word) s (k ∷ ks) (at, keys) =
      let shift : suc (n * 32 + bit) ≡ n * 32 + suc bit = omega arith in
      let more : 1 + count_ones word ≡ suc (count_ones word) = omega arith in
      rw
        (
          key_at-index_of lawful k (n * 32 + bit) at,
          sweep-drop_all n (suc bit) word s ks (rw shift at keys),
          more,
        )
        refl

  retain_word-drop_all :
      (n : ℕ) (word : Word) (s : S) (ks : List T)
      → AreKeys (ones_from (n * 32) word) ks
      → retain_word (on_bit {T = T} drop_all n) word s ≡ (
          if leb (count_ones word) 32
          then ok (record { word = cleared word; removed = count_ones word; state = s })
          else panic assertion_failed)
  retain_word-drop_all n word s ks keys =
      let start : n * 32 ≡ n * 32 + 0 = omega arith in
      let run = sweep-drop_all n 0 word s ks (rw start at keys) in
      retain_word-sweep (on_bit {T = T} drop_all n) word s
      ∙ rw run (elim (Bool-cases (leb (count_ones word) 32)) [
        | inl few ↦ rw few refl
        | inr many ↦ rw many refl
      ])

  retain_words-drop_all :
      (n : ℕ) (words : List Word) (len : ℕ) (s : S) (ks : List T)
      → AreKeys (block_ones 32 n words) ks
      → total_ones words ≤ len
      → retain_words {T = T} drop_all n words len s ≡ (
          if is_overfull words
          then panic assertion_failed
          else ok (record { words = all_cleared words; len = len - total_ones words; state = s }))
  unfolding retain_words
  retain_words-drop_all n [] len s ks keys le =
      let none_less : len - 0 ≡ len = omega arith in rw none_less refl
  retain_words-drop_all n (word ∷ words) len s ks keys le =
      let (front, later, _, here, rest) =
        AreKeys-split (ones_from (n * 32) word) (block_ones 32 (suc n) words) ks keys in
      let run = retain_word-drop_all n word s front here in
      elim (Bool-cases (leb (count_ones word) 32)) [
        | inr many ↦ rw run (rw many refl)
        | inl few ↦
            let left = len - count_ones word in
            let fits : leb (count_ones word) len ≡ true = le→leb _ _ (omega arith) in
            let ran = retain_words-drop_all (suc n) words left s later rest (omega arith) in
            let less : left - total_ones words ≡ len - (count_ones word + total_ones words) =
              omega arith in
            rw run (
              rw (few, fits, ran)
                (elim (Bool-cases (is_overfull words)) [
                  | inl over ↦ rw over refl
                  | inr fine ↦ rw (fine, less) refl
                ]))
      ]

  -- For a lawful id type, a set whose `len` counts the bits that are set, and ids at each of the
  -- numbers that `retain` computes for them: `retain` with a callback that drops every id clears all
  -- the bits and leaves a `len` of 0, if no block has more than 32 bits that are set. If a block of
  -- more than 32 bits has, the last assertion of `retain_word` fails.
  pub retain-drop_all :
      {B : Type 0} ⦃blocks : Blocks B⦄ (self : DirectIdSet B T) (s : S) (ks : List T)
      → AreKeys (block_ones 32 0 (blocks.words self.handle)) ks
      → self.len ≡ total_ones (blocks.words self.handle)
      → retain drop_all self s ≡ (
          if is_overfull (blocks.words self.handle)
          then panic assertion_failed
          else ok (
            record {
              handle = blocks.with_words self.handle (all_cleared (blocks.words self.handle));
              len = 0;
            },
            s,
          ))
  unfolding retain
  retain-drop_all ⦃blocks⦄ self s ks keys counted =
      let words = blocks.words self.handle in
      let run = retain_words-drop_all 0 words self.len s ks keys (omega (arith, counted)) in
      let none_left : self.len - total_ones words ≡ 0 = omega (arith, counted) in
      rw run (elim (Bool-cases (is_overfull words)) [
        | inl over ↦ rw over refl
        | inr fine ↦ rw (fine, none_left) refl
      ])
