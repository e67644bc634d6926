-- ===== src/Direct/Set/Unwind/Remainder.antt =====
-- src/direct/set.rs: what a callback of `retain` that may panic leaves of the ids of a set.
use idmap_rs.Common.{
  ℕ, suc, ◌+◌, ◌*◌, ◌≡◌, sym, ap, ◌∙◌, ◌⊎◌, inl, inr, Bool, Option, none, some, List, [], ◌∷◌, ◌++◌,
  arith, length,
}
use mathlib.Core.List.{append_assoc}
use idmap_rs.Run.{Platform}
use idmap_rs.Intid.Id.{IntegerId}
use idmap_rs.Direct.Set.Members.{AreKeys}
use idmap_rs.Direct.Set.Retain.{Word}
use idmap_rs.Direct.Set.Retain.Swept.{ones_from}
use idmap_rs.Direct.Set.Retain.Kept.{block_ones, AreKeys-append}
use idmap_rs.Direct.Set.Unwind.{before, ask_all, ask_all-append}

module _ {S T : Type 0} ⦃p : Platform⦄ ⦃id : IntegerId T⦄ (func : S → T → Option (Bool × S)) where
  -- a call for an id of a block has panicked, after calls for all the ids of the blocks before it
  pub record IsInterrupted (n : ℕ) (words : List Word) (done later : List T) (last : S)
      : Type 0 where
    pub pre : List Word
    pub word : Word
    pub post : List Word
    pub block : List T
    pub after : List T
    pub blocks : words ≡ pre ++ word ∷ post
    pub before : AreKeys (block_ones 32 n pre) done
    pub within : AreKeys (ones_from ((n + length pre) * 32) word) block
    pub split : later ≡ block ++ after
    pub refused : ask_all func last block ≡ none

  -- what is left of the ids of the blocks from number `n` on: those that the callback keeps, or, if a
  -- call panics, those that it keeps of the blocks before, and all the others
  pub record IsRemainder (n : ℕ) (words : List Word) (s : S) (ks left : List T) (state : Option S)
      : Type 0 where
    pub done : List T
    pub later : List T
    pub kept : List T
    pub last : S
    pub split : ks ≡ done ++ later
    pub asked : ask_all func s done ≡ some (kept, last)
    pub unasked : left ≡ kept ++ later
    pub ended :
        ((state ≡ some last) × (later ≡ []))
        ⊎ ((state ≡ none) × IsInterrupted n words done later last)

  -- the first block, before the others
  IsInterrupted-before :
      (n : ℕ) (word : Word) (words : List Word) (here done later : List T) (last : S)
      → AreKeys (ones_from (n * 32) word) here
      → IsInterrupted (suc n) words done later last
      → IsInterrupted n (word ∷ words) (here ++ done) later last
  IsInterrupted-before n word words here done later last keys w =
      let shift : (suc n + length w.pre) * 32 ≡ (n + suc (length w.pre)) * 32 = omega arith in
      record {
        pre = word ∷ w.pre;
        word = w.word;
        post = w.post;
        block = w.block;
        after = w.after;
        blocks = ap (◌∷◌ word) w.blocks;
        before =
            AreKeys-append (ones_from (n * 32) word) (block_ones 32 (suc n) w.pre) here done keys
              w.before;
        within = rw shift at w.within;
        split = w.split;
        refused = w.refused;
      }

  pub IsRemainder-before :
      (n : ℕ) (word : Word) (words : List Word) (s s' : S) (ks here front rest left : List T)
      (state : Option S)
      → AreKeys (ones_from (n * 32) word) here
      → ks ≡ here ++ rest
      → ask_all func s here ≡ some (front, s')
      → IsRemainder (suc n) words s' rest left state
      → IsRemainder n (word ∷ words) s ks (front ++ left) state
  IsRemainder-before n word words s s' ks here front rest left state keys both asked w = record {
    done = here ++ w.done;
    later = w.later;
    kept = front ++ w.kept;
    last = w.last;
    split = both ∙ ap (λ l. here ++ l) w.split ∙ sym (append_assoc here w.done w.later);
    asked = ask_all-append func s s' here w.done front asked ∙ ap (before front) w.asked;
    unasked = ap (λ l. front ++ l) w.unasked ∙ sym (append_assoc front w.kept w.later);
    ended = elim w.ended [
      | inl through ↦ inl through
      | inr (stopped, i) ↦
          inr (stopped, IsInterrupted-before n word words here w.done w.later w.last keys i)
    ];
  }
