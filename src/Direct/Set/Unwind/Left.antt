-- ===== src/Direct/Set/Unwind/Left.antt =====
-- src/direct/set.rs: the set that `retain` leaves, also where its callback panics.
use idmap_rs.Common.{
  ℕ, suc, ◌+◌, ◌-◌, ◌*◌, ◌≤◌, ◌≡◌, refl, sym, ap, ◌∙◌, inl, inr, Bool, true, Option, none, some,
  List, [], ◌∷◌, ◌++◌, arith, leb, le→leb, length, length-append,
}
use idmap_rs.Run.{ok, Panic, Platform}
use idmap_rs.Intid.Id.{IntegerId, IsLawful}
use idmap_rs.Direct.Set.{DirectIdSet}
use idmap_rs.Direct.Set.Members.{AreKeys}
use idmap_rs.Direct.Set.Retain.{Word, Blocks}
use idmap_rs.Direct.Set.Retain.Swept.{ones_from}
use idmap_rs.Direct.Set.Retain.Kept.{block_ones, HasWidth, AreKeys-append}
use idmap_rs.Direct.Set.Retain.Asked.{AreKeys-split}
use idmap_rs.Direct.Set.Unwind.{unwinding_words, retain_unwinding, ask_all, Left}
use idmap_rs.Direct.Set.Unwind.Remainder.{IsRemainder, IsRemainder-before}
use idmap_rs.Direct.Set.Unwind.Block.{retain_word_or_panic}

module _ {S T : Type 0} ⦃p : Platform⦄ ⦃id : IntegerId T⦄ (lawful : IsLawful id) (e : Panic)
    (func : S → T → Option (Bool × S)) where
  first_block :
      (n : ℕ) (word : Word) (here : List T)
      → AreKeys (ones_from (n * 32) word) here
      → AreKeys (ones_from ((n + 0) * 32) word) here
  first_block n word here keys =
      let same : n * 32 ≡ (n + 0) * 32 = omega arith in rw (sym same) keys

  unwinding_words-IsRemainder :
      (n : ℕ) (words : List Word) (len : ℕ) (s : S) (ks : List T)
      → HasWidth 32 words
      → AreKeys (block_ones 32 n words) ks
      → length ks ≤ len
      → (r : Left S) × (left : List T) × (unwinding_words e func n words len s ≡ ok r)
        × (length r.words ≡ length words)
        × HasWidth 32 r.words
        × AreKeys (block_ones 32 n r.words) left
        × (r.len + length ks ≡ len + length left)
        × IsRemainder func n words s ks left r.state
  unfolding unwinding_words ask_all
  unwinding_words-IsRemainder n [] len s [] width keys le = (
    record { words = []; len = len; state = some s },
    [],
    refl,
    refl,
    tt,
    tt,
    refl,
    record {
      done = [];
      later = [];
      kept = [];
      last = s;
      split = refl;
      asked = refl;
      unasked = refl;
      ended = inl (refl, refl);
    },
  )
  unwinding_words-IsRemainder n [] len s (_ ∷ _) width keys le = absurd keys
  unwinding_words-IsRemainder n (word ∷ words) len s ks (wide, width) keys le =
      let (here, rest, both, keys_here, keys_rest) =
        AreKeys-split (ones_from (n * 32) word) (block_ones 32 (suc n) words) ks keys in
      let size : length ks ≡ length here + length rest = ap length both ∙ length-append here rest in
      elim (retain_word_or_panic lawful e func n word s here wide keys_here) [
        | inl (run, refused) ↦ (
          record { words = word ∷ words; len = len; state = none },
          ks,
          rw run refl,
          refl,
          (wide, width),
          keys,
          refl,
          record {
            done = [];
            later = ks;
            kept = [];
            last = s;
            split = refl;
            asked = refl;
            unasked = refl;
            ended = inr (
              refl,
              record {
                pre = [];
                word = word;
                post = words;
                block = here;
                after = rest;
                blocks = refl;
                before = tt;
                within = first_block n word here keys_here;
                split = both;
                refused = refused;
              },
            );
          },
        )
        | inr (u, front, run, w) ↦
            let (r, left, ran, same, width', keys', count, t) =
              unwinding_words-IsRemainder (suc n) words (len - u.removed) u.state rest width
                keys_rest (omega (arith, w.count, size)) in
            let fits : leb u.removed len ≡ true = le→leb _ _ (omega (arith, w.count, size)) in
            (
              record { words = u.word ∷ r.words; len = r.len; state = r.state },
              front ++ left,
              rw run (rw (fits, ran) refl),
              ap suc same,
              (w.width ∙ wide, width'),
              AreKeys-append (ones_from (n * 32) u.word) (block_ones 32 (suc n) r.words) front left
                  w.keys keys',
              omega (arith, count, w.count, size, length-append front left),
              IsRemainder-before func n word words s u.state ks here front rest left r.state
                  keys_here both w.asked t,
            )
      ]

  -- `retain` on a set of `ks` in blocks of 32 bits, for a lawful id type and with a callback that may
  -- panic, leaves a set in blocks of the same width whose `len` counts its ids, whether a call panics
  -- or none does. If none panics, these are the ids that the callback keeps, and its last state is
  -- returned. If one does, the ids of the blocks before that one are kept or dropped as the callback
  -- said, and all from that block on are left in the set, those too that the callback had dropped.
  pub retain_unwinding-IsRemainder :
      {B : Type 0} ⦃blocks : Blocks B⦄ (self : DirectIdSet B T) (s : S) (ks : List T)
      → HasWidth 32 (blocks.words self.handle)
      → AreKeys (block_ones 32 0 (blocks.words self.handle)) ks
      → self.len ≡ length ks
      → (r : DirectIdSet B T × Option S) × (left : List T) × (retain_unwinding e func self s ≡ ok r)
        × HasWidth 32 (blocks.words r.0.handle)
        × AreKeys (block_ones 32 0 (blocks.words r.0.handle)) left
        × (r.0.len ≡ length left)
        × IsRemainder func 0 (blocks.words self.handle) s ks left r.1
  unfolding retain_unwinding
  retain_unwinding-IsRemainder ⦃blocks⦄ self s ks width keys counted =
      let (r, left, ran, same, width', keys', count, t) =
        unwinding_words-IsRemainder 0 (blocks.words self.handle) self.len s ks width keys
          (omega (arith, counted)) in
      let written = blocks.words_with_words self.handle r.words same in
      (
        (record { handle = blocks.with_words self.handle r.words; len = r.len }, r.state),
        left,
        rw ran refl,
        rw written width',
        rw written keys',
        omega (arith, count, counted),
        t,
      )
