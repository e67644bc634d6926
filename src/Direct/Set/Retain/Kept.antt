-- ===== src/Direct/Set/Retain/Kept.antt =====
-- src/direct/set.rs: which ids `retain` asks for and keeps, in a bit set with blocks of 32 bits.
use idmap_rs.Common.{
  ℕ, suc, ◌+◌, ◌-◌, ◌*◌, ◌≤◌, ◌≡◌, refl, sym, ap, ◌∙◌, Bool, true, List, [], ◌∷◌, ◌++◌, arith, leb,
  length, length-append, le→leb,
}
use idmap_rs.Run.{ok, Platform}
use idmap_rs.Intid.Id.{IntegerId, IsLawful}
use idmap_rs.Direct.Set.{DirectIdSet}
use idmap_rs.Direct.Set.Members.{AreKeys}
use idmap_rs.Direct.Set.Retain.{Word, retain_words, Blocks, retain}
use idmap_rs.Direct.Set.Retain.Swept.{ones_from, kept, retain_word-IsSwept}

-- the same of a sequence of blocks, each of the given width
abbrev pub block_ones : ℕ → ℕ → List Word → List ℕ
block_ones width n [] = []
block_ones width n (word ∷ words) = ones_from (n * width) word ++ block_ones width (suc n) words

-- each block has the width
abbrev pub HasWidth : ℕ → List Word → Type 0
HasWidth width [] = Unit
HasWidth width (word ∷ words) = (length word ≡ width) × HasWidth width words

module _ {T : Type 0} ⦃p : Platform⦄ ⦃id : IntegerId T⦄ where
  pub AreKeys-append :
      (is js : List ℕ) (ks ls : List T)
      → AreKeys is ks
      → AreKeys js ls
      → AreKeys (is ++ js) (ks ++ ls)
  AreKeys-append [] js [] ls a b = b
  AreKeys-append [] js (_ ∷ _) ls a b = absurd a
  AreKeys-append (_ ∷ _) js [] ls a b = absurd a
  AreKeys-append (_ ∷ is) js (_ ∷ ks) ls (at, a) b = (at, AreKeys-append is js ks ls a b)

module _ {S T : Type 0} ⦃p : Platform⦄ ⦃id : IntegerId T⦄ (func : S → T → Bool × S)
    (lawful : IsLawful id) where
  -- the walk over the blocks from number `n` on
  retain_words-kept :
      (n : ℕ) (words : List Word) (len : ℕ) (s : S) (ks : List T)
      → HasWidth 32 words
      → AreKeys (block_ones 32 n words) ks
      → length ks ≤ len
      → (r : record { words : List Word; len : ℕ; state : S }) × (retain_words func n words len s
          ≡ ok r)
        × (length r.words ≡ length words)
        × HasWidth 32 r.words
        × AreKeys (block_ones 32 n r.words) (kept func s ks).0
        × (r.len + length ks ≡ len + length (kept func s ks).0)
        × (r.state ≡ (kept func s ks).1)
  unfolding retain_words
  retain_words-kept n [] len s [] width keys le =
      (record { words = []; len = len; state = s }, refl, refl, tt, tt, refl, refl)
  retain_words-kept n [] len s (_ ∷ _) width keys le = absurd keys
  retain_words-kept n (word ∷ words) len s ks (wide, width) keys le =
      let (u, front, later, run, rest, w) =
        retain_word-IsSwept func lawful n word s (block_ones 32 (suc n) words) ks wide keys in
      let (r, ran, same, width', keys', count, state) =
        retain_words-kept (suc n) words (len - u.removed) u.state later width rest
          (omega (arith, w.count)) in
      let fits : leb u.removed len ≡ true = le→leb u.removed len (omega (arith, w.count)) in
      let kept_ids : length (kept func s ks).0 ≡ length front + length (kept func u.state later).0 =
        ap length w.ids ∙ length-append front (kept func u.state later).0 in
      (
        record { words = u.word ∷ r.words; len = r.len; state = r.state },
        rw run (rw (fits, ran) refl),
        ap suc same,
        (w.width ∙ wide, width'),
        rw w.ids (
            AreKeys-append (ones_from (n * 32) u.word) (block_ones 32 (suc n) r.words) front
              (kept func u.state later).0 w.keys keys'),
        omega (arith, count, w.count, kept_ids),
        state ∙ sym w.state,
      )

  -- For a lawful id type, a set of `ks` in blocks of 32 bits, and a `len` that counts them: `retain`
  -- does not panic. It asks the callback once for each id of the set, in ascending order of the
  -- index and with the callback's state handed on; it leaves the bits of exactly the ids that the
  -- callback kept, in blocks of the same width, counts them in `len`, and returns the last state.
  pub retain-kept :
      {B : Type 0} ⦃blocks : Blocks B⦄ (self : DirectIdSet B T) (s : S) (ks : List T)
      → HasWidth 32 (blocks.words self.handle)
      → AreKeys (block_ones 32 0 (blocks.words self.handle)) ks
      → self.len ≡ length ks
      → (r : DirectIdSet B T × S) × (retain func self s ≡ ok r)
        × HasWidth 32 (blocks.words r.0.handle)
        × AreKeys (block_ones 32 0 (blocks.words r.0.handle)) (kept func s ks).0
        × (r.0.len ≡ length (kept func s ks).0)
        × (r.1 ≡ (kept func s ks).1)
  unfolding retain
  retain-kept ⦃blocks⦄ self s ks width keys counted =
      let (r, ran, same, width', keys', count, state) =
        retain_words-kept 0 (blocks.words self.handle) self.len s ks width keys
          (omega (arith, counted)) in
      let written = blocks.words_with_words self.handle r.words same in
      (
        (record { handle = blocks.with_words self.handle r.words; len = r.len }, r.state),
        rw ran refl,
        rw written width',
        rw written keys',
        omega (arith, count, counted),
        state,
      )
