-- ===== src/Direct/Set/Retain/Asked.antt =====
-- src/direct/set.rs: the ids for which `retain` asks, for blocks of any width. Those of fixedbitset
-- 0.5 have the width of `usize`.
use idmap_rs.Common.{
  ℕ, suc, ◌+◌, ◌-◌, ◌*◌, ◌≡◌, ◌≢◌, refl, sym, ap, ◌∙◌, Bool, true, false, List, [], ◌∷◌, ◌++◌,
  arith, leb, ◌⊎◌, inl, inr,
}
use mathlib.Core.List.{append_assoc, append_cancel_left, append-nil, head-eq_of_cons-eq}
use idmap_rs.Run.{ok, Platform}
use idmap_rs.Intid.Id.{IntegerId, IsLawful}
use idmap_rs.Direct.{key_at-index_of}
use idmap_rs.Direct.Set.{DirectIdSet}
use idmap_rs.Direct.Set.Members.{AreKeys}
use idmap_rs.Direct.Set.Retain.{Word, retain_word, on_bit, retain_words, Blocks, retain}
use idmap_rs.Direct.Set.Retain.Sweep.{sweep, retain_word-sweep}
use idmap_rs.Direct.Set.Retain.Swept.{ones_from}
use idmap_rs.Direct.Set.Retain.Kept.{block_ones, HasWidth}

-- a callback that notes the ids and keeps all of them
abbrev pub note : {T : Type 0} → List T → T → Bool × List T
note noted k = (true, noted ++ k ∷ [])

module _ {T : Type 0} ⦃p : Platform⦄ ⦃id : IntegerId T⦄ where
  -- the ids of two lists of indices, one after the other
  pub AreKeys-split :
      (is js : List ℕ) (ks : List T)
      → AreKeys (is ++ js) ks
      → (front : List T) × (later : List T) × (ks ≡ front ++ later)
        × AreKeys is front
        × AreKeys js later
  AreKeys-split [] js ks keys = ([], ks, refl, tt, keys)
  AreKeys-split (i ∷ is) js [] keys = absurd keys
  AreKeys-split (i ∷ is) js (k ∷ ks) (at, keys) =
      let (front, later, e, a, b) = AreKeys-split is js ks keys in
      (k ∷ front, later, ap (◌∷◌ k) e, (at, a), b)

  -- an id has one index
  AreKeys-injective : (is js : List ℕ) (ks : List T) → AreKeys is ks → AreKeys js ks → is ≡ js
  AreKeys-injective [] [] [] a b = refl
  AreKeys-injective [] (_ ∷ _) [] a b = absurd b
  AreKeys-injective (_ ∷ _) js [] a b = absurd a
  AreKeys-injective [] js (_ ∷ _) a b = absurd a
  AreKeys-injective (_ ∷ _) [] (_ ∷ _) a b = absurd b
  AreKeys-injective (i ∷ is) (j ∷ js) (k ∷ ks) (at, a) (at', b) =
      let same : i ≡ j = ground arith in
      ap (λ x. x ∷ is) same ∙ ap (◌∷◌ j) (AreKeys-injective is js ks a b)

module _ {T : Type 0} ⦃p : Platform⦄ ⦃id : IntegerId T⦄ (lawful : IsLawful id) where
  sweep-note :
      (n bit : ℕ) (word : Word) (noted ks : List T)
      → AreKeys (ones_from (n * 32 + bit) word) ks
      → sweep (on_bit note n) bit word noted
        ≡ ok (record { word = word; removed = 0; state = noted ++ ks })
  unfolding sweep
  sweep-note n bit [] noted [] keys =
      ap (λ r. ok (record { word = []; removed = 0; state = r })) (sym (append-nil noted))
  sweep-note n bit [] noted (_ ∷ _) keys = absurd keys
  sweep-note n bit (false ∷ word) noted ks keys =
      let shift : suc (n * 32 + bit) ≡ n * 32 + suc bit = omega arith in
      rw (sweep-note n (suc bit) word noted ks (rw shift at keys)) refl
  sweep-note n bit (true ∷ word) noted [] keys = absurd keys
  sweep-note n bit (true ∷ word) noted (k ∷ ks) (at, keys) =
      let shift : suc (n * 32 + bit) ≡ n * 32 + suc bit = omega arith in
      let rest = sweep-note n (suc bit) word (noted ++ k ∷ []) ks (rw shift at keys) in
      let state = append_assoc noted (k ∷ []) ks in
      rw (key_at-index_of lawful k (n * 32 + bit) at, rest)
        (ap (λ r. ok (record { word = true ∷ word; removed = 0; state = r })) state)

  retain_word-note :
      (n : ℕ) (word : Word) (noted ks : List T)
      → AreKeys (ones_from (n * 32) word) ks
      → retain_word (on_bit note n) word noted
        ≡ ok (record { word = word; removed = 0; state = noted ++ ks })
  retain_word-note n word noted ks keys =
      let start : n * 32 ≡ n * 32 + 0 = omega arith in
      let run = sweep-note n 0 word noted ks (rw start at keys) in
      retain_word-sweep (on_bit note n) word noted ∙ rw run refl

  retain_words-note :
      (n : ℕ) (words : List Word) (len : ℕ) (noted ks : List T)
      → AreKeys (block_ones 32 n words) ks
      → retain_words note n words len noted
        ≡ ok (record { words = words; len = len; state = noted ++ ks })
  unfolding retain_words
  retain_words-note n [] len noted [] keys =
      ap (λ r. ok (record { words = []; len = len; state = r })) (sym (append-nil noted))
  retain_words-note n [] len noted (_ ∷ _) keys = absurd keys
  retain_words-note n (word ∷ words) len noted ks keys =
      let (front, later, e, here, rest) =
        AreKeys-split (ones_from (n * 32) word) (block_ones 32 (suc n) words) ks keys in
      let run = retain_word-note n word noted front here in
      let fits : leb 0 len ≡ true = ground arith in
      let none_less : len - 0 ≡ len = omega arith in
      let ran = retain_words-note (suc n) words len (noted ++ front) later rest in
      let state : (noted ++ front) ++ later ≡ noted ++ ks =
        append_assoc noted front later ∙ ap (λ r. noted ++ r) (sym e) in
      rw run (
        rw (fits, none_less, ran)
          (ap (λ r. ok (record { words = word ∷ words; len = len; state = r })) state))

-- a block at two places: no bit is set, or the first one that is has the same distance
ones_from-head :
    (i j : ℕ) (word : Word)
    → ((ones_from i word ≡ []) × (ones_from j word ≡ []))
      ⊎ ((o : ℕ) × (is js : List ℕ) × (ones_from i word ≡ (i + o) ∷ is)
          × (ones_from j word ≡ (j + o) ∷ js))
ones_from-head i j [] = inl (refl, refl)
ones_from-head i j (true ∷ word) = inr (
  0,
  ones_from (suc i) word,
  ones_from (suc j) word,
  ap (λ x. x ∷ ones_from (suc i) word) (omega arith),
  ap (λ x. x ∷ ones_from (suc j) word) (omega arith),
)
ones_from-head i j (false ∷ word) = elim (ones_from-head (suc i) (suc j) word) [
  | inl none_set ↦ inl none_set
  | inr (o, is, js, e, e') ↦
      inr (suc o, is, js, e ∙ ap (λ x. x ∷ is) (omega arith), e' ∙ ap (λ x. x ∷ js) (omega arith))
]

-- beyond the first block, the indices of blocks of 64 bits are not those of blocks of 32
block_ones-differ :
    (n : ℕ) (words : List Word)
    → block_ones 64 (suc n) words ≢ []
    → block_ones 64 (suc n) words ≢ block_ones 32 (suc n) words
block_ones-differ n [] some_set e = some_set refl
block_ones-differ n (word ∷ words) some_set e =
    elim (ones_from-head (suc n * 64) (suc n * 32) word) [
      | inl (here, there) ↦
          block_ones-differ (suc n) words
            (λ empty. some_set (ap (λ l. l ++ block_ones 64 (suc (suc n)) words) here ∙ empty))
            (sym (ap (λ l. l ++ block_ones 64 (suc (suc n)) words) here)
              ∙ e
              ∙ ap (λ l. l ++ block_ones 32 (suc (suc n)) words) there)
      | inr (o, is, js, here, there) ↦
          let heads = head-eq_of_cons-eq (
            sym (ap (λ l. l ++ block_ones 64 (suc (suc n)) words) here)
            ∙ e
            ∙ ap (λ l. l ++ block_ones 32 (suc (suc n)) words) there) in
          omega (arith, heads)
    ]

module _ {T : Type 0} ⦃p : Platform⦄ ⦃id : IntegerId T⦄ (lawful : IsLawful id) where
  -- Over a bit set with blocks of 64 bits, `retain` asks for wrong ids. For a lawful id type, a set
  -- whose members are `ks`, one of them at least beyond the first block, and ids `js` of the
  -- numbers that the code computes: a call of `retain` with a callback that keeps everything and
  -- notes what it is asked for returns, the callback has noted `js`, and `js` are not the members.
  pub retain-asks_wrong :
      {B : Type 0} ⦃blocks : Blocks B⦄ (self : DirectIdSet B T) (word : Word) (words : List Word)
      (ks js : List T)
      → blocks.words self.handle ≡ word ∷ words
      → HasWidth 64 (word ∷ words)
      → AreKeys (block_ones 64 0 (word ∷ words)) ks
      → block_ones 64 1 words ≢ []
      → AreKeys (block_ones 32 0 (word ∷ words)) js
      → (r : DirectIdSet B T × List T) × (retain note self [] ≡ ok r) × (r.1 ≡ js) × (js ≢ ks)
  unfolding retain
  retain-asks_wrong ⦃blocks⦄ self word words ks js at width members beyond asked =
      let run = retain_words-note lawful 0 (word ∷ words) self.len [] js asked in
      (
        (record self { handle = blocks.with_words self.handle (word ∷ words) }, js),
        rw (at, run) refl,
        refl,
        λ same.
            let indices =
              AreKeys-injective (block_ones 64 0 (word ∷ words)) (block_ones 32 0 (word ∷ words)) ks
                members (rw same at asked) in
            block_ones-differ 0 words beyond (
              append_cancel_left (ones_from 0 word) (block_ones 64 1 words) (block_ones 32 1 words)
                indices),
      )
