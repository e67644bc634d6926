-- ===== src/Direct/Set/Retain/Swept.antt =====
-- src/direct/set.rs: what `retain` does to one block of the bit set, by the ids of the block.
use idmap_rs.Common.{
  ℕ, suc, ◌+◌, ◌*◌, ◌≤◌, ◌≡◌, refl, ap, ◌∙◌, Bool, true, false, some, List, [], ◌∷◌, ◌++◌, arith,
  leb, if◌then◌else◌, length,
}
use idmap_rs.Run.{ok, Platform}
use idmap_rs.Intid.Id.{IntegerId, IsLawful}
use idmap_rs.Direct.{index_of, key_at-index_of}
use idmap_rs.Direct.Set.Members.{AreKeys}
use idmap_rs.Direct.Set.Retain.{Word, Retained, retain_word, on_bit}
use idmap_rs.Direct.Set.Retain.Sweep.{sweep, retain_word-sweep}

-- the indices of the bits that are set, the first bit having the given one
abbrev pub ones_from : ℕ → Word → List ℕ
ones_from i [] = []
ones_from i (true ∷ word) = i ∷ ones_from (suc i) word
ones_from i (false ∷ word) = ones_from (suc i) word

-- the callback, asked for one id after another: the ids that it keeps, and its last state
abbrev pub kept : {S T : Type 0} → (S → T → Bool × S) → S → List T → List T × S
kept func s [] = ([], s)
kept func s (k ∷ ks) =
    let later = kept func (func s k).1 ks in
    ((if (func s k).0 then k ∷ later.0 else later.0), later.1)

module _ {S T : Type 0} ⦃p : Platform⦄ ⦃id : IntegerId T⦄ (func : S → T → Bool × S) where
  -- a block swept: the ids kept in it are the first part of those that are kept
  pub record IsSwept (i : ℕ) (word : Word) (s : S) (ks : List T) (r : Retained S)
      (front later : List T) : Type 0 where
    pub keys : AreKeys (ones_from i r.word) front
    pub ids : (kept func s ks).0 ≡ front ++ (kept func r.state later).0
    pub state : (kept func s ks).1 ≡ (kept func r.state later).1
    pub count : r.removed + length front + length later ≡ length ks
    pub few : r.removed ≤ length word
    pub width : length r.word ≡ length word

  -- a bit that is set, before the others
  asked-IsSwept :
      (n bit : ℕ) (word : Word) (s : S) (k : T) (ks : List T) (r : Retained S)
      (front later : List T)
      → index_of k ≡ some (n * 32 + bit)
      → IsSwept (n * 32 + suc bit) word (func s k).1 ks r front later
      → (b : Bool) → (func s k).0 ≡ b
      → IsSwept
          (n * 32 + bit)
          (true ∷ word)
          s
          (k ∷ ks)
          (record {
            word = b ∷ r.word;
            removed = (if b then 0 else 1) + r.removed;
            state = r.state;
          })
          (if b then k ∷ front else front)
          later
  asked-IsSwept n bit word s k ks r front later at w true e =
      let shift : suc (n * 32 + bit) ≡ n * 32 + suc bit = omega arith in
      record {
        keys = (at, rw shift w.keys);
        ids = rw e (ap (◌∷◌ k) w.ids);
        state = w.state;
        count = omega (arith, w.count);
        few = omega (arith, w.few);
        width = omega (arith, w.width);
      }
  asked-IsSwept n bit word s k ks r front later at w false e =
      let shift : suc (n * 32 + bit) ≡ n * 32 + suc bit = omega arith in
      record {
        keys = rw shift w.keys;
        ids = rw e w.ids;
        state = w.state;
        count = omega (arith, w.count);
        few = omega (arith, w.few);
        width = omega (arith, w.width);
      }

  module _ (lawful : IsLawful id) where
    sweep-IsSwept :
        (n bit : ℕ) (word : Word) (s : S) (js : List ℕ) (ks : List T)
        → AreKeys (ones_from (n * 32 + bit) word ++ js) ks
        → (r : Retained S) × (front : List T) × (later : List T) × (sweep (on_bit func n) bit word s
            ≡ ok r)
          × AreKeys js later
          × IsSwept (n * 32 + bit) word s ks r front later
    unfolding sweep
    sweep-IsSwept n bit [] s js ks keys = (
      record { word = []; removed = 0; state = s },
      [],
      ks,
      refl,
      keys,
      record {
        keys = tt;
        ids = refl;
        state = refl;
        count = omega arith;
        few = omega arith;
        width = refl;
      },
    )
    sweep-IsSwept n bit (false ∷ word) s js ks keys =
        let shift : suc (n * 32 + bit) ≡ n * 32 + suc bit = omega arith in
        let (r, front, later, run, rest, w) =
          sweep-IsSwept n (suc bit) word s js ks (rw shift at keys) in
        (
          record { word = false ∷ r.word; removed = r.removed; state = r.state },
          front,
          later,
          rw run refl,
          rest,
          record {
            keys = rw shift w.keys;
            ids = w.ids;
            state = w.state;
            count = w.count;
            few = omega (arith, w.few);
            width = omega (arith, w.width);
          },
        )
    sweep-IsSwept n bit (true ∷ word) s js [] keys = absurd keys
    sweep-IsSwept n bit (true ∷ word) s js (k ∷ ks) (at, keys) =
        let shift : suc (n * 32 + bit) ≡ n * 32 + suc bit = omega arith in
        let (r, front, later, run, rest, w) =
          sweep-IsSwept n (suc bit) word (func s k).1 js ks (rw shift at keys) in
        let b = (func s k).0 in
        (
          record { word = b ∷ r.word; removed = (if b then 0 else 1) + r.removed; state = r.state },
          (if b then k ∷ front else front),
          later,
          rw (key_at-index_of lawful k (n * 32 + bit) at, run) refl,
          rest,
          asked-IsSwept n bit word s k ks r front later at w b refl,
        )

    pub retain_word-IsSwept :
        (n : ℕ) (word : Word) (s : S) (js : List ℕ) (ks : List T)
        → length word ≡ 32
        → AreKeys (ones_from (n * 32) word ++ js) ks
        → (r : Retained S) × (front : List T) × (later : List T) × (retain_word
              (on_bit func n)
              word
              s
            ≡ ok r)
          × AreKeys js later
          × IsSwept (n * 32) word s ks r front later
    retain_word-IsSwept n word s js ks width keys =
        let start : n * 32 ≡ n * 32 + 0 = omega arith in
        let (r, front, later, run, rest, w) = sweep-IsSwept n 0 word s js ks (rw start at keys) in
        let swept : IsSwept (n * 32) word s ks r front later = rw start w in
        let few : leb r.removed 32 ≡ true = ground (arith, swept.few) in
        (
          r,
          front,
          later,
          retain_word-sweep (on_bit func n) word s ∙ rw run (rw few refl),
          rest,
          swept,
        )
