-- ===== src/Direct/Set/Unwind/Block.antt =====
-- src/direct/set.rs: what `retain` does to one block with a callback that may panic.
use idmap_rs.Common.{
  ℕ, suc, ◌+◌, ◌*◌, ◌≤◌, ◌≡◌, refl, ap, ◌∙◌, ◌⊎◌, inl, inr, Bool, true, false, Option, none, some,
  List, [], ◌∷◌, arith, leb, le→leb, if◌then◌else◌, length, Option-cases,
}
use idmap_rs.Run.{Run, ok, panic, Panic, Platform}
use idmap_rs.Intid.Id.{IntegerId, IsLawful}
use idmap_rs.Direct.{index_of, key_at-index_of}
use idmap_rs.Direct.Set.Members.{AreKeys}
use idmap_rs.Direct.Set.Retain.{Word, Retained, retain_word}
use idmap_rs.Direct.Set.Retain.Sweep.{sweep, retain_word-sweep}
use idmap_rs.Direct.Set.Retain.Swept.{ones_from}
use idmap_rs.Direct.Set.Unwind.{on_bit_or_panic, before, ask_all}

module _ {S T : Type 0} ⦃p : Platform⦄ ⦃id : IntegerId T⦄ (lawful : IsLawful id) (e : Panic)
    (func : S → T → Option (Bool × S)) where
  -- a block swept to its end: the ids of it that are kept
  pub record IsThrough (i : ℕ) (word : Word) (s : S) (ks : List T) (r : Retained S) (front : List T)
      : Type 0 where
    pub keys : AreKeys (ones_from i r.word) front
    pub asked : ask_all func s ks ≡ some (front, r.state)
    pub count : r.removed + length front ≡ length ks
    pub few : r.removed ≤ length word
    pub width : length r.word ≡ length word

  -- a block, swept to its end or to the call that panics
  abbrev SweepsTo : Run (Retained S) → ℕ → Word → S → List T → Type 0
  SweepsTo swept i word s ks =
      ((swept ≡ panic e) × (ask_all func s ks ≡ none))
      ⊎ ((r : Retained S) × (front : List T) × (swept ≡ ok r) × IsThrough i word s ks r front)

  -- a bit that is set and whose id the callback has answered for, before the others
  answered-IsThrough :
      (n bit : ℕ) (word : Word) (s s' : S) (b : Bool) (k : T) (ks : List T) (r : Retained S)
      (front : List T)
      → index_of k ≡ some (n * 32 + bit)
      → func s k ≡ some (b, s')
      → IsThrough (n * 32 + suc bit) word s' ks r front
      → IsThrough
          (n * 32 + bit)
          (true ∷ word)
          s
          (k ∷ ks)
          (record {
            word = b ∷ r.word;
            removed = (if b then 0 else 1) + r.removed;
            state = r.state;
          })
          (if b then k ∷ front else front)
  unfolding ask_all
  answered-IsThrough n bit word s s' true k ks r front at answer w =
      let shift : suc (n * 32 + bit) ≡ n * 32 + suc bit = omega arith in
      record {
        keys = (at, rw shift w.keys);
        asked = rw (answer, ask_all) (ap (before (k ∷ [])) w.asked);
        count = omega (arith, w.count);
        few = omega (arith, w.few);
        width = omega (arith, w.width);
      }
  answered-IsThrough n bit word s s' false k ks r front at answer w =
      let shift : suc (n * 32 + bit) ≡ n * 32 + suc bit = omega arith in
      record {
        keys = rw shift w.keys;
        asked = rw (answer, ask_all) (ap (before []) w.asked);
        count = omega (arith, w.count);
        few = omega (arith, w.few);
        width = omega (arith, w.width);
      }

  sweep_or_panic :
      (n bit : ℕ) (word : Word) (s : S) (ks : List T)
      → AreKeys (ones_from (n * 32 + bit) word) ks
      → SweepsTo (sweep (on_bit_or_panic e func n) bit word s) (n * 32 + bit) word s ks
  unfolding sweep ask_all
  sweep_or_panic n bit [] s [] keys = inr (
    record { word = []; removed = 0; state = s },
    [],
    refl,
    record { keys = tt; asked = refl; count = refl; few = omega arith; width = refl },
  )
  sweep_or_panic n bit [] s (_ ∷ _) keys = absurd keys
  sweep_or_panic n bit (false ∷ word) s ks keys =
      let shift : suc (n * 32 + bit) ≡ n * 32 + suc bit = omega arith in
      elim (sweep_or_panic n (suc bit) word s ks (rw shift at keys)) [
        | inl (run, refused) ↦ inl (rw run refl, refused)
        | inr (r, front, run, w) ↦ inr (
          record { word = false ∷ r.word; removed = r.removed; state = r.state },
          front,
          rw run refl,
          record {
            keys = rw shift w.keys;
            asked = w.asked;
            count = w.count;
            few = omega (arith, w.few);
            width = omega (arith, w.width);
          },
        )
      ]
  sweep_or_panic n bit (true ∷ word) s [] keys = absurd keys
  sweep_or_panic n bit (true ∷ word) s (k ∷ ks) (at, keys) =
      let shift : suc (n * 32 + bit) ≡ n * 32 + suc bit = omega arith in
      let key = key_at-index_of lawful k (n * 32 + bit) at in
      elim (Option-cases (func s k)) [
        | inl refused ↦ inl (rw (key, refused) refl, rw (refused, ask_all) refl)
        | inr (a, answer) ↦ elim (sweep_or_panic n (suc bit) word a.1 ks (rw shift at keys)) [
          | inl (run, refused) ↦ inl (
            rw (key, answer) (rw run refl),
            rw (answer, ask_all) (ap (before (if a.0 then k ∷ [] else [])) refused),
          )
          | inr (r, front, run, w) ↦ inr (
            record {
              word = a.0 ∷ r.word;
              removed = (if a.0 then 0 else 1) + r.removed;
              state = r.state;
            },
            (if a.0 then k ∷ front else front),
            rw (key, answer) (rw run refl),
            answered-IsThrough n bit word s a.1 a.0 k ks r front at answer w,
          )
        ]
      ]

  pub retain_word_or_panic :
      (n : ℕ) (word : Word) (s : S) (ks : List T)
      → length word ≡ 32
      → AreKeys (ones_from (n * 32) word) ks
      → SweepsTo (retain_word (on_bit_or_panic e func n) word s) (n * 32) word s ks
  retain_word_or_panic n word s ks wide keys =
      let start : n * 32 ≡ n * 32 + 0 = omega arith in
      let plain = retain_word-sweep (on_bit_or_panic e func n) word s in
      elim (sweep_or_panic n 0 word s ks (rw start at keys)) [
        | inl (run, refused) ↦ inl (plain ∙ rw run refl, refused)
        | inr (r, front, run, w) ↦
            let few : leb r.removed 32 ≡ true = le→leb _ _ (omega (arith, w.few)) in
            inr (r, front, plain ∙ rw run (rw few refl), rw start w)
      ]
