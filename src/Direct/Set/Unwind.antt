-- ===== src/Direct/Set/Unwind.antt =====
-- src/direct/set.rs: `retain` with a callback that may panic, which unwinds out of the loops and
-- leaves the set behind, for blocks of 32 bits.
pub mod Block
pub mod Remainder
pub mod Left
use idmap_rs.Common.{
  ℕ, suc, ◌+◌, ◌-◌, ◌*◌, ◌≤◌, ◌≡◌, refl, sym, ap, ◌∙◌, ◌⊎◌, inl, inr, Bool, true, false, Option,
  none, some, List, [], ◌∷◌, ◌++◌, arith, leb, le→leb, if◌then◌else◌, length, length-append,
  Option-cases,
}
use mathlib.Core.Path.{ap₂}
use mathlib.Core.List.{append_assoc}
use idmap_rs.Run.{Run, ok, panic, Panic, undefined, out_of_fuel, ◌>>=◌, Platform, usize_sub}
use idmap_rs.Intid.Id.{IntegerId, IsLawful}
use idmap_rs.Direct.{key_at, index_of, key_at-index_of}
use idmap_rs.Direct.Set.{DirectIdSet}
use idmap_rs.Direct.Set.Members.{AreKeys}
use idmap_rs.Direct.Set.Retain.{Word, Retained, retain_word, Blocks}
use idmap_rs.Direct.Set.Retain.Sweep.{sweep, retain_word-sweep}
use idmap_rs.Direct.Set.Retain.Swept.{ones_from}
use idmap_rs.Direct.Set.Retain.Kept.{block_ones, HasWidth, AreKeys-append}
use idmap_rs.Direct.Set.Retain.Asked.{AreKeys-split}

-- the rest of a function after a call, and what is left if the call panics
abbrev pub or_left : {A B : Type 0} → Run A → B → (A → Run B) → Run B
or_left (ok a) left rest = rest a
or_left (panic e) left rest = ok left
or_left undefined left rest = undefined
or_left out_of_fuel left rest = out_of_fuel

-- the blocks and the count that are left, and the last state if nothing has panicked
abbrev pub Left : Type 0 → Type 0
Left S = record { words : List Word; len : ℕ; state : Option S }

-- a callback answers, or panics if it gives none
module _ {S T : Type 0} ⦃p : Platform⦄ ⦃id : IntegerId T⦄ (e : Panic)
    (func : S → T → Option (Bool × S)) where
  -- the closure that `retain` gives to `retain_word`
  abbrev pub on_bit_or_panic : ℕ → S → ℕ → Run (Bool × S)
  on_bit_or_panic word_index s bit = key_at (word_index * 32 + bit) >>= λ key. elim (func s key) [
    | some answer ↦ ok answer
    | none ↦ panic e
  ]

  -- the `for` of `retain`: a block is written when `retain_word` has returned, and `len` after that
  pub unwinding_words : ℕ → List Word → ℕ → S → Run (Left S)
  unfolding retain_word
  unwinding_words word_index [] len s = ok (record { words = []; len = len; state = some s })
  unwinding_words word_index (word ∷ words) len s =
      or_left (retain_word (on_bit_or_panic word_index) word s)
        (record { words = word ∷ words; len = len; state = none })
        λ updated.
          or_left (usize_sub len updated.removed)
            (record { words = updated.word ∷ words; len = len; state = none })
            λ left. do
              rest ← unwinding_words (suc word_index) words left updated.state
              ok (record { words = updated.word ∷ rest.words; len = rest.len; state = rest.state })

module _ {B S T : Type 0} ⦃p : Platform⦄ ⦃blocks : Blocks B⦄ ⦃id : IntegerId T⦄ (e : Panic)
    (func : S → T → Option (Bool × S)) where
  -- the set that is left, also after a panic
  unfoldable pub retain_unwinding : DirectIdSet B T → S → Run (DirectIdSet B T × Option S)
  unfolding unwinding_words
  retain_unwinding self s = do
    r ← unwinding_words e func 0 (blocks.words self.handle) self.len s
    ok (record { handle = blocks.with_words self.handle r.words; len = r.len }, r.state)

-- what the callback keeps of one id, before what it keeps of the others
abbrev pub before : {S T : Type 0} → List T → Option (List T × S) → Option (List T × S)
before front none = none
before front (some rest) = some (front ++ rest.0, rest.1)

-- the callback, asked for one id after another: the ids that it keeps and its last state, or none if
-- a call panics
module _ {S T : Type 0} (func : S → T → Option (Bool × S)) where
  unfoldable pub ask_all : S → List T → Option (List T × S)
  ask_all s [] = some ([], s)
  ask_all s (k ∷ ks) = elim (func s k) [
    | none ↦ none
    | some answer ↦ before (if answer.0 then k ∷ [] else []) (ask_all answer.1 ks)
  ]

  before_nil : (o : Option (List T × S)) → o ≡ before [] o
  before_nil none = refl
  before_nil (some r) = refl

  before-before :
      (f g : List T) (o : Option (List T × S)) → before f (before g o) ≡ before (f ++ g) o
  before-before f g none = refl
  before-before f g (some r) = ap (λ l. some (l, r.1)) (sym (append_assoc f g r.0))

  -- a part of the ids, and the others after it
  pub ask_all-append :
      (s s' : S) (a b f : List T)
      → ask_all s a ≡ some (f, s')
      → ask_all s (a ++ b) ≡ before f (ask_all s' b)
  unfolding ask_all
  ask_all-append s s' [] b f h =
      let none_kept : [] ≡ f = cc in
      let same : s ≡ s' = cc in
      before_nil (ask_all s b) ∙ ap₂ (λ x y. before x (ask_all y b)) none_kept same
  ask_all-append s s' (k ∷ a) b f h = elim (Option-cases (func s k)) [
    | inl refused ↦ absurd (ground (arith, refused, h))
    | inr (answer, at) ↦ elim (Option-cases (ask_all answer.1 a)) [
      | inl refused ↦ absurd (ground (arith, refused, at, h))
      | inr (r, asked) ↦
          let front = if answer.0 then k ∷ [] else [] in
          let parts : front ++ r.0 ≡ f = ground (arith, asked, at, h) in
          let last : r.1 ≡ s' = ground (arith, asked, at, h) in
          let ih = ask_all-append answer.1 r.1 a b r.0 asked in
          rw (at, ask_all)
            (ap (before front) ih
              ∙ before-before front r.0 (ask_all r.1 b)
              ∙ ap₂ (λ x y. before x (ask_all y b)) parts last)
    ]
  ]
