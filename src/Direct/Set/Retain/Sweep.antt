-- ===== src/Direct/Set/Retain/Sweep.antt =====
-- src/direct/set.rs: the bit tricks of `retain_word` against a plain walk over the bits.
use idmap_rs.Common.{
  ℕ, zero, suc, ◌+◌, ◌≤◌, ◌<◌, ◌≡◌, refl, ap, ◌∙◌, Bool, true, false, [], ◌∷◌, ◌++◌, arith, leb,
  if◌then◌else◌, length, set, length-replicate,
}
use idmap_rs.Run.{Run, ok, panic, undefined, out_of_fuel, ◌>>=◌, ◌>>◌, assert}
use idmap_rs.Direct.Set.Retain.{Word, Retained, is_nonzero, retain_word_loop, retain_word}
use idmap_rs.Direct.Set.Retain.Bits.{
  count_ones, has_bit_here, is_nonzero-zeros, length_snoc, set_here, snoc_assoc,
  trailing_zeros-zeros, zeros, zeros_snoc,
}

module _ {S : Type 0} (func : S → ℕ → Run (Bool × S)) where
  -- The callback is asked once for each bit that is set, from the lowest on, with the number of the
  -- bit. A bit is kept as the callback says, and those dropped are counted.
  unfoldable pub sweep : ℕ → Word → S → Run (Retained S)
  sweep bit [] s = ok (record { word = []; removed = 0; state = s })
  sweep bit (false ∷ word) s = do
    rest ← sweep (suc bit) word s
    ok (record { word = false ∷ rest.word; removed = rest.removed; state = rest.state })
  sweep bit (true ∷ word) s = do
    answer ← func s bit
    rest ← sweep (suc bit) word answer.1
    ok (record {
      word = answer.0 ∷ rest.word;
      removed = (if answer.0 then 0 else 1) + rest.removed;
      state = rest.state;
    })

module _ {S : Type 0} (func : S → ℕ → Run (Bool × S)) where
  -- what the loop makes of a sweep over the bits that are left, after `pre`
  abbrev finish : Word → ℕ → Run (Retained S) → Run (Retained S)
  finish pre removed swept = swept >>= λ r.
      assert (leb (removed + r.removed) 32)
      >> ok (record { word = pre ++ r.word; removed = removed + r.removed; state = r.state })

  finish-snoc :
      (pre : Word) (b : Bool) (removed d : ℕ) (swept : Run (Retained S))
      → finish (pre ++ b ∷ []) (removed + d) swept
        ≡ finish pre removed (
            swept >>= λ r.
            ok (record { word = b ∷ r.word; removed = d + r.removed; state = r.state }))
  finish-snoc pre b removed d (ok r) =
      let sum : (removed + d) + r.removed ≡ removed + (d + r.removed) = omega arith in
      rw (sum, snoc_assoc pre b r.word) refl
  finish-snoc pre b removed d (panic e) = refl
  finish-snoc pre b removed d undefined = refl
  finish-snoc pre b removed d out_of_fuel = refl

  none_dropped :
      (swept : Run (Retained S))
      → ◌>>=◌ {B = Retained S} swept
          (λ r. ok (record { word = false ∷ r.word; removed = 0 + r.removed; state = r.state }))
        ≡ ◌>>=◌ {B = Retained S} swept
            (λ r. ok (record { word = false ∷ r.word; removed = r.removed; state = r.state }))
  none_dropped (ok r) = let same : 0 + r.removed ≡ r.removed = omega arith in rw same refl
  none_dropped (panic e) = refl
  none_dropped undefined = refl
  none_dropped out_of_fuel = refl

  loop-none_left :
      (fuel : ℕ) (remaining result : Word) (removed : ℕ) (s : S)
      → is_nonzero remaining ≡ false
      → retain_word_loop func (suc fuel) remaining result removed s
        ≡ (assert (leb removed 32) >> ok (record { word = result; removed = removed; state = s }))
  unfolding retain_word_loop
  loop-none_left fuel remaining result removed s e = rw e refl

  -- a turn of the loop, at the lowest bit that remains
  turn : ℕ → Word → Word → ℕ → ℕ → Bool × S → Run (Retained S)
  turn fuel remaining result removed n answer =
      retain_word_loop func fuel remaining (if answer.0 then result else set result n false)
        (if answer.0 then removed else removed + 1) answer.1

  loop-turn :
      (fuel : ℕ) (pre word : Word) (removed : ℕ) (s : S)
      → retain_word_loop func
          (suc fuel)
          (zeros (length pre) ++ true ∷ word)
          (pre ++ true ∷ word)
          removed
          s
        ≡ (func s (length pre)
            >>= turn fuel
                (zeros (length pre) ++ false ∷ word)
                (pre ++ true ∷ word)
                removed
                (length pre))
  unfolding retain_word_loop turn
  loop-turn fuel pre word removed s =
      let cleared : set (zeros (length pre) ++ true ∷ word) (length pre) false
          ≡ zeros (length pre) ++ false ∷ word =
        rw (length-replicate (length pre) false) at
          (set_here (zeros (length pre)) true false word) in
      rw
        (
          is_nonzero-zeros (length pre) (true ∷ word),
          trailing_zeros-zeros (length pre) word,
          has_bit_here pre true word,
          cleared,
        )
        refl

  later :
      (fuel : ℕ) (pre : Word) (b : Bool) (word : Word) (removed d : ℕ) (s : S)
      → retain_word_loop func fuel
          (zeros (length (pre ++ b ∷ [])) ++ word)
          ((pre ++ b ∷ []) ++ word)
          (removed + d)
          s
        ≡ finish (pre ++ b ∷ []) (removed + d) (sweep func (length (pre ++ b ∷ [])) word s)
      → retain_word_loop func fuel
          (zeros (length pre) ++ false ∷ word)
          (pre ++ b ∷ word)
          (removed + d)
          s
        ≡ finish pre removed (
            sweep func (suc (length pre)) word s >>= λ r.
            ok (record { word = b ∷ r.word; removed = d + r.removed; state = r.state }))
  later fuel pre b word removed d s ih =
      let ih' = rw (length_snoc pre b, snoc_assoc pre b word) at ih in
      rw (zeros_snoc (length pre) word)
        (ih' ∙ finish-snoc pre b removed d (sweep func (suc (length pre)) word s))

  loop-sweep :
      (fuel : ℕ) (pre word : Word) (removed : ℕ) (s : S)
      → count_ones word < fuel
      → retain_word_loop func fuel (zeros (length pre) ++ word) (pre ++ word) removed s
        ≡ finish pre removed (sweep func (length pre) word s)
  unfolding sweep turn
  loop-sweep zero pre word removed s lt = absurd (omega arith)
  loop-sweep (suc fuel) pre [] removed s lt =
      rw
        (
          loop-none_left fuel (zeros (length pre) ++ []) (pre ++ []) removed s
              (is_nonzero-zeros (length pre) []),
          none_more,
        )
        refl
    where
      none_more : removed + 0 ≡ removed
      none_more = omega arith
  loop-sweep (suc fuel) pre (false ∷ word) removed s lt =
      let same : removed + 0 ≡ removed = omega arith in
      rw same at (
        later (suc fuel) pre false word removed 0 s
          (loop-sweep (suc fuel) (pre ++ false ∷ []) word (removed + 0) s (omega arith)))
      ∙ ap (finish pre removed) (none_dropped (sweep func (suc (length pre)) word s))
  loop-sweep (suc fuel) pre (true ∷ word) removed s lt =
      loop-turn fuel pre word removed s
      ∙ answered (λ b n s'. loop-sweep fuel (pre ++ b ∷ []) word n s' (omega arith))
          (func s (length pre))
    where
      answered :
          ((b : Bool) (n : ℕ) (s' : S)
            → retain_word_loop func fuel
                (zeros (length (pre ++ b ∷ [])) ++ word)
                ((pre ++ b ∷ []) ++ word)
                n
                s'
              ≡ finish (pre ++ b ∷ []) n (sweep func (length (pre ++ b ∷ [])) word s'))
          → (asked : Run (Bool × S))
          → (asked
              >>= turn fuel
                  (zeros (length pre) ++ false ∷ word)
                  (pre ++ true ∷ word)
                  removed
                  (length pre))
            ≡ finish pre removed (
                asked >>= λ answer. sweep func (suc (length pre)) word answer.1 >>= λ rest.
                ok (record {
                  word = answer.0 ∷ rest.word;
                  removed = (if answer.0 then 0 else 1) + rest.removed;
                  state = rest.state;
                }))
      answered ih (ok (true, s')) =
          let same : removed + 0 ≡ removed = omega arith in
          rw same at (later fuel pre true word removed 0 s' (ih true (removed + 0) s'))
      answered ih (ok (false, s')) =
          rw (set_here pre true false word)
            (later fuel pre false word removed 1 s' (ih false (removed + 1) s'))
      answered ih (panic e) = refl
      answered ih undefined = refl
      answered ih out_of_fuel = refl

  count_ones-le-length : (word : Word) → count_ones word ≤ length word
  count_ones-le-length [] = omega arith
  count_ones-le-length (true ∷ word) = omega (arith, count_ones-le-length word)
  count_ones-le-length (false ∷ word) = omega (arith, count_ones-le-length word)

  -- `retain_word` is the sweep over the bits of the word, whatever the callback does: it ends, it
  -- asks for each bit that is set in their order, and it returns the swept word, the number of the
  -- bits dropped and the last state. Only its last assertion is its own, that at most 32 are dropped.
  pub retain_word-sweep :
      (word : Word) (s : S)
      → retain_word func word s ≡ (sweep func 0 word s >>= λ r. assert (leb r.removed 32) >> ok r)
  unfolding retain_word
  retain_word-sweep word s =
      loop-sweep (suc (length word)) [] word 0 s (omega (arith, count_ones-le-length word))
      ∙ ends (sweep func 0 word s)
    where
      ends :
          (swept : Run (Retained S))
          → finish [] 0 swept ≡ (swept >>= λ r. assert (leb r.removed 32) >> ok r)
      ends (ok r) = let same : 0 + r.removed ≡ r.removed = omega arith in rw same refl
      ends (panic e) = refl
      ends undefined = refl
      ends out_of_fuel = refl
