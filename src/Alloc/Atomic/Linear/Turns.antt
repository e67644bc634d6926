-- ===== src/Alloc/Atomic/Linear/Turns.antt =====
-- crates/intid-alloactor/src/unique/atomic.rs: what holds of the turns of calls in every state that
-- threads can reach.
use mathlib.Core.List.Memᴰ
use mathlib.Core.List.{Memᴰ}
use native.Mathlib.Decide.{dec_lt, ℕ_discrete}
use idmap_rs.Common.{
  ℕ, ◌≤◌, ◌<◌, ◌≡◌, ◌≢◌, refl, sym, ap, ◌∙◌, ◌⊎◌, inl, inr, Option, none, some, List, ◌∷◌, arith,
  length,
}
use idmap_rs.Run.{Platform}
use idmap_rs.Intid.Uint.{modulus}
use idmap_rs.Intid.Id.{IntegerId}
use idmap_rs.Alloc.Atomic.{UniqueIdAllocatorAtomic, of_fetched, try_alloc, after_calls, nth_call}
use idmap_rs.Alloc.Atomic.Threads.{
  Pc, Call, System, Step, loads, exchanges, retries, gives_up, returns, Reach, start, later,
  move_to, take_turn,
}
use idmap_rs.Alloc.Atomic.Linear.Bounds.{
  moved, Bounds, Reach-Bounds, try_alloc-some, try_alloc-none, largest_is_current,
}

same_fetched :
    {b c m n : ℕ} {q r : Option ℕ}
    → Pc.fetched b m q ≡ Pc.fetched c n r
    → (b ≡ c) × (m ≡ n) × (q ≡ r)
same_fetched e = (cc, cc, cc)

module _ {T : Type 0} ⦃p : Platform⦄ ⦃id : IntegerId T⦄ where
  -- the call with that turn has returned, or a thread still holds what its `fetch_update` returned
  abbrev pub HasTurn : System T → ℕ → Type 0
  HasTurn s n =
      ((c : Call T) × Memᴰ c s.log × (c.turn ≡ n))
      ⊎ ((i b : ℕ) × (r : Option ℕ) × (s.pc i ≡ Pc.fetched b n r))

  pub record Turns (first : UniqueIdAllocatorAtomic T) (s : System T) : Type 0 where
    pub after : s.allocator ≡ after_calls s.turns first
    pub trying : (i b x : ℕ) → s.pc i ≡ Pc.trying b x → b ≤ length s.log
    pub hand :
        (i b n : ℕ) (r : Option ℕ)
        → s.pc i ≡ Pc.fetched b n r
        → (b ≤ length s.log) × (n < s.turns) × (of_fetched r ≡ nth_call n first)
    pub apart :
        (i j b c n : ℕ) (q r : Option ℕ)
        → s.pc i ≡ Pc.fetched b n q
        → s.pc j ≡ Pc.fetched c n r
        → i ≡ j
    pub fresh :
        (i b n : ℕ) (r : Option ℕ) (d : Call T)
        → s.pc i ≡ Pc.fetched b n r
        → Memᴰ d s.log
        → (d.ended < b → d.turn < n) × (d.turn ≢ n)
    pub logged :
        (c : Call T)
        → Memᴰ c s.log
        → (c.began ≤ c.ended)
          × (c.ended < length s.log)
          × (c.turn < s.turns)
          × (c.result ≡ nth_call c.turn first)
    pub order :
        (c d : Call T)
        → Memᴰ c s.log
        → Memᴰ d s.log
        → (d.ended < c.began → d.turn < c.turn) × (c.turn ≡ d.turn → c ≡ d)
    pub covered : (n : ℕ) → n < s.turns → HasTurn s n

  Turns-reads :
      (first : UniqueIdAllocatorAtomic T) {s : System T} (i b x : ℕ)
      → Turns first s
      → ((c n : ℕ) (r : Option ℕ) → s.pc i ≢ Pc.fetched c n r)
      → b ≤ length s.log
      → Turns first (record s { pc = move_to s.pc i (Pc.trying b x) })
  Turns-reads first {s} i b x h free low = record {
    after = h.after;
    trying = λ j c y e. elim (moved s.pc i j (Pc.trying b x) (Pc.trying c y) e) [
      | inl (_, same) ↦ ground (arith, low)
      | inr (_, old) ↦ h.trying j c y old
    ];
    hand = λ j c n r e. h.hand j c n r (still j c n r e);
    apart = λ j k c d n q r e f. h.apart j k c d n q r (still j c n q e) (still k d n r f);
    fresh = λ j c n r d e m. h.fresh j c n r d (still j c n r e) m;
    logged = h.logged;
    order = h.order;
    covered = λ n lt. elim (h.covered n lt) [
      | inl back ↦ inl back
      | inr (j, c, r, e) ↦ inr (j, c, r, kept j c n r e)
    ];
  }
    where
      still :
          (j c n : ℕ) (r : Option ℕ)
          → move_to s.pc i (Pc.trying b x) j ≡ Pc.fetched c n r
          → s.pc j ≡ Pc.fetched c n r
      still j c n r e = elim (moved s.pc i j (Pc.trying b x) (Pc.fetched c n r) e) [
        | inl (_, clash) ↦ absurd (cc)
        | inr (_, old) ↦ old
      ]

      kept :
          (j c n : ℕ) (r : Option ℕ)
          → s.pc j ≡ Pc.fetched c n r
          → move_to s.pc i (Pc.trying b x) j ≡ Pc.fetched c n r
      kept j c n r e = elim (ℕ_discrete i j) [
        | yes same ↦ absurd (free c n r (ap s.pc same ∙ e))
        | no other ↦ ground arith
      ]

  -- `fetch_update` takes effect as one call of `try_alloc` does
  Turns-take_turn :
      (first : UniqueIdAllocatorAtomic T) {s : System T} (i b x : ℕ) (outcome : Option ℕ)
      (a : UniqueIdAllocatorAtomic T) (past : List ℕ)
      → Turns first s
      → s.pc i ≡ Pc.trying b x
      → try_alloc s.allocator ≡ (of_fetched outcome, a)
      → Turns first (record (take_turn s i b outcome) { allocator = a; past = past })
  unfolding after_calls nth_call
  Turns-take_turn first {s} i b x outcome a past h here e = record {
    after = sym (ap (λ q. (try_alloc q).1) (sym h.after) ∙ ap (λ q. q.1) e);
    trying = λ j c y f. elim (moved s.pc i j taken (Pc.trying c y) f) [
      | inl (_, clash) ↦ absurd (cc)
      | inr (_, old) ↦ h.trying j c y old
    ];
    hand = λ j c n r f. elim (moved s.pc i j taken (Pc.fetched c n r) f) [
      | inl (_, same) ↦
          let (same_b, q, w) = same_fetched same in
          (omega (arith, same_b, h.trying i b x here), omega (arith, q), result_of q w)
      | inr (_, old) ↦
          let (low, before, result) = h.hand j c n r old in (low, omega (arith, before), result)
    ];
    apart = λ j k c d n q r f g. elim (moved s.pc i j taken (Pc.fetched c n q) f) [
      | inl (u, same) ↦ elim (moved s.pc i k taken (Pc.fetched d n r) g) [
        | inl (v, _) ↦ sym u ∙ v
        | inr (_, old) ↦ absurd (omega (arith, h.hand k d n r old, (same_fetched same).1))
      ]
      | inr (_, before) ↦ elim (moved s.pc i k taken (Pc.fetched d n r) g) [
        | inl (v, same) ↦ absurd (omega (arith, h.hand j c n q before, (same_fetched same).1))
        | inr (_, old) ↦ h.apart j k c d n q r before old
      ]
    ];
    fresh = λ j c n r d f m. elim (moved s.pc i j taken (Pc.fetched c n r) f) [
      | inl (_, same) ↦
          let n_new = (same_fetched same).1 in
          (λ lt. omega (arith, n_new, h.logged d m), λ k. omega (arith, n_new, h.logged d m, k))
      | inr (_, old) ↦ h.fresh j c n r d old m
    ];
    logged = λ c m. let (p, q, w, result) = h.logged c m in (p, q, omega (arith, w), result);
    order = h.order;
    covered = λ n lt. elim (dec_lt n s.turns) [
      | yes before ↦ elim (h.covered n before) [
        | inl back ↦ inl back
        | inr (j, c, r, f) ↦ inr (j, c, r, kept j c n r f)
      ]
      | no now ↦
          inr (i, b, outcome, let turn : s.turns ≡ n = omega (arith, lt) in ground (arith, turn))
    ];
  }
    where
      taken : Pc
      taken = Pc.fetched b s.turns outcome

      result_of :
          {n : ℕ} {r : Option ℕ} → s.turns ≡ n → outcome ≡ r → of_fetched r ≡ nth_call n first
      result_of q w =
          ap of_fetched (sym w)
          ∙ ap (λ z. z.0) (sym e)
          ∙ ap (λ z. (try_alloc z).0) h.after
          ∙ ap (λ m. (try_alloc (after_calls m first)).0) q

      kept :
          (j c n : ℕ) (r : Option ℕ)
          → s.pc j ≡ Pc.fetched c n r
          → move_to s.pc i taken j ≡ Pc.fetched c n r
      kept j c n r e = elim (ℕ_discrete i j) [ yes same ↦ absurd (cc) | no other ↦ ground arith ]

  Turns-returns :
      (first : UniqueIdAllocatorAtomic T) {s : System T} (i b n : ℕ) (outcome : Option ℕ)
      → Turns first s
      → s.pc i ≡ Pc.fetched b n outcome
      → Turns first (record s {
        pc = move_to s.pc i Pc.idle;
        log =
            (record { began = b; ended = length s.log; turn = n; result = of_fetched outcome })
            ∷ s.log;
      })
  Turns-returns first {s} i b n outcome h here = record {
    after = h.after;
    trying = λ j c y f. elim (moved s.pc i j Pc.idle (Pc.trying c y) f) [
      | inl (_, clash) ↦ absurd (cc)
      | inr (_, old) ↦ omega (arith, h.trying j c y old)
    ];
    hand = λ j c m r f.
        let (_, old) = left j c m r f in
        let (low, before, result) = h.hand j c m r old in (omega (arith, low), before, result);
    apart = λ j k c d m q r f g. h.apart j k c d m q r (left j c m q f).1 (left k d m r g).1;
    fresh = λ j c m r d f at. elim (Memᴰ.cases_cons at) [
      | inl new ↦
          let (other, old) = left j c m r f in
          let turn : d.turn ≡ n = ap (λ z. z.turn) new in
          (
            λ lt. omega (arith, ap (λ z. z.ended) new, h.hand j c m r old),
            λ same. other (
                h.apart i j b c n outcome r here
                  (old ∙ ap (λ k. Pc.fetched c k r) (sym same ∙ turn))),
          )
      | inr before ↦ h.fresh j c m r d (left j c m r f).1 before
    ];
    logged = λ c at. elim (Memᴰ.cases_cons at) [
      | inl new ↦
          let (low, before, result) = h.hand i b n outcome here in
          (
            omega (arith, ap (λ z. z.began) new, ap (λ z. z.ended) new, low),
            omega (arith, ap (λ z. z.ended) new),
            omega (arith, ap (λ z. z.turn) new, before),
            ap (λ z. z.result) new
                ∙ result
                ∙ ap (λ k. nth_call k first) (sym (ap (λ z. z.turn) new)),
          )
      | inr before ↦ let (p, q, w, result) = h.logged c before in (p, omega (arith, q), w, result)
    ];
    order = λ c d at at'. elim (Memᴰ.cases_cons at) [
      | inl new ↦ elim (Memᴰ.cases_cons at') [
        | inl new' ↦ (
          λ lt. absurd (
              omega
                (arith, ap (λ z. z.began) new, ap (λ z. z.ended) new', h.hand i b n outcome here)),
          λ _. new ∙ sym new',
        )
        | inr before ↦
            let (low, other) = h.fresh i b n outcome d here before in
            (
              λ lt. omega (arith, ap (λ z. z.turn) new, low (omega (arith, ap (λ z. z.began) new))),
              λ same. absurd (other (sym same ∙ ap (λ z. z.turn) new)),
            )
      ]
      | inr before ↦ elim (Memᴰ.cases_cons at') [
        | inl new' ↦ (
          λ lt. absurd (omega (arith, ap (λ z. z.ended) new', h.logged c before)),
          λ same. absurd ((h.fresh i b n outcome c here before).1 (same ∙ ap (λ z. z.turn) new')),
        )
        | inr before' ↦ h.order c d before before'
      ]
    ];
    covered = λ m lt. elim (h.covered m lt) [
      | inl (c, at, e) ↦ inl (c, Memᴰ.tail at, e)
      | inr (j, c, r, e) ↦ elim (ℕ_discrete i j) [
        | yes same ↦ inl (_, Memᴰ.head refl, (same_fetched (sym here ∙ ap s.pc same ∙ e)).1)
        | no other ↦ inr (j, c, r, ground arith)
      ]
    ];
  }
    where
      left :
          (j c m : ℕ) (r : Option ℕ)
          → move_to s.pc i Pc.idle j ≡ Pc.fetched c m r
          → (i ≢ j) × (s.pc j ≡ Pc.fetched c m r)
      left j c m r f = elim (moved s.pc i j Pc.idle (Pc.fetched c m r) f) [
        | inl (_, clash) ↦ absurd (cc)
        | inr (other, old) ↦ (other, old)
      ]

  Step-Turns :
      (first : UniqueIdAllocatorAtomic T) {s : System T} {i : ℕ} {t : System T}
      → Bounds s
      → Turns first s
      → Step s i t
      → Turns first t
  Step-Turns first {s} {i} bounds h (loads x e m) =
      Turns-reads first i (length s.log) x h (λ c n r f. cc) (omega arith)
  Step-Turns first {s} {i} bounds h (retries b x y z e f m) =
      Turns-reads first i b z h (λ c n r g. cc) (h.trying i b x e)
  Step-Turns first {s} {i} bounds h (exchanges b x y e f g) =
      Turns-take_turn first i b x (some x) _ _ h e (try_alloc-some s.allocator x y g f)
  Step-Turns first {s} {i} bounds h (gives_up b x e f) =
      Turns-take_turn first i b x none _ _ h e
        (try_alloc-none s.allocator (largest_is_current bounds e f))
  Step-Turns first {s} {i} bounds h (returns b n r e) = Turns-returns first i b n r h e

  pub Reach-Turns :
      (first : UniqueIdAllocatorAtomic T) {s : System T}
      → first.next_id < modulus id.int
      → Reach first s
      → Turns first s
  Reach-Turns first lt start = record {
    after = unfold after_calls in refl;
    trying = λ i b x e. absurd (cc);
    hand = λ i b n r e. absurd (cc);
    apart = λ i j b c n q r e f. absurd (cc);
    fresh = λ i b n r d e m. absurd (cc);
    logged = λ c m. absurd (Memᴰ.not-nil m);
    order = λ c d m n. absurd (Memᴰ.not-nil m);
    covered = λ n lt. absurd (omega arith);
  }
  Reach-Turns first lt (later i r st) =
      Step-Turns first (Reach-Bounds lt r) (Reach-Turns first lt r) st
