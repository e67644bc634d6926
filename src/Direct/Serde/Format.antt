-- ===== src/Direct/Serde/Format.antt =====
-- src/direct/serde.rs: what a format promises to the maps and the sets.
use idmap_rs.Run.{Run, ok, ◌>>=◌}
use idmap_rs.Common.{ℕ, ◌≡◌, refl, ap, ◌∙◌, Option, none, some, List, [], ◌∷◌, length}
use idmap_rs.Direct.Serde.{Outcome, good, bad, Serializer, Deserializer}

-- the access gives these items, and then the end or an error
pub data Gives {A E Doc Item : Type 0} (de : Deserializer A E Doc Item)
    : A → List Item → Option E → Type 0 where
  ends : {a : A} → de.next a ≡ good none → Gives de a [] none
  fails : {a : A} {e : E} → de.next a ≡ bad e → Gives de a [] (some e)
  gives :
      {a a' : A} {x : Item} {l : List Item} {ending : Option E}
      → de.next a ≡ good (some (x, a'))
      → Gives de a' l ending
      → Gives de a (x ∷ l) ending

-- the result, or the error where there is one
abbrev pub result_of : {E R : Type 0} → Option E → R → Outcome E R
result_of none r = good r
result_of (some e) r = bad e

infixl 5 ◌>>!◌
abbrev pub ◌>>!◌ : {E A B : Type 0} → Outcome E A → (A → Outcome E B) → Outcome E B
good a >>! f = f a
bad e >>! f = bad e

module _ {S E Doc Item : Type 0} (ser : Serializer S E Doc Item) where
  -- the items, one after another
  unfoldable pub write_items : List Item → S → Outcome E S
  write_items [] s = good s
  write_items (x ∷ l) s = ser.item s x >>! write_items l

  -- a document of these items, announced with their number
  unfoldable pub written : List Item → Outcome E Doc
  unfolding write_items
  written l = ser.begin (some (length l)) >>! λ s. write_items l s >>! ser.finish

module _ {S E Doc Item : Type 0} (ser : Serializer S E Doc Item) where
  -- a loop that goes on after an item as the list does
  pub next_item :
      (o : Outcome E S) (f : S → Run (Outcome E S)) (g : S → Outcome E S)
      → ((s : S) → f s ≡ ok (g s))
      → (elim o [ good s ↦ f s | bad e ↦ ok (bad e) ]) ≡ ok (o >>! g)
  next_item (good s) f g h = h s
  next_item (bad e) f g h = refl

  finish_lem :
      (o : Outcome E S)
      → (elim o [ good s ↦ ok (ser.finish s) | bad e ↦ ok (bad e) ]) ≡ ok (o >>! ser.finish)
  finish_lem (good s) = refl
  finish_lem (bad e) = refl

  -- what is around a loop that writes the items
  pub around_items :
      (n : ℕ) (l : List Item) (loop : S → Run (Outcome E S))
      → n ≡ length l
      → ((s : S) → loop s ≡ ok (write_items ser l s))
      → (elim (ser.begin (some n)) [
        | bad e ↦ ok (bad e)
        | good s ↦ loop s >>= λ r. elim r [ good s ↦ ok (ser.finish s) | bad e ↦ ok (bad e) ]
      ])
        ≡ ok (written ser l)
  unfolding written
  around_items n l loop e h =
      from_begin (ser.begin (some n))
      ∙ ap (λ m. ok (ser.begin (some m) >>! λ s. write_items ser l s >>! ser.finish)) e
    where
      from_begin :
          (o : Outcome E S)
          → (elim o [
            | bad e ↦ ok (bad e)
            | good s ↦ loop s >>= λ r. elim r [ good s ↦ ok (ser.finish s) | bad e ↦ ok (bad e) ]
          ])
            ≡ ok (o >>! λ s. write_items ser l s >>! ser.finish)
      from_begin (good s) = rw (h s) (finish_lem (write_items ser l s))
      from_begin (bad e) = refl

module _ {S A E Doc Item : Type 0} (ser : Serializer S E Doc Item)
    (de : Deserializer A E Doc Item) where
  -- a document that was written gives the items that were written
  pub record IsFormat : Type 0 where
    pub reads_back :
        (l : List Item) (doc : Doc)
        → written ser l ≡ good doc
        → (a : A) × (de.access_of doc ≡ good a) × Gives de a l none
