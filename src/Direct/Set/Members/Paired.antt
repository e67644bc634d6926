-- ===== src/Direct/Set/Members/Paired.antt =====
-- src/direct/set.rs: ids as the entries of a map to the unit type.
use mathlib.Core.List.Memᴰ
use mathlib.Core.List.{Memᴰ}
use idmap_rs.Common.{◌≡◌, refl, sym, ap, ◌∙◌, ◌↔◌, List, [], ◌∷◌, length, map, length-map}

module _ {T : Type 0} where
  -- ids as pairs with the unit value
  abbrev pub paired : List T → List (T × Unit {0})
  paired ks = map (λ k. (k, tt)) ks

  abbrev pub ids : List (T × Unit {0}) → List T
  ids l = map (λ e. e.0) l

  ids-paired : (ks : List T) → ids (paired ks) ≡ ks
  ids-paired [] = refl
  ids-paired (k ∷ ks) = ap (◌∷◌ k) (ids-paired ks)

  pub paired-injective : (ks js : List T) → paired ks ≡ paired js → ks ≡ js
  paired-injective ks js e = sym (ids-paired ks) ∙ ap ids e ∙ ids-paired js

  pub paired-ids : (l : List (T × Unit {0})) → paired (ids l) ≡ l
  paired-ids [] = refl
  paired-ids ((k, _) ∷ l) = ap (◌∷◌ (k, tt)) (paired-ids l)

  pub length-paired : (ks : List T) → length (paired ks) ≡ length ks
  length-paired ks = length-map (λ k. (k, tt)) ks

  pub mem-paired : (k : T) (ks : List T) → Memᴰ k ks ↔ Memᴰ (k, tt {0}) (paired ks)
  mem-paired k ks = (
    λ m. Memᴰ.map (λ k. (k, tt)) m,
    λ m.
        let (j, at, e) = Memᴰ.of_map (λ k. (k, tt)) ks m in
        Memᴰ.cast (sym (ap (λ (x : T × Unit {0}). x.0) e)) at,
  )
