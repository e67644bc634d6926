-- ===== src/Derive/Words.antt =====
-- crates/intid-derive/src/lib.rs: which attributes are accepted.
use idmap_rs.Common.{
  ◌≡◌, refl, ◌⊎◌, inl, inr, Bool, true, false, ◌||◌, List, [], ◌∷◌, arith, Bool-cases,
}
use idmap_rs.Derive.{
  Error, invalid_attribute, unreadable, counter_requires_contiguous, done, failed, Meta, Options,
  default_options, parse_metas, parse_attr, attr_options, Attribute, intid, foreign, find_intid,
}

abbrev pub is_from : Meta → Bool
is_from Meta.from = true
is_from _ = false

abbrev pub is_counter : Meta → Bool
is_counter Meta.counter = true
is_counter _ = false

abbrev pub is_contiguous : Meta → Bool
is_contiguous Meta.contiguous = true
is_contiguous _ = false

abbrev pub is_refused : Meta → Bool
is_refused Meta.other = true
is_refused Meta.malformed = true
is_refused _ = false

abbrev pub has : (Meta → Bool) → List Meta → Bool
has test [] = false
has test (m ∷ ms) = test m || has test ms

-- the words of the first `intid` attribute, none without it
abbrev pub words : List Attribute → List Meta
words [] = []
words (intid metas ∷ attrs) = metas
words (foreign ∷ attrs) = words attrs

abbrev pub asked : List Meta → Options
asked metas = record {
  from = has is_from metas;
  counter = has is_counter metas;
  contiguous = has is_contiguous metas;
}

-- only words that are known, all of them read, and `counter` only with `contiguous`
abbrev pub AreOptions : List Meta → Type 0
AreOptions metas =
    (has is_refused metas ≡ false) × (has is_counter metas ≡ true → has is_contiguous metas ≡ true)

abbrev joined : Options → List Meta → Options
joined res metas = record {
  from = res.from || has is_from metas;
  counter = res.counter || has is_counter metas;
  contiguous = res.contiguous || has is_contiguous metas;
}

parse_metas-known :
    (res : Options) (metas : List Meta)
    → has is_refused metas ≡ false
    → parse_metas res metas ≡ done (joined res metas)
unfolding parse_metas
parse_metas-known res [] h = ground arith
parse_metas-known res (Meta.from ∷ metas) h =
    ground (arith, parse_metas-known (record res { from = true }) metas h)
parse_metas-known res (Meta.counter ∷ metas) h =
    ground (arith, parse_metas-known (record res { counter = true }) metas h)
parse_metas-known res (Meta.contiguous ∷ metas) h =
    ground (arith, parse_metas-known (record res { contiguous = true }) metas h)
parse_metas-known res (Meta.other ∷ metas) h = absurd (cc)
parse_metas-known res (Meta.malformed ∷ metas) h = absurd (cc)

parse_metas-refused :
    (res : Options) (metas : List Meta)
    → has is_refused metas ≡ true
    → (e : Error) × (parse_metas res metas ≡ failed (e ∷ []))
unfolding parse_metas
parse_metas-refused res [] h = absurd (cc)
parse_metas-refused res (Meta.from ∷ metas) h =
    parse_metas-refused (record res { from = true }) metas h
parse_metas-refused res (Meta.counter ∷ metas) h =
    parse_metas-refused (record res { counter = true }) metas h
parse_metas-refused res (Meta.contiguous ∷ metas) h =
    parse_metas-refused (record res { contiguous = true }) metas h
parse_metas-refused res (Meta.other ∷ metas) h = (invalid_attribute, refl)
parse_metas-refused res (Meta.malformed ∷ metas) h = (unreadable, refl)

parse_attr-done : (metas : List Meta) → AreOptions metas → parse_attr metas ≡ done (asked metas)
unfolding parse_attr
parse_attr-done metas (known, paired) =
    rw (parse_metas-known default_options metas known) (elim (Bool-cases (has is_counter metas)) [
      | inl needed ↦ rw (needed, paired needed) refl
      | inr not_asked ↦ rw not_asked refl
    ])

pub attr_options-done :
    (attrs : List Attribute)
    → AreOptions (words attrs)
    → attr_options attrs ≡ done (asked (words attrs))
unfolding attr_options find_intid
attr_options-done [] h = refl
attr_options-done (intid metas ∷ attrs) h = parse_attr-done metas h
attr_options-done (foreign ∷ attrs) h = attr_options-done attrs h

parse_attr-cases :
    (metas : List Meta) → AreOptions metas ⊎ ((e : Error) × (parse_attr metas ≡ failed (e ∷ [])))
unfolding parse_attr
parse_attr-cases metas = elim (Bool-cases (has is_refused metas)) [
  | inl refused ↦
      let (e, at) = parse_metas-refused default_options metas refused in inr (e, rw at refl)
  | inr known ↦ elim (Bool-cases (has is_contiguous metas)) [
    | inl given ↦ inl (known, λ _. given)
    | inr missing ↦ elim (Bool-cases (has is_counter metas)) [
      | inl needed ↦ inr (
        counter_requires_contiguous,
        rw (parse_metas-known default_options metas known, needed, missing) refl,
      )
      | inr not_asked ↦ inl (known, λ e. absurd (ground arith))
    ]
  ]
]

pub attr_options-cases :
    (attrs : List Attribute)
    → AreOptions (words attrs) ⊎ ((e : Error) × (attr_options attrs ≡ failed (e ∷ [])))
unfolding attr_options find_intid
attr_options-cases [] = inl (refl, λ e. cc)
attr_options-cases (intid metas ∷ attrs) = parse_attr-cases metas
attr_options-cases (foreign ∷ attrs) = attr_options-cases attrs
