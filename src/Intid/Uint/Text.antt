-- ===== src/Intid/Uint/Text.antt =====
-- crates/intid/src/uint.rs: the description of an integer in messages. A text is the list of its
-- ASCII codes.
use Prim.Native.Char.{code}
use Prim.Native.String.{String}
use idmap_rs.Common.{
  ℕ, zero, suc, ◌+◌, ◌-◌, ◌*◌, ◌/◌, ◌%◌, ◌<◌, ◌≤◌, ◌≡◌, ◌≢◌, refl, ap, ◌∙◌, inl, inr, List, [], ◌∷◌,
  ◌++◌, map, arith, ltb, ◌==◌, if◌then◌else◌, Bool-cases, ==_iff, ◌⊎◌,
}
use idmap_rs.Run.{Platform}
use idmap_rs.Intid.Uint.{PrimInt, max_value, u8, u16, u32, u64, u128, usize}

abbrev pub Text : Type 0
Text = List ℕ

-- a text that is written out
abbrev pub codes : String → Text
codes String.[] = []
codes (String.◌∷◌ c s) = code c ∷ codes s

-- `stringify!($target)`
pub type_name : PrimInt → Text
type_name u8 = codes "u8"
type_name u16 = codes "u16"
type_name u32 = codes "u32"
type_name u64 = codes "u64"
type_name u128 = codes "u128"
type_name usize = codes "usize"

-- `Display` of an unsigned integer: its decimal digits, the last of which is the remainder by ten
digits : ℕ → ℕ → List ℕ
digits zero n = []
digits (suc fuel) n =
    let higher = digits fuel (n / 10) in if ltb n 10 then n ∷ [] else higher ++ (n % 10) ∷ []

unfoldable pub display : ℕ → Text
unfolding digits
display n = map (λ d. b'0' + d) (digits (suc n) n)

module _ ⦃p : Platform⦄ where
  -- `Display` and `Debug` of `DebugDesc`
  unfoldable pub debug_desc : PrimInt → ℕ → Text
  unfolding type_name display
  debug_desc t value = if value == max_value t then type_name t ++ codes "::MAX" else display value

  -- the message of `invalid_id`
  unfoldable pub invalid_id_message : PrimInt → ℕ → Text
  unfolding debug_desc
  invalid_id_message t id = codes "Invalid id: " ++ debug_desc t id

-- the value of digits, the highest first, after those with the value `high`
value_from : ℕ → List ℕ → ℕ
value_from high [] = high
value_from high (d ∷ ds) = value_from (high * 10 + d) ds

value_from-snoc :
    (high : ℕ) (ds : List ℕ) (d : ℕ) → value_from high (ds ++ d ∷ []) ≡ value_from high ds * 10 + d
unfolding value_from
value_from-snoc high [] d = refl
value_from-snoc high (x ∷ ds) d = value_from-snoc (high * 10 + x) ds d

value_from-digits : (fuel n : ℕ) → n < fuel → value_from 0 (digits fuel n) ≡ n
unfolding digits value_from
value_from-digits zero n h = absurd (omega arith)
value_from-digits (suc fuel) n h = elim (Bool-cases (ltb n 10)) [
  | inl small ↦ rw small (omega arith)
  | inr large ↦
      let ten : 10 ≤ n = ground arith in
      let higher = value_from-digits fuel (n / 10) (omega arith) in
      rw large (value_from-snoc 0 (digits fuel (n / 10)) (n % 10) ∙ omega (arith, higher))
]

-- the number that decimal digits stand for
pub value_of : Text → ℕ
unfolding value_from
value_of text = value_from 0 (map (λ c. c - b'0') text)

map-code : (ds : List ℕ) → map (λ c. c - b'0') (map (λ d. b'0' + d) ds) ≡ ds
map-code [] = refl
map-code (d ∷ ds) =
    let same : (b'0' + d) - b'0' ≡ d = omega arith in
    ap (λ r. ((b'0' + d) - b'0') ∷ r) (map-code ds) ∙ ap (λ x. x ∷ ds) same

value_of-display : (n : ℕ) → value_of (display n) ≡ n
unfolding value_of display
value_of-display n =
    ap (value_from 0) (map-code (digits (suc n) n)) ∙ value_from-digits (suc n) n (omega arith)

-- only decimal digits
abbrev pub AreDigits : Text → Type 0
AreDigits [] = Unit
AreDigits (c ∷ cs) = (b'0' ≤ c) × (c ≤ b'9') × AreDigits cs

abbrev AreBelowTen : List ℕ → Type 0
AreBelowTen [] = Unit
AreBelowTen (d ∷ ds) = (d < 10) × AreBelowTen ds

AreBelowTen-snoc : (ds : List ℕ) (d : ℕ) → AreBelowTen ds → d < 10 → AreBelowTen (ds ++ d ∷ [])
AreBelowTen-snoc [] d h lt = (lt, tt)
AreBelowTen-snoc (x ∷ ds) d (here, rest) lt = (here, AreBelowTen-snoc ds d rest lt)

digits-AreBelowTen : (fuel n : ℕ) → AreBelowTen (digits fuel n)
unfolding digits
digits-AreBelowTen zero n = tt
digits-AreBelowTen (suc fuel) n = elim (Bool-cases (ltb n 10)) [
  | inl small ↦ rw small (ground arith, tt)
  | inr large ↦ rw large (
      AreBelowTen-snoc (digits fuel (n / 10)) (n % 10) (digits-AreBelowTen fuel (n / 10))
        (omega arith))
]

AreDigits-codes : (ds : List ℕ) → AreBelowTen ds → AreDigits (map (λ d. b'0' + d) ds)
AreDigits-codes [] h = tt
AreDigits-codes (d ∷ ds) (lt, rest) = (omega arith, omega arith, AreDigits-codes ds rest)

display-AreDigits : (n : ℕ) → AreDigits (display n)
unfolding display
display-AreDigits n = AreDigits-codes (digits (suc n) n) (digits-AreBelowTen (suc n) n)

-- the constants `MAX` of the integer types as Rust spells them
abbrev pub max_text : PrimInt → Text
max_text u8 = codes "u8::MAX"
max_text u16 = codes "u16::MAX"
max_text u32 = codes "u32::MAX"
max_text u64 = codes "u64::MAX"
max_text u128 = codes "u128::MAX"
max_text usize = codes "usize::MAX"

type_name-max : (t : PrimInt) → type_name t ++ codes "::MAX" ≡ max_text t
unfolding type_name
type_name-max u8 = refl
type_name-max u16 = refl
type_name-max u32 = refl
type_name-max u64 = refl
type_name-max u128 = refl
type_name-max usize = refl

module _ ⦃p : Platform⦄ where
  -- The description of the largest value of an integer type is the name of that constant, with the
  -- type's own name; that of any other value is decimal digits, whose value it is.
  pub debug_desc_lem :
      (t : PrimInt) (n : ℕ)
      → ((n ≡ max_value t) × (debug_desc t n ≡ max_text t))
        ⊎ ((n ≢ max_value t) × AreDigits (debug_desc t n) × (value_of (debug_desc t n) ≡ n))
  unfolding debug_desc
  debug_desc_lem t n = elim (Bool-cases (n == max_value t)) [
    | inl largest ↦ inl ((==_iff n (max_value t)).0 largest, rw largest (type_name-max t))
    | inr other ↦ inr (
      ground (arith, ==_iff n (max_value t)),
      rw other (display-AreDigits n),
      rw other (value_of-display n),
    )
  ]
