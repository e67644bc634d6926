-- ===== src/Run.antt =====
-- What a Rust call can do: return, panic, or run into undefined behaviour. Also the target's
-- `usize`. A panic leaves no state: what a caller sees of a half-changed value after unwinding is
-- not modelled.
use idmap_rs.Common.{
  ℕ, ◌+◌, ◌-◌, ◌*◌, ◌^◌, ◌≤◌, Bool, true, false, Option, none, some, List, ◌++◌, ltb, leb,
  if◌then◌else◌, ◌≡◌, refl, length, take, replicate,
}

-- The panics of the sources, by their message.
pub data Panic : Type 0 where
  oom_id : ℕ → Panic  -- "Storing id would exhaust memory"
  capacity_overflow : Panic
  assertion_failed : Panic
  arithmetic_overflow : Panic
  invalid_id : ℕ → Panic
  index_out_of_bounds : Panic
  ids_exhausted : Panic
  unwrapped_error : Panic

pub data Run {ℓ} (A : Type ℓ) : Type ℓ where
  ok : A → Run A
  panic : Panic → Run A
  undefined : Run A
  out_of_fuel : Run A  -- of a loop of the model; no call of it ends so

infixl 5 ◌>>=◌ ◌>>◌
abbrev pub ◌>>=◌ {ℓ κ} : {A : Type ℓ} {B : Type κ} → Run A → (A → Run B) → Run B
ok a >>= f = f a
panic e >>= f = panic e
undefined >>= f = undefined
out_of_fuel >>= f = out_of_fuel

abbrev pub ◌>>◌ {ℓ} : {B : Type ℓ} → Run (Unit {0}) → Run B → Run B
m >> k = m >>= λ _. k

-- a bind that returns
pub >>=-eq_ok {ℓ κ} :
    {A : Type ℓ} {B : Type κ} (m : Run A) (f : A → Run B) {b : B}
    → (m >>= f) ≡ ok b
    → (a : A) × (m ≡ ok a) × (f a ≡ ok b)
>>=-eq_ok (ok a) f h = (a, refl, h)
>>=-eq_ok (panic e) f h = cc
>>=-eq_ok undefined f h = cc
>>=-eq_ok out_of_fuel f h = cc

pub of_ok : {A : Type 0} {a b : A} → Run.ok a ≡ Run.ok b → a ≡ b
of_ok e = cc

-- a call before two that are made one after the other
pub >>=-through :
    {A B C : Type 0} (r : Run A) (f : A → Run C) (g : A → Run B) (h : B → Run C)
    → ((a : A) → f a ≡ (g a >>= h))
    → (r >>= f) ≡ ((r >>= g) >>= h)
>>=-through (ok a) f g h e = e a
>>=-through (panic e) f g h _ = refl
>>=-through undefined f g h _ = refl
>>=-through out_of_fuel f g h _ = refl

-- `unwrap_or_else` and `expect`
abbrev pub or_panic {ℓ} : {A : Type ℓ} → Option A → Panic → Run A
or_panic none e = panic e
or_panic (some a) e = ok a

-- `assert!`
abbrev pub assert : Bool → Run (Unit {0})
assert true = ok tt
assert false = panic assertion_failed

-- The target: the width of `usize`, and the longest `Vec` of the element type at hand. A `Vec`
-- never takes more than `isize::MAX` bytes, and an element takes one at least.
pub record Platform : Type 0 where
  pub usize_bits : ℕ
  pub vec_cap : ℕ
  pub vec_cap_small : 2 * vec_cap + 2 ≤ 2 ^ usize_bits

module _ ⦃p : Platform⦄ where
  abbrev pub usize_mod : ℕ
  usize_mod = 2 ^ p.usize_bits

  -- `usize::checked_add` and `usize::checked_mul`
  abbrev pub usize_checked_add : ℕ → ℕ → Option ℕ
  usize_checked_add a b = if ltb (a + b) usize_mod then some (a + b) else none

  abbrev pub usize_checked_mul : ℕ → ℕ → Option ℕ
  usize_checked_mul a b = if ltb (a * b) usize_mod then some (a * b) else none

  -- `a += b` and `a -= b`, with the overflow checks of a debug build
  abbrev pub usize_add : ℕ → ℕ → Run ℕ
  usize_add a b = or_panic (usize_checked_add a b) arithmetic_overflow

  abbrev pub usize_sub : ℕ → ℕ → Run ℕ
  usize_sub a b = if leb b a then ok (a - b) else panic arithmetic_overflow

  -- `Vec::resize_with(n, || a)`
  unfoldable pub resize {ℓ} : {A : Type ℓ} → List A → ℕ → A → Run (List A)
  resize xs n a =
      if ltb p.vec_cap n
      then panic capacity_overflow
      else ok (take n xs ++ replicate (n - length xs) a)
