-- ===== src/Base/Decimal.antt =====
-- `str(n)` and `int(s)` for ASCII decimal digits.
use prima_pool_client.Base.Tests.{leb, Bool-cases, if◌then◌else◌}
use prima_pool_client.Base.Texts.{Text}
use Prim.Native.Nat.{ℕ, zero, suc, ◌+◌, ◌-◌, ◌*◌, ◌/◌, ◌%◌, ◌<◌}
use mathlib.Core.Path.{◌≡◌, refl, sym, ◌∙◌, ap}
use mathlib.Core.Logic.{inl, inr}
use mathlib.Core.Bool.{Bool, true, ◌&&◌}
use mathlib.Core.List.{[], ◌∷◌, foldl}
use native.Mathlib.Omega.{arith}

unfoldable pub is_digit : ℕ → Bool
is_digit c = leb 48 c && leb c 57

-- `int(s)` for a text of digits.
unfoldable pub int : Text → ℕ
int = foldl (λ n c. n * 10 + (c - 48)) 0

-- The digits of `n` in front of `acc`; the fuel bounds their number.
digits_onto : ℕ → ℕ → Text → Text
digits_onto zero n acc = acc
digits_onto (suc f) n acc =
    let more = digits_onto f (n / 10) ((48 + n % 10) ∷ acc) in
    if leb n 9 then (48 + n % 10) ∷ acc else more

-- `str(n)`
unfoldable pub str : ℕ → Text
unfolding digits_onto
str n = digits_onto (suc n) n []

str-120 : str 120 ≡ 49 ∷ 50 ∷ 48 ∷ []
unfolding str
str-120 = refl

abbrev shift_in : ℕ → ℕ → ℕ
shift_in n c = n * 10 + (c - 48)

foldl-digits_onto :
    (f n : ℕ) (acc : Text) → n < f → foldl shift_in 0 (digits_onto f n acc) ≡ foldl shift_in n acc
unfolding digits_onto
foldl-digits_onto zero n acc h = absurd (omega arith)
foldl-digits_onto (suc f) n acc h = elim (Bool-cases (leb n 9)) [
  | inl small ↦ rw small (ap (λ m. foldl shift_in m acc) (ground arith))
  | inr large ↦ rw large (
      foldl-digits_onto f (n / 10) ((48 + n % 10) ∷ acc) (ground arith)
      ∙ ap (λ m. foldl shift_in m acc) (omega arith))
]

-- What `str` prints `int` reads back: the fuel suffices at every number.
pub int-str : (n : ℕ) → int (str n) ≡ n
unfolding int str
int-str n = foldl-digits_onto (suc n) n [] (omega arith)

abbrev pub all_digits : Text → Bool
all_digits [] = true
all_digits (c ∷ s) = is_digit c && all_digits s

is_digit_code : (n : ℕ) → is_digit (48 + n % 10) ≡ true
unfolding is_digit
is_digit_code n = ground arith

digits_onto-all_digits :
    (f n : ℕ) (acc : Text) → all_digits acc ≡ true → all_digits (digits_onto f n acc) ≡ true
unfolding digits_onto
digits_onto-all_digits zero n acc h = h
digits_onto-all_digits (suc f) n acc h =
    ground (arith, is_digit_code n, digits_onto-all_digits f (n / 10) ((48 + n % 10) ∷ acc))

-- What `str` prints are digits.
pub str-all_digits : (n : ℕ) → all_digits (str n) ≡ true
unfolding str
str-all_digits n = digits_onto-all_digits (suc n) n [] refl

digits_onto-cons :
    (f n d : ℕ) (acc : Text) → (c : ℕ) × (s : Text) × (digits_onto f n (d ∷ acc) ≡ c ∷ s)
unfolding digits_onto
digits_onto-cons zero n d acc = (d, acc, refl)
digits_onto-cons (suc f) n d acc = elim (Bool-cases (leb n 9)) [
  | inl small ↦ (48 + n % 10, d ∷ acc, rw small)
  | inr large ↦ rw large (digits_onto-cons f (n / 10) (48 + n % 10) (d ∷ acc))
]

-- `str` prints at least one digit.
pub str-cons : (n : ℕ) → (c : ℕ) × (s : Text) × (str n ≡ c ∷ s)
unfolding str digits_onto
str-cons n = elim (Bool-cases (leb n 9)) [
  | inl small ↦ (48 + n % 10, [], rw small)
  | inr large ↦ rw large (digits_onto-cons n (n / 10) (48 + n % 10) [])
]

pub str-injective : (n m : ℕ) → str n ≡ str m → n ≡ m
str-injective n m h = sym (int-str n) ∙ ap int h ∙ int-str m
