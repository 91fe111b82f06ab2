-- ===== src/Prelude/Decimal.antt =====
-- `strconv.Itoa`, and the decimal value of a run of digits.
use Prim.Native.Nat.{ℕ, zero, suc, ◌+◌, ◌-◌, ◌*◌, ◌/◌, ◌%◌, ◌<◌}
use mathlib.Core.Path.{◌≡◌, refl, sym, ap, ◌∙◌}
use mathlib.Core.Logic.{inl, inr}
use mathlib.Core.Bool.{Bool, true}
use mathlib.Core.List.{[], ◌∷◌, ◌++◌}
use native.Mathlib.Omega.{arith}
use gombit_forge.Prelude.Tests.{ltb, between, if◌then◌else◌, Bool-cases}
use gombit_forge.Prelude.Lists.{all, all-append, length, length-append}
use gombit_forge.Prelude.Codes.{Text}

-- The digits of `n`; the fuel `n + 1` is enough, since `n / 10 < n`.
digits_of : ℕ → ℕ → Text
digits_of zero n = []
digits_of (suc f) n =
    let rest = digits_of f (n / 10) in
    if ltb n 10 then (48 + n) ∷ [] else rest ++ (48 + n % 10) ∷ []

unfoldable pub itoa : ℕ → Text
unfolding digits_of
itoa n = digits_of (suc n) n

abbrev pub is_digit : ℕ → Bool
is_digit c = between b'0' b'9' c

-- The value of digits, read from the left onto `acc`.
unfoldable pub value_onto : ℕ → Text → ℕ
value_onto acc [] = acc
value_onto acc (c ∷ cs) = value_onto (acc * 10 + (c - 48)) cs

value_onto-append :
    (acc : ℕ) (s t : Text) → value_onto acc (s ++ t) ≡ value_onto (value_onto acc s) t
unfolding value_onto
value_onto-append acc [] t = refl
value_onto-append acc (c ∷ s) t = value_onto-append (acc * 10 + (c - 48)) s t

value-digits_of : (f n : ℕ) → n < f → value_onto 0 (digits_of f n) ≡ n
unfolding digits_of value_onto
value-digits_of zero n h = absurd (omega arith)
value-digits_of (suc f) n h = elim (Bool-cases (ltb n 10)) [
  | inl small ↦ rw small (omega arith)
  | inr big ↦ rw big (
      value_onto-append 0 (digits_of f (n / 10)) ((48 + n % 10) ∷ [])
      ∙ rw (value-digits_of f (n / 10) (ground arith)) (omega arith))
]

digits_of-all_digits : (f n : ℕ) → all is_digit (digits_of f n) ≡ true
unfolding digits_of
digits_of-all_digits zero n = refl
digits_of-all_digits (suc f) n = ground (
  arith,
  digits_of-all_digits f (n / 10),
  all-append is_digit (digits_of f (n / 10)) ((48 + n % 10) ∷ []),
)

-- The printed number reads back.
pub value-itoa : (n : ℕ) → value_onto 0 (itoa n) ≡ n
unfolding itoa
value-itoa n = value-digits_of (suc n) n (omega arith)

pub all_digits-itoa : (n : ℕ) → all is_digit (itoa n) ≡ true
unfolding itoa
all_digits-itoa n = digits_of-all_digits (suc n) n

-- No printed number is empty.
pub itoa-length : (n : ℕ) → 0 < length (itoa n)
unfolding itoa digits_of
itoa-length n = elim (Bool-cases (ltb n 10)) [
  | inl small ↦ rw small (omega arith)
  | inr big ↦ rw big (omega (arith, length-append (digits_of n (n / 10)) ((48 + n % 10) ∷ [])))
]

pub itoa-injective : (m n : ℕ) → itoa m ≡ itoa n → m ≡ n
itoa-injective m n h = sym (value-itoa m) ∙ ap (value_onto 0) h ∙ value-itoa n
