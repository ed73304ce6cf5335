-- ===== src/Text/Decimal.antt =====
-- Numbers in decimal, as the formats `%d` and the stream operators print them. 48 is '0'.
use zysoft.Prelude.{
  ℕ, zero, suc, ◌+◌, ◌-◌, ◌*◌, ◌/◌, ◌%◌, ◌≤◌, ◌<◌, ◌≡◌, refl, ◌∙◌, ap, [], ◌∷◌, ◌++◌, arith,
  if◌then◌else◌, ltb, true, length, length-append, Bool-cases, inl, inr,
}
use zysoft.Text.Split.{Text}

-- `%d` of a number that is not negative; every digit takes a factor of ten, so that the number
-- itself is enough fuel.
unfoldable pub digits : ℕ → ℕ → Text
digits zero n = []
digits (suc fuel) n =
    let rest = digits fuel (n / 10) in
    if ltb n 10 then (48 + n) ∷ [] else rest ++ (48 + n % 10) ∷ []

unfoldable pub decimal : ℕ → Text
decimal n = digits (suc n) n

-- The number that digits spell, behind one that `acc` spells.
abbrev pub value_from : ℕ → Text → ℕ
value_from acc [] = acc
value_from acc (c ∷ s) = value_from (acc * 10 + (c - 48)) s

pub value_from-append :
    (acc : ℕ) (s t : Text) → value_from acc (s ++ t) ≡ value_from (value_from acc s) t
value_from-append acc [] t = refl
value_from-append acc (c ∷ s) t = value_from-append (acc * 10 + (c - 48)) s t

pub value-digits : (fuel n : ℕ) → n < fuel → value_from 0 (digits fuel n) ≡ n
unfolding digits
value-digits zero n p = absurd (omega arith)
value-digits (suc fuel) n p = elim (Bool-cases (ltb n 10)) [
  | inl e ↦ rw e (omega arith)
  | inr e ↦
      let q : 10 ≤ n = ground arith in
      let r = value-digits fuel (n / 10) (omega arith) in
      rw e (
        value_from-append 0 (digits fuel (n / 10)) ((48 + n % 10) ∷ [])
        ∙ ap (λ m. m * 10 + (48 + n % 10 - 48)) r
        ∙ omega arith)
]

-- What is printed of a number reads back as that number.
pub value-decimal : (n : ℕ) → value_from 0 (decimal n) ≡ n
unfolding decimal
value-decimal n = value-digits (suc n) n (omega arith)

abbrev pub power_ten : ℕ → ℕ
power_ten zero = 1
power_ten (suc k) = 10 * power_ten k

pub length-digits : (k fuel n : ℕ) → n < power_ten (suc k) → length (digits fuel n) ≤ suc k
unfolding digits
length-digits k zero n p = omega arith
length-digits zero (suc fuel) n p = let e : ltb n 10 ≡ true = ground arith in rw e (omega arith)
length-digits (suc k) (suc fuel) n p = elim (Bool-cases (ltb n 10)) [
  | inl e ↦ rw e (omega arith)
  | inr e ↦ rw e (
      omega (
        arith,
        length-append (digits fuel (n / 10)) ((48 + n % 10) ∷ []),
        length-digits k fuel (n / 10) (omega arith),
      ))
]
