-- ===== src/Recovery/Numbers.antt =====
-- Numbers that are printed and read back.
use podlaz.Common.{
  ℕ, zero, suc, ◌+◌, ◌*◌, ◌/◌, ◌%◌, ◌<◌, ◌≡◌, refl, ◌∙◌, ap, true, ◌&&◌, Option, none, some, [],
  ◌∷◌, ◌++◌, Str, ltb, if◌then◌else◌, is_digit, all, arith, Bool-cases, inl, inr,
}
use podlaz.Recovery.Text.{itoa, digits, digit_value, number, number_from, atoi}

abbrev pow10 : ℕ → ℕ
pow10 zero = 1
pow10 (suc f) = 10 * pow10 f

-- The first value that overflows an int.
abbrev pub int_limit : ℕ
int_limit = 0x8000000000000000

add_digit : ℕ → Option ℕ → ℕ → Option ℕ
add_digit limit none c = none
add_digit limit (some n) c =
    if ltb (digit_value c) 10 && ltb (n * 10 + digit_value c) limit
    then some (n * 10 + digit_value c)
    else none

number_from-snoc :
    (limit acc : ℕ) (s : Str) (c : ℕ)
    → number_from 10 limit acc (s ++ (c ∷ [])) ≡ add_digit limit (number_from 10 limit acc s) c
unfolding number_from add_digit
number_from-snoc limit acc [] c = refl
number_from-snoc limit acc (d ∷ s) c =
    elim (Bool-cases (ltb (digit_value d) 10 && ltb (acc * 10 + digit_value d) limit)) [
      | inl e ↦ rw e (number_from-snoc limit (acc * 10 + digit_value d) s c)
      | inr e ↦ rw e refl
    ]

digit_value-small : (n : ℕ) → n < 10 → digit_value (n + 48) ≡ n
unfolding digit_value is_digit
digit_value-small n h = ground arith

add_last : (limit n : ℕ) → n < limit → add_digit limit (some (n / 10)) (n % 10 + 48) ≡ some n
unfolding add_digit
add_last limit n l = ground (arith, digit_value-small (n % 10))

number_from-digits :
    (limit f n : ℕ) → n < pow10 f → n < limit → 0 < f → number_from 10 limit 0 (digits f n) ≡ some n
unfolding digits number_from
number_from-digits limit zero n h l p = ground arith
number_from-digits limit (suc f) n h l p = elim (Bool-cases (ltb n 10)) [
  | inl e ↦ rw e (ground (arith, digit_value-small n))
  | inr e ↦ rw e (
      number_from-snoc limit 0 (digits f (n / 10)) (n % 10 + 48)
      ∙ ap (λ o. add_digit limit o (n % 10 + 48))
          (number_from-digits limit f (n / 10) (ground arith) (ground arith) (ground arith))
      ∙ add_last limit n l)
]

-- A text of digits: it is no sign, and has no space.
abbrev pub IsDigits : Str → Type 0
IsDigits [] = ⊥
IsDigits (c ∷ s) = (is_digit c ≡ true) × (all is_digit s ≡ true)

all_snoc :
    (s : Str) (c : ℕ)
    → all is_digit s ≡ true
    → is_digit c ≡ true
    → all is_digit (s ++ (c ∷ [])) ≡ true
all_snoc [] c h e = ground arith
all_snoc (d ∷ s) c h e = ground (arith, all_snoc s c)

IsDigits-snoc : (s : Str) (c : ℕ) → IsDigits s → is_digit c ≡ true → IsDigits (s ++ (c ∷ []))
IsDigits-snoc [] c h e = elim h [ ]
IsDigits-snoc (d ∷ s) c (a, h) e = (a, all_snoc s c h e)

digits-IsDigits : (f n : ℕ) → n < pow10 f → 0 < f → IsDigits (digits f n)
unfolding digits is_digit
digits-IsDigits zero n h p = ground arith
digits-IsDigits (suc f) n h p = elim (Bool-cases (ltb n 10)) [
  | inl e ↦ rw e (ground arith, refl)
  | inr e ↦ rw e (
      IsDigits-snoc (digits f (n / 10)) (n % 10 + 48)
        (digits-IsDigits f (n / 10) (ground arith) (ground arith)) (ground arith))
]

atoi_digits :
    (s : Str) {n : ℕ} → IsDigits s → number_from 10 int_limit 0 s ≡ some n → atoi s ≡ some n
unfolding atoi number is_digit
atoi_digits [] h e = elim h [ ]
atoi_digits (c ∷ s) (a, h) e = ground arith

-- What `Itoa` prints of an int that is not negative is read back by `Atoi`.
pub atoi-itoa : (n : ℕ) → n < int_limit → atoi (itoa n) ≡ some n
unfolding itoa
atoi-itoa n h =
    atoi_digits (digits 20 n) (digits-IsDigits 20 n (ground arith) (ground arith))
      (number_from-digits int_limit 20 n (ground arith) h (ground arith))

pub itoa-IsDigits : (n : ℕ) → n < int_limit → IsDigits (itoa n)
unfolding itoa
itoa-IsDigits n h = digits-IsDigits 20 n (ground arith) (ground arith)
