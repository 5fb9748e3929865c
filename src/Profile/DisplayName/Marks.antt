-- ===== src/Profile/DisplayName/Marks.antt =====
-- Texts that end with a number in parentheses: the number can be read back from the end.
use mathlib.Core.List.{reverse, reverse-append, reverse-cons, reverse-reverse, append_assoc}
use podlaz.Common.{
  ℕ, ◌<◌, ◌≡◌, refl, sym, ◌∙◌, ap, true, ◌&&◌, [], ◌∷◌, ◌++◌, Option, some, Str, all, is_digit,
  is_space, trim_space, trim_left, arith, if◌then◌else◌, Bool-cases, inl, inr,
}
use podlaz.Recovery.Text.{itoa, atoi}
use podlaz.Recovery.Numbers.{int_limit, atoi-itoa, itoa-IsDigits, IsDigits}

-- The suffix without its space.
unfoldable pub mark_of : ℕ → Str
mark_of n = b'(' ∷ (itoa n ++ (b')' ∷ []))

take_digits : Str → Str
take_digits [] = []
take_digits (c ∷ s) = let rest = take_digits s in if is_digit c then c ∷ rest else []

take_digits-append : (s t : Str) → all is_digit s ≡ true → take_digits (s ++ (b'(' ∷ t)) ≡ s
unfolding take_digits is_digit
take_digits-append [] t h = refl
take_digits-append (c ∷ s) t h = ground (arith, take_digits-append s t (ground arith))

all-append : (s t : Str) → all is_digit (s ++ t) ≡ (all is_digit s && all is_digit t)
all-append [] t = refl
all-append (c ∷ s) t = ground (arith, all-append s t)

all-reverse : (s : Str) → all is_digit (reverse s) ≡ all is_digit s
all-reverse [] = refl
all-reverse (c ∷ s) =
    ap (all is_digit) (reverse-cons c s)
    ∙ all-append (reverse s) (c ∷ [])
    ∙ ground (arith, all-reverse s)

pub all_digits : (s : Str) → IsDigits s → all is_digit s ≡ true
all_digits [] h = refl
all_digits (c ∷ s) (a, h) = ground arith

-- The end of a text with a mark, from behind.
reverse_marked :
    (q : Str) (n : ℕ) → reverse (q ++ mark_of n) ≡ b')' ∷ (reverse (itoa n) ++ (b'(' ∷ reverse q))
unfolding mark_of
reverse_marked q n =
    reverse-append q (b'(' ∷ (itoa n ++ (b')' ∷ [])))
    ∙ ap (λ l. l ++ reverse q)
        (reverse-cons b'(' (itoa n ++ (b')' ∷ []))
          ∙ ap (λ l. l ++ (b'(' ∷ [])) (reverse-append (itoa n) (b')' ∷ [])))
    ∙ append_assoc (b')' ∷ reverse (itoa n)) (b'(' ∷ []) (reverse q)

number_behind : Str → Str
number_behind [] = []
number_behind (c ∷ s) = reverse (take_digits s)

number_behind-marked :
    (q : Str) (n : ℕ) → n < int_limit → number_behind (reverse (q ++ mark_of n)) ≡ itoa n
unfolding number_behind
number_behind-marked q n h =
    ap number_behind (reverse_marked q n)
    ∙ ap reverse (
        take_digits-append (reverse (itoa n)) (reverse q)
          (all-reverse (itoa n) ∙ all_digits (itoa n) (itoa-IsDigits n h)))
    ∙ reverse-reverse (itoa n)

some-injective : {a b : ℕ} → ◌≡◌ {A = Option ℕ} (some a) (some b) → a ≡ b
some-injective e = cc

pub marked-injective :
    (q r : Str) (n m : ℕ) → n < int_limit → m < int_limit → q ++ mark_of n ≡ r ++ mark_of m → n ≡ m
marked-injective q r n m h k e = some-injective (
    sym (atoi-itoa n h)
    ∙ ap atoi (
        sym (number_behind-marked q n h)
        ∙ ap (λ s. number_behind (reverse s)) e
        ∙ number_behind-marked r m k)
    ∙ atoi-itoa m k)

-- Trimming leaves the mark at the end.
trim_left-marked : (p s : Str) → (q : Str) × (trim_left (p ++ (b' ' ∷ b'(' ∷ s)) ≡ q ++ (b'(' ∷ s))
unfolding trim_left is_space
trim_left-marked [] s = ([], refl)
trim_left-marked (c ∷ p) s = elim (Bool-cases (is_space c)) [
  | inl e ↦ let (q, h) = trim_left-marked p s in (q, rw e h)
  | inr e ↦
      (c ∷ (p ++ (b' ' ∷ [])), rw e (ap (λ l. c ∷ l) (sym (append_assoc p (b' ' ∷ []) (b'(' ∷ s)))))
]

trim_left_closed : (s : Str) → reverse (trim_left (b')' ∷ s)) ≡ reverse (b')' ∷ s)
unfolding trim_left is_space
trim_left_closed s = refl

pub trim_space-marked :
    (p : Str) (n : ℕ) → (q : Str) × (trim_space (p ++ (b' ' ∷ mark_of n)) ≡ q ++ mark_of n)
unfolding trim_space mark_of
trim_space-marked p n =
    let (q, h) = trim_left-marked p (itoa n ++ (b')' ∷ [])) in
    (
      q,
      ap (λ s. reverse (trim_left (reverse s))) h
          ∙ ap (λ s. reverse (trim_left s)) (reverse_marked q n)
          ∙ trim_left_closed (reverse (itoa n) ++ (b'(' ∷ reverse q))
          ∙ ap reverse (sym (reverse_marked q n))
          ∙ reverse-reverse (q ++ (b'(' ∷ (itoa n ++ (b')' ∷ [])))),
    )
