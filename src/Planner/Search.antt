-- ===== src/Planner/Search.antt =====
-- The bounded searches for a free candidate (internal/network/planner/tun_resources.go: the loops
-- of the `allocate` functions).
use podlaz.Common.{
  ℕ, zero, suc, ◌+◌, ◌-◌, ◌≤◌, ◌<◌, ◌≡◌, inl, inr, Bool, true, false, not, ◌&&◌, Option, none, some,
  arith, if◌then◌else◌, Bool-cases, All, List, [], ◌∷◌,
}

-- `for candidate := from; candidate <= last; candidate++`, with `n` candidates.
unfoldable pub first_free : (ℕ → Bool) → ℕ → ℕ → Option ℕ
first_free occupied from zero = none
first_free occupied from (suc n) =
    let rest = first_free occupied (suc from) n in if occupied from then rest else some from

-- `for upper := n; upper >= 2; upper--`: a free candidate with a free one below it.
unfoldable pub first_free_pair : (ℕ → Bool) → ℕ → Option ℕ
first_free_pair occupied zero = none
first_free_pair occupied (suc zero) = none
first_free_pair occupied (suc (suc n)) =
    let rest = first_free_pair occupied (suc n) in
    if not (occupied (suc n)) && not (occupied (suc (suc n))) then some (suc (suc n)) else rest

pub first_free-eq-some :
    (occupied : ℕ → Bool) (from n : ℕ) {c : ℕ}
    → first_free occupied from n ≡ some c
    → (occupied c ≡ false) × (from ≤ c) × (c < from + n)
unfolding first_free
first_free-eq-some occupied from zero h = ground arith
first_free-eq-some occupied from (suc n) {c} h = elim (Bool-cases (occupied from)) [
  | inl o ↦
      let (f, a, b) = first_free-eq-some occupied (suc from) n {c = c} (ground arith) in
      (f, omega arith, omega arith)
  | inr o ↦ ground arith
]

-- `n` candidates from one on.
abbrev pub range : ℕ → ℕ → List ℕ
range from zero = []
range from (suc n) = from ∷ range (suc from) n

pub first_free-eq-none :
    (occupied : ℕ → Bool) (from n : ℕ)
    → first_free occupied from n ≡ none
    → All (λ c. occupied c ≡ true) (range from n)
unfolding first_free
first_free-eq-none occupied from zero h = tt
first_free-eq-none occupied from (suc n) h = elim (Bool-cases (occupied from)) [
  | inl o ↦ (o, first_free-eq-none occupied (suc from) n (ground arith))
  | inr o ↦ ground arith
]

pub first_free_pair-eq-some :
    (occupied : ℕ → Bool) (n : ℕ) {c : ℕ}
    → first_free_pair occupied n ≡ some c
    → (occupied c ≡ false) × (occupied (c - 1) ≡ false) × (2 ≤ c) × (c ≤ n)
unfolding first_free_pair
first_free_pair-eq-some occupied zero h = ground arith
first_free_pair-eq-some occupied (suc zero) h = ground arith
first_free_pair-eq-some occupied (suc (suc n)) {c} h =
    elim (Bool-cases (not (occupied (suc n)) && not (occupied (suc (suc n))))) [
      | inl e ↦ ground arith
      | inr e ↦
          let (a, b, l, m) = first_free_pair-eq-some occupied (suc n) {c = c} (ground arith) in
          (a, b, l, omega arith)
    ]

-- The first pair is taken where nothing up to it is occupied.
pub first_free_pair_free :
    (occupied : ℕ → Bool) (n : ℕ)
    → ((c : ℕ) → c ≤ n → occupied c ≡ false)
    → 2 ≤ n
    → first_free_pair occupied n ≡ some n
unfolding first_free_pair
first_free_pair_free occupied zero f l = ground arith
first_free_pair_free occupied (suc zero) f l = ground arith
first_free_pair_free occupied (suc (suc n)) f l =
    ground (arith, f (suc n) (omega arith), f (suc (suc n)) (omega arith))
