-- ===== src/Session/Protection/Marks.antt =====
-- The egress marks that pass validation are the strictly increasing lists of positive numbers.
use podlaz.Common.{
  ℕ, ◌≡◌, ◌≢◌, ◌↔◌, Bool, true, false, ◌≤◌, ◌<◌, List, [], ◌∷◌, ok, arith, All, any, ◌==◌, refl,
}
use podlaz.Session.Protection.{marks_from, validate_egress_marks}

abbrev pub Increasing : ℕ → List ℕ → Type 0
Increasing p [] = Unit
Increasing p (x ∷ xs) = (p < x) × Increasing x xs

abbrev pub IsMarkSet : List ℕ → Type 0
IsMarkSet xs = (xs ≢ []) × Increasing 0 xs

abbrev AllBelow : ℕ → List ℕ → Type 0
AllBelow p = All (λ y. y ≤ p)

AllBelow-mono : (p q : ℕ) (xs : List ℕ) → p ≤ q → AllBelow p xs → AllBelow q xs
AllBelow-mono p q [] h a = tt
AllBelow-mono p q (x ∷ xs) h a = (omega arith, AllBelow-mono p q xs h a.1)

not-any_of_AllBelow : (v p : ℕ) (xs : List ℕ) → p < v → AllBelow p xs → any (◌==◌ v) xs ≡ false
not-any_of_AllBelow v p [] h a = refl
not-any_of_AllBelow v p (x ∷ xs) h a = ground (arith, not-any_of_AllBelow v p xs h a.1)

marks_from_sound :
    (first : Bool) (p : ℕ) (seen xs : List ℕ)
    → (first ≡ true → p ≡ 0)
    → marks_from first p seen xs ≡ ok tt
    → Increasing p xs
unfolding marks_from
marks_from_sound first p seen [] start h = tt
marks_from_sound first p seen (x ∷ xs) start h =
    (ground arith, marks_from_sound false x (x ∷ seen) xs (λ e. cc) (ground arith))

marks_from_complete :
    (first : Bool) (p : ℕ) (seen xs : List ℕ)
    → AllBelow p seen
    → Increasing p xs
    → marks_from first p seen xs ≡ ok tt
unfolding marks_from
marks_from_complete first p seen [] below h = refl
marks_from_complete first p seen (x ∷ xs) below h = ground (
  arith,
  not-any_of_AllBelow x p seen h.0 below,
  marks_from_complete false x (x ∷ seen) xs
      (omega arith, AllBelow-mono p x seen (omega arith) below) h.1,
)

-- Exactly the non-empty, strictly increasing lists of positive marks are accepted.
pub validate_egress_marks-IsMarkSet :
    (xs : List ℕ) → (validate_egress_marks xs ≡ ok tt) ↔ IsMarkSet xs
unfolding validate_egress_marks
validate_egress_marks-IsMarkSet [] = (λ h. cc, λ h. absurd (h.0 refl))
validate_egress_marks-IsMarkSet (x ∷ xs) = (
  λ h. (λ e. cc, marks_from_sound true 0 [] (x ∷ xs) (λ e. refl) h),
  λ h. marks_from_complete true 0 [] (x ∷ xs) tt h.1,
)
