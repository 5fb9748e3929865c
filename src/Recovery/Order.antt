-- ===== src/Recovery/Order.antt =====
-- The order in which the candidates of a recovery are cleaned up (recovery.go).
use mathlib.Core.List.{
  reverse, reverse-cons, reverse-append, reverse-reverse, append_assoc, append-nil,
}
use podlaz.Common.{
  ℕ, ◌≡◌, refl, sym, ap, ◌∙◌, Bool, true, false, List, [], ◌∷◌, ◌++◌, All, All-append, keep, arith,
  ◌==◌, if◌then◌else◌, Bool-cases, inl, inr,
}
use podlaz.Recovery.Model.{Candidate}
use podlaz.Recovery.Dispatch.{weight, outweighs, sink, sink_all, order_cleanup_candidates}

-- No candidate comes behind a heavier one.
abbrev pub IsOrdered : List Candidate → Type 0
IsOrdered [] = Unit
IsOrdered (c ∷ cs) = All (λ d. outweighs c d ≡ false) cs × IsOrdered cs

-- The same from the end.
abbrev IsReversed : List Candidate → Type 0
IsReversed [] = Unit
IsReversed (c ∷ cs) = All (λ d. outweighs d c ≡ false) cs × IsReversed cs

abbrev pub of_weight : ℕ → List Candidate → List Candidate
of_weight w cs = keep (λ c. weight c.kind == w) cs

All-sink :
    (P : Candidate → Type 0) (c : Candidate) (ps : List Candidate)
    → P c
    → All P ps
    → All P (sink c ps)
unfolding sink
All-sink P c [] a h = (a, tt)
All-sink P c (p ∷ ps) a (b, h) =
    elim (outweighs p c) as (λ x. All P (if x then p ∷ sink c ps else c ∷ p ∷ ps)) [
      | true ↦ (b, All-sink P c ps a h)
      | false ↦ (a, (b, h))
    ]

not_heavier :
    (c p : Candidate) (ds : List Candidate)
    → outweighs p c ≡ false
    → All (λ d. outweighs d p ≡ false) ds
    → All (λ d. outweighs d c ≡ false) ds
not_heavier c p [] e h = tt
not_heavier c p (d ∷ ds) e (a, h) = (ground arith, not_heavier c p ds e h)

sink-IsReversed : (c : Candidate) (ps : List Candidate) → IsReversed ps → IsReversed (sink c ps)
unfolding sink
sink-IsReversed c [] h = (tt, tt)
sink-IsReversed c (p ∷ ps) (a, h) = elim (Bool-cases (outweighs p c)) [
  | inl e ↦
      rw e (All-sink (λ d. outweighs d p ≡ false) c ps (ground arith) a, sink-IsReversed c ps h)
  | inr e ↦ rw e ((e, not_heavier c p ps e a), (a, h))
]

sink_all-IsReversed :
    (sorted cs : List Candidate) → IsReversed sorted → IsReversed (sink_all sorted cs)
unfolding sink_all
sink_all-IsReversed sorted [] h = h
sink_all-IsReversed sorted (c ∷ cs) h =
    sink_all-IsReversed (sink c sorted) cs (sink-IsReversed c sorted h)

IsOrdered-snoc :
    (cs : List Candidate) (c : Candidate)
    → IsOrdered cs
    → All (λ d. outweighs d c ≡ false) cs
    → IsOrdered (cs ++ (c ∷ []))
IsOrdered-snoc [] c h g = (tt, tt)
IsOrdered-snoc (d ∷ cs) c (a, h) (b, g) =
    (All-append (λ x. outweighs d x ≡ false) cs (c ∷ []) a (b, tt), IsOrdered-snoc cs c h g)

All-reverse : (P : Candidate → Type 0) (cs : List Candidate) → All P cs → All P (reverse cs)
All-reverse P [] h = tt
All-reverse P (c ∷ cs) (a, h) =
    rw (reverse-cons c cs) (All-append P (reverse cs) (c ∷ []) (All-reverse P cs h) (a, tt))

IsOrdered-reverse : (cs : List Candidate) → IsReversed cs → IsOrdered (reverse cs)
IsOrdered-reverse [] h = tt
IsOrdered-reverse (c ∷ cs) (a, h) = rw (reverse-cons c cs) (
    IsOrdered-snoc (reverse cs) c (IsOrdered-reverse cs h)
      (All-reverse (λ d. outweighs d c ≡ false) cs a))

keep-append :
    (p : Candidate → Bool) (xs ys : List Candidate) → keep p (xs ++ ys) ≡ keep p xs ++ keep p ys
unfolding keep
keep-append p [] ys = refl
keep-append p (x ∷ xs) ys = ground (arith, keep-append p xs ys)

reverse-one : (p : Candidate → Bool) (x : Candidate) → reverse (keep p (x ∷ [])) ≡ keep p (x ∷ [])
unfolding keep
reverse-one p x = elim (Bool-cases (p x)) [ inl e ↦ rw e refl | inr e ↦ rw e refl ]

-- Both sides are what is kept of the rest, reversed, and of the first one.
reverse_kept :
    (p : Candidate → Bool) (x : Candidate) (xs : List Candidate)
    → reverse (keep p (x ∷ xs)) ≡ reverse (keep p xs) ++ keep p (x ∷ [])
reverse_kept p x xs =
    ap reverse (keep-append p (x ∷ []) xs)
    ∙ reverse-append (keep p (x ∷ [])) (keep p xs)
    ∙ ap (λ l. reverse (keep p xs) ++ l) (reverse-one p x)

keep-reverse :
    (p : Candidate → Bool) (xs : List Candidate) → keep p (reverse xs) ≡ reverse (keep p xs)
unfolding keep
keep-reverse p [] = refl
keep-reverse p (x ∷ xs) =
    ap (keep p) (reverse-cons x xs)
    ∙ keep-append p (reverse xs) (x ∷ [])
    ∙ ap (λ l. l ++ keep p (x ∷ [])) (keep-reverse p xs)
    ∙ sym (reverse_kept p x xs)

of_weight-sink :
    (w : ℕ) (c : Candidate) (ps : List Candidate)
    → of_weight w (sink c ps) ≡ of_weight w (c ∷ []) ++ of_weight w ps
unfolding sink keep
of_weight-sink w c [] = ground arith
of_weight-sink w c (p ∷ ps) = ground (arith, of_weight-sink w c ps)

of_weight-sink_all :
    (w : ℕ) (sorted cs : List Candidate)
    → of_weight w (sink_all sorted cs) ≡ reverse (of_weight w cs) ++ of_weight w sorted
unfolding sink_all keep
of_weight-sink_all w sorted [] = refl
of_weight-sink_all w sorted (c ∷ cs) =
    of_weight-sink_all w (sink c sorted) cs
    ∙ ap (λ l. reverse (of_weight w cs) ++ l) (of_weight-sink w c sorted)
    ∙ sym (append_assoc (reverse (of_weight w cs)) (of_weight w (c ∷ [])) (of_weight w sorted))
    ∙ ap (λ l. l ++ of_weight w sorted) (sym (reverse_kept (λ d. weight d.kind == w) c cs))

-- The candidates are cleaned up in the order of the weights of their kinds, transactions first, and those
-- of one weight in the order of the scan; none is lost or added.
pub order_cleanup_candidates-IsOrdered :
    (cs : List Candidate) (w : ℕ)
    → IsOrdered (order_cleanup_candidates cs)
      × (of_weight w (order_cleanup_candidates cs) ≡ of_weight w cs)
unfolding order_cleanup_candidates keep
order_cleanup_candidates-IsOrdered cs w = (
  IsOrdered-reverse (sink_all [] cs) (sink_all-IsReversed [] cs tt),
  keep-reverse (λ c. weight c.kind == w) (sink_all [] cs)
      ∙ ap reverse (of_weight-sink_all w [] cs ∙ append-nil (reverse (of_weight w cs)))
      ∙ reverse-reverse (of_weight w cs),
)
