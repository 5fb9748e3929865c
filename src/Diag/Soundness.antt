-- ===== src/Diag/Soundness.antt =====
-- What the verdict of a report says of its probes.
use podlaz.Common.{
  ◌≡◌, ◌≢◌, refl, Bool, true, false, List, [], ◌∷◌, ◌++◌, Str, str_eq_refl, any, All, arith, str_lt,
  Option, none, some, if◌then◌else◌, ap, sym, ◌∙◌,
}
use podlaz.Diag.Model.{Report, ProbeResult, Classification, healthy}
use podlaz.Diag.Names.{class_likely_pmtu_blackhole}
use podlaz.Diag.Quorum.{
  one_of, is_fail, apply_derived, apply_https_quorum, apply_doh_quorum, aggregate,
  append_provider_aggregate, corroborate,
}
use podlaz.Diag.Verdict.{
  choose_primary, choose_from, least, suppress_pmtu, remove_class, has_any, pmtu_suppressors,
  primary_classification_priority, fails_report, degrades, verdict, conclude, finalize,
}

abbrev pub Passes : ProbeResult → Type 0
Passes p = is_fail p.status ≡ false

-- A probe that fails is excused, and none was interrupted.
All-Passes :
    (advisory : List Str) (ps : List ProbeResult)
    → any (fails_report advisory) ps ≡ false
    → any (degrades advisory) ps ≡ false
    → All Passes ps
unfolding fails_report degrades
All-Passes advisory [] f d = tt
All-Passes advisory (p ∷ ps) f d =
    (ground arith, All-Passes advisory ps (ground arith) (ground arith))

verdict-eq-healthy :
    (c : Classification) (f d : Bool) → verdict c f d ≡ healthy → (f ≡ false) × (d ≡ false)
unfolding verdict
verdict-eq-healthy c f d h = ground arith

conclude-healthy :
    (advisory : List Str) (r : Report)
    → (conclude advisory r).status ≡ healthy
    → All Passes r.probes × (r.errors ≡ []) × (r.warnings ≡ [])
unfolding conclude
conclude-healthy advisory r h =
    let (f, d) = verdict-eq-healthy _ _ _ h in
    (All-Passes advisory r.probes (ground arith) (ground arith), ground arith, ground arith)

All-append-left : {A : Type 0} (P : A → Type 0) (xs ys : List A) → All P (xs ++ ys) → All P xs
All-append-left P [] ys h = tt
All-append-left P (x ∷ xs) ys (a, h) = (a, All-append-left P xs ys h)

-- A clean report has only probes that pass or were skipped, and no message.
abbrev pub IsClean : Report → Type 0
IsClean r = All Passes r.probes × (r.errors ≡ []) × (r.warnings ≡ [])

add_probe :
    (r : Report) (p : ProbeResult) → IsClean (record r { probes = r.probes ++ p ∷ [] }) → IsClean r
add_probe r p (ps, e, w) = (All-append-left Passes r.probes (p ∷ []) ps, e, w)

either-IsClean :
    (b : Bool) (r r1 r2 : Report)
    → (IsClean r1 → IsClean r)
    → (IsClean r2 → IsClean r)
    → IsClean (if b then r1 else r2)
    → IsClean r
either-IsClean true r r1 r2 f g h = f h
either-IsClean false r r1 r2 f g h = g h

append_provider_aggregate-IsClean :
    (r : Report) (id : Str) (layer : Str) (c : Str) (p : ProbeResult)
    → IsClean (append_provider_aggregate r id layer c p)
    → IsClean r
unfolding append_provider_aggregate
append_provider_aggregate-IsClean r id layer c p h =
    either-IsClean _ r r _ (λ x. x) (add_probe r _) h

corroborate-IsClean : (r : Report) → IsClean (corroborate r) → IsClean r
unfolding corroborate
corroborate-IsClean r h = either-IsClean _ r _ r (add_probe r _) (λ x. x) h

aggregate-IsClean :
    (r : Report) (id : Str) (layer : Str) (c : Str) (o : Option ProbeResult)
    → IsClean (aggregate r id layer c o).0
    → IsClean r
unfolding aggregate
aggregate-IsClean r id layer c none h = h
aggregate-IsClean r id layer c (some p) h = append_provider_aggregate-IsClean r id layer c p h

apply_derived-IsClean : (r : Report) → IsClean (apply_derived r).0 → IsClean r
unfolding apply_derived apply_https_quorum apply_doh_quorum
apply_derived-IsClean r h =
    aggregate-IsClean r _ _ _ _
      (aggregate-IsClean (apply_https_quorum r).0 _ _ _ _ (corroborate-IsClean _ h))

-- A healthy verdict means that none of the given probes failed, and that there are no errors and no
-- warnings.
pub finalize-healthy : (r : Report) → (finalize r).status ≡ healthy → IsClean r
unfolding finalize
finalize-healthy r h =
    apply_derived-IsClean r (conclude-healthy (apply_derived r).1 (apply_derived r).0 h)

least-in : (c : Classification) (xs : List Classification) → one_of (least c xs) (c ∷ xs) ≡ true
unfolding least
least-in c [] = ground (arith, str_eq_refl c)
least-in c (x ∷ xs) = ground (arith, least-in (if str_lt x c then x else c) xs)

choose_from-in : (cs xs : List Classification) → xs ≢ [] → one_of (choose_from cs xs) xs ≡ true
unfolding choose_from
choose_from-in [] [] ne = ground arith
choose_from-in [] (x ∷ xs) ne = least-in x xs
choose_from-in (c ∷ cs) xs ne = ground (arith, choose_from-in cs xs ne)

-- The primary classification of a set that is not empty is one of the set.
pub choose_primary-in : (xs : List Classification) → xs ≢ [] → one_of (choose_primary xs) xs ≡ true
unfolding choose_primary
choose_primary-in xs ne = choose_from-in primary_classification_priority xs ne

one_of-remove :
    (c : Classification) (xs : List Classification) → one_of c (remove_class c xs) ≡ false
unfolding remove_class
one_of-remove c [] = refl
one_of-remove c (x ∷ xs) = ground (arith, one_of-remove c xs)

choose_primary_absent :
    (xs : List Classification)
    → choose_primary xs ≡ class_likely_pmtu_blackhole
    → one_of class_likely_pmtu_blackhole xs ≡ true
unfolding choose_primary choose_from
choose_primary_absent [] h = ground arith
choose_primary_absent (x ∷ xs) h =
    ap (λ c. one_of c (x ∷ xs)) (sym h) ∙ choose_primary-in (x ∷ xs) (λ e. ground arith)

-- A black hole of the path MTU is the primary classification only where nothing that could explain
-- the failures otherwise is present.
pub choose_primary-suppress :
    (xs : List Classification)
    → choose_primary (suppress_pmtu xs) ≡ class_likely_pmtu_blackhole
    → (has_any xs pmtu_suppressors ≡ false) × (one_of class_likely_pmtu_blackhole xs ≡ true)
unfolding suppress_pmtu
choose_primary-suppress xs h = ground (
  arith,
  choose_primary_absent (suppress_pmtu xs) h,
  one_of-remove class_likely_pmtu_blackhole xs,
)
