-- ===== src/Recovery/Keeping.antt =====
-- What the calls of the shared phases are, whatever the host answers: a predicate on calls that the
-- entries grant holds of every call made.
use mathlib.Core.List.{Memᴰ}
use podlaz.Common.{◌≡◌, refl, Bool, true, false, List, [], ◌∷◌, ◌++◌, Str, All, if◌then◌else◌}
use podlaz.Recovery.Model.{
  Call, CleanupResult, Candidate, Host, Run, command, run_delete, cleanup_phase_blocked,
}
use podlaz.Recovery.Phases.{each, each_if}
use podlaz.Recovery.Cleanup.{Phase, in_turn, until_blocked}
use podlaz.Recovery.Allocated.{each_until}

module _ (P : Call → Type 0) where
  -- A step of the cleanup keeps the predicate.
  abbrev pub Keeps : {A : Type 0} → Run A → Type 0
  Keeps f = (t : List Call) → All P t → All P (f t).1

  abbrev pub KeepsAll : List Phase → Type 0
  KeepsAll [] = Unit
  KeepsAll (p ∷ ps) = Keeps p × KeepsAll ps

  pub each-Keeps :
      {E : Type 0} (step : E → Run CleanupResult) (es : List E)
      → ((e : E) → Memᴰ e es → Keeps (step e))
      → Keeps (each step es)
  unfolding each
  each-Keeps step [] k t h = h
  each-Keeps step (e ∷ es) k t h =
      each-Keeps step es (λ x m. k x (Memᴰ.tail m)) (step e t).1 (k e (Memᴰ.head refl) t h)

  pub each_if-Keeps :
      {E : Type 0} (p : E → Bool) (step : E → Run CleanupResult) (es : List E)
      → ((e : E) → Memᴰ e es → Keeps (step e))
      → Keeps (each_if p step es)
  unfolding each_if
  each_if-Keeps p step [] k t h = h
  each_if-Keeps p step (e ∷ es) k t h =
      elim (p e)
        as (λ b.
          All P
            (elim b as (λ _. List CleanupResult × List Call) [
              | true ↦
                  let (r, t') = step e t in let (rs, t'') = each_if p step es t' in (r ∷ rs, t'')
              | false ↦ each_if p step es t
            ]).1) [
              | true ↦
                  each_if-Keeps p step es (λ x m. k x (Memᴰ.tail m)) (step e t).1
                    (k e (Memᴰ.head refl) t h)
              | false ↦ each_if-Keeps p step es (λ x m. k x (Memᴰ.tail m)) t h
            ]

  pub in_turn-Keeps : (ps : List Phase) → KeepsAll ps → Keeps (in_turn ps)
  unfolding in_turn
  in_turn-Keeps [] k t h = h
  in_turn-Keeps (p ∷ ps) (a, k) t h = in_turn-Keeps ps k (p t).1 (a t h)

  -- A run whose calls depend on a test.
  pub if-Keeps :
      {A : Type 0} (b : Bool) (x y : A × List Call)
      → (b ≡ true → All P x.1)
      → (b ≡ false → All P y.1)
      → All P (if b then x else y).1
  if-Keeps true x y f g = f refl
  if-Keeps false x y f g = g refl

  pub until_blocked-Keeps : (ps : List Phase) → KeepsAll ps → Keeps (until_blocked ps)
  unfolding until_blocked
  until_blocked-Keeps [] k t h = h
  until_blocked-Keeps (p ∷ ps) (a, k) t h =
      elim (cleanup_phase_blocked (p t).0)
        as (λ b.
          All P
            (elim b as (λ _. (Bool × List CleanupResult) × List Call) [
              | true ↦ ((true, (p t).0), (p t).1)
              | false ↦ let ((b', ss), t'') = until_blocked ps (p t).1 in ((b', (p t).0 ++ ss), t'')
            ]).1) [ true ↦ a t h | false ↦ until_blocked-Keeps ps k (p t).1 (a t h) ]

  pub each_until-Keeps :
      {E : Type 0} (p : E → Bool) (step : E → Run CleanupResult) (es : List E)
      → ((e : E) → Memᴰ e es → Keeps (step e))
      → Keeps (each_until p step es)
  unfolding each_until
  each_until-Keeps p step [] k t h = h
  each_until-Keeps p step (e ∷ es) k t h =
      let rest = each_until-Keeps p step es (λ x m. k x (Memᴰ.tail m)) in
      elim (p e)
        as (λ b.
          All P
            (elim b as (λ _. List CleanupResult × List Call) [
              | false ↦ each_until p step es t
              | true ↦
                  let (r, t') = step e t in
                  elim (cleanup_phase_blocked (r ∷ [])) as (λ _. List CleanupResult × List Call) [
                    | true ↦ (r ∷ [], t')
                    | false ↦ let (rs, t'') = each_until p step es t' in (r ∷ rs, t'')
                  ]
            ]).1) [
              | true ↦
                  elim (cleanup_phase_blocked ((step e t).0 ∷ []))
                    as (λ b.
                      All P
                        (elim b as (λ _. List CleanupResult × List Call) [
                          | true ↦ ((step e t).0 ∷ [], (step e t).1)
                          | false ↦
                              let (rs, t'') = each_until p step es (step e t).1 in
                              ((step e t).0 ∷ rs, t'')
                        ]).1) [
                          | true ↦ k e (Memᴰ.head refl) t h
                          | false ↦ rest (step e t).1 (k e (Memᴰ.head refl) t h)
                        ]
              | false ↦ rest t h
            ]

  -- A deletion is one call.
  pub run_delete-Keeps :
      (host : Host) (cmd : Str) (args : List Str) (c : Candidate)
      → P (command cmd args)
      → Keeps (run_delete host cmd args c)
  unfolding run_delete
  run_delete-Keeps host cmd args c g t h = (g, h)
