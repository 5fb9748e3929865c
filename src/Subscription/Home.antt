-- ===== src/Subscription/Home.antt =====
-- The user's two files, and the steps on them (internal/sub/source_workflow.go).
use podlaz.Common.{ℕ, Bool, Option, none, some, Result, ok, err, if◌then◌else◌}
use podlaz.Files.{tick}
use podlaz.StoreJson.{Run, on_ok, call}
use podlaz.Profile.Selector.{StoreError}
use podlaz.Profile.Store.{ProfileFile}
use podlaz.Subscription.Store.{SourceFile, SourceError}

-- What a failure is about, and whether a file could not be written back either.
pub data Cause : Type 0 where
  prepare_failed snapshot_failed hook_failed not_confirmed : Cause
  source_failed : SourceError → Cause
  profile_failed : StoreError → Cause

pub data Failure : Type 0 where
  failed restore_failed : Cause → Failure

-- The user's two files, the temporary files that stayed behind, and the number of calls so far.
pub record Home : Type 0 where
  pub sources : Option SourceFile
  pub profiles : Option ProfileFile
  pub leftovers : ℕ
  pub calls : ℕ

abbrev pub Step : Type 0 → Type 0 → Type 0
Step E A = Home → Result E A × Home

-- A run on one of the two files.
unfoldable pub on_sources : {E A : Type 0} → Run SourceFile E A → Step E A
on_sources m h =
    let (r, d) = m (record { target = h.sources; leftovers = h.leftovers; calls = h.calls }) in
    (
      r,
      record {
        sources = d.target;
        profiles = h.profiles;
        leftovers = d.leftovers;
        calls = d.calls;
      },
    )

unfoldable pub on_profiles : {E A : Type 0} → Run ProfileFile E A → Step E A
on_profiles m h =
    let (r, d) = m (record { target = h.profiles; leftovers = h.leftovers; calls = h.calls }) in
    (
      r,
      record { sources = h.sources; profiles = d.target; leftovers = d.leftovers; calls = d.calls },
    )

-- A step, what follows it and what an error of it leads to.
abbrev pub step :
    {E A B : Type 0}
    → Result E A × Home
    → (E → Step Failure B)
    → (A → Step Failure B)
    → Result Failure B × Home
step (ok a, h) recover next = next a h
step (err e, h) recover next = recover e h

-- `snapshotSourceWorkflowFile`: what `os.ReadFile` gives.
unfoldable pub snapshot : {F : Type 0} → (ℕ → Bool) → Run F Cause (Option F)
snapshot fails d = on_ok (λ _ d. (ok d.target, d)) (call fails snapshot_failed d)

-- `os.WriteFile` behind the directory: open and truncate, write, close.
unfoldable pub write_back : {F : Type 0} → (ℕ → Bool) → (F → F) → F → Run F (Unit {0}) (Unit {0})
write_back fails torn f d =
    if fails d.calls
    then (err tt, tick fails d)
    else let d = tick fails d in
      if fails d.calls
      then (err tt, record (tick fails d) { target = some (torn f) })
      else let d = record (tick fails d) { target = some f } in
        (if fails d.calls then err tt else ok tt, tick fails d)

-- `restoreSourceWorkflowFile`.
unfoldable pub restore :
    {F : Type 0} → (ℕ → Bool) → (F → F) → Option F → Run F (Unit {0}) (Unit {0})
unfolding write_back
restore fails torn none d =
    if fails d.calls
    then (err tt, tick fails d)
    else (ok tt, record (tick fails d) { target = none })
restore fails torn (some f) d = on_ok (λ _. write_back fails torn f) (call fails tt d)
