-- ===== src/Tests/Lock.antt =====
-- A connect that waits behind a revalidation, and an automatic mutation on a lock that is idle.
use podlaz.Common.{◌≡◌, ◌⊎◌, ◌≤◌, refl, true, false, [], ◌∷◌, some, is_some}
use podlaz.Lock.Core.{
  OperationLock, new_lock, next_generation, begin_mutation, finish_mutation, try_admit_automatic,
  fence_mutations, mutation_pending, acquire, release,
}
use podlaz.Lock.System.{
  declared, running, probing, holds, counts, total, Act, begin_external, take_token, observe_idle,
  take_to_check, probe, spawn, act, Reach, start, more,
}
use podlaz.Lock.Safety.{
  IsConsistent, Reach-IsConsistent, Reach-act, Reach-try_admit_automatic, is_internal, Act-fenced,
}

program : Unit {0}
unfolding begin_mutation finish_mutation try_admit_automatic fence_mutations mutation_pending
    acquire release total
program = tt

abbrev taken : OperationLock
taken = record new_lock { token = false }

abbrev waiting : OperationLock
waiting = record taken { pending_mutations = 1; mutation_generation = 1; is_idle = false }

revalidating : Reach taken (probing ∷ [])
unfolding program
revalidating =
    more
      (more (more (more start spawn) (act [] [] (observe_idle refl)))
        (act [] [] (take_to_check refl)))
      (act [] [] (probe refl))

connecting : Reach waiting (declared ∷ probing ∷ [])
unfolding program
connecting = more (more revalidating spawn) (act [] (probing ∷ []) (begin_external refl))

Reach-IsConsistent_example : IsConsistent waiting (declared ∷ probing ∷ [])
Reach-IsConsistent_example = Reach-IsConsistent connecting

Reach-act_example :
    ((holds probing ≡ 0) ⊎ (is_some (release waiting) ≡ true))
    × ((counts probing ≡ 0) ⊎ (is_some (finish_mutation waiting) ≡ true))
Reach-act_example = Reach-act (declared ∷ []) probing [] connecting

abbrev admitted : OperationLock
admitted = record new_lock {
  token = false;
  pending_mutations = 1;
  mutation_generation = 1;
  is_idle = false;
}

is_admitted : try_admit_automatic 0 new_lock ≡ some admitted
unfolding program
is_admitted = refl

Reach-try_admit_automatic_example :
    (new_lock.mutation_generation ≡ 0)
    × (new_lock.mutations_closed ≡ false)
    × (total counts [] ≡ 0)
    × (total holds [] ≡ 0)
    × (admitted.token ≡ false)
    × (admitted.mutation_generation ≡ next_generation 0)
Reach-try_admit_automatic_example = Reach-try_admit_automatic 0 start is_admitted

abbrev fenced : OperationLock
fenced = record waiting { token = true; mutations_closed = true }

abbrev fenced_running : OperationLock
fenced_running = record fenced { token = false }

takes : Act fenced declared fenced_running running
unfolding program
takes = take_token refl

Act-fenced_example :
    (fenced_running.mutations_closed ≡ true)
    × ((is_internal takes ≡ true)
        ⊎ (counts running ≤ counts declared)
          × (fenced_running.pending_mutations ≤ fenced.pending_mutations))
Act-fenced_example = Act-fenced takes refl
