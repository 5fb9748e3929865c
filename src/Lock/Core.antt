-- ===== src/Lock/Core.antt =====
-- The lock and its operations. A section under the mutex is one step; a nil lock is left out.
use podlaz.Common.{
  ℕ, suc, ◌-◌, ◌%◌, ◌^◌, Bool, true, false, not, ◌&&◌, ◌||◌, Option, none, some, Result, ok, err,
  ◌==◌, ltb, if◌then◌else◌,
}

-- `token` is whether the channel holds its one token, `is_idle` whether `mutationIdle` is closed.
pub record OperationLock : Type 0 where
  pub token : Bool
  pub pending_mutations : ℕ
  pub mutation_generation : ℕ
  pub is_idle : Bool
  pub mutations_closed : Bool

pub record MutationState : Type 0 where
  pub generation : ℕ
  pub pending : Bool
  pub fenced : Bool

pub data LockError : Type 0 where
  shutting_down : LockError

-- `newLifecycleOperationLock`.
abbrev pub new_lock : OperationLock
new_lock = record {
  token = true;
  pending_mutations = 0;
  mutation_generation = 0;
  is_idle = true;
  mutations_closed = false;
}

-- A uint64 that is raised by one.
abbrev pub next_generation : ℕ → ℕ
next_generation g = suc g % 2 ^ 64

-- `beginMutationWithFence`.
unfoldable pub begin_mutation : Bool → OperationLock → Result LockError OperationLock
begin_mutation reject_closed l =
    if reject_closed && l.mutations_closed
    then err shutting_down
    else ok (record l {
      mutation_generation = next_generation l.mutation_generation;
      is_idle = not (l.pending_mutations == 0) && l.is_idle;
      pending_mutations = suc l.pending_mutations;
    })

-- What the function that `beginMutationWithFence` returns does once. Closing the channel of the
-- idle lock a second time, or a count below 0, would be a panic or a wrong count: none.
unfoldable pub finish_mutation : OperationLock → Option OperationLock
finish_mutation l =
    if l.pending_mutations == 0 || l.pending_mutations == 1 && l.is_idle
    then none
    else some (record l {
      pending_mutations = l.pending_mutations - 1;
      is_idle = l.pending_mutations == 1 || l.is_idle;
    })

-- `lifecycleMutationSnapshot`.
unfoldable pub mutation_snapshot : OperationLock → MutationState
mutation_snapshot l = record {
  generation = l.mutation_generation;
  pending = ltb 0 l.pending_mutations;
  fenced = l.mutations_closed;
}

-- `tryAdmitAutomaticMutation`.
unfoldable pub try_admit_automatic : ℕ → OperationLock → Option OperationLock
try_admit_automatic expected l =
    if l.mutations_closed
      || not (l.pending_mutations == 0)
      || not (l.mutation_generation == expected)
    then none
    else if not l.token
    then none
    else some (record l {
      token = false;
      is_idle = false;
      pending_mutations = 1;
      mutation_generation = next_generation l.mutation_generation;
    })

-- `fenceMutations`.
unfoldable pub fence_mutations : OperationLock → OperationLock
fence_mutations l = record l { mutations_closed = true }

-- `mutationPending`.
unfoldable pub mutation_pending : OperationLock → Bool
mutation_pending l = ltb 0 l.pending_mutations

-- `acquire`, where the token is there to take.
unfoldable pub acquire : OperationLock → Option OperationLock
acquire l = if l.token then some (record l { token = false }) else none

-- `release`, which would wait forever on a channel that is full: none.
unfoldable pub release : OperationLock → Option OperationLock
release l = if l.token then none else some (record l { token = true })
