-- ===== src/Lock/System.antt =====
-- The goroutines that use the lock, and every interleaving of their steps.
use podlaz.Common.{ℕ, ◌+◌, ◌≡◌, true, false, List, [], ◌∷◌, ◌++◌, none, some, ok, err}
use podlaz.Lock.Core.{
  OperationLock, LockError, new_lock, begin_mutation, finish_mutation, try_admit_automatic,
  fence_mutations, mutation_pending, acquire, release,
}

-- Where a goroutine stands: an explicit mutation waits for the token, runs, and is counted still
-- when it has returned the token; an automatic one is no longer counted when it returns the token;
-- a revalidation has seen an idle lock, holds the token to look again, or probes.
pub data Client : Type 0 where
  fresh declared running returning automatic handing_back : Client
  observing checking probing done : Client

-- Whether a client owns the token.
abbrev pub holds : Client → ℕ
holds running = 1
holds automatic = 1
holds handing_back = 1
holds checking = 1
holds probing = 1
holds fresh = 0
holds declared = 0
holds returning = 0
holds observing = 0
holds done = 0

-- Whether a client's mutation is registered.
abbrev pub counts : Client → ℕ
counts declared = 1
counts running = 1
counts returning = 1
counts automatic = 1
counts fresh = 0
counts handing_back = 0
counts observing = 0
counts checking = 0
counts probing = 0
counts done = 0

-- A step of one client on the lock. `Connect`, `Disconnect`, `runRecoveryWithFollowUp` and
-- `disconnectForRestart` go from fresh through declared, running and returning.
pub data Act : OperationLock → Client → OperationLock → Client → Type 0 where
  begin_external : {l l' : OperationLock} → begin_mutation true l ≡ ok l' → Act l fresh l' declared
  begin_internal : {l l' : OperationLock} → begin_mutation false l ≡ ok l' → Act l fresh l' declared
  reject : {l : OperationLock} (e : LockError) → begin_mutation true l ≡ err e → Act l fresh l done
  take_token : {l l' : OperationLock} → acquire l ≡ some l' → Act l declared l' running
  give_up : {l l' : OperationLock} → finish_mutation l ≡ some l' → Act l declared l' done
  return_token : {l l' : OperationLock} → release l ≡ some l' → Act l running l' returning
  finish : {l l' : OperationLock} → finish_mutation l ≡ some l' → Act l returning l' done
  admit :
      {l l' : OperationLock} (expected : ℕ)
      → try_admit_automatic expected l ≡ some l'
      → Act l fresh l' automatic
  refuse :
      {l : OperationLock} (expected : ℕ)
      → try_admit_automatic expected l ≡ none
      → Act l fresh l done
  finish_automatic :
      {l l' : OperationLock} → finish_mutation l ≡ some l' → Act l automatic l' handing_back
  hand_back : {l l' : OperationLock} → release l ≡ some l' → Act l handing_back l' done
  observe_idle : {l : OperationLock} → mutation_pending l ≡ false → Act l fresh l observing
  stop_waiting : {l : OperationLock} → Act l fresh l done
  stop_acquiring : {l : OperationLock} → Act l observing l done
  take_to_check : {l l' : OperationLock} → acquire l ≡ some l' → Act l observing l' checking
  yield_token :
      {l l' : OperationLock}
      → mutation_pending l ≡ true
      → release l ≡ some l'
      → Act l checking l' fresh
  stop_checking :
      {l l' : OperationLock}
      → mutation_pending l ≡ false
      → release l ≡ some l'
      → Act l checking l' done
  probe : {l : OperationLock} → mutation_pending l ≡ false → Act l checking l probing
  stop_probing : {l l' : OperationLock} → release l ≡ some l' → Act l probing l' done

pub data Step : OperationLock → List Client → OperationLock → List Client → Type 0 where
  spawn : {l : OperationLock} {cs : List Client} → Step l cs l (fresh ∷ cs)
  fence : {l : OperationLock} {cs : List Client} → Step l cs (fence_mutations l) cs
  act :
      {l l' : OperationLock} {c c' : Client} (before after : List Client)
      → Act l c l' c'
      → Step l (before ++ c ∷ after) l' (before ++ c' ∷ after)

-- The states that a new lock can come to.
pub data Reach : OperationLock → List Client → Type 0 where
  start : Reach new_lock []
  more :
      {l l' : OperationLock} {cs cs' : List Client} → Reach l cs → Step l cs l' cs' → Reach l' cs'

unfoldable pub total : (Client → ℕ) → List Client → ℕ
total w [] = 0
total w (c ∷ cs) = w c + total w cs
