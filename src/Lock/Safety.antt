-- ===== src/Lock/Safety.antt =====
-- The lock keeps one owner of the token and the true count of mutations, in every interleaving.
use podlaz.Common.{
  Bool, ℕ, ◌+◌, ◌≤◌, ◌≡◌, ◌⊎◌, inl, inr, refl, true, false, List, [], ◌∷◌, ◌++◌, some, ◌==◌, arith,
  is_some, if◌then◌else◌,
}
use podlaz.Lock.Core.{
  OperationLock, begin_mutation, finish_mutation, try_admit_automatic, next_generation,
  fence_mutations, acquire, release,
}
use podlaz.Lock.System.{
  Client, holds, counts, Act, begin_external, begin_internal, reject, take_token, give_up,
  return_token, finish, admit, refuse, finish_automatic, hand_back, observe_idle, stop_waiting,
  stop_acquiring, take_to_check, yield_token, stop_checking, probe, stop_probing, Step, spawn,
  fence, act, Reach, start, more, total,
}

abbrev pub tokens : OperationLock → ℕ
tokens l = if l.token then 1 else 0

-- The token is in the channel or with exactly one client, the count is that of the registered
-- mutations, and the idle channel is closed exactly if there are none.
abbrev pub IsConsistent : OperationLock → List Client → Type 0
IsConsistent l cs =
    (total holds cs + tokens l ≡ 1)
    × (l.pending_mutations ≡ total counts cs)
    × (l.is_idle ≡ l.pending_mutations == 0)

total-append :
    (w : Client → ℕ) (before after : List Client)
    → total w (before ++ after) ≡ total w before + total w after
unfolding total
total-append w [] after = omega arith
total-append w (c ∷ before) after = ground (arith, total-append w before after)

-- A step of one client, beside `h` tokens and `n` registrations of the others.
Act-consistent :
    {l l' : OperationLock} {c c' : Client} (h n : ℕ)
    → Act l c l' c'
    → (holds c + h + tokens l ≡ 1)
    → (l.pending_mutations ≡ counts c + n)
    → (l.is_idle ≡ l.pending_mutations == 0)
    → (holds c' + h + tokens l' ≡ 1)
      × (l'.pending_mutations ≡ counts c' + n)
      × (l'.is_idle ≡ l'.pending_mutations == 0)
unfolding begin_mutation finish_mutation try_admit_automatic acquire release
Act-consistent h n (begin_external e) a b i = ground arith
Act-consistent h n (begin_internal e) a b i = ground arith
Act-consistent h n (reject x e) a b i = (a, b, i)
Act-consistent h n (take_token e) a b i = ground arith
Act-consistent h n (give_up e) a b i = ground arith
Act-consistent h n (return_token e) a b i = ground arith
Act-consistent h n (finish e) a b i = ground arith
Act-consistent h n (admit g e) a b i = ground arith
Act-consistent h n (refuse g e) a b i = (a, b, i)
Act-consistent h n (finish_automatic e) a b i = ground arith
Act-consistent h n (hand_back e) a b i = ground arith
Act-consistent h n (observe_idle e) a b i = (a, b, i)
Act-consistent h n stop_waiting a b i = (a, b, i)
Act-consistent h n stop_acquiring a b i = (a, b, i)
Act-consistent h n (take_to_check e) a b i = ground arith
Act-consistent h n (yield_token p e) a b i = ground arith
Act-consistent h n (stop_checking p e) a b i = ground arith
Act-consistent h n (probe p) a b i = (a, b, i)
Act-consistent h n (stop_probing e) a b i = ground arith

Step-IsConsistent :
    {l l' : OperationLock} {cs cs' : List Client}
    → Step l cs l' cs'
    → IsConsistent l cs
    → IsConsistent l' cs'
unfolding total fence_mutations
Step-IsConsistent spawn (a, b, i) = (omega arith, omega arith, i)
Step-IsConsistent fence (a, b, i) = (a, b, i)
Step-IsConsistent {l} {l'} (act {c = c} {c' = c'} before after s) (a, b, i) =
    let (x, y, z) =
      Act-consistent (total holds before + total holds after)
        (total counts before + total counts after) s
        (ground (arith, total-append holds before (c ∷ after)))
        (ground (arith, total-append counts before (c ∷ after))) i in
    (
      ground (arith, total-append holds before (c' ∷ after)),
      ground (arith, total-append counts before (c' ∷ after)),
      z,
    )

-- In every interleaving the token is in the channel or with exactly one client, the count of pending
-- mutations is that of the registered ones, and the idle channel is closed exactly if there are none.
pub Reach-IsConsistent : {l : OperationLock} {cs : List Client} → Reach l cs → IsConsistent l cs
unfolding total
Reach-IsConsistent start = (refl, refl, refl)
Reach-IsConsistent (more r s) = Step-IsConsistent s (Reach-IsConsistent r)

-- In every interleaving a client that owns the token can return it at once, and one whose mutation
-- is registered can take it back without a second closing of the idle channel.
pub Reach-act :
    {l : OperationLock} (before : List Client) (c : Client) (after : List Client)
    → Reach l (before ++ c ∷ after)
    → ((holds c ≡ 0) ⊎ (is_some (release l) ≡ true))
      × ((counts c ≡ 0) ⊎ (is_some (finish_mutation l) ≡ true))
unfolding total release finish_mutation
Reach-act before c after r =
    let (a, b, i) = Reach-IsConsistent r in
    (
      ground (arith, a, total-append holds before (c ∷ after)),
      ground (arith, b, i, total-append counts before (c ∷ after)),
    )

-- An automatic mutation that is admitted, in any interleaving, finds the generation that it expects,
-- no fence, no registered mutation and no owner of the token; then it owns the token, and the
-- generation has moved on.
pub Reach-try_admit_automatic :
    {l l' : OperationLock} {cs : List Client} (expected : ℕ)
    → Reach l cs
    → try_admit_automatic expected l ≡ some l'
    → (l.mutation_generation ≡ expected)
      × (l.mutations_closed ≡ false)
      × (total counts cs ≡ 0)
      × (total holds cs ≡ 0)
      × (l'.token ≡ false)
      × (l'.mutation_generation ≡ next_generation expected)
unfolding try_admit_automatic
Reach-try_admit_automatic expected r h = let (a, b, i) = Reach-IsConsistent r in ground arith

-- The registration of a mutation by the daemon itself.
unfoldable pub is_internal : {l l' : OperationLock} {c c' : Client} → Act l c l' c' → Bool
is_internal (begin_internal e) = true
is_internal _ = false

-- Behind the fence no step opens the lock again, and no step but the daemon's own registration
-- raises the number of mutations, the lock's or that of the goroutine.
pub Act-fenced :
    {l l' : OperationLock} {c c' : Client}
    → (x : Act l c l' c') → l.mutations_closed ≡ true
    → (l'.mutations_closed ≡ true)
      × ((is_internal x ≡ true)
          ⊎ (counts c' ≤ counts c) × (l'.pending_mutations ≤ l.pending_mutations))
unfolding begin_mutation finish_mutation try_admit_automatic acquire release is_internal
Act-fenced (begin_external e) f = ground arith
Act-fenced (begin_internal e) f = (ground arith, inl refl)
Act-fenced (reject x e) f = (f, inr (omega arith, omega arith))
Act-fenced (take_token e) f = ground arith
Act-fenced (give_up e) f = ground arith
Act-fenced (return_token e) f = ground arith
Act-fenced (finish e) f = ground arith
Act-fenced (admit g e) f = ground arith
Act-fenced (refuse g e) f = (f, inr (omega arith, omega arith))
Act-fenced (finish_automatic e) f = ground arith
Act-fenced (hand_back e) f = ground arith
Act-fenced (observe_idle e) f = (f, inr (omega arith, omega arith))
Act-fenced stop_waiting f = (f, inr (omega arith, omega arith))
Act-fenced stop_acquiring f = (f, inr (omega arith, omega arith))
Act-fenced (take_to_check e) f = ground arith
Act-fenced (yield_token p e) f = ground arith
Act-fenced (stop_checking p e) f = ground arith
Act-fenced (probe p) f = (f, inr (omega arith, omega arith))
Act-fenced (stop_probing e) f = ground arith
