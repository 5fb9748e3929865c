-- ===== src/Transaction/Paths.antt =====
-- What the moves of a transaction allow.
use mathlib.Core.Path.{subst}
use mathlib.Core.List.{Memᴰ}
use podlaz.Common.{
  ℕ, sym, Str, trim_space, ◌≡◌, ◌≢◌, ◌⊎◌, ◌↔◌, inl, inr, refl, Bool, true, false, List, [], ◌∷◌,
  Result, ok, err, arith,
}
use podlaz.Transaction.Model.{
  Transaction, TransactionState, planned, applying, applied, verifying, committed, rolling_back,
  rolled_back, failed, other_state,
}
use podlaz.Transaction.Lifecycle.{
  TransitionError, is_valid_state, is_next, transition, given_or, requires_recovery,
  requires_cleanup, mark_failure,
}

-- The record after a request, which an invalid request leaves as it was.
abbrev pub result_or : Transaction → Result TransitionError (Bool × Transaction) → Transaction
result_or tx (ok (_, tx')) = tx'
result_or tx (err _) = tx

-- Requests in turn, each with its time.
unfoldable pub run : ℕ → Transaction → List (TransactionState × ℕ) → Transaction
run clock tx [] = tx
run clock tx ((next, now) ∷ requests) =
    run clock (result_or tx (transition clock tx next now)) requests

abbrev pub targets : List (TransactionState × ℕ) → List TransactionState
targets [] = []
targets ((next, now) ∷ requests) = next ∷ targets requests

-- A request that is accepted changes the state and its time alone, along an edge; or it names the
-- state that the record is in, and changes nothing.
pub transition-eq-ok :
    (clock : ℕ) (tx : Transaction) (next : TransactionState) (now : ℕ) {changed : Bool}
    {tx' : Transaction}
    → transition clock tx next now ≡ ok (changed, tx')
    → (changed ≡ false) × (tx' ≡ tx) × (next ≡ tx.state)
      ⊎ (changed ≡ true)
        × (is_next tx.state next ≡ true)
        × (tx' ≡ record tx { state = next; updated_at = given_or clock now })
unfolding transition
transition-eq-ok clock tx next now h = ground arith

-- The requests that a state still needs to be committed.
abbrev pub Needs : TransactionState → List TransactionState → Type 0
Needs committed qs = Unit
Needs verifying qs = Memᴰ committed qs
Needs applied qs = Memᴰ verifying qs × Memᴰ committed qs
Needs applying qs = Memᴰ applied qs × Memᴰ verifying qs × Memᴰ committed qs
Needs planned qs = Memᴰ applying qs × Memᴰ applied qs × Memᴰ verifying qs × Memᴰ committed qs
Needs rolling_back qs = ⊥
Needs rolled_back qs = ⊥
Needs failed qs = ⊥
Needs (other_state _) qs = ⊥

Needs-cons :
    (s : TransactionState) (q : TransactionState) (qs : List TransactionState)
    → Needs s qs
    → Needs s (q ∷ qs)
Needs-cons committed q qs h = tt
Needs-cons verifying q qs h = Memᴰ.tail h
Needs-cons applied q qs h = (Memᴰ.tail h.0, Memᴰ.tail h.1)
Needs-cons applying q qs h = (Memᴰ.tail h.0, Memᴰ.tail h.1, Memᴰ.tail h.2)
Needs-cons planned q qs h = (Memᴰ.tail h.0, Memᴰ.tail h.1, Memᴰ.tail h.2, Memᴰ.tail h.3)
Needs-cons rolling_back q qs h = h
Needs-cons rolled_back q qs h = h
Needs-cons failed q qs h = h
Needs-cons (other_state _) q qs h = h

Needs-is_next :
    (s q : TransactionState) (qs : List TransactionState)
    → is_next s q ≡ true
    → Needs q qs
    → Needs s (q ∷ qs)
unfolding is_next
Needs-is_next planned applying qs e h =
    (Memᴰ.head refl, Memᴰ.tail h.0, Memᴰ.tail h.1, Memᴰ.tail h.2)
Needs-is_next applying applied qs e h = (Memᴰ.head refl, Memᴰ.tail h.0, Memᴰ.tail h.1)
Needs-is_next applied verifying qs e h = (Memᴰ.head refl, Memᴰ.tail h)
Needs-is_next verifying committed qs e h = Memᴰ.head refl
Needs-is_next _ _ qs e h = ground arith

step-Needs :
    (clock : ℕ) (tx : Transaction) (next : TransactionState) (now : ℕ)
    (r : Result TransitionError (Bool × Transaction)) (qs : List TransactionState)
    → transition clock tx next now ≡ r
    → Needs (result_or tx r).state qs
    → Needs tx.state (next ∷ qs)
step-Needs clock tx next now (err e) qs h n = Needs-cons tx.state next qs n
step-Needs clock tx next now (ok (changed, tx')) qs h n =
    elim (transition-eq-ok clock tx next now h) [
      | inl (_, e, _) ↦
          Needs-cons tx.state next qs (subst (λ (x : Transaction). Needs x.state qs) e n)
      | inr (_, edge, e) ↦
          Needs-is_next tx.state next qs edge (subst (λ (x : Transaction). Needs x.state qs) e n)
    ]

run-Needs :
    (clock : ℕ) (tx : Transaction) (rs : List (TransactionState × ℕ))
    → (run clock tx rs).state ≡ committed
    → Needs tx.state (targets rs)
unfolding run
run-Needs clock tx [] h = subst (λ s. Needs s []) (sym h) tt
run-Needs clock tx ((next, now) ∷ rs) h =
    let r = transition clock tx next now in
    step-Needs clock tx next now r (targets rs) refl (run-Needs clock (result_or tx r) rs h)

-- A planned transaction that ends up committed was asked to apply, to be applied, to verify and to
-- commit.
pub run-committed :
    (clock : ℕ) (tx : Transaction) (rs : List (TransactionState × ℕ))
    → tx.state ≡ planned
    → (run clock tx rs).state ≡ committed
    → Needs planned (targets rs)
run-committed clock tx rs p h = subst (λ s. Needs s (targets rs)) p (run-Needs clock tx rs h)

transition_rolled_back :
    (clock : ℕ) (tx : Transaction) (next : TransactionState) (now : ℕ)
    → tx.state ≡ rolled_back
    → result_or tx (transition clock tx next now) ≡ tx
unfolding transition
transition_rolled_back clock tx next now h = ground arith

-- A transaction that is rolled back never changes again, whatever is requested.
pub run_rolled_back :
    (clock : ℕ) (tx : Transaction) (rs : List (TransactionState × ℕ))
    → tx.state ≡ rolled_back
    → run clock tx rs ≡ tx
unfolding run
run_rolled_back clock tx [] h = refl
run_rolled_back clock tx ((next, now) ∷ rs) h =
    rw (transition_rolled_back clock tx next now h) (run_rolled_back clock tx rs h)

abbrev pub rollback_requests : ℕ → List (TransactionState × ℕ)
rollback_requests now = (rolling_back, now) ∷ (rolled_back, now) ∷ []

-- Whatever valid state a transaction is in, rolling it back ends rolled back, and then it requires
-- neither cleanup nor recovery. A valid state requires recovery unless it is rolled back, and only
-- then; it requires cleanup unless it is rolled back or committed, and only then.
pub run-rollback_requests :
    (clock : ℕ) (tx : Transaction) (now : ℕ)
    → is_valid_state tx.state ≡ true
    → ((run clock tx (rollback_requests now)).state ≡ rolled_back)
      × (requires_cleanup (run clock tx (rollback_requests now)) ≡ false)
      × (requires_recovery (run clock tx (rollback_requests now)) ≡ false)
      × ((requires_recovery tx ≡ true) ↔ (tx.state ≢ rolled_back))
      × ((requires_cleanup tx ≡ true) ↔ (tx.state ≢ rolled_back) × (tx.state ≢ committed))
unfolding run transition requires_recovery is_valid_state
run-rollback_requests clock tx now v = (
  ground arith,
  ground arith,
  ground arith,
  (λ h e. ground arith, λ n. ground (arith, n)),
  (λ h. (λ e. ground arith, λ e. ground arith), λ (n, k). ground (arith, n, k)),
)

-- A failure that is marked with a reason keeps the reason, trimmed, in a failed transaction.
pub mark_failure-eq-ok :
    (clock : ℕ) (tx : Transaction) (reason : Str) (now : ℕ) {changed : Bool} {tx' : Transaction}
    → mark_failure clock tx reason now ≡ ok (changed, tx')
    → trim_space reason ≢ []
    → (tx'.state ≡ failed)
      × (tx'.failure_reason ≡ trim_space reason)
      × (changed ≡ true)
      × (requires_cleanup tx' ≡ true)
unfolding mark_failure transition requires_cleanup
mark_failure-eq-ok clock tx reason now h ne = ground arith
