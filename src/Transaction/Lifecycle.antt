-- ===== src/Transaction/Lifecycle.antt =====
-- The states of a transaction and the moves between them (internal/state/transaction.go:
-- `Transition`, `MarkFailure`, `RequiresCleanup`, `RequiresRecovery`).
use podlaz.Common.{
  ℕ, Bool, true, false, not, ◌||◌, Result, ok, err, Str, trim_space, is_empty, ◌==◌, if◌then◌else◌,
  same, ℕ_discrete,
}
use podlaz.Transaction.Model.{
  Transaction, TransactionState, planned, applying, applied, verifying, committed, rolling_back,
  rolled_back, failed, other_state,
}

unfoldable pub TransactionState-discrete : Discrete TransactionState
unfolding ℕ_discrete
TransactionState-discrete = hlevel ℕ_discrete

unfoldable pub is_valid_state : TransactionState → Bool
is_valid_state (other_state _) = false
is_valid_state planned = true
is_valid_state applying = true
is_valid_state applied = true
is_valid_state verifying = true
is_valid_state committed = true
is_valid_state rolling_back = true
is_valid_state rolled_back = true
is_valid_state failed = true

-- The switch of `validTransition`, for two different states.
unfoldable pub is_next : TransactionState → TransactionState → Bool
is_next planned applying = true
is_next planned failed = true
is_next planned rolling_back = true
is_next applying applied = true
is_next applying rolling_back = true
is_next applying failed = true
is_next applied verifying = true
is_next applied rolling_back = true
is_next applied failed = true
is_next verifying committed = true
is_next verifying rolling_back = true
is_next verifying failed = true
is_next committed rolling_back = true
is_next committed failed = true
is_next rolling_back rolled_back = true
is_next rolling_back failed = true
is_next failed rolling_back = true
is_next _ _ = false

unfoldable pub is_valid_transition : TransactionState → TransactionState → Bool
unfolding is_next is_valid_state
is_valid_transition from to =
    if same TransactionState-discrete from to then is_valid_state from else is_next from to

pub data TransitionError : Type 0 where
  invalid_transition : TransactionState → TransactionState → TransitionError

-- A time that is given, or that of the clock.
abbrev pub given_or : ℕ → ℕ → ℕ
given_or clock now = if now == 0 then clock else now

-- `Transition`: whether the record has changed, and the record. `clock` is `time.Now`.
unfoldable pub transition :
    ℕ → Transaction → TransactionState → ℕ → Result TransitionError (Bool × Transaction)
unfolding is_valid_transition
transition clock tx next now =
    if not (is_valid_transition tx.state next)
    then err (invalid_transition tx.state next)
    else if same TransactionState-discrete tx.state next
    then ok (false, tx)
    else ok (true, record tx { state = next; updated_at = given_or clock now })

mark_failure_reason : ℕ → Str → ℕ → Bool × Transaction → Bool × Transaction
mark_failure_reason clock reason now (changed, tx) =
    if is_empty (trim_space reason)
    then (changed, tx)
    else if changed
    then (true, record tx { failure_reason = trim_space reason })
    else (true, record tx { failure_reason = trim_space reason; updated_at = given_or clock now })

mark_failure_result :
    ℕ
    → Str
    → ℕ
    → Result TransitionError (Bool × Transaction)
    → Result TransitionError (Bool × Transaction)
unfolding mark_failure_reason
mark_failure_result clock reason now (err e) = err e
mark_failure_result clock reason now (ok r) = ok (mark_failure_reason clock reason now r)

-- `MarkFailure`.
unfoldable pub mark_failure :
    ℕ → Transaction → Str → ℕ → Result TransitionError (Bool × Transaction)
unfolding mark_failure_result
mark_failure clock tx reason now =
    mark_failure_result clock reason now (transition clock tx failed now)

state_requires_cleanup : TransactionState → Bool
state_requires_cleanup planned = true
state_requires_cleanup applying = true
state_requires_cleanup applied = true
state_requires_cleanup verifying = true
state_requires_cleanup rolling_back = true
state_requires_cleanup failed = true
state_requires_cleanup committed = false
state_requires_cleanup rolled_back = false
state_requires_cleanup (other_state _) = false

unfoldable pub requires_cleanup : Transaction → Bool
unfolding state_requires_cleanup
requires_cleanup tx = state_requires_cleanup tx.state

unfoldable pub requires_recovery : Transaction → Bool
unfolding requires_cleanup
requires_recovery tx = requires_cleanup tx || same TransactionState-discrete tx.state committed
