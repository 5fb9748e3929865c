-- ===== src/Tests/Transaction.antt =====
-- A transaction from its plan to its rollback, and documents with and without secrets.
use podlaz.Common.{
  is_alnum, is_digit, str_eq, Option, some, err, ℕ, ◌≡◌, ◌≢◌, ◌↔◌, refl, true, false, [], ◌∷◌, text,
  trim_space, List, ℕ_discrete, any,
}
use podlaz.Transaction.Model.{
  Transaction, TransactionState, planned, applying, applied, verifying, committed, rolled_back,
}
use podlaz.Transaction.Lifecycle.{
  TransactionState-discrete, is_next, is_valid_state, transition, mark_failure, requires_cleanup,
  requires_recovery,
}
use podlaz.Transaction.Paths.{
  run, rollback_requests, targets, Needs, run-committed, run_rolled_back, run-rollback_requests,
}
use podlaz.Transaction.Validation.{
  matches_id, validate_transaction_id, contains_persistent_secret, validate_transaction,
  IsTransaction, validate_transaction-IsTransaction, invalid_id,
}
use podlaz.Transaction.Secrets.{
  object, field, end, array, cons, nil, string, Json, leaves, is_secret_leaf, contains_secret,
  matches_secret_value, is_secret_key, is_secret_string, contains_secret-leaves,
}

program : Unit {0}
unfolding TransactionState-discrete ℕ_discrete is_next is_valid_state transition mark_failure
    requires_cleanup requires_recovery run contains_secret leaves matches_secret_value trim_space
    is_secret_key is_secret_string matches_id validate_transaction_id contains_persistent_secret
    validate_transaction is_alnum is_digit str_eq
program = tt

abbrev pub in_state : TransactionState → Transaction
in_state s = record {
  schema_version = text "podlaz.transaction.v1";
  owner = text "podlaz";
  id = text "tx-1";
  profile_id = text "work";
  mode = text "tun";
  state = s;
  created_at = 5;
  updated_at = 5;
  before_snapshot = record { captured_at = 4; source = text "ip"; summary = [] };
  desired_plan = record {
    plan_id = text "plan-1";
    tun = record { interface_name = text "podlaz0"; mtu = 1500; owner = text "podlaz" };
    tun_address = record {
      family = text "inet";
      interface_name = text "podlaz0";
      cidr = text "198.18.0.1/30";
      scope = text "link";
      link_index = 7;
      link_kind = text "tun";
      appeared_after_core = true;
      owner = text "podlaz";
    };
    egress_mark = 51820;
    routes = [];
    dns = record { backend = []; link = []; servers = []; search_domains = []; owner = [] };
    nft = record { family = []; table = []; chains = []; owner = [] };
    core = record { runtime_config_path = []; process_label = []; owner = [] };
    steps = [];
  };
  applied_steps = [];
  rollback = record {
    tun = [];
    tun_addresses = [];
    routes = [];
    policy_rules = [];
    dns = [];
    nftables = [];
    generated_configs = [];
    child_processes = [];
  };
  health = record { status = []; checked_at = 0; message = [] };
  failure_reason = [];
  labels = [];
}

abbrev requests : List (TransactionState × ℕ)
requests = (applying, 6) ∷ (committed, 7) ∷ (applied, 8) ∷ (verifying, 9) ∷ (committed, 0) ∷ []

run-committed_example : Needs planned (targets requests)
unfolding program
run-committed_example = run-committed 10 (in_state planned) requests refl refl

run_rolled_back_example : run 10 (in_state rolled_back) requests ≡ in_state rolled_back
run_rolled_back_example = run_rolled_back 10 (in_state rolled_back) requests refl

run-rollback_requests_example :
    ((run 10 (in_state verifying) (rollback_requests 9)).state ≡ rolled_back)
    × (requires_cleanup (run 10 (in_state verifying) (rollback_requests 9)) ≡ false)
    × (requires_recovery (run 10 (in_state verifying) (rollback_requests 9)) ≡ false)
    × ((requires_recovery (in_state verifying) ≡ true) ↔ (verifying ≢ rolled_back))
    × ((requires_cleanup (in_state verifying) ≡ true)
        ↔ (verifying ≢ rolled_back) × (verifying ≢ committed))
unfolding program
run-rollback_requests_example = run-rollback_requests 10 (in_state verifying) 9 refl

abbrev document : Json
document = object (
    field (text "labels")
      (array (cons (string (text "a")) (cons (string (text "see Api-Key=1")) nil))) end)

contains_secret-leaves_example :
    contains_secret [] document ≡ any is_secret_leaf (leaves [] document)
contains_secret-leaves_example = contains_secret-leaves [] document

found : contains_secret [] document ≡ true
unfolding program
found = refl

found_value : matches_secret_value (text "see Api-Key=1") ≡ true
unfolding program
found_value = refl

not_found : matches_secret_value (text "mytoken=1 https://a/b?") ≡ false
unfolding program
not_found = refl

found_key : is_secret_key (text " Private-Key ") ≡ true
unfolding program
found_key = refl

abbrev pub encode : Transaction → Option Json
encode tx =
    some (object (field (text "id") (string tx.id) (field (text "mode") (string tx.mode) end)))

validate_transaction-IsTransaction_example : IsTransaction encode (in_state planned)
unfolding program
validate_transaction-IsTransaction_example =
    validate_transaction-IsTransaction encode (in_state planned) refl

traversal : validate_transaction_id (text "../etc") ≡ err invalid_id
unfolding program
traversal = refl
