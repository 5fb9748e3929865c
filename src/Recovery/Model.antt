-- ===== src/Recovery/Model.antt =====
-- The candidates and results of a recovery, and the host it runs on (recovery.go). What the host
-- answers is a function of every call made before, the last one first.
use podlaz.Common.{
  ℕ, ◌==◌, Bool, true, false, not, ◌&&◌, ◌||◌, Option, none, some, List, [], ◌∷◌, ◌++◌, Str, text,
  to_lower, is_empty, is_some, any, if◌then◌else◌,
}
use podlaz.Transaction.Model.{Transaction, TunAddressRollback}
use podlaz.Recovery.Text.{CleanPath, itoa, join, fields, occurs_in}

abbrev pub managed_interface : Str
managed_interface = text "podlaz0"

-- Candidates' kinds; `tun_address`, `route` and the others stand for the resources of a transaction.
pub data Kind : Type 0 where
  tun_interface nftables_table managed_dns transaction_state : Kind
  generated_runtime_configs runtime_directory : Kind
  tun_link_identity child_process dns policy_rule route tun_address : Kind
  generated_runtime_config transaction_ownership : Kind
  other_kind : Str → Kind

-- `TransactionCandidate`, of which the cleanup reads the path.
pub record TransactionCandidate : Type 0 where
  pub id : Str
  pub path : Str

-- Descriptions, which are shown to the user alone, are left out.
pub record Candidate : Type 0 where
  pub kind : Kind
  pub target : Str
  pub transaction : Option TransactionCandidate

pub data Status : Type 0 where
  is_recovered is_skipped is_failed : Status

-- The messages of results, one constructor for each; texts of the host are kept.
pub data Message : Type 0 where
  no_message missing_kind unsupported_kind runtime_root_unsupported : Message
  non_podlaz_target not_ownership_proof outside_runtime_state missing_summary : Message
  load_failed missing_link_identity link_absent_child_unproven link_and_child_absent : Message
  link_identity_mismatch link_identity_unproven link_absent : Message
  link_identity_blocked stopped_failed stopped_ambiguous : Message
  completed_with_failures skipped_ambiguous remove_failed : Message
  no_pid child_absent child_not_inspected child_unidentified : Message
  non_podlaz_metadata ambiguous_target composition_unavailable rollback_failed : Message
  config_preserved not_recorded allocation_mismatch : Message
  tun_address_owner tun_address_identity tun_address_namespace tun_address_family : Message
  tun_address_scope : Message
  ownership_gaps : List Str → Message
  command_failed : Str → Message

pub record CleanupResult : Type 0 where
  pub candidate : Candidate
  pub status : Status
  pub message : Message

abbrev pub recovered : Candidate → CleanupResult
recovered c = record { candidate = c; status = is_recovered; message = no_message }

abbrev pub recovered_with_message : Candidate → Message → CleanupResult
recovered_with_message c m = record { candidate = c; status = is_recovered; message = m }

abbrev pub skipped : Candidate → Message → CleanupResult
skipped c m = record { candidate = c; status = is_skipped; message = m }

abbrev pub failed : Candidate → Message → CleanupResult
failed c m = record { candidate = c; status = is_failed; message = m }

abbrev pub resource : Kind → Str → Candidate
resource k target = record { kind = k; target = target; transaction = none }

abbrev pub has_failed : CleanupResult → Bool
has_failed r = elim r.status [ is_failed ↦ true | _ ↦ false ]

abbrev pub has_skipped : CleanupResult → Bool
has_skipped r = elim r.status [ is_skipped ↦ true | _ ↦ false ]

abbrev pub has_recovered : CleanupResult → Bool
has_recovered r = elim r.status [ is_recovered ↦ true | _ ↦ false ]

abbrev pub has_failed_cleanup : List CleanupResult → Bool
has_failed_cleanup rs = any has_failed rs

abbrev pub has_skipped_cleanup : List CleanupResult → Bool
has_skipped_cleanup rs = any has_skipped rs

abbrev pub cleanup_phase_blocked : List CleanupResult → Bool
cleanup_phase_blocked rs = has_failed_cleanup rs || has_skipped_cleanup rs

-- What the executor of the firewall is asked to restore (`planner.TunFirewallPlan`).
pub record FirewallChain : Type 0 where
  pub name : Str
  pub type : Str
  pub hook : Str
  pub priority : ℕ
  pub policy : Str

pub record FirewallRule : Type 0 where
  pub chain : Str
  pub expr : Str
  pub verdict : Str
  pub ownership : Str
  pub rollback_key : Str

pub record FirewallPlan : Type 0 where
  pub family : Str
  pub table : Str
  pub chains : List FirewallChain
  pub rules : List FirewallRule

-- The calls of the host.
pub data Call : Type 0 where
  stat_process : ℕ → Call
  command : Str → List Str → Call
  roll_back_nftables : FirewallPlan → Call
  roll_back_address : TunAddressRollback → Bool → Call
  read_transaction remove_transaction : CleanPath → Call
  read_directory remove_all remove : CleanPath → Call

-- The answer of a command, and whether the recovery was cancelled by then; no exit code stands for -1.
pub record CommandResult : Type 0 where
  pub stdout : Str
  pub stderr : Str
  pub raw_stdout : Str
  pub raw_stderr : Str
  pub exit_code : Option ℕ
  pub error : Option Str
  pub cancelled : Bool

pub data Presence : Type 0 where
  absent present : Presence
  inaccessible : Presence

pub data Listing : Type 0 where
  no_directory : Listing
  unreadable : Listing
  has_entries : Bool → Listing

-- The answers, by what was called before. A command is looked up and run in one call. The executors
-- of the firewall and of the address, which `internal/network` implements, say whether they succeed.
pub record Host : Type 0 where
  pub process : List Call → ℕ → Presence
  pub run_command : List Call → Str → List Str → CommandResult
  pub nftables_rollback : List Call → FirewallPlan → Bool
  pub address_rollback : List Call → TunAddressRollback → Bool → Bool
  pub load : List Call → CleanPath → Option Transaction
  pub directory : List Call → CleanPath → Listing
  pub removes : List Call → CleanPath → Presence

-- A step of the recovery: its result, and the calls made, its own in front.
abbrev pub Run : Type 0 → Type 0
Run A = List Call → A × List Call

is_zero_exit : Option ℕ → Bool
is_zero_exit none = false
is_zero_exit (some n) = n == 0

unfoldable pub command_succeeded : CommandResult → Bool
unfolding is_zero_exit
command_succeeded r = not (is_some r.error) && is_zero_exit r.exit_code

unfoldable pub mentions : Str → List Str → Bool
mentions s needles = any (λ n. occurs_in n (to_lower s)) needles

unfoldable pub resource_missing : CommandResult → Bool
unfolding is_zero_exit mentions
resource_missing r =
    not (is_zero_exit r.exit_code)
    && mentions (r.stdout ++ (text " " ++ r.stderr)) (
        text "does not exist"
        ∷ text "cannot find device"
        ∷ text "no such file or directory"
        ∷ text "no such table"
        ∷ [])

exit_part : Option ℕ → List Str
exit_part none = []
exit_part (some n) = (text "exit code " ++ itoa n) ∷ []

error_part : Option Str → List Str
error_part none = []
error_part (some e) = e ∷ []

or_command_failed : List Str → Str
or_command_failed [] = text "command failed"
or_command_failed (p ∷ ps) = join (text ", ") (p ∷ ps)

unfoldable pub command_failure_message : CommandResult → Str
unfolding exit_part error_part or_command_failed
command_failure_message r = or_command_failed (
    exit_part r.exit_code
    ++ (if is_empty r.stderr
        then error_part r.error
        else (text "stderr: " ++ join (text " ") (fields r.stderr)) ∷ []))

unfoldable pub command_error_is_missing : Str → Bool
unfolding mentions
command_error_is_missing e = mentions e (
    text "does not exist"
    ∷ text "cannot find device"
    ∷ text "no such process"
    ∷ text "no such file or directory"
    ∷ text "no such table"
    ∷ text "no such file"
    ∷ [])

-- The error of `run`.
unfoldable pub run_error : Str → List Str → CommandResult → Str
run_error cmd args r =
    cmd ++ (text " " ++ (join (text " ") args ++ (text ": " ++ command_failure_message r)))

-- A command that deletes a resource: it may fail only because the resource is missing.
unfoldable pub delete_result : Str → List Str → CommandResult → Candidate → CleanupResult
delete_result cmd args r c =
    if command_succeeded r || command_error_is_missing (run_error cmd args r)
    then recovered c
    else failed c (command_failed (run_error cmd args r))

module _ (host : Host) where
  abbrev pub run : Str → List Str → Run CommandResult
  run cmd args t = (host.run_command t cmd args, command cmd args ∷ t)

  unfoldable pub run_delete : Str → List Str → Candidate → Run CleanupResult
  unfolding delete_result
  run_delete cmd args c t = let (r, t') = run cmd args t in (delete_result cmd args r c, t')
