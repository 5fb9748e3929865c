-- ===== src/Tests/Journal.antt =====
-- Transactions that are saved, moved and scanned.
use podlaz.Common.{
  Str, Option, some, none, if◌then◌else◌, ℕ, ◌≡◌, ◌==◌, refl, Bool, false, [], ◌∷◌, ok, err, text,
  find, sort_by, str_eq, str_lt, is_alnum, is_digit, trim_space, cut_prefix, ℕ_discrete,
}
use podlaz.Files.{sync_directory, discard_temp, publish_temp, on_temp, atomic_write_private_file}
use podlaz.Transaction.Model.{
  Transaction, TransactionState, other_state, planned, applying, committed, is_rollback_available,
  state_text,
}
use podlaz.Transaction.Lifecycle.{
  TransactionState-discrete, is_next, is_valid_state, is_valid_transition, transition,
  requires_cleanup, requires_recovery, invalid_transition,
}
use podlaz.Transaction.Secrets.{
  Json, null, string, number, object, field, end, contains_secret, matches_secret_value,
  is_secret_key, is_secret_string,
}
use podlaz.Transaction.Validation.{
  matches_id, validate_transaction_id, contains_persistent_secret, validate_transaction,
}
use podlaz.Transaction.Journal.{
  Codec, Journal, put, stamp, save, load, move, scan, load_entry, load_file, save_stamped,
  write_entry, call, encoded, save_moved, file_failed, scan_entries, scan_one, scan_listed,
  has_suffix, summary, insert_summary, comes_first, add_scanned, refused, decode_entry,
}
use podlaz.Transaction.Journal.Durability.{Saves, save-Saves}
use podlaz.Transaction.Journal.Moves.{Moves, move-Moves}
use podlaz.Transaction.Journal.Scanning.{Reports, scan-Reports}
use podlaz.Tests.Transaction.{in_state}

abbrev state_of : Str → TransactionState
state_of s = if str_eq s (text "planned") then planned else other_state s

abbrev read : Json → Option Transaction
read (object (field _ (string id) (field _ (string s) (field _ (number n) end)))) =
    some (record (in_state (state_of s)) { id = id; updated_at = n })
read _ = none

-- Documents with the fields of which the records of these tests have different values.
abbrev codec : Codec
codec = record {
  encode = λ tx. some (
      object (
        field (text "id") (string tx.id) (
          field (text "state") (string (state_text tx.state))
            (field (text "updated_at") (number tx.updated_at) end))));
  decode = read;
  torn = λ _. null;
}

abbrev never : ℕ → Bool
never n = false

-- The sync of the directory behind the rename of a first save.
abbrev unsynced : ℕ → Bool
unsynced n = n == 7

abbrev nothing : Journal
nothing = record { files = []; leftovers = 0; calls = 0 }

program : Unit {0}
unfolding find sort_by str_eq str_lt is_alnum is_digit trim_space cut_prefix ℕ_discrete discard_temp
    publish_temp on_temp atomic_write_private_file is_rollback_available state_text
    TransactionState-discrete is_next is_valid_state is_valid_transition transition requires_cleanup
    requires_recovery contains_secret matches_secret_value is_secret_key is_secret_string matches_id
    validate_transaction_id contains_persistent_secret validate_transaction put stamp save load move
    scan load_entry load_file save_stamped write_entry call encoded save_moved scan_entries scan_one
    scan_listed has_suffix summary insert_summary comes_first add_scanned decode_entry
program = tt

saved_unsynced :
    (save unsynced codec 6 (in_state planned) nothing).0 ≡ err (file_failed sync_directory)
unfolding program
saved_unsynced = refl

-- A planned transaction is not committed.
not_committed :
    (move never codec 8 9
      (text "tx-1")
      committed
      (save never codec 6 (in_state planned) nothing).1).0
    ≡ err (refused (invalid_transition planned committed))
unfolding program
not_committed = refl

scanned :
    scan never codec (save never codec 6 (in_state planned) nothing).1
    ≡ (summary (text "tx-1.json") (in_state planned) ∷ [], [])
unfolding program
scanned = refl

save-Saves_example :
    Saves unsynced codec
      (stamp 6 (in_state planned))
      nothing
      (save unsynced codec 6 (in_state planned) nothing)
save-Saves_example = save-Saves unsynced codec 6 (in_state planned) nothing

loaded :
    (load never codec (text "tx-1") (save never codec 6 (in_state planned) nothing).1).0
    ≡ ok (stamp 6 (in_state planned))
unfolding program
loaded = refl

move-Moves_example :
    Moves never codec 8 9
      (text "tx-1")
      applying
      (save never codec 6 (in_state planned) nothing).1
      (move never codec 8 9
        (text "tx-1")
        applying
        (save never codec 6 (in_state planned) nothing).1).1
move-Moves_example =
    move-Moves never codec 8 9 (text "tx-1") applying
      (save never codec 6 (in_state planned) nothing).1

scan-Reports_example :
    Reports never codec
      (save never codec 6 (in_state planned) nothing).1.files
      (save never codec 6 (in_state planned) nothing).1.files
      (scan never codec (save never codec 6 (in_state planned) nothing).1)
unfolding program
scan-Reports_example =
    scan-Reports never codec (save never codec 6 (in_state planned) nothing).1 refl
