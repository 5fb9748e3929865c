-- ===== src/Transaction/Journal.antt =====
-- The directory of transactions and its operations (internal/state/transaction.go: `Path`, `Save`,
-- `Load`, `TransactionStore.Transition`, `ScanTransactions`, `LoadTransactionFile`). Entries that are
-- directories, which the scan skips, are left out.
pub mod Durability
pub mod Moves
pub mod Scanning
use mathlib.Core.List.{reverse}
use podlaz.Common.{
  ℕ, suc, Bool, true, false, not, ◌||◌, ◌&&◌, ◌==◌, List, [], ◌∷◌, ◌++◌, Option, none, some, Str,
  text, str_eq, str_lt, is_empty, Result, ok, err, Check, if◌then◌else◌, find, sort_by, cut_prefix,
  is_some,
}
use podlaz.Files.{Disk, FileStep, atomic_write_private_file}
use podlaz.Transaction.Model.{
  Transaction, TransactionState, transaction_schema_version, transaction_owner,
  is_rollback_available, state_text,
}
use podlaz.Transaction.Lifecycle.{TransitionError, transition, requires_cleanup, requires_recovery}
use podlaz.Transaction.Secrets.{Json}
use podlaz.Transaction.Validation.{ValidationError, validate_transaction, validate_transaction_id}

-- The JSON package on records: the document of a record, and the record that a document is read as;
-- `torn` is what a file holds that is published before it is written, synced and closed.
pub record Codec : Type 0 where
  pub encode : Transaction → Option Json
  pub decode : Json → Option Transaction
  pub torn : Json → Json

-- A file of the directory: its name and its document.
pub record Entry : Type 0 where
  pub name : Str
  pub content : Json

abbrev pub entry_name : Entry → Str
entry_name e = e.name

-- The files of the directory, the temporary files that stayed behind, and the number of calls.
pub record Journal : Type 0 where
  pub files : List Entry
  pub leftovers : ℕ
  pub calls : ℕ

pub data JournalError : Type 0 where
  invalid_record : ValidationError → JournalError
  directory_failed encode_failed missing unreadable undecodable : JournalError
  file_failed : FileStep → JournalError
  refused : TransitionError → JournalError

-- `TransactionSummary`; a path is the name of the file in the directory.
pub record Summary : Type 0 where
  pub id : Str
  pub state : TransactionState
  pub path : Str
  pub rollback_available : Bool
  pub requires_cleanup : Bool
  pub requires_recovery : Bool

abbrev pub suffix : Str
suffix = text ".json"

-- The name of the file of a transaction.
abbrev pub file_name : Str → Str
file_name id = id ++ suffix

-- A file that is written in the place of the one of its name.
unfoldable pub put : Entry → List Entry → List Entry
put e [] = e ∷ []
put e (x ∷ xs) = let rest = put e xs in if str_eq x.name e.name then e ∷ xs else x ∷ rest

abbrev pub put_found : Option Entry → List Entry → List Entry
put_found none es = es
put_found (some e) es = put e es

-- `strings.HasSuffix`.
unfoldable pub has_suffix : Str → Str → Bool
has_suffix s end = is_some (cut_prefix (reverse end) (reverse s))

-- `Summary`.
unfoldable pub summary : Str → Transaction → Summary
summary path tx = record {
  id = tx.id;
  state = tx.state;
  path = path;
  rollback_available = is_rollback_available tx.rollback;
  requires_cleanup = requires_cleanup tx;
  requires_recovery = requires_recovery tx;
}

-- The order of the scan.
unfoldable pub comes_first : Summary → Summary → Bool
comes_first a b =
    if str_eq (state_text a.state) (state_text b.state)
    then str_lt a.id b.id
    else str_lt (state_text a.state) (state_text b.state)

unfoldable pub insert_summary : Summary → List Summary → List Summary
unfolding comes_first
insert_summary s [] = s ∷ []
insert_summary s (t ∷ ts) =
    let rest = insert_summary s ts in if comes_first t s then t ∷ rest else s ∷ t ∷ ts

-- What the defaults of `Save` make of a record.
unfoldable pub stamp : ℕ → Transaction → Transaction
stamp now tx = record tx {
  schema_version =
      if is_empty tx.schema_version then transaction_schema_version else tx.schema_version;
  owner = if is_empty tx.owner then transaction_owner else tx.owner;
  created_at = if tx.created_at == 0 then now else tx.created_at;
  updated_at = now;
}

abbrev pub to_entry : Transaction → Json → Entry
to_entry tx document = record { name = file_name tx.id; content = document }

abbrev pub Run : Type 0 → Type 0
Run A = Journal → Result JournalError A × Journal

abbrev pub and_then :
    {A B : Type 0} → Result JournalError A × Journal → (A → Run B) → Result JournalError B × Journal
and_then (ok a, j) f = f a j
and_then (err e, j) f = (err e, j)

-- A result of a computation without calls.
abbrev pub lifted : {E A : Type 0} → (E → JournalError) → Result E A → Run A
lifted f (ok a) j = (ok a, j)
lifted f (err e) j = (err (f e), j)

abbrev pub lift_step : Check FileStep → Check JournalError
lift_step (ok _) = ok tt
lift_step (err e) = err (file_failed e)

module _ (fails : ℕ → Bool) (codec : Codec) where
  abbrev pub torn_entry : Entry → Entry
  torn_entry e = record e { content = codec.torn e.content }

  unfoldable pub call : JournalError → Run (Unit {0})
  call e j = (if fails j.calls then err e else ok tt, record j { calls = suc j.calls })

  -- The temporary file, its rename and the sync of the directory.
  unfoldable pub write_entry : Entry → Run (Unit {0})
  write_entry e j =
      let (r, d) = atomic_write_private_file fails torn_entry e (record {
        target = find entry_name e.name j.files;
        leftovers = j.leftovers;
        calls = j.calls;
      }) in
      (
        lift_step r,
        record { files = put_found d.target j.files; leftovers = d.leftovers; calls = d.calls },
      )

  unfoldable pub encoded : Option Json → Result JournalError Json
  encoded none = err encode_failed
  encoded (some b) = ok b

  -- `Save` of the record with its defaults.
  unfoldable pub save_stamped : Transaction → Run (Unit {0})
  unfolding call write_entry encoded
  save_stamped tx j =
      and_then (lifted invalid_record (validate_transaction codec.encode tx) j) λ _ j.
        and_then (lifted invalid_record (validate_transaction_id tx.id) j) λ _ j.
          and_then (call directory_failed j) λ _ j.
            and_then (lifted (λ e. e) (encoded (codec.encode tx)) j)
              λ b. write_entry (to_entry tx b)

  -- `Save`.
  unfoldable pub save : ℕ → Transaction → Run (Unit {0})
  unfolding save_stamped stamp
  save now tx = save_stamped (stamp now tx)

  -- `LoadTransactionFile` behind the read.
  checked_entry : Transaction → Check ValidationError → Result JournalError Transaction
  checked_entry tx (ok _) = ok tx
  checked_entry tx (err e) = err (invalid_record e)

  -- `LoadTransactionFile` behind the read.
  unfoldable pub decode_entry : Option Transaction → Result JournalError Transaction
  unfolding checked_entry
  decode_entry none = err undecodable
  decode_entry (some tx) = checked_entry tx (validate_transaction codec.encode tx)

  unfoldable pub load_entry : Option Entry → Result JournalError Transaction
  unfolding decode_entry
  load_entry none = err missing
  load_entry (some e) = decode_entry (codec.decode e.content)

  -- `LoadTransactionFile`.
  unfoldable pub load_file : Str → Run Transaction
  unfolding call load_entry
  load_file name j =
      and_then (call unreadable j) λ _ j. (load_entry (find entry_name name j.files), j)

  -- `Load`.
  unfoldable pub load : Str → Run Transaction
  unfolding load_file
  load id j =
      and_then (lifted invalid_record (validate_transaction_id id) j) λ _. load_file (file_name id)

  unfoldable pub save_moved : ℕ → Bool × Transaction → Run Transaction
  unfolding save
  save_moved later (false, tx) j = (ok tx, j)
  save_moved later (true, tx) j = and_then (save later tx j) λ _ j. (ok tx, j)

  -- `TransactionStore.Transition`, which asks the clock for the move and for the save.
  unfoldable pub move : ℕ → ℕ → Str → TransactionState → Run Transaction
  unfolding load save_moved
  move now later id next j =
      and_then (load id j)
        λ tx j. and_then (lifted refused (transition now tx next now) j) (save_moved later)

  -- The loop of `ScanTransactions`: the records that load, and the names of the files that do not.
  unfoldable pub add_scanned :
      Entry → Result JournalError Transaction → List Summary × List Str → List Summary × List Str
  unfolding summary insert_summary
  add_scanned e (ok tx) (ss, ws) = (insert_summary (summary e.name tx) ss, ws)
  add_scanned e (err _) (ss, ws) = (ss, e.name ∷ ws)

  unfoldable pub scan_one :
      Bool → Entry → (Journal → List Summary × List Str) → Journal → List Summary × List Str
  unfolding load_file add_scanned
  scan_one true e next j = let (r, j') = load_file e.name j in add_scanned e r (next j')
  scan_one false e next j = next j

  unfoldable pub scan_entries : List Entry → Journal → List Summary × List Str
  unfolding scan_one has_suffix
  scan_entries [] j = ([], [])
  scan_entries (e ∷ es) j = scan_one (has_suffix e.name suffix) e (scan_entries es) j

  unfoldable pub scan_listed : Check JournalError × Journal → List Summary × List Str
  unfolding scan_entries
  scan_listed (ok _, j) = scan_entries (sort_by entry_name j.files) j
  scan_listed (err _, j) = ([], [] ∷ [])

  -- `ScanTransactions`: a directory that cannot be read gives a warning alone. What warnings say,
  -- and so their order, is left out.
  unfoldable pub scan : Journal → List Summary × List Str
  unfolding scan_listed call
  scan j = scan_listed (call directory_failed j)
