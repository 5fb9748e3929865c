-- ===== src/Session/Io.antt =====
-- The file of the Network Session record and the calls on it
-- (internal/daemon/network_session_state.go: `loadLocked`, `save`, `migrateContinuation`,
-- `removeFile`, `currentBootID`, `newNetworkSessionID`).
use podlaz.Common.{
  ℕ, suc, ◌+◌, ◌/◌, ◌%◌, Bool, not, List, [], ◌∷◌, Option, none, some, Result, ok, err, Check, Str,
  str_eq, trim_space, is_empty, ltb, ◌==◌, if◌then◌else◌,
}
use podlaz.Files.{Disk, atomic_write_private_file}
use podlaz.Session.Model.{
  SessionState, Continuation, Error, resume, state_schema_version, continuation_schema_version,
  state_owner, max_state_bytes, private_mode,
}
use podlaz.Session.Model
use podlaz.Session.Validation.{validate_session_state, validate_continuation, wrap}

-- A stored file: its permissions and size, and what `json.Unmarshal` makes of its bytes at the
-- header, at the record and at the legacy record.
pub record SessionFile : Type 0 where
  pub perm : ℕ
  pub size : ℕ
  pub header : Option Str
  pub as_state : Option SessionState
  pub as_continuation : Option Continuation

-- What the operations meet: which calls fail, what a file holds that was published half written, the boot id and the random bytes that are read, and
-- the length of a record's encoding.
pub record Env : Type 0 where
  pub fails : ℕ → Bool
  pub torn : SessionFile → SessionFile
  pub boot_id : Str
  pub entropy : ℕ → List ℕ
  pub encoded_size : SessionState → ℕ

abbrev pub World : Type 0
World = Disk SessionFile

abbrev pub M : Type 0 → Type 0
M A = World → Result Error A × World

-- What follows a result.
abbrev pub after : {A B : Type 0} → (A → M B) → Result Error A × World → Result Error B × World
after f (ok a, d) = f a d
after f (err e, d) = (err e, d)

infixl 5 ◌>>=◌ ◌>>◌
abbrev pub ◌>>=◌ : {A B : Type 0} → M A → (A → M B) → M B
◌>>=◌ m f d = after f (m d)

abbrev pub ◌>>◌ : {B : Type 0} → M (Unit {0}) → M B → M B
m >> k = m >>= λ _. k

abbrev pub pure : {A : Type 0} → A → M A
pure a d = (ok a, d)

abbrev pub throw : {A : Type 0} → Error → M A
throw e d = (err e, d)

abbrev pub lift : {A : Type 0} → Result Error A → M A
lift r d = (r, d)

abbrev pub guard : Bool → Error → M (Unit {0})
guard b e d = (if b then err e else ok tt, d)

unfoldable pub hex_digit : ℕ → ℕ
hex_digit n = if ltb n 10 then n + b'0' else n + 87

-- `hex.EncodeToString`.
unfoldable pub hex_encode : List ℕ → Str
unfolding hex_digit
hex_encode [] = []
hex_encode (b ∷ bs) = hex_digit (b / 16) ∷ hex_digit (b % 16) ∷ hex_encode bs

-- The stored form of a record.
unfoldable pub encode_state : Env → SessionState → SessionFile
encode_state env s = record {
  perm = private_mode;
  size = env.encoded_size s;
  header = some s.schema_version;
  as_state = some s;
  as_continuation = some (record {
    schema_version = s.schema_version;
    owner = s.owner;
    boot_id = s.boot_id;
    request = s.request;
  });
}

unfoldable pub unlink : M (Unit {0})
unlink d = (ok tt, record d { target = none })

-- The record that a legacy one becomes.
abbrev pub migrated : Continuation → Str → SessionState
migrated c id = record {
  schema_version = state_schema_version;
  owner = state_owner;
  boot_id = c.boot_id;
  session_id = id;
  recovery_epoch = 0;
  intent = resume;
  request = c.request;
  protection = none;
  replacement = none;
}

-- An invalid legacy record is removed and its error returned.
unfoldable pub reject_continuation :
    Error → Check Error × World → Result Error (Option SessionState) × World
reject_continuation e (ok _, d) = (err e, d)
reject_continuation e (err e', d) = (err (Model.joined e e'), d)

module _ (env : Env) where
  open env use {fails}

  -- A call that fails with `e`.
  unfoldable pub call : Error → M (Unit {0})
  call e d =
      let d' = record d { calls = suc d.calls } in
      (if fails d.calls then (err e, d') else (ok tt, d'))

  unfoldable pub current_boot_id : M Str
  unfolding call
  current_boot_id = do
    call Model.boot_id_unreadable
    guard (is_empty (trim_space env.boot_id)) Model.empty_boot_id
    pure (trim_space env.boot_id)

  unfoldable pub new_session_id : M Str
  unfolding call hex_encode
  new_session_id = do
    call Model.entropy_unreadable
    (λ d. (ok (hex_encode (env.entropy d.calls)), d))

  -- A file that is not there is no error, and nothing is synced then.
  unfoldable pub remove_present : Option SessionFile → M (Unit {0})
  remove_present none = pure tt
  remove_present (some _) = do unlink; call Model.remove_sync_failed

  unfoldable pub remove_file : M (Unit {0})
  unfolding call unlink remove_present
  remove_file = do call Model.remove_failed; (λ d. remove_present d.target d)

  unfoldable pub replace_file : SessionState → M (Unit {0})
  replace_file s d =
      let (r, d') = atomic_write_private_file fails env.torn (encode_state env s) d in
      (wrap Model.write_failed r, d')

  unfoldable pub save : SessionState → M (Unit {0})
  unfolding call replace_file encode_state
  save s = do
    lift (validate_session_state s)
    guard (ltb max_state_bytes (env.encoded_size s)) Model.too_large
    call Model.create_directory_failed
    replace_file s

  -- A record of another boot is removed.
  unfoldable pub discard_if_stale : {A : Type 0} → Str → M (Option A) → M (Option A)
  unfolding remove_file current_boot_id
  discard_if_stale recorded next = do
    current ← current_boot_id
    (λ d. if str_eq recorded current then next d else (remove_file >> pure none) d)

  unfoldable pub adopt_continuation : Continuation → M (Option SessionState)
  unfolding new_session_id save
  adopt_continuation c = do id ← new_session_id; save (migrated c id); pure (some (migrated c id))

  unfoldable pub migrate_valid : Continuation → Check Error → M (Option SessionState)
  unfolding reject_continuation remove_file adopt_continuation discard_if_stale
  migrate_valid c (ok _) = discard_if_stale c.boot_id (adopt_continuation c)
  migrate_valid c (err e) = λ d. reject_continuation e (remove_file d)

  unfoldable pub migrate_continuation : Option Continuation → M (Option SessionState)
  unfolding migrate_valid
  migrate_continuation none = throw Model.continuation_undecodable
  migrate_continuation (some c) = migrate_valid c (validate_continuation c)

  unfoldable pub load_state : Option SessionState → M (Option SessionState)
  unfolding discard_if_stale
  load_state none = throw Model.state_undecodable
  load_state (some s) = do
    lift (validate_session_state s)
    discard_if_stale s.boot_id (pure (some s))

  -- By the schema that the header names.
  unfoldable pub dispatch_schema : SessionFile → Option Str → M (Option SessionState)
  unfolding migrate_continuation load_state
  dispatch_schema f none d = (err Model.header_undecodable, d)
  dispatch_schema f (some schema) d =
      if str_eq schema continuation_schema_version
      then migrate_continuation f.as_continuation d
      else if str_eq schema state_schema_version
      then load_state f.as_state d
      else (err Model.unsupported_schema, d)

  unfoldable pub read_file : Option SessionFile → M (Option SessionState)
  unfolding call dispatch_schema
  read_file none = pure none
  read_file (some f) = do
    call Model.stat_failed
    guard (not (f.perm == private_mode)) Model.bad_permissions
    guard (ltb max_state_bytes f.size) Model.too_large
    call Model.read_failed
    guard (ltb max_state_bytes f.size) Model.too_large
    dispatch_schema f f.header

  -- `loadLocked`: `none` if there is no record of this boot. A record is a value here, so the
  -- source's `cloneNetworkSessionState` is the identity.
  unfoldable pub load_locked : M (Option SessionState)
  unfolding call read_file
  load_locked = do call Model.open_failed; (λ d. read_file d.target d)
