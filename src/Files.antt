-- ===== src/Files.antt =====
-- The private atomic file replacement (internal/daemon/network_session_continuation.go,
-- `atomicWritePrivateFile` and `syncFilesystemDirectory`). Every call of the operating system
-- may fail: `fails` says of each call, by its number, whether it does. `torn` is what the target holds
-- if a temporary file is published that was not written, synced, closed or made private.
use podlaz.Common.{
  ℕ, suc, ◌≡◌, Bool, true, false, ◌&&◌, Option, some, ◌⊎◌, arith, if◌then◌else◌, ok, err, Check,
}

pub data FileStep : Type 0 where
  create_temp chmod_temp write_temp sync_temp close_temp rename_temp sync_directory : FileStep

-- One directory: the file that is replaced, the temporary files that stayed behind, and the
-- number of calls made so far.
pub record Disk (F : Type 0) : Type 0 where
  pub target : Option F
  pub leftovers : ℕ
  pub calls : ℕ

-- What a replacement leaves: the new file if it succeeds; the old or the whole new file if it
-- fails, and the new one only if the directory could not be synced.
abbrev pub Written : {F : Type 0} → F → Disk F → Check FileStep × Disk F → Type 0
Written f d (ok _, d') = d'.target ≡ some f
Written f d (err e, d') = (d'.target ≡ d.target) ⊎ (e ≡ sync_directory) × (d'.target ≡ some f)

-- The temporary file: which of the steps on it have succeeded.
pub record TempFile : Type 0 where
  pub is_private : Bool
  pub is_written : Bool
  pub is_synced : Bool
  pub is_closed : Bool

-- `os.CreateTemp`.
abbrev pub new_temp : TempFile
new_temp = record { is_private = false; is_written = false; is_synced = false; is_closed = false }

abbrev pub is_ready : TempFile → Bool
is_ready t = t.is_private && t.is_written && t.is_synced && t.is_closed

abbrev pub set_private : TempFile → TempFile
set_private t = record t { is_private = true }

abbrev pub set_written : TempFile → TempFile
set_written t = record t { is_written = true }

-- A sync keeps what is written before it.
abbrev pub set_synced : TempFile → TempFile
set_synced t = record t { is_synced = t.is_written }

abbrev pub set_closed : TempFile → TempFile
set_closed t = record t { is_closed = true }

module _ {F : Type 0} (fails : ℕ → Bool) where
  abbrev pub tick : Disk F → Disk F
  tick d = record d { calls = suc d.calls }

  -- The deferred `os.Remove(tmpPath)`, whose error is dropped.
  unfoldable pub discard_temp : Disk F → Disk F
  discard_temp d =
      if fails d.calls
      then record d { leftovers = suc d.leftovers; calls = suc d.calls }
      else tick d

module _ {F : Type 0} (fails : ℕ → Bool) (torn : F → F) where
  -- What a file with the content `f` holds once its temporary file has its name.
  unfoldable pub published : F → TempFile → F
  published f t = if is_ready t then f else torn f

  -- From `os.Rename` on.
  unfoldable pub publish_temp : F → TempFile → Disk F → Check FileStep × Disk F
  unfolding discard_temp published
  publish_temp f t d =
      if fails d.calls
      then (err rename_temp, discard_temp fails (tick fails d))
      else let d' = record d { target = some (published f t); calls = suc d.calls } in
        (if fails d'.calls then (err sync_directory, tick fails d') else (ok tt, tick fails d'))

  -- A call on the open temporary file: on failure the file is discarded.
  unfoldable pub on_temp :
      FileStep
      → (TempFile → TempFile)
      → (TempFile → Disk F → Check FileStep × Disk F)
      → TempFile
      → Disk F
      → Check FileStep × Disk F
  unfolding discard_temp
  on_temp step effect next t d =
      if fails d.calls
      then (err step, discard_temp fails (tick fails d))
      else next (effect t) (tick fails d)

  unfoldable pub atomic_write_private_file : F → Disk F → Check FileStep × Disk F
  unfolding publish_temp on_temp
  atomic_write_private_file f d =
      if fails d.calls
      then (err create_temp, tick fails d)
      else on_temp chmod_temp set_private
          (on_temp write_temp set_written
            (on_temp sync_temp set_synced (on_temp close_temp set_closed (publish_temp f))))
          new_temp (tick fails d)

  -- Every replacement, whichever calls fail, is all or nothing: on success the target holds the whole new
  -- content, from a private file that was written, synced and closed; on an error the old content, or the
  -- whole new one only where the directory could not be synced.
  pub atomic_write-Written : (f : F) (d : Disk F) → Written f d (atomic_write_private_file f d)
  unfolding atomic_write_private_file
  atomic_write-Written f d = ground arith

  pub atomic_write-target :
      (f : F) (d : Disk F)
      → ((atomic_write_private_file f d).1.target ≡ d.target)
        ⊎ ((atomic_write_private_file f d).1.target ≡ some f)
  unfolding atomic_write_private_file
  atomic_write-target f d = ground arith

  pub atomic_write-eq-ok :
      (f : F) (d : Disk F)
      → (atomic_write_private_file f d).0 ≡ ok tt
      → (atomic_write_private_file f d).1.target ≡ some f
  unfolding atomic_write_private_file
  atomic_write-eq-ok f d h = ground arith
