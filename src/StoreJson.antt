-- ===== src/StoreJson.antt =====
-- The atomic JSON file of a user's store (internal/storejson/write.go), and the calls around it.
-- `fails` says of each call of the operating system, by its number, whether it does, and `torn` what the
-- target holds if a temporary file is published that is not ready. A temporary
-- file that is closed early is closed for good: the error of that call is dropped by the source.
use podlaz.Common.{ℕ, ◌≡◌, refl, Bool, some, ◌⊎◌, arith, if◌then◌else◌, Result, ok, err, Check}
use podlaz.Files.{
  Disk, tick, discard_temp, TempFile, new_temp, set_private, set_written, set_synced, set_closed,
  published,
}

pub data Operation : Type 0 where
  encode_json create_directory create_temp_file set_temp_permissions write_temp_file : Operation
  sync_temp_file close_temp_file rename_temp_file sync_parent_directory : Operation

-- A computation on the disk that holds the store's file.
abbrev pub Run : Type 0 → Type 0 → Type 0 → Type 0
Run F E A = Disk F → Result E A × Disk F

-- What follows a result.
abbrev pub on_ok : {F E A B : Type 0} → (A → Run F E B) → Result E A × Disk F → Result E B × Disk F
on_ok f (ok a, d) = f a d
on_ok f (err e, d) = (err e, d)

-- A property of the end of a run is one of both ways on.
pub on_ok_ends :
    {F E A B : Type 0} (P : Result E B × Disk F → Type 0) (f : A → Run F E B)
    (r : Result E A × Disk F)
    → ((e : E) (d : Disk F) → r ≡ (err e, d) → P (err e, d))
    → ((a : A) (d : Disk F) → r ≡ (ok a, d) → P (f a d))
    → P (on_ok f r)
on_ok_ends P f (ok a, d) k l = l a d refl
on_ok_ends P f (err e, d) k l = k e d refl

-- What a write leaves: the new file if it succeeds; if it fails the old one, or the whole new one
-- only where the directory was not synced.
abbrev pub Written : {F : Type 0} → F → Disk F → Check Operation × Disk F → Type 0
Written f d (ok _, d') = d'.target ≡ some f
Written f d (err e, d') =
    (d'.target ≡ d.target) ⊎ (e ≡ sync_parent_directory) × (d'.target ≡ some f)

module _ {F : Type 0} (fails : ℕ → Bool) where
  -- A call that fails with `e`.
  unfoldable pub call : {E : Type 0} → E → Run F E (Unit {0})
  call e d = (if fails d.calls then err e else ok tt, tick fails d)

  call_then : {E : Type 0} → E → (Disk F → Check E × Disk F) → Disk F → Check E × Disk F
  call_then e next d = if fails d.calls then (err e, tick fails d) else next (tick fails d)

  -- `SyncDir`: open, sync and close.
  unfoldable pub sync_dir : Disk F → Check Operation × Disk F
  unfolding call_then
  sync_dir =
      call_then sync_parent_directory
        (call_then sync_parent_directory (call_then sync_parent_directory (λ d. (ok tt, d))))

  -- The deferred `os.Remove(tmpName)`, behind a rename: there is nothing to remove any more.
  after_rename : Check Operation × Disk F → Check Operation × Disk F
  after_rename (r, d) = (r, tick fails d)

module _ {F : Type 0} (fails : ℕ → Bool) (torn : F → F) where
  -- A call on the temporary file: on failure the file is removed.
  on_temp_file :
      Operation
      → (TempFile → TempFile)
      → (TempFile → Disk F → Check Operation × Disk F)
      → TempFile
      → Disk F
      → Check Operation × Disk F
  unfolding discard_temp
  on_temp_file e effect next t d =
      if fails d.calls
      then (err e, discard_temp fails (tick fails d))
      else next (effect t) (tick fails d)

  -- Behind the call of `os.Rename`.
  rename_into : F → TempFile → Disk F → Check Operation × Disk F
  unfolding sync_dir after_rename published
  rename_into f t d =
      after_rename fails (sync_dir fails (record d { target = some (published fails torn f t) }))

  -- `WriteFile`.
  unfoldable pub write_file : F → Disk F → Check Operation × Disk F
  unfolding call_then on_temp_file rename_into
  write_file f = call_then fails encode_json (
      call_then fails create_directory (
        call_then fails create_temp_file (
          on_temp_file set_temp_permissions set_private
            (on_temp_file write_temp_file set_written (
              on_temp_file sync_temp_file set_synced (
                on_temp_file close_temp_file set_closed
                  (on_temp_file rename_temp_file (λ t. t) (rename_into f)))))
            new_temp)))

  -- Every write, whichever calls fail, is all or nothing; a failed sync of the directory is the only
  -- error behind a file that was replaced.
  pub write_file-Written : (f : F) (d : Disk F) → Written f d (write_file f d)
  unfolding write_file
  write_file-Written f d = ground arith

  pub write_file-target :
      (f : F) (d : Disk F)
      → ((write_file f d).1.target ≡ d.target) ⊎ ((write_file f d).1.target ≡ some f)
  unfolding write_file
  write_file-target f d = ground arith
