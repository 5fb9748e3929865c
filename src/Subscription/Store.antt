-- ===== src/Subscription/Store.antt =====
-- The store of the subscriptions and its file (internal/sub/store.go, store_delete.go). There is no
-- lock: one operation is one step of one process.
use podlaz.Common.{
  ℕ, Bool, false, not, List, [], ◌∷◌, ◌++◌, Option, none, some, Str, text, str_eq, elem, Result, ok,
  err, Check, if◌then◌else◌, find, has, keep, sort_by,
}
use podlaz.Files.{Disk}
use podlaz.StoreJson.{Run, on_ok, call, write_file, Operation}
use podlaz.Subscription.Model.{Source, source_id, Url, is_valid_source}

pub data SourceError : Type 0 where
  not_found already_exists invalid_source unreadable invalid_json : SourceError
  unsupported_schema stored_invalid stored_duplicate : SourceError
  write_failed : Operation → SourceError

pub record StoreFile : Type 0 where
  pub schema_version : Str
  pub sources : List Source

-- What the strict decoder makes of the file's bytes, and whether more follows the document.
pub record SourceFile : Type 0 where
  pub decoded : Option StoreFile
  pub is_trailing : Bool

-- What the operations meet: which calls fail, what a file holds that was published half written, the lower case of a text, and the URL it spells.
pub record Env : Type 0 where
  pub fails : ℕ → Bool
  pub torn : SourceFile → SourceFile
  pub lower : Str → Str
  pub parse_url : Str → Option Url

abbrev pub World : Type 0
World = Disk SourceFile

abbrev pub M : Type 0 → Type 0
M A = Run SourceFile SourceError A

abbrev pub schema_v1 : Str
schema_v1 = text "v1"

abbrev pub encode_sources : List Source → SourceFile
encode_sources ss = record {
  decoded = some (record { schema_version = schema_v1; sources = ss });
  is_trailing = false;
}

-- `Add` behind its check.
unfoldable pub add : Source → List Source → Result SourceError (List Source)
add s ss =
    if has source_id s.id ss then err already_exists else ok (sort_by source_id (ss ++ s ∷ []))

-- The loop of `Update`: the first source of this identity is replaced.
unfoldable pub put : Source → List Source → List Source
put s [] = []
put s (x ∷ xs) = let rest = put s xs in if str_eq x.id s.id then s ∷ xs else x ∷ rest

-- `Update` behind its check.
unfoldable pub update : Source → List Source → Result SourceError (List Source)
unfolding put
update s ss = if has source_id s.id ss then ok (sort_by source_id (put s ss)) else err not_found

-- `Delete`.
unfoldable pub delete : Str → List Source → Result SourceError (List Source)
delete id ss =
    if has source_id id ss
    then ok (sort_by source_id (keep (λ x. not (str_eq x.id id)) ss))
    else err not_found

unfoldable pub write_result : Check Operation × World → Check SourceError × World
write_result (ok _, d) = (ok tt, d)
write_result (err e, d) = (err (write_failed e), d)

module _ (env : Env) where
  open env use {fails, lower, parse_url}

  abbrev pub valid : Source → Bool
  valid = is_valid_source lower parse_url

  -- The loop of `load` over the stored sources.
  unfoldable pub check_stored : List Str → List Source → Check SourceError
  check_stored seen [] = ok tt
  check_stored seen (s ∷ ss) =
      let rest = check_stored (s.id ∷ seen) ss in
      if not (valid s)
      then err stored_invalid
      else if elem s.id seen
      then err stored_duplicate
      else rest

  checked : StoreFile → Check SourceError → Result SourceError (List Source)
  checked s (ok _) = ok s.sources
  checked s (err e) = err e

  decode_sources : SourceFile → Option StoreFile → Result SourceError (List Source)
  unfolding checked check_stored
  decode_sources f none = err invalid_json
  decode_sources f (some s) =
      if f.is_trailing
      then err invalid_json
      else if not (str_eq s.schema_version schema_v1)
      then err unsupported_schema
      else checked s (check_stored [] s.sources)

  unfoldable pub load_file : Option SourceFile → Result SourceError (List Source)
  unfolding decode_sources
  load_file none = ok []
  load_file (some f) = decode_sources f f.decoded

  -- `load`.
  unfoldable pub load : M (List Source)
  unfolding load_file
  load d = on_ok (λ _ d. (load_file d.target, d)) (call fails unreadable d)

  -- `save`.
  unfoldable pub save : List Source → M (Unit {0})
  unfolding write_result
  save ss d = write_result (write_file fails env.torn (encode_sources ss) d)

  unfoldable pub save_changed : Result SourceError (List Source) → M (Unit {0})
  unfolding save
  save_changed (err e) d = (err e, d)
  save_changed (ok ss) d = save ss d

  unfoldable pub mutate : (List Source → Result SourceError (List Source)) → M (Unit {0})
  unfolding load save_changed
  mutate change d = on_ok (λ ss. save_changed (change ss)) (load d)

  unfoldable pub checked_first : Source → M (Unit {0}) → M (Unit {0})
  checked_first s next d = if valid s then next d else (err invalid_source, d)

  -- `List`.
  unfoldable pub list : M (List Source)
  unfolding load
  list d = on_ok (λ ss d. (ok (sort_by source_id ss), d)) (load d)

  found : Option Source → Result SourceError Source
  found none = err not_found
  found (some s) = ok s

  -- `Get`.
  unfoldable pub get : Str → M Source
  unfolding load found
  get id d = on_ok (λ ss d. (found (find source_id id ss), d)) (load d)

-- A mutating operation.
pub data Op : Type 0 where
  add_op update_op : Source → Op
  delete_op : Str → Op

unfoldable pub run_op : Env → Op → M (Unit {0})
unfolding checked_first
run_op env (add_op s) = checked_first env s (mutate env (add s))
run_op env (update_op s) = checked_first env s (mutate env (update s))
run_op env (delete_op id) = mutate env (delete id)
