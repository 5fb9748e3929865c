-- ===== src/Transaction/Journal/Scanning.antt =====
-- What the scan of the directory reports.
use mathlib.Core.Path.{subst}
use podlaz.Common.{
  Check, ℕ, suc, ◌+◌, ◌≡◌, refl, sym, ◌∙◌, Bool, true, false, List, [], ◌∷◌, Str, Result, ok, err,
  arith, if◌then◌else◌, All, find, insert_by, sort_by, str_eq, Bool-cases, inl, inr, ◌⊎◌,
}
use podlaz.Transaction.Model.{Transaction}
use podlaz.Transaction.Journal.{
  Codec, Entry, entry_name, Journal, JournalError, Summary, suffix, has_suffix, summary,
  insert_summary, comes_first, call, load_entry, load_file, add_scanned, scan_one, scan_listed,
  scan_entries, directory_failed, scan,
}

-- How often a name is in a list.
abbrev pub times : Str → List Str → ℕ
times n [] = 0
times n (x ∷ xs) = if str_eq x n then suc (times n xs) else times n xs

-- The names of those that are files of transactions.
abbrev pub file_names : List Entry → List Str
file_names [] = []
file_names (e ∷ es) = if has_suffix e.name suffix then e.name ∷ file_names es else file_names es

abbrev pub paths : List Summary → List Str
paths [] = []
paths (s ∷ ss) = s.path ∷ paths ss

times-insert_summary :
    (n : Str) (s : Summary) (ss : List Summary)
    → times n (paths (insert_summary s ss)) ≡ times n (s.path ∷ paths ss)
unfolding insert_summary
times-insert_summary n s [] = refl
times-insert_summary n s (t ∷ ts) = ground (arith, times-insert_summary n s ts)

times-insert_by :
    (n : Str) (e : Entry) (es : List Entry)
    → times n (file_names (insert_by entry_name e es)) ≡ times n (file_names (e ∷ es))
unfolding insert_by
times-insert_by n e [] = refl
times-insert_by n e (x ∷ xs) = ground (arith, times-insert_by n e xs)

times-sort_by :
    (n : Str) (es : List Entry)
    → times n (file_names (sort_by entry_name es)) ≡ times n (file_names es)
unfolding sort_by
times-sort_by n [] = refl
times-sort_by n (e ∷ es) =
    times-insert_by n e (sort_by entry_name es) ∙ ground (arith, times-sort_by n es)

All-insert_summary :
    (P : Summary → Type 0) (s : Summary) (ss : List Summary)
    → P s
    → All P ss
    → All P (insert_summary s ss)
unfolding insert_summary
All-insert_summary P s [] p h = (p, tt)
All-insert_summary P s (t ∷ ts) p (q, h) =
    elim (comes_first t s) as (λ b. All P (if b then t ∷ insert_summary s ts else s ∷ t ∷ ts)) [
      | true ↦ (q, All-insert_summary P s ts p h)
      | false ↦ (p, (q, h))
    ]

module _ (fails : ℕ → Bool) (codec : Codec) where
  -- A summary is that of the valid record in the file that it names.
  abbrev pub Describes : List Entry → Summary → Type 0
  Describes files s =
      (tx : Transaction) × (load_entry fails codec (find entry_name s.path files) ≡ ok tx)
      × (s ≡ summary s.path tx)

  -- A file that could not be read, or whose document is no valid record.
  abbrev pub IsUnloaded : List Entry → Str → Type 0
  IsUnloaded files name =
      ((k : ℕ) × (fails k ≡ true))
      ⊎ ((e : JournalError) × (load_entry fails codec (find entry_name name files) ≡ err e))

  -- Every file of a transaction is reported once, by its summary or by a warning.
  abbrev pub Reports : List Entry → List Entry → List Summary × List Str → Type 0
  Reports files es (ss, ws) =
      All (Describes files) ss
      × All (IsUnloaded files) ws
      × ((n : Str) → times n (paths ss) + times n ws ≡ times n (file_names es))

  load_file-eq :
      (name : Str) (j : Journal) (tx : Transaction) (j' : Journal)
      → load_file fails codec name j ≡ (ok tx, j')
      → load_entry fails codec (find entry_name name j.files) ≡ ok tx
  unfolding load_file call
  load_file-eq name j tx j' h = ground arith

  load_file-eq-err :
      (name : Str) (j : Journal) (c : JournalError) (j' : Journal)
      → load_file fails codec name j ≡ (err c, j')
      → IsUnloaded j.files name
  unfolding load_file call
  load_file-eq-err name j c j' h = elim (Bool-cases (fails j.calls)) [
    | inl e ↦ inl (j.calls, e)
    | inr e ↦ inr (c, ground (arith, e, h))
  ]

  load_file-files : (name : Str) (j : Journal) → (load_file fails codec name j).1.files ≡ j.files
  unfolding load_file call
  load_file-files name j = ground arith

  add_scanned-Reports :
      (e : Entry) (es : List Entry) (j : Journal) (x : Result JournalError Transaction × Journal)
      (rest : List Summary × List Str)
      → load_file fails codec e.name j ≡ x
      → Reports j.files es rest
      → has_suffix e.name suffix ≡ true
      → Reports j.files (e ∷ es) (add_scanned fails codec e x.0 rest)
  unfolding add_scanned summary
  add_scanned-Reports e es j (ok tx, j') (ss, ws) h (a, w, c) n = (
    All-insert_summary (Describes j.files) (summary e.name tx) ss
        (tx, load_file-eq e.name j tx j' h, refl) a,
    w,
    λ m. ground (arith, times-insert_summary m (summary e.name tx) ss, n, c m),
  )
  add_scanned-Reports e es j (err c, j') (ss, ws) h (a, w, k) n =
      (a, (load_file-eq-err e.name j c j' h, w), λ m. ground (arith, n, k m))

  scan_one-Reports :
      (b : Bool) (e : Entry) (es : List Entry) (next : Journal → List Summary × List Str)
      (j : Journal) (files : List Entry)
      → b ≡ has_suffix e.name suffix
      → j.files ≡ files
      → ((j' : Journal) → j'.files ≡ files → Reports files es (next j'))
      → Reports files (e ∷ es) (scan_one fails codec b e next j)
  unfolding scan_one
  scan_one-Reports true e es next j files n h k =
      let x = load_file fails codec e.name j in
      subst (λ fs. Reports fs (e ∷ es) (add_scanned fails codec e x.0 (next x.1))) h
        (add_scanned-Reports e es j x (next x.1) refl
          (subst (λ fs. Reports fs es (next x.1)) (sym h) (k x.1 (load_file-files e.name j ∙ h)))
          (sym n))
  scan_one-Reports false e es next j files n h k =
      let (a, w, c) = k j h in (a, w, λ m. ground (arith, n, c m))

  scan_entries-Reports :
      (es : List Entry) (j : Journal) (files : List Entry)
      → j.files ≡ files
      → Reports files es (scan_entries fails codec es j)
  unfolding scan_entries
  scan_entries-Reports [] j files e = (tt, tt, λ _. refl)
  scan_entries-Reports (x ∷ xs) j files e =
      scan_one-Reports (has_suffix x.name suffix) x xs (scan_entries fails codec xs) j files refl e
        λ j' e'. scan_entries-Reports xs j' files e'

  scan_listed-Reports :
      (files : List Entry) (r : Check JournalError × Journal)
      → r.0 ≡ ok tt
      → r.1.files ≡ files
      → Reports files (sort_by entry_name files) (scan_listed fails codec r)
  unfolding scan_listed
  scan_listed-Reports files (ok _, j) h e =
      subst
        (λ fs.
          Reports files (sort_by entry_name fs)
            (scan_entries fails codec (sort_by entry_name j.files) j))
        e (scan_entries-Reports (sort_by entry_name j.files) j files e)
  scan_listed-Reports files (err _, j) h e = cc

  sorted-Reports :
      (files : List Entry) (x : List Summary × List Str)
      → Reports files (sort_by entry_name files) x
      → Reports files files x
  sorted-Reports files (ss, ws) (a, w, c) = (a, w, λ n. c n ∙ times-sort_by n files)

  -- A scan that can read the directory reports every file of a transaction once, by the path of a
  -- summary or by a warning with its name, and nothing else. A summary is that of the valid record in
  -- the file that it names, and a warning stands for a call that failed or a file without a valid
  -- record.
  pub scan-Reports :
      (j : Journal) → fails j.calls ≡ false → Reports j.files j.files (scan fails codec j)
  unfolding scan call
  scan-Reports j f =
      sorted-Reports j.files (scan fails codec j)
        (scan_listed-Reports j.files (call fails codec directory_failed j) (ground (arith, f)) refl)
