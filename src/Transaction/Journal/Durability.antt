-- ===== src/Transaction/Journal/Durability.antt =====
-- What every operation leaves of the directory of transactions, whichever calls fail.
use podlaz.Common.{
  ℕ, ◌≡◌, ◌⊎◌, inl, inr, refl, sym, ap, ◌∙◌, Bool, false, List, [], ◌∷◌, Option, none, some, Str,
  str_eq, str_eq→≡, str_eq_refl, Result, ok, err, Check, arith, if◌then◌else◌, find, find-eq-some,
}
use podlaz.Files.{
  Disk, FileStep, sync_directory, atomic_write_private_file, atomic_write-Written, Written,
}
use podlaz.Transaction.Model.{Transaction}
use podlaz.Transaction.Secrets.{Json}
use podlaz.Transaction.Validation.{validate_transaction, validate_transaction_id}
use podlaz.Transaction.Journal.{
  Codec, Entry, entry_name, Journal, JournalError, file_failed, invalid_record, directory_failed,
  file_name, put, put_found, stamp, to_entry, torn_entry, Run, and_then, lifted, lift_step, call,
  write_entry, encoded, save_stamped, save, load_entry, load_file, load,
}

find-put :
    (n : Str) (e : Entry) (es : List Entry)
    → find entry_name n (put e es) ≡ (if str_eq e.name n then some e else find entry_name n es)
unfolding find put
find-put n e [] = refl
find-put n e (x ∷ xs) = ground (
  arith,
  find-put n e xs,
  str_eq→≡ x.name e.name,
  str_eq→≡ x.name n,
  str_eq_refl n,
  str_eq→≡ e.name n,
)

-- Writing a file that is there already changes nothing.
find-put_found :
    (n m : Str) (o : Option Entry) (es : List Entry)
    → o ≡ find entry_name n es
    → find entry_name m (put_found o es) ≡ find entry_name m es
find-put_found n m none es h = refl
find-put_found n m (some e) es h =
    let (k, _) = find-eq-some entry_name n es {x = e} (sym h) in
    ground (arith, find-put m e es, str_eq→≡ e.name m, h, k)

pub and_then_ends :
    {A B : Type 0} (P : Result JournalError B × Journal → Type 0)
    (r : Result JournalError A × Journal) (f : A → Run B)
    → ((e : JournalError) (j : Journal) → r ≡ (err e, j) → P (err e, j))
    → ((a : A) (j : Journal) → r ≡ (ok a, j) → P (f a j))
    → P (and_then r f)
and_then_ends P (ok a, j) f k l = l a j refl
and_then_ends P (err e, j) f k l = k e j refl

pub lifted-eq-ok :
    {E A : Type 0} (f : E → JournalError) (x : Result E A) (j : Journal) (a : A) (j' : Journal)
    → lifted f x j ≡ (ok a, j')
    → (x ≡ ok a) × (j' ≡ j)
lifted-eq-ok f (ok b) j a j' h = (cc, cc)
lifted-eq-ok f (err e) j a j' h = (cc, cc)

pub lifted-files :
    {E A : Type 0} (f : E → JournalError) (x : Result E A) (j : Journal)
    → (lifted f x j).1.files ≡ j.files
lifted-files f (ok b) j = refl
lifted-files f (err e) j = refl

-- No file reads differently.
abbrev pub SameFiles : Journal → Journal → Type 0
SameFiles j j' = (n : Str) → find entry_name n j'.files ≡ find entry_name n j.files

-- The document of this record is in its file, and no other file reads differently.
abbrev pub Holds : Codec → Transaction → Journal → Journal → Type 0
Holds codec tx j j' =
    (b : Json) × (codec.encode tx ≡ some b)
    × ((n : Str)
        → find entry_name n j'.files ≡ (
            if str_eq (file_name tx.id) n then some (to_entry tx b) else find entry_name n j.files))

module _ (fails : ℕ → Bool) (codec : Codec) where
  -- What is left by a save of this record: a valid record in its file; on an error nothing has
  -- changed, unless only the directory was not synced.
  abbrev pub Saves : Transaction → Journal → Check JournalError × Journal → Type 0
  Saves tx j (ok _, j') = (validate_transaction codec.encode tx ≡ ok tt) × Holds codec tx j j'
  Saves tx j (err e, j') =
      SameFiles j j'
      ⊎ (e ≡ file_failed sync_directory)
        × (validate_transaction codec.encode tx ≡ ok tt)
        × Holds codec tx j j'

  pub same_files : (j j' : Journal) → j'.files ≡ j.files → SameFiles j j'
  same_files j j' e n = ap (find entry_name n) e

  Written-Saves :
      (tx : Transaction) (j0 j : Journal) (x : Check FileStep × Disk Entry) (b : Json)
      → validate_transaction codec.encode tx ≡ ok tt
      → codec.encode tx ≡ some b
      → j.files ≡ j0.files
      → Written
          (to_entry tx b)
          (record {
            target = find entry_name (file_name tx.id) j.files;
            leftovers = j.leftovers;
            calls = j.calls;
          })
          x
      → Saves tx j0 (
        lift_step x.0,
        record {
          files = put_found x.1.target j.files;
          leftovers = x.1.leftovers;
          calls = x.1.calls;
        },
      )
  Written-Saves tx j0 j (ok _, d) b v c e w =
      (v, (b, c, λ n. ground (arith, e, w, find-put n (to_entry tx b) j.files)))
  Written-Saves tx j0 j (err s, d) b v c e (inl w) =
      inl λ n. find-put_found (file_name tx.id) n d.target j.files w ∙ ap (find entry_name n) e
  Written-Saves tx j0 j (err s, d) b v c e (inr (t, w)) =
      inr
        (ap file_failed t, v, (b, c, λ n. ground (arith, e, w, find-put n (to_entry tx b) j.files)))

  call-files : (e : JournalError) (j : Journal) → (call fails codec e j).1.files ≡ j.files
  unfolding call
  call-files e j = ground arith

  -- A step before the save that leaves the files.
  before_save :
      {A : Type 0} (tx : Transaction) (j0 j : Journal) (r : Result JournalError A × Journal)
      (f : A → Run (Unit {0}))
      → j.files ≡ j0.files
      → r.1.files ≡ j.files
      → ((a : A) (j' : Journal) → r ≡ (ok a, j') → j'.files ≡ j0.files → Saves tx j0 (f a j'))
      → Saves tx j0 (and_then r f)
  before_save tx j0 j (ok a, j') f e t k = k a j' refl (t ∙ e)
  before_save tx j0 j (err c, j') f e t k = inl (same_files j0 j' (t ∙ e))

  write_entry-Saves :
      (tx : Transaction) (j0 j : Journal) (b : Json)
      → validate_transaction codec.encode tx ≡ ok tt
      → codec.encode tx ≡ some b
      → j.files ≡ j0.files
      → Saves tx j0 (write_entry fails codec (to_entry tx b) j)
  unfolding write_entry
  write_entry-Saves tx j0 j b v c e =
      let d : Disk Entry = record {
        target = find entry_name (file_name tx.id) j.files;
        leftovers = j.leftovers;
        calls = j.calls;
      } in
      Written-Saves tx j0 j
        (atomic_write_private_file fails (torn_entry fails codec) (to_entry tx b) d) b v c e
        (atomic_write-Written fails (torn_entry fails codec) (to_entry tx b) d)

  encoded-eq-ok : (o : Option Json) (b : Json) → encoded fails codec o ≡ ok b → o ≡ some b
  unfolding encoded
  encoded-eq-ok o b h = ground arith

  save_stamped-Saves : (tx : Transaction) (j : Journal) → Saves tx j (save_stamped fails codec tx j)
  unfolding save_stamped
  save_stamped-Saves tx j =
      before_save tx j j (lifted invalid_record (validate_transaction codec.encode tx) j) _ refl
        (lifted-files invalid_record (validate_transaction codec.encode tx) j)
        λ _ j1 r1 e1.
          before_save tx j j1 (lifted invalid_record (validate_transaction_id tx.id) j1) _ e1
            (lifted-files invalid_record (validate_transaction_id tx.id) j1)
            λ _ j2 _ e2.
              before_save tx j j2 (call fails codec directory_failed j2) _ e2
                (call-files directory_failed j2)
                λ _ j3 _ e3.
                  before_save tx j j3 (lifted (λ e. e) (encoded fails codec (codec.encode tx)) j3) _
                    e3 (lifted-files (λ e. e) (encoded fails codec (codec.encode tx)) j3)
                    λ b j4 r4 e4.
                      write_entry-Saves tx j j4 b
                        (lifted-eq-ok invalid_record (validate_transaction codec.encode tx) j tt j1
                          r1).0
                        (encoded-eq-ok (codec.encode tx) b
                          (lifted-eq-ok (λ e. e) (encoded fails codec (codec.encode tx)) j3 b j4
                            r4).0)
                        e4

  -- Whichever calls fail, a save that succeeds has stored the record, which is valid, and a save that
  -- fails has changed nothing, unless only the directory was not synced behind the new record. No
  -- other file of the directory reads differently.
  pub save-Saves :
      (now : ℕ) (tx : Transaction) (j : Journal)
      → Saves (stamp now tx) j (save fails codec now tx j)
  unfolding save
  save-Saves now tx j = save_stamped-Saves (stamp now tx) j

  -- The document of this record is read as the record.
  abbrev pub ReadsBack : Transaction → Type 0
  ReadsBack tx = (b : Json) → codec.encode tx ≡ some b → codec.decode b ≡ some tx

  -- A save that succeeds is read back by the next load, if the read does not fail.
  saved_loads :
      (tx : Transaction) (j : Journal) (x : Check JournalError × Journal)
      → ReadsBack tx
      → Saves tx j x
      → x.0 ≡ ok tt
      → load_entry fails codec (find entry_name (file_name tx.id) x.1.files) ≡ ok tx
  unfolding load_entry
  saved_loads tx j (ok _, j') back (v, (b, c, h)) e =
      ground (arith, h (file_name tx.id), str_eq_refl (file_name tx.id), v, back b c)
  saved_loads tx j (err _, j') back s e = cc

  valid_id :
      (tx : Transaction)
      → validate_transaction codec.encode tx ≡ ok tt
      → validate_transaction_id tx.id ≡ ok tt
  unfolding validate_transaction
  valid_id tx v = ground arith

  load_back :
      (id : Str) (j : Journal) (tx : Transaction)
      → validate_transaction_id id ≡ ok tt
      → fails j.calls ≡ false
      → load_entry fails codec (find entry_name (file_name id) j.files) ≡ ok tx
      → (load fails codec id j).0 ≡ ok tx
  unfolding load load_file call
  load_back id j tx v f l = ground (arith, v, f, l)

  saved_valid :
      (tx : Transaction) (j : Journal) (x : Check JournalError × Journal)
      → Saves tx j x
      → x.0 ≡ ok tt
      → validate_transaction codec.encode tx ≡ ok tt
  saved_valid tx j (ok _, j') (v, _) e = v
  saved_valid tx j (err _, j') s e = cc

  -- What a save has stored is what the next load returns, if its document is read as the record and the
  -- load can read the file.
  load-save :
      (now : ℕ) (tx : Transaction) (j : Journal)
      → ReadsBack (stamp now tx)
      → (save fails codec now tx j).0 ≡ ok tt
      → fails (save fails codec now tx j).1.calls ≡ false
      → (load fails codec tx.id (save fails codec now tx j).1).0 ≡ ok (stamp now tx)
  unfolding stamp
  load-save now tx j back e f =
      let x = save fails codec now tx j in
      let h = save-Saves now tx j in
      load_back tx.id x.1 (stamp now tx)
        (valid_id (stamp now tx) (saved_valid (stamp now tx) j x h e)) f
        (saved_loads (stamp now tx) j x back h e)
