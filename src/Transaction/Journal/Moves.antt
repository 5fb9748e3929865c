-- ===== src/Transaction/Journal/Moves.antt =====
-- What a request to move a stored transaction leaves, whichever calls fail.
use mathlib.Core.Path.{subst}
use podlaz.Common.{
  ℕ, ◌≡◌, ◌⊎◌, inl, inr, refl, sym, ap, ◌∙◌, Bool, true, false, Str, Result, ok, err, Check, arith,
  find,
}
use podlaz.Transaction.Model.{Transaction, TransactionState}
use podlaz.Transaction.Lifecycle.{transition, is_next, given_or}
use podlaz.Transaction.Journal.{
  Codec, entry_name, Journal, JournalError, refused, file_name, stamp, and_then, lifted, call, save,
  load_entry, load_file, load, save_moved, move,
}
use podlaz.Transaction.Paths.{transition-eq-ok}
use podlaz.Transaction.Journal.Durability.{
  and_then_ends, lifted-eq-ok, lifted-files, SameFiles, Holds, Saves, same_files, save-Saves,
}

module _ (fails : ℕ → Bool) (codec : Codec) where
  -- What a request to move a transaction leaves: a move that is not allowed, like every other
  -- failure before the save, changes nothing.
  abbrev pub Moves : ℕ → ℕ → Str → TransactionState → Journal → Journal → Type 0
  Moves now later id next j j' =
      SameFiles j j'
      ⊎ ((tx : Transaction) × (load_entry fails codec (find entry_name (file_name id) j.files)
            ≡ ok tx)
          × (is_next tx.state next ≡ true)
          × Holds codec (stamp later (record tx { state = next; updated_at = given_or now now })) j
              j')

  load-files : (id : Str) (j : Journal) → (load fails codec id j).1.files ≡ j.files
  unfolding load load_file call
  load-files id j = ground arith

  load-eq-ok :
      (id : Str) (j : Journal) (tx : Transaction) (j' : Journal)
      → load fails codec id j ≡ (ok tx, j')
      → load_entry fails codec (find entry_name (file_name id) j.files) ≡ ok tx
  unfolding load load_file call
  load-eq-ok id j tx j' h = ground arith

  saved_moves :
      (tx : Transaction) (j : Journal) (x : Check JournalError × Journal)
      → Saves fails codec tx j x
      → SameFiles j x.1 ⊎ Holds codec tx j x.1
  saved_moves tx j (ok _, j') (_, h) = inr h
  saved_moves tx j (err e, j') (inl s) = inl s
  saved_moves tx j (err e, j') (inr (_, _, h)) = inr h

  moved :
      (now later : ℕ) (id : Str) (next : TransactionState) (j0 j j' : Journal)
      (tx tx' : Transaction)
      → load_entry fails codec (find entry_name (file_name id) j0.files) ≡ ok tx
      → j.files ≡ j0.files
      → is_next tx.state next ≡ true
      → tx' ≡ record tx { state = next; updated_at = given_or now now }
      → SameFiles j j' ⊎ Holds codec (stamp later tx') j j'
      → Moves now later id next j0 j'
  unfolding stamp
  moved now later id next j0 j j' tx tx' l e n t (inl s) = inl λ m. s m ∙ ap (find entry_name m) e
  moved now later id next j0 j j' tx tx' l e n t (inr h) =
      let (b, c, g) = subst (λ x. Holds codec (stamp later x) j j') t h in
      inr (tx, l, n, (b, c, λ m. ground (arith, g m, e)))

  and_then-files :
      {A B : Type 0} (r : Result JournalError A × Journal) (b : B)
      → (and_then r λ _ j. (ok b, j)).1 ≡ r.1
  and_then-files (ok a, j) b = refl
  and_then-files (err e, j) b = refl

  move_later :
      (now later : ℕ) (id : Str) (next : TransactionState) (j0 j : Journal) (tx : Transaction)
      (b : Bool) (tx' : Transaction)
      → load_entry fails codec (find entry_name (file_name id) j0.files) ≡ ok tx
      → j.files ≡ j0.files
      → transition now tx next now ≡ ok (b, tx')
      → Moves now later id next j0 (save_moved fails codec later (b, tx') j).1
  unfolding save_moved
  move_later now later id next j0 j tx false tx' l e t = inl (same_files fails codec j0 j e)
  move_later now later id next j0 j tx true tx' l e t = elim (transition-eq-ok now tx next now t) [
    | inl (f, _, _) ↦ cc
    | inr (_, n, q) ↦
        moved now later id next j0 j (and_then (save fails codec later tx' j) λ _ j. (ok tx', j)).1
          tx tx' l e n q
          (subst (λ k. SameFiles j k ⊎ Holds codec (stamp later tx') j k)
            (sym (and_then-files (save fails codec later tx' j) tx'))
            (saved_moves (stamp later tx') j (save fails codec later tx' j)
              (save-Saves fails codec later tx' j)))
  ]

  -- Whichever calls fail, a request to move a transaction leaves every file as it reads, or replaces
  -- the file of the transaction alone, by the loaded record in the requested state, and only along an
  -- edge of the states.
  pub move-Moves :
      (now later : ℕ) (id : Str) (next : TransactionState) (j : Journal)
      → Moves now later id next j (move fails codec now later id next j).1
  unfolding move
  move-Moves now later id next j =
      and_then_ends (λ x. Moves now later id next j x.1) (load fails codec id j) _
        (λ e j1 r. inl (
          same_files fails codec j j1 (
            sym (ap (λ (x : Result JournalError Transaction × Journal). x.1.files) r)
            ∙ load-files id j)))
        λ tx j1 r.
          let e1 =
            sym (ap (λ (x : Result JournalError Transaction × Journal). x.1.files) r)
            ∙ load-files id j in
          and_then_ends (λ x. Moves now later id next j x.1)
            (lifted refused (transition now tx next now) j1) _
            (λ e j2 r2. inl (
              same_files fails codec j j2 (
                sym (ap (λ (x : Result JournalError (Bool × Transaction) × Journal). x.1.files) r2)
                ∙ (lifted-files refused (transition now tx next now) j1 ∙ e1))))
            λ b j2 r2.
              let (t, k) = lifted-eq-ok refused (transition now tx next now) j1 b j2 r2 in
              move_later now later id next j j2 tx b.0 b.1 (load-eq-ok id j tx j1 r)
                (ap (λ (x : Journal). x.files) k ∙ e1) t
