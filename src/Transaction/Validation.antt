-- ===== src/Transaction/Validation.antt =====
-- The check of a record that is written or read (internal/state/transaction.go:
-- `ValidateTransaction`). `encode` is what `json.Marshal` and `json.Unmarshal` make of a record, as a
-- document, or none where they fail.
use podlaz.Common.{
  ℕ, ◌≤◌, ◌≡◌, ◌≢◌, Bool, true, false, not, ◌&&◌, ◌||◌, [], ◌∷◌, Option, none, some, Str, str_eq,
  str_eq→≡, trim_space, is_empty, is_alnum, is_digit, all, any, All, length, leb, ◌==◌, ok, Check,
  ◌>>◌, fail_if, arith, Option-cases, inl, inr,
}
use podlaz.Transaction.Model.{Transaction, transaction_schema_version, transaction_owner}
use podlaz.Transaction.Lifecycle.{is_valid_state}
use podlaz.Transaction.Secrets.{
  Json, contains_secret, leaves, is_secret_leaf, contains_secret-leaves,
}

pub data ValidationError : Type 0 where
  unsupported_schema unsupported_owner empty_id invalid_id invalid_state : ValidationError
  missing_created_at missing_updated_at secret_found : ValidationError

-- `[A-Za-z0-9_.-]`.
is_id_rune : ℕ → Bool
is_id_rune c = is_alnum c || c == b'_' || c == b'.' || c == b'-'

-- `transactionIDPattern`.
unfoldable pub matches_id : Str → Bool
unfolding is_id_rune
matches_id [] = false
matches_id (c ∷ s) = is_alnum c && all is_id_rune s && leb (length s) 127

-- `validateTransactionID`.
unfoldable pub validate_transaction_id : Str → Check ValidationError
validate_transaction_id id =
    fail_if (is_empty (trim_space id)) empty_id >> fail_if (not (matches_id id)) invalid_id

-- A safe name of a file: not empty, bounded, and without a separator.
abbrev pub IsFileName : Str → Type 0
IsFileName s = (s ≢ []) × (length s ≤ 128) × All (λ c. c ≢ b'/') s

no_separator : (s : Str) → all is_id_rune s ≡ true → All (λ c. c ≢ b'/') s
unfolding is_id_rune is_alnum is_digit
no_separator [] h = tt
no_separator (c ∷ s) h = (λ e. ground arith, no_separator s (ground arith))

matches_id-IsFileName : (s : Str) → matches_id s ≡ true → IsFileName s
unfolding matches_id is_alnum is_digit
matches_id-IsFileName [] h = ground arith
matches_id-IsFileName (c ∷ s) h =
    (λ e. ground arith, ground arith, (λ e. ground arith, no_separator s (ground arith)))

module _ (encode : Transaction → Option Json) where
  -- `containsPersistentSecret`.
  unfoldable pub contains_persistent_secret : Transaction → Bool
  contains_persistent_secret tx = elim (encode tx) [ none ↦ true | some j ↦ contains_secret [] j ]

  -- `ValidateTransaction`.
  unfoldable pub validate_transaction : Transaction → Check ValidationError
  unfolding validate_transaction_id contains_persistent_secret
  validate_transaction tx = do
    fail_if (not (str_eq tx.schema_version transaction_schema_version)) unsupported_schema
    fail_if (not (str_eq tx.owner transaction_owner)) unsupported_owner
    validate_transaction_id tx.id
    fail_if (not (is_valid_state tx.state)) invalid_state
    fail_if (tx.created_at == 0) missing_created_at
    fail_if (tx.updated_at == 0) missing_updated_at
    fail_if (contains_persistent_secret tx) secret_found

  -- What a record that passes is: of this program and version, under a name that is safe for a
  -- file, in a known state with both times, and without a secret in any string of its document.
  abbrev pub IsTransaction : Transaction → Type 0
  IsTransaction tx =
      (tx.schema_version ≡ transaction_schema_version)
      × (tx.owner ≡ transaction_owner)
      × IsFileName tx.id
      × (is_valid_state tx.state ≡ true)
      × (tx.created_at ≢ 0)
      × (tx.updated_at ≢ 0)
      × ((j : Json) × (encode tx ≡ some j) × (any is_secret_leaf (leaves [] j) ≡ false))

  no_secret :
      (tx : Transaction)
      → contains_persistent_secret tx ≡ false
      → (j : Json) × (encode tx ≡ some j) × (any is_secret_leaf (leaves [] j) ≡ false)
  unfolding contains_persistent_secret
  no_secret tx h = elim (Option-cases (encode tx)) [
    | inl e ↦ ground arith
    | inr (j, e) ↦ (j, e, ground (arith, contains_secret-leaves [] j))
  ]

  -- A record that passes its check is of this program and version, has a name that is safe for a
  -- file, a known state and both times, and no string of its document is secret.
  pub validate_transaction-IsTransaction :
      (tx : Transaction) → validate_transaction tx ≡ ok tt → IsTransaction tx
  unfolding validate_transaction validate_transaction_id
  validate_transaction-IsTransaction tx h =
      let s : str_eq tx.schema_version transaction_schema_version ≡ true = ground arith in
      let o : str_eq tx.owner transaction_owner ≡ true = ground arith in
      let m : matches_id tx.id ≡ true = ground arith in
      let n : contains_persistent_secret tx ≡ false = ground arith in
      (
        str_eq→≡ tx.schema_version transaction_schema_version s,
        str_eq→≡ tx.owner transaction_owner o,
        matches_id-IsFileName tx.id m,
        ground arith,
        ground arith,
        ground arith,
        no_secret tx n,
      )
