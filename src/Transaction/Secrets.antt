-- ===== src/Transaction/Secrets.antt =====
-- The guard against persisted secrets (internal/state/transaction.go:
-- `containsPersistentSecretValue`, `isSecretKey`, `secretValuePattern`).
use podlaz.Common.{
  ℕ, ◌≡◌, refl, Bool, true, false, not, ◌&&◌, ◌||◌, List, [], ◌∷◌, ◌++◌, map, Option, none, some,
  arith, Str, text, str_eq, trim_space, to_lower, is_empty, is_alnum, any, ◌==◌, if◌then◌else◌,
  fold_rune,
}

-- What `json.Unmarshal` makes of a document.
mutual
  pub data Json : Type 0 where
    null : Json
    truth : Bool → Json
    number : ℕ → Json
    string : Str → Json
    array : Items → Json
    object : Fields → Json

  pub data Items : Type 0 where
    nil : Items
    cons : Json → Items → Items

  pub data Fields : Type 0 where
    end : Fields
    field : Str → Json → Fields → Fields

abbrev secret_keys : List Str
secret_keys =
    text "token"
    ∷ text "access_token"
    ∷ text "refresh_token"
    ∷ text "password"
    ∷ text "passwd"
    ∷ text "secret"
    ∷ text "client_secret"
    ∷ text "api_key"
    ∷ text "apikey"
    ∷ text "authorization"
    ∷ text "private_key"
    ∷ text "privatekey"
    ∷ text "reality_private_key"
    ∷ []

dash_to_underscore : ℕ → ℕ
dash_to_underscore c = if c == b'-' then b'_' else c

unfoldable pub is_secret_key : Str → Bool
unfolding dash_to_underscore trim_space to_lower str_eq
is_secret_key key = any (str_eq (to_lower (map dash_to_underscore (trim_space key)))) secret_keys

-- `\s` of the pattern's syntax.
is_blank : ℕ → Bool
is_blank c = c == 9 || c == 10 || c == 12 || c == 13 || c == 32

-- `\w`.
is_word : ℕ → Bool
is_word c = is_alnum c || c == b'_'

-- `\b` between the rune before, if it is a word's, and the text that follows.
boundary : Bool → Str → Bool
boundary before [] = before
boundary before (c ∷ s) = if before then not (is_word c) else is_word c

-- The rest behind a word, in any case.
cut_word : Str → Str → Option Str
cut_word [] s = some s
cut_word (p ∷ ps) [] = none
cut_word (p ∷ ps) (c ∷ s) = if p == fold_rune c then cut_word ps s else none

behind : Option Str → (Str → Bool) → Bool
behind none p = false
behind (some s) p = p s

-- One rune or more that pass a test, and the rest behind the longest run of them.
skip : (ℕ → Bool) → Str → Str
skip p [] = []
skip p (c ∷ s) = if p c then skip p s else c ∷ s

begins : (ℕ → Bool) → Str → Bool
begins p [] = false
begins p (c ∷ s) = p c

is_host_rune : ℕ → Bool
is_host_rune c = not (is_blank c || c == b'?')

-- `\?[^\s]+`.
query : Str → Bool
query [] = false
query (c ∷ s) = c == b'?' && begins (λ d. not (is_blank d)) s

-- `[^\s?]+\?[^\s]+`.
address : Str → Bool
address s = begins is_host_rune s && query (skip is_host_rune s)

-- `[A-Za-z0-9._~+/-]`.
is_bearer_rune : ℕ → Bool
is_bearer_rune c = is_alnum (fold_rune c) || any (◌==◌ c) (text "._~+/-")

-- `\s+[A-Za-z0-9._~+/-]+`.
credential : Str → Bool
credential s = begins is_blank s && begins is_bearer_rune (skip is_blank s)

equals_sign : Str → Bool
equals_sign = begins (◌==◌ b'=')

-- `[_-]?key=`.
key_suffix : Str → Bool
key_suffix [] = false
key_suffix (c ∷ s) =
    behind (cut_word (text "key") (c ∷ s)) equals_sign
    || (c == b'_' || c == b'-') && behind (cut_word (text "key") s) equals_sign

always : Str → Bool
always s = true

-- The pattern at one place.
matches_at : Bool → Str → Bool
matches_at before s =
    any (λ w. behind (cut_word w s) always)
      (text "vless://" ∷ text "vmess://" ∷ text "trojan://" ∷ text "ss://" ∷ [])
    || any (λ w. behind (cut_word w s) address) (text "http://" ∷ text "https://" ∷ [])
    || boundary before s
      && (behind (cut_word (text "bearer") s) credential
          || any (λ w. behind (cut_word w s) equals_sign)
              (text "token"
                ∷ text "password"
                ∷ text "passwd"
                ∷ text "secret"
                ∷ text "authorization"
                ∷ [])
          || any (λ w. behind (cut_word w s) key_suffix) (text "api" ∷ text "private" ∷ []))

matches_from : Bool → Str → Bool
matches_from before [] = false
matches_from before (c ∷ s) = matches_at before (c ∷ s) || matches_from (is_word c) s

-- `secretValuePattern.MatchString`.
unfoldable pub matches_secret_value : Str → Bool
unfolding is_blank is_word boundary cut_word behind skip begins is_host_rune query address
    is_bearer_rune credential equals_sign key_suffix always matches_at matches_from fold_rune
    is_alnum
matches_secret_value = matches_from false

-- The case of a string.
unfoldable pub is_secret_string : Str → Str → Bool
is_secret_string key s =
    not (is_empty (trim_space s)) && (is_secret_key key || matches_secret_value (trim_space s))

unfoldable mutual
  pub contains_secret : Str → Json → Bool
  contains_secret key null = false
  contains_secret key (truth b) = false
  contains_secret key (number n) = false
  contains_secret key (string s) = is_secret_string key s
  contains_secret key (array xs) = items_contain_secret key xs
  contains_secret key (object fs) = fields_contain_secret fs

  pub items_contain_secret : Str → Items → Bool
  items_contain_secret key nil = false
  items_contain_secret key (cons x xs) = contains_secret key x || items_contain_secret key xs

  pub fields_contain_secret : Fields → Bool
  fields_contain_secret end = false
  fields_contain_secret (field k x fs) = contains_secret k x || fields_contain_secret fs

-- Every string of a document, with the key of the nearest object around it.
unfoldable mutual
  pub leaves : Str → Json → List (Str × Str)
  leaves key null = []
  leaves key (truth b) = []
  leaves key (number n) = []
  leaves key (string s) = (key, s) ∷ []
  leaves key (array xs) = item_leaves key xs
  leaves key (object fs) = field_leaves fs

  pub item_leaves : Str → Items → List (Str × Str)
  item_leaves key nil = []
  item_leaves key (cons x xs) = leaves key x ++ item_leaves key xs

  pub field_leaves : Fields → List (Str × Str)
  field_leaves end = []
  field_leaves (field k x fs) = leaves k x ++ field_leaves fs

abbrev pub is_secret_leaf : Str × Str → Bool
is_secret_leaf (k, s) = is_secret_string k s

any-append :
    {A : Type 0} (p : A → Bool) (xs ys : List A) → any p (xs ++ ys) ≡ (any p xs || any p ys)
any-append p [] ys = refl
any-append p (x ∷ xs) ys = ground (arith, any-append p xs ys)

mutual
  unfolding contains_secret leaves

  contains-leaves :
      (key : Str) (x : Json) → contains_secret key x ≡ any is_secret_leaf (leaves key x)
  contains-leaves key null = refl
  contains-leaves key (truth b) = refl
  contains-leaves key (number n) = refl
  contains-leaves key (string s) = ground arith
  contains-leaves key (array xs) = items-leaves key xs
  contains-leaves key (object fs) = fields-leaves fs

  items-leaves :
      (key : Str) (xs : Items)
      → items_contain_secret key xs ≡ any is_secret_leaf (item_leaves key xs)
  items-leaves key nil = refl
  items-leaves key (cons x xs) = ground (
    arith,
    any-append is_secret_leaf (leaves key x) (item_leaves key xs),
    contains-leaves key x,
    items-leaves key xs,
  )

  fields-leaves : (fs : Fields) → fields_contain_secret fs ≡ any is_secret_leaf (field_leaves fs)
  fields-leaves end = refl
  fields-leaves (field k x fs) = ground (
    arith,
    any-append is_secret_leaf (leaves k x) (field_leaves fs),
    contains-leaves k x,
    fields-leaves fs,
  )

-- The search through a document finds a secret exactly if one of its strings, at any depth, is
-- not blank and stands under a secret key or matches the pattern of secret values.
pub contains_secret-leaves :
    (key : Str) (x : Json) → contains_secret key x ≡ any is_secret_leaf (leaves key x)
contains_secret-leaves = contains-leaves
