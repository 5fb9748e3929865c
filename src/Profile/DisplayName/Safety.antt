-- ===== src/Profile/DisplayName/Safety.antt =====
-- What a sanitized name and a normalized identity are made of.
use mathlib.Core.Path.{subst}
use mathlib.Core.List.{reverse, reverse_aux}
use podlaz.Common.{
  ℕ, suc, zero, ◌+◌, ◌≤◌, ◌≡◌, refl, Bool, true, false, not, ◌||◌, ◌==◌, [], ◌∷◌, Option, none,
  some, Str, all, length, is_empty, trim_space, trim_left, is_digit, arith, if◌then◌else◌,
}
use podlaz.Profile.Validation.{is_valid_id, is_id_rune}
use podlaz.Profile.DisplayName.{
  max_display_name_runes, is_separator, collapse, take, truncate_runes, is_unsafe, accept,
  sanitize_display_name, id_runes, is_id_letter, is_id_separator, trim_separators_left,
  trim_separators, normalize_id,
}

module _ (p : ℕ → Bool) where
  all-reverse_aux : (s t : Str) → all p s ≡ true → all p t ≡ true → all p (reverse_aux s t) ≡ true
  all-reverse_aux [] t g h = h
  all-reverse_aux (c ∷ s) t g h = all-reverse_aux s (c ∷ t) (ground arith) (ground arith)

  all-trim_left : (s : Str) → all p s ≡ true → all p (trim_left s) ≡ true
  unfolding trim_left
  all-trim_left [] h = refl
  all-trim_left (c ∷ s) h = ground (arith, all-trim_left s)

  all-trim_space : (s : Str) → all p s ≡ true → all p (trim_space s) ≡ true
  unfolding trim_space
  all-trim_space s h =
      all-reverse_aux (trim_left (reverse (trim_left s))) []
        (all-trim_left (reverse (trim_left s))
          (all-reverse_aux (trim_left s) [] (all-trim_left s h) refl))
        refl

  all-take : (n : ℕ) (s : Str) → all p s ≡ true → all p (take n s) ≡ true
  unfolding take
  all-take zero s h = refl
  all-take (suc n) [] h = refl
  all-take (suc n) (c ∷ s) h = ground (arith, all-take n s)

length-reverse_aux : (s t : Str) → length (reverse_aux s t) ≡ length s + length t
length-reverse_aux [] t = omega arith
length-reverse_aux (c ∷ s) t = ground (arith, length-reverse_aux s (c ∷ t))

length-trim_left : (s : Str) → length (trim_left s) ≤ length s
unfolding trim_left
length-trim_left [] = omega arith
length-trim_left (c ∷ s) = ground (arith, length-trim_left s)

length-trim_space : (s : Str) → length (trim_space s) ≤ length s
unfolding trim_space
length-trim_space s =
    let t = trim_left s in
    ground (
      arith,
      length-reverse_aux (trim_left (reverse t)) [],
      length-trim_left (reverse t),
      length-reverse_aux t [],
      length-trim_left s,
    )

length-take : (n : ℕ) (s : Str) → length (take n s) ≤ n
unfolding take
length-take zero s = omega arith
length-take (suc n) [] = omega arith
length-take (suc n) (c ∷ s) = ground (arith, length-take n s)

-- A rune that a name may have: of the separators, only the space.
abbrev pub is_display_rune : ℕ → Bool
is_display_rune c = not (is_separator c) || c == b' '

all-collapse : (b c : Bool) (s : Str) → all is_display_rune (collapse b c s) ≡ true
unfolding collapse
all-collapse b c [] = refl
all-collapse b c (x ∷ s) =
    ground (arith, all-collapse true false s, all-collapse true true s, all-collapse b c s)

kept_name :
    (refused unsafe : Bool) (t n : Str)
    → (if refused then none else if unsafe then none else some t) ≡ some n
    → (unsafe ≡ false) × (t ≡ n)
kept_name refused unsafe t n e = (ground arith, ground arith)

not_refused :
    (refused : Bool) (o : Option Str) (n : Str)
    → (if refused then none else o) ≡ some n
    → o ≡ some n
not_refused true o n e = cc
not_refused false o n e = e

module _ (lower : Str → Str) where
  -- A name of at most 80 runes without control characters and path separators, which is none of the
  -- texts that are refused.
  abbrev pub IsDisplayName : Str → Type 0
  IsDisplayName n =
      (all is_display_rune n ≡ true)
      × (length n ≤ max_display_name_runes)
      × (is_unsafe lower n ≡ false)

  truncate_runes-bound : (s : Str) (n : ℕ) → length (truncate_runes s n) ≤ n
  unfolding truncate_runes
  truncate_runes-bound s n = ground (arith, length-trim_space (take n s), length-take n s)

  all-truncate_runes :
      (s : Str) (n : ℕ)
      → all is_display_rune s ≡ true
      → all is_display_rune (truncate_runes s n) ≡ true
  unfolding truncate_runes
  all-truncate_runes s n h =
      ground (arith, all-trim_space is_display_rune (take n s) (all-take is_display_rune n s h))

  accept-IsDisplayName :
      (s n : Str) → all is_display_rune s ≡ true → accept lower s ≡ some n → IsDisplayName n
  unfolding accept
  accept-IsDisplayName s n h e =
      let t = truncate_runes s max_display_name_runes in
      let (u, q) = kept_name (is_empty s) (is_unsafe lower t) t n e in
      subst IsDisplayName q (
        all-truncate_runes s max_display_name_runes h,
        truncate_runes-bound s max_display_name_runes,
        u,
      )

  -- A raw name that is sanitized has at most 80 runes, no control character and no path separator,
  -- and is none of the texts that are refused: an identity, a secret, a link or a configuration.
  pub sanitize_display_name-IsDisplayName :
      (raw n : Str) → sanitize_display_name lower raw ≡ some n → IsDisplayName n
  unfolding sanitize_display_name
  sanitize_display_name-IsDisplayName raw n e =
      let c = collapse false false (trim_space raw) in
      accept-IsDisplayName (trim_space c) n
        (all-trim_space is_display_rune c (all-collapse false false (trim_space raw)))
        (not_refused (is_empty (trim_space raw)) (accept lower (trim_space c)) n e)

  is_id_letter-is_id_rune : (c : ℕ) → is_id_letter lower c ≡ true → is_id_rune c ≡ true
  unfolding is_id_letter is_id_rune
  is_id_letter-is_id_rune c h = ground arith

  is_id_separator-is_id_rune : (c : ℕ) → is_id_separator lower c ≡ true → is_id_rune c ≡ true
  unfolding is_id_separator is_id_rune
  is_id_separator-is_id_rune c h = ground arith

  dash-is_id_rune : is_id_rune b'-' ≡ true
  unfolding is_id_rune is_digit
  dash-is_id_rune = refl

  all-id_runes : (b c : Bool) (s : Str) → all is_id_rune (id_runes lower b c s) ≡ true
  unfolding id_runes
  all-id_runes b c [] = refl
  all-id_runes b c (x ∷ s) = ground (
    arith,
    is_id_letter-is_id_rune x,
    is_id_separator-is_id_rune x,
    dash-is_id_rune,
    all-id_runes true false s,
    all-id_runes true true s,
    all-id_runes b c s,
  )

  all-trim_separators_left :
      (s : Str) → all is_id_rune s ≡ true → all is_id_rune (trim_separators_left lower s) ≡ true
  unfolding trim_separators_left
  all-trim_separators_left [] h = refl
  all-trim_separators_left (c ∷ s) h = ground (arith, all-trim_separators_left s)

  -- Whatever the name is, its normalized form passes as an identity.
  pub normalize_id-is_valid_id : (name : Str) → is_valid_id (normalize_id lower name) ≡ true
  unfolding normalize_id is_valid_id trim_separators
  normalize_id-is_valid_id name =
      let s = id_runes lower false false (lower (trim_space name)) in
      let t = trim_separators_left lower s in
      all-reverse_aux is_id_rune (trim_separators_left lower (reverse t)) []
        (all-trim_separators_left (reverse t) (
          all-reverse_aux is_id_rune t []
            (all-trim_separators_left s (all-id_runes false false (lower (trim_space name)))) refl))
        refl
