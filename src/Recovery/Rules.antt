-- ===== src/Recovery/Rules.antt =====
-- The target of a policy rule, as the plan and the applied steps write it, and its reading.
use mathlib.Core.List.{reverse, reverse-cons, reverse-reverse}
use podlaz.Common.{
  ℕ, ◌<◌, ◌≡◌, refl, ◌∙◌, ap, Bool, true, false, not, ◌&&◌, some, [], ◌∷◌, ◌++◌, Str, text, arith,
  is_empty, is_some, is_digit, is_space, all, trim_left, trim_space, str_eq,
}
use podlaz.Transaction.Model.{PlannedStep, PolicyRuleRollback}
use podlaz.Recovery.Text.{itoa, atoi, fields, words, push_word, parse_uint32}
use podlaz.Recovery.Owners.{owner_policy_rule, owned_rollback_metadata}
use podlaz.Recovery.Keys.{policy_rule_rollback_target, rule_selector}
use podlaz.Recovery.Metadata.{
  desired_rule, with_selector, rule_of_fields, desired_policy_rule_rollback,
}
use podlaz.Recovery.Numbers.{int_limit, atoi-itoa, itoa-IsDigits, IsDigits}

abbrev pub has_no_space : Str → Bool
has_no_space w = all (λ c. not (is_space c)) w

abbrev pub is_word : Str → Bool
is_word w = not (is_empty w) && has_no_space w

space : is_space 32 ≡ true
unfolding is_space
space = refl

words_space : (c : ℕ) (s : Str) → is_space c ≡ true → words (c ∷ s) ≡ ([], fields s)
unfolding words fields
words_space c s h = ground (arith, h)

words-word :
    (w : Str) (sep : ℕ) (s : Str)
    → is_space sep ≡ true
    → has_no_space w ≡ true
    → words (w ++ (sep ∷ s)) ≡ (w, fields s)
unfolding words
words-word [] sep s e h = words_space sep s e
words-word (c ∷ w) sep s e h = rw (words-word w sep s e (ground arith)) (ground arith)

words_last : (w : Str) → has_no_space w ≡ true → words w ≡ (w, [])
unfolding words
words_last [] h = refl
words_last (c ∷ w) h = ground (arith, words_last w (ground arith))

fields_word :
    (w : Str) (sep : ℕ) (s : Str)
    → is_space sep ≡ true
    → is_word w ≡ true
    → fields (w ++ (sep ∷ s)) ≡ w ∷ fields s
unfolding fields push_word
fields_word [] sep s e h = cc
fields_word (c ∷ w) sep s e h = rw (words-word (c ∷ w) sep s e (ground arith)) refl

fields_last : (w : Str) → is_word w ≡ true → fields w ≡ w ∷ []
unfolding fields push_word
fields_last [] h = cc
fields_last (c ∷ w) h = rw (words_last (c ∷ w) (ground arith)) refl

no_space_snoc :
    (s : Str) (c : ℕ) → has_no_space (s ++ (c ∷ [])) ≡ (has_no_space s && not (is_space c))
no_space_snoc [] c = ground arith
no_space_snoc (d ∷ s) c = ground (arith, no_space_snoc s c)

no_space_reverse : (s : Str) → has_no_space (reverse s) ≡ has_no_space s
no_space_reverse [] = refl
no_space_reverse (c ∷ s) =
    ap has_no_space (reverse-cons c s)
    ∙ no_space_snoc (reverse s) c
    ∙ ground (arith, no_space_reverse s)

trim_left_word : (w : Str) → has_no_space w ≡ true → trim_left w ≡ w
unfolding trim_left
trim_left_word [] h = refl
trim_left_word (c ∷ w) h = ground arith

trim_space_word : (w : Str) → has_no_space w ≡ true → trim_space w ≡ w
unfolding trim_space
trim_space_word w h =
    ap (λ s. reverse (trim_left (reverse s))) (trim_left_word w h)
    ∙ ap reverse (trim_left_word (reverse w) (no_space_reverse w ∙ h))
    ∙ reverse-reverse w

-- What a rule selects by.
pub data Selector : Type 0 where
  source destination mark : Selector

abbrev pub selector_word : Selector → Str
selector_word source = text "from"
selector_word destination = text "to"
selector_word mark = text "fwmark"

-- A rule with one selector.
abbrev pub selected : Selector → ℕ → Str → Str → Str → PolicyRuleRollback
selected source p value table owner = desired_rule p value [] [] table owner
selected destination p value table owner = desired_rule p [] value [] table owner
selected mark p value table owner = desired_rule p [] [] value table owner

abbrev pub is_readable : Selector → Str → Bool
is_readable mark value = is_some (parse_uint32 value)
is_readable _ value = true

six : ℕ → Str → Str → Str → Str → Str → Str → Str
six sep a b c d e f = a ++ (sep ∷ (b ++ (sep ∷ (c ++ (sep ∷ (d ++ (sep ∷ (e ++ (sep ∷ f)))))))))

fields-six :
    (sep : ℕ) (a b c d e f : Str)
    → is_space sep ≡ true
    → all is_word (a ∷ b ∷ c ∷ d ∷ e ∷ f ∷ []) ≡ true
    → fields (six sep a b c d e f) ≡ a ∷ b ∷ c ∷ d ∷ e ∷ f ∷ []
unfolding six
fields-six sep a b c d e f s h =
    fields_word a sep _ s (ground arith)
    ∙ ap (λ l. a ∷ l)
        (fields_word b sep _ s (ground arith)
          ∙ ap (λ l. b ∷ l)
              (fields_word c sep _ s (ground arith)
                ∙ ap (λ l. c ∷ l)
                    (fields_word d sep _ s (ground arith)
                      ∙ ap (λ l. d ∷ l)
                          (fields_word e sep _ s (ground arith)
                            ∙ ap (λ l. e ∷ l) (fields_last f (ground arith))))))

trim_nil : trim_space [] ≡ []
unfolding trim_space trim_left
trim_nil = refl

rule_selector-selected :
    (k : Selector) (p : ℕ) (value table owner : Str)
    → is_empty value ≡ false
    → trim_space value ≡ value
    → rule_selector (selected k p value table owner) ≡ selector_word k ++ (32 ∷ value)
unfolding rule_selector
rule_selector-selected source p value table owner n e = rw e (rw n refl)
rule_selector-selected destination p value table owner n e = rw trim_nil (rw e (rw n refl))
rule_selector-selected mark p value table owner n e = rw trim_nil (rw e (rw n refl))

target-six :
    (k : Selector) (p : ℕ) (value table owner : Str)
    → is_word value ≡ true
    → is_word table ≡ true
    → policy_rule_rollback_target (selected k p value table owner)
      ≡ six 32 (text "priority") (itoa p) (selector_word k) value (text "lookup") table
unfolding policy_rule_rollback_target six
target-six source p value table owner v t =
    rw
      (rule_selector-selected source p value table owner (ground arith)
        (trim_space_word value (ground arith)))
      (rw (trim_space_word table (ground arith)) refl)
target-six destination p value table owner v t =
    rw
      (rule_selector-selected destination p value table owner (ground arith)
        (trim_space_word value (ground arith)))
      (rw (trim_space_word table (ground arith)) refl)
target-six mark p value table owner v t =
    rw
      (rule_selector-selected mark p value table owner (ground arith)
        (trim_space_word value (ground arith)))
      (rw (trim_space_word table (ground arith)) refl)

digit_no_space : (c : ℕ) → is_digit c ≡ true → is_space c ≡ false
unfolding is_digit is_space
digit_no_space c h = ground arith

digits_no_space : (s : Str) → all is_digit s ≡ true → has_no_space s ≡ true
digits_no_space [] h = refl
digits_no_space (c ∷ s) h =
    ground (arith, digit_no_space c (ground arith), digits_no_space s (ground arith))

IsDigits-is_word : (s : Str) → IsDigits s → is_word s ≡ true
IsDigits-is_word [] h = elim h [ ]
IsDigits-is_word (c ∷ s) (a, h) = ground (arith, digit_no_space c a, digits_no_space s h)

six_read :
    (k : Selector) (p : ℕ) (value table owner : Str)
    → atoi (itoa p) ≡ some p
    → is_readable k value ≡ true
    → rule_of_fields owner
        (text "priority" ∷ itoa p ∷ selector_word k ∷ value ∷ text "lookup" ∷ table ∷ [])
      ≡ some (selected k p value table owner)
unfolding rule_of_fields with_selector str_eq
six_read source p value table owner e h = rw e refl
six_read destination p value table owner e h = rw e refl
six_read mark p value table owner e h = rw e (rw h refl)

abbrev pub rule_step : Str → Str → PlannedStep
rule_step target owner = record {
  kind = text "policy-rule";
  target = target;
  description = [];
  owner = owner;
}

keyword : (k : Selector) → is_word (selector_word k) ≡ true
unfolding is_space
keyword source = refl
keyword destination = refl
keyword mark = refl

keywords : (is_word (text "priority") ≡ true) × (is_word (text "lookup") ≡ true)
unfolding is_space
keywords = (refl, refl)

-- A policy rule with podlaz's owner, one selector and a priority that fits an int is read back from the
-- target that the recovery prints of it, when its selector and its table are single words and a mark is
-- a number.
pub desired_rule-target :
    (k : Selector) (p : ℕ) (value table owner : Str)
    → p < int_limit
    → is_word value ≡ true
    → is_word table ≡ true
    → is_readable k value ≡ true
    → owned_rollback_metadata owner owner_policy_rule ≡ true
    → desired_policy_rule_rollback
        (rule_step (policy_rule_rollback_target (selected k p value table owner)) owner)
      ≡ some (selected k p value table owner)
unfolding desired_policy_rule_rollback str_eq fields
desired_rule-target k p value table owner l v t h o =
    let (a, b) = keywords in
    let ws : all is_word
          (text "priority" ∷ itoa p ∷ selector_word k ∷ value ∷ text "lookup" ∷ table ∷ [])
        ≡ true =
      ground (arith, a, b, keyword k, IsDigits-is_word (itoa p) (itoa-IsDigits p l), v, t) in
    rw o (
      ap (rule_of_fields owner)
        (ap fields (target-six k p value table owner v t) ∙ fields-six 32 _ _ _ _ _ _ space ws)
      ∙ six_read k p value table owner (atoi-itoa p l) h)
