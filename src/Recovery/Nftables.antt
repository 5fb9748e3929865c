-- ===== src/Recovery/Nftables.antt =====
-- The composition of the firewall that a transaction recorded, which a rollback must find again before
-- it removes the table (nftables_exact_rollback.go).
use mathlib.Core.List.{reverse}
use podlaz.Common.{
  Bool, false, not, ◌&&◌, ◌||◌, ◌==◌, Option, none, some, List, [], ◌∷◌, ◌++◌, Str, text, str_eq,
  elem, is_empty, trim_space, cut_prefix, if◌then◌else◌, any, keep, length,
}
use podlaz.Transaction.Model.{Transaction, NftChainPlan, NftablesRollback}
use podlaz.Recovery.Text.{fields, join}
use podlaz.Recovery.Model.{FirewallPlan, FirewallChain, FirewallRule}
use podlaz.Recovery.Owners.{owner_firewall, owned_rollback_metadata, is_managed_nft_target}

is_verdict : Str → Bool
is_verdict v = str_eq v (text "accept") || str_eq v (text "reject") || str_eq v (text "drop")

rollback_key : Str → Str → Str → Str → Str
rollback_key family table chain key = join (text "/") (family ∷ table ∷ chain ∷ key ∷ [])

with_key : Str → Str → Str → Str → List Str → Option Str → Option FirewallRule
with_key family table chain verdict expr none = none
with_key family table chain verdict expr (some key) =
    if is_empty key || not (is_verdict verdict) || is_empty expr
    then none
    else some (record {
      chain = chain;
      expr = join (text " ") (reverse expr);
      verdict = verdict;
      ownership = text "podlaz:firewall:" ++ key;
      rollback_key = rollback_key family table chain key;
    })

-- The words of the rule from its end: the owner, `owner`, the verdict and the expression.
rule_of_words : Str → Str → Str → List Str → Option FirewallRule
rule_of_words family table chain (ownership ∷ marker ∷ verdict ∷ expr) =
    if str_eq marker (text "owner")
    then with_key family table chain verdict expr (cut_prefix (text "podlaz:firewall:") ownership)
    else none
rule_of_words family table chain _ = none

-- `exactPersistedNftablesRule`.
unfoldable pub exact_persisted_nftables_rule : Str → Str → Str → Str → Option FirewallRule
unfolding is_verdict rollback_key with_key rule_of_words
exact_persisted_nftables_rule family table chain raw =
    rule_of_words family table chain (reverse (fields raw))

both : {A : Type 0} → Option A → Option (List A) → Option (List A)
both (some x) (some xs) = some (x ∷ xs)
both _ _ = none

rules_of : Str → Str → Str → List Str → Option (List FirewallRule)
rules_of family table chain [] = some []
rules_of family table chain (r ∷ rs) =
    both (exact_persisted_nftables_rule family table chain r) (rules_of family table chain rs)

is_complete_chain : NftChainPlan → Bool
is_complete_chain c =
    not (is_empty (trim_space c.name))
    && not (is_empty (trim_space c.type))
    && not (is_empty (trim_space c.hook))
    && not (is_empty (trim_space c.policy))
    && (is_empty c.owner || owned_rollback_metadata c.owner owner_firewall)

chain_of : NftChainPlan → FirewallChain
chain_of c = record {
  name = trim_space c.name;
  type = trim_space c.type;
  hook = trim_space c.hook;
  priority = c.priority;
  policy = trim_space c.policy;
}

abbrev Composition : Type 0
Composition = List FirewallChain × List FirewallRule

add_chain : NftChainPlan → Option (List FirewallRule) → Option Composition → Option Composition
add_chain c (some rs) (some (chains, rules)) = some (chain_of c ∷ chains, rs ++ rules)
add_chain c _ _ = none

composition : Str → Str → List Str → List NftChainPlan → Option Composition
composition family table seen [] = some ([], [])
composition family table seen (c ∷ cs) =
    let rest = composition family table (trim_space c.name ∷ seen) cs in
    if is_complete_chain c && not (elem (trim_space c.name) seen)
    then add_chain c (rules_of family table (trim_space c.name) c.rules) rest
    else none

plan_of : Str → Str → Option Composition → Option FirewallPlan
plan_of family table none = none
plan_of family table (some (chains, rules)) =
    some (record { family = family; table = table; chains = chains; rules = rules })

same_target : Str → Str → NftablesRollback → Bool
same_target family table e =
    str_eq (trim_space e.family) (trim_space family)
    && str_eq (trim_space e.table) (trim_space table)

is_same_owned : NftablesRollback → NftablesRollback → Bool
is_same_owned entry e =
    owned_rollback_metadata e.owner owner_firewall && same_target entry.family entry.table e

-- With more chains than one, no chain may have rules.
is_ambiguous : List NftChainPlan → Bool
is_ambiguous [] = false
is_ambiguous (c ∷ []) = false
is_ambiguous (c ∷ d ∷ cs) = any (λ (x : NftChainPlan). not (is_empty x.rules)) (c ∷ d ∷ cs)

is_exact_identity : Transaction → NftablesRollback → Bool
is_exact_identity tx entry =
    owned_rollback_metadata entry.owner owner_firewall
    && is_managed_nft_target entry.family entry.table
    && length (keep (is_same_owned entry) tx.rollback.nftables) == 1
    && owned_rollback_metadata tx.desired_plan.nft.owner owner_firewall
    && str_eq (trim_space tx.desired_plan.nft.family) (trim_space entry.family)
    && str_eq (trim_space tx.desired_plan.nft.table) (trim_space entry.table)
    && not (is_empty tx.desired_plan.nft.chains)
    && not (is_ambiguous tx.desired_plan.nft.chains)

-- `exactNftablesRollbackPlan`; its errors are not told apart.
unfoldable pub exact_nftables_rollback_plan : Transaction → NftablesRollback → Option FirewallPlan
unfolding both rules_of is_complete_chain chain_of add_chain composition plan_of same_target
    is_same_owned is_ambiguous is_exact_identity keep
exact_nftables_rollback_plan tx entry =
    let family = trim_space tx.desired_plan.nft.family in
    let table = trim_space tx.desired_plan.nft.table in
    if is_exact_identity tx entry
    then plan_of family table (composition family table [] tx.desired_plan.nft.chains)
    else none
