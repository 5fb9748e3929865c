-- ===== src/Recovery/Links.antt =====
-- The identity of the link that a transaction created, and the gate in front of every change of the
-- link (daemon_executor.go).
use podlaz.Common.{
  ℕ, Bool, true, false, not, ◌&&◌, ◌||◌, ◌==◌, ltb, Option, none, some, List, [], ◌∷◌, Str, text,
  str_eq, is_empty, trim_space, split_on, keep, length, all, if◌then◌else◌,
}
use podlaz.Transaction.Model.{
  RollbackMetadata, TunRollback, TunAddressRollback, AppliedStep, ChildProcessRollback,
}
use podlaz.Recovery.Text.{join, fields, atoi, drop_last}
use podlaz.Recovery.Model.{
  Candidate, CleanupResult, CommandResult, Host, Run, child_process, child_absent, command_failed,
  command_failure_message, command_succeeded, failed, link_absent_child_unproven,
  link_and_child_absent, link_identity_mismatch, managed_interface, missing_link_identity,
  recovered_with_message, resource, resource_missing, run, tun_link_identity, has_recovered,
}
use podlaz.Recovery.Owners.{
  owner_tun_device, owner_tun_address, default_tun_ipv4_cidr, owned_rollback_metadata,
}

pub record LinkIdentity : Type 0 where
  pub name : Str
  pub index : ℕ
  pub kind : Str

pub data LinkDecision : Type 0 where
  matched absent_child_absent blocked : LinkDecision

unfoldable pub requires_link_identity : RollbackMetadata → Bool
requires_link_identity m =
    not (is_empty m.dns) || not (is_empty m.tun_addresses) || not (is_empty m.tun)

-- The only entry of a list.
abbrev pub only : {A : Type 0} → List A → Option A
only (x ∷ []) = some x
only _ = none

is_exact_address : TunAddressRollback → Bool
is_exact_address a =
    owned_rollback_metadata a.owner owner_tun_address
    && str_eq a.interface_name managed_interface
    && ltb 0 a.link_index
    && str_eq a.link_kind (text "tun")
    && a.appeared_after_core
    && str_eq (trim_space a.family) (text "ipv4")
    && str_eq (trim_space a.scope) (text "global")
    && str_eq (trim_space a.cidr) default_tun_ipv4_cidr

-- `exactRollbackTUNAddressIdentity`.
unfoldable pub exact_address_identity : List TunAddressRollback → Option TunAddressRollback
unfolding is_exact_address
exact_address_identity entries = only (keep is_exact_address entries)

-- `strings.Cut` at one rune.
cut_parts : ℕ → Str × List Str → Option (Str × Str)
cut_parts sep (first, []) = none
cut_parts sep (first, rest) = some (first, join (sep ∷ []) rest)

cut : ℕ → Str → Option (Str × Str)
unfolding cut_parts split_on
cut sep s = cut_parts sep (split_on sep s)

add_value : Option (Str × Str) → List (Str × Str) → List (Str × Str)
add_value none vs = vs
add_value (some (k, v)) vs = (trim_space k, trim_space v) ∷ vs

-- The values of a description; the last one of a key counts.
values : List (Str × Str) → List Str → List (Str × Str)
values seen [] = seen
values seen (p ∷ ps) = values (add_value (cut b'=' (trim_space p)) seen) ps

value_of : Str → List (Str × Str) → Str
value_of key [] = []
value_of key ((k, v) ∷ vs) = let rest = value_of key vs in if str_eq k key then v else rest

positive_index : Str → Option ℕ → Option LinkIdentity
positive_index kind none = none
positive_index kind (some n) =
    if n == 0 then none else some (record { name = managed_interface; index = n; kind = kind })

-- `parseTUNCreationProofDescription`.
unfoldable pub parse_creation_proof : Str → Option LinkIdentity
unfolding cut add_value values value_of positive_index split_on
parse_creation_proof description =
    let (f, fs) = split_on b';' description in
    let vs = values [] (f ∷ fs) in
    if str_eq (value_of (text "creation-proof-name") vs) managed_interface
      && str_eq (value_of (text "creation-proof-kind") vs) (text "tun")
      && str_eq (value_of (text "creation-proof-pre-existing-absent") vs) (text "true")
    then positive_index (text "tun") (atoi (value_of (text "creation-proof-ifindex") vs))
    else none

is_creation_step : AppliedStep → Bool
is_creation_step s =
    str_eq s.kind (text "tun-device")
    && str_eq s.target managed_interface
    && owned_rollback_metadata s.owner owner_tun_device

add_proof : Option LinkIdentity → List LinkIdentity → List LinkIdentity
add_proof none is = is
add_proof (some i) is = i ∷ is

creation_proofs : List AppliedStep → List LinkIdentity
creation_proofs [] = []
creation_proofs (s ∷ ss) =
    let rest = creation_proofs ss in
    if is_creation_step s then add_proof (parse_creation_proof s.description) rest else rest

is_owned_tun : TunRollback → Bool
is_owned_tun e =
    owned_rollback_metadata e.owner owner_tun_device && str_eq e.interface_name managed_interface

-- `exactRollbackTUNCreationIdentity`.
unfoldable pub exact_creation_identity : List TunRollback → List AppliedStep → Option LinkIdentity
unfolding is_creation_step add_proof creation_proofs is_owned_tun keep
exact_creation_identity tuns applied =
    if length (keep is_owned_tun tuns) == 1 then only (creation_proofs applied) else none

unfoldable pub identity_of : Option TunAddressRollback → Option LinkIdentity → Option LinkIdentity
identity_of (some a) created =
    some (record { name = managed_interface; index = a.link_index; kind = a.link_kind })
identity_of none created = created

-- `exactRollbackTUNLinkIdentity`.
unfoldable pub exact_link_identity : RollbackMetadata → List AppliedStep → Option LinkIdentity
exact_link_identity m applied =
    identity_of (exact_address_identity m.tun_addresses) (exact_creation_identity m.tun applied)

-- `firstNonEmptyLine`.
first_line : List Str → Str
first_line [] = []
first_line (l ∷ ls) = if is_empty (trim_space l) then first_line ls else trim_space l

has_tun_type : List Str → Bool
has_tun_type [] = false
has_tun_type (w ∷ []) = false
has_tun_type (w ∷ v ∷ ws) =
    (str_eq w (text "type") && str_eq v (text "tun")) || has_tun_type (v ∷ ws)

named : ℕ → Str → Bool → Option LinkIdentity
named n name is_tun =
    if not (is_empty name) && is_tun
    then some (record { name = name; index = n; kind = text "tun" })
    else none

positive_named : Str → Bool → Option ℕ → Option LinkIdentity
positive_named name is_tun none = none
positive_named name is_tun (some n) = if n == 0 then none else named n name is_tun

identity_of_words : List Str → Option LinkIdentity
identity_of_words (i ∷ n ∷ ws) =
    positive_named (let (name, _) = split_on b'@' (drop_last b':' n) in name)
      (has_tun_type (i ∷ n ∷ ws)) (atoi (drop_last b':' i))
identity_of_words _ = none

unfoldable pub parse_rollback_link_identity : Str → Option LinkIdentity
unfolding first_line has_tun_type named positive_named identity_of_words split_on
parse_rollback_link_identity output =
    let (l, ls) = split_on 10 output in identity_of_words (fields (first_line (l ∷ ls)))

is_identity : LinkIdentity → Option LinkIdentity → Bool
is_identity expected none = false
is_identity expected (some i) =
    str_eq i.name expected.name && i.index == expected.index && str_eq i.kind expected.kind

-- Whether a command shows the expected link.
unfoldable pub shows_link : LinkIdentity → CommandResult → Bool
unfolding is_identity
shows_link expected r =
    command_succeeded r && is_identity expected (parse_rollback_link_identity r.stdout)

abbrev pub link_candidate : Candidate
link_candidate = resource tun_link_identity managed_interface

unfoldable pub gate_decision :
    LinkIdentity → Bool → CommandResult → Option CleanupResult × LinkDecision
gate_decision expected children_absent r =
    if not (command_succeeded r)
    then if resource_missing r
      then if children_absent
        then (
          some (recovered_with_message link_candidate link_and_child_absent),
          absent_child_absent,
        )
        else (some (failed link_candidate link_absent_child_unproven), blocked)
      else (some (failed link_candidate (command_failed (command_failure_message r))), blocked)
    else if shows_link expected r
    then (none, matched)
    else (some (failed link_candidate link_identity_mismatch), blocked)

abbrev pub show_link_args : List Str
show_link_args =
    text "-details" ∷ text "-o" ∷ text "link" ∷ text "show" ∷ text "dev" ∷ managed_interface ∷ []

module _ (host : Host) where
  unfoldable pub expected_gate :
      Bool → Option LinkIdentity → Run (Option CleanupResult × LinkDecision)
  expected_gate children_absent none t =
      ((some (failed link_candidate missing_link_identity), blocked), t)
  expected_gate children_absent (some expected) t =
      let (r, t') = run host (text "ip") show_link_args t in
      (gate_decision expected children_absent r, t')

  -- `rollbackLinkIdentityGate`, for the identity that the executor accepts.
  unfoldable pub rollback_link_identity_gate :
      RollbackMetadata → Option LinkIdentity → Bool → Run (Option CleanupResult × LinkDecision)
  rollback_link_identity_gate m expected children_absent t =
      if requires_link_identity m
      then expected_gate children_absent expected t
      else ((none, matched), t)

is_absent_child : CleanupResult → Bool
is_absent_child r =
    elim r.candidate.kind [ child_process ↦ true | _ ↦ false ]
    && has_recovered r
    && elim r.message [ child_absent ↦ true | _ ↦ false ]

unfoldable pub tracked_child_absence_proven : List ChildProcessRollback → List CleanupResult → Bool
unfolding is_absent_child
tracked_child_absence_proven ps rs =
    not (is_empty ps) && length rs == length ps && all is_absent_child rs
