-- ===== src/Tests/Session.antt =====
-- A protected session from its start to its removal.
use podlaz.Common.{
  ℕ, ◌≡◌, ◌≢◌, ◌==◌, ◌↔◌, ◌⊎◌, refl, suc, false, [], ◌∷◌, Option, none, some, ok, err, text,
  ℕ_discrete, trim_space, str_eq, to_lower, equal_fold,
}
use podlaz.Files.{Written, atomic_write_private_file, atomic_write-Written}
use podlaz.Api.{
  ConnectRequest, ConnectRequest-discrete, ProfileSnapshot, validate_connect_request,
  normalize_handoff_policy, is_known_policy, handoff_replace_podlaz, handoff_block,
}
use podlaz.Session.Model.{
  SessionState, Protection, Replacement, resume, disconnect, terminal, armed, Intent-discrete,
  max_epoch, equivalent_ignoring_handoff, same_envelope_identity,
}
use podlaz.Session.Model
use podlaz.Session.Protection.{
  is_envelope_table, is_interface_name, validate_protection, validate_egress_marks,
  validate_bootstrap_ipv4,
}
use podlaz.Session.Validation.{is_session_id, validate_session_state, validate_continuation}
use podlaz.Session.Plan.{
  plan_resume, commit_change, restore_change, disarm_change, disarm_resume, advance_epoch,
  store_first, fresh_state,
}
use podlaz.Session.Io.{Env, World, load_locked, save, hex_encode, encode_state}
use podlaz.Session.Store.{
  begin_or_resume, update, begin_recovery_attempt, set_protection, remove, commit_replacement,
  restore_replacement, run_op, begin_op, here, next,
}
use podlaz.Session.Durability.{Stores}
use podlaz.Session.Durability.Operations.{begin_or_resume-Stores, begin_recovery_attempt-Stores}
use podlaz.Session.Durability.Removal.{IsBare, remove-eq-ok, remove_protected}
use podlaz.Session.Integrity.Operations.{IsSound, Reach-IsSound}
use podlaz.Session.Plan.Resume.{Repeats, Replaces, Refreshes, plan_resume_protected}
use podlaz.Session.Plan.Replacing.{restore_change-plan_resume}
use podlaz.Session.Protection.Marks.{IsMarkSet, validate_egress_marks-IsMarkSet}
use podlaz.Api.Laws.{IsComplete, validate_connect_request-IsComplete}

program : Unit {0}
unfolding ConnectRequest-discrete Intent-discrete ℕ_discrete validate_connect_request
    normalize_handoff_policy is_known_policy equal_fold to_lower trim_space str_eq
    atomic_write_private_file validate_protection validate_egress_marks validate_bootstrap_ipv4
    validate_session_state validate_continuation plan_resume commit_change restore_change
    disarm_change disarm_resume advance_epoch load_locked save hex_encode encode_state is_session_id
    is_envelope_table is_interface_name begin_or_resume update begin_recovery_attempt set_protection
    remove commit_replacement restore_replacement run_op equivalent_ignoring_handoff
    same_envelope_identity
program = tt

abbrev env : Env
env = record {
  fails = λ _. false;
  torn = λ f. record f { header = none; as_state = none; as_continuation = none };
  boot_id = text "boot-1\n";
  entropy =
      λ _. 1 ∷ 35 ∷ 69 ∷ 103 ∷ 137 ∷ 171 ∷ 205 ∷ 239 ∷ 0 ∷ 16 ∷ 32 ∷ 48 ∷ 64 ∷ 80 ∷ 96 ∷ 255 ∷ [];
  encoded_size = λ _. 900;
}

abbrev profile : ProfileSnapshot
profile = record {
  id = text "work";
  name = text "Work";
  source = text "manual";
  engine = text "xray";
  server = text "vpn.example.org";
  port = 443;
  protocol = text "vless";
  user_identity = [];
  transport = [];
  security = [];
  encryption = [];
  flow = [];
  server_name = [];
  alpn = [];
  fingerprint = [];
  path = [];
  host_header = [];
  service_name = [];
  reality_public_key = [];
  reality_short_id = [];
  reality_spider_x = [];
}

abbrev request : ConnectRequest
request = record { mode = text "tun"; profile = profile; handoff = text "block" }

abbrev empty : World
empty = record { target = none; leftovers = 0; calls = 0 }

abbrev begun : SessionState
begun = fresh_state request (text "boot-1") (text "0123456789abcdef00102030405060ff")

abbrev after_begin : World
after_begin = record { target = some (encode_state env begun); leftovers = 0; calls = 11 }

begin_run : begin_or_resume env request empty ≡ (ok begun, after_begin)
unfolding program
begin_run = refl

begin_or_resume-Stores_example :
    Stores after_begin begun × (begun.request ≡ request) × (begun.intent ≡ resume)
begin_or_resume-Stores_example =
    begin_or_resume-Stores env request empty begun after_begin begin_run

Reach-IsSound_example : IsSound (run_op env (begin_op request) empty)
Reach-IsSound_example = Reach-IsSound (next env (begin_op request) here) refl

abbrev protection : Protection
protection = record {
  state = armed;
  version = 1;
  family = text "inet";
  table = text "podlaz_pe_0123456789ab_7";
  tun_interface = text "podlaz0";
  bootstrap_ipv4 = text "203.0.113.7" ∷ text "198.51.100.20" ∷ [];
  previous_bootstrap_ipv4 = [];
  egress_marks = [];
  previous_egress_marks = [];
}

abbrev protected : SessionState
protected = record begun { protection = some protection }

protected_valid : validate_session_state protected ≡ ok tt
unfolding program
protected_valid = refl

protection_valid : validate_protection protection ≡ ok tt
unfolding program
protection_valid = refl

-- A file that holds the protected record.
abbrev held : World
held = record { target = some (encode_state env protected); leftovers = 0; calls = 0 }

abbrev loaded : World
loaded = record { target = some (encode_state env protected); leftovers = 0; calls = 4 }

load_run : load_locked env held ≡ (ok (some protected), loaded)
unfolding program
load_run = refl

remove_protected_example : remove env held ≡ (err Model.protection_held, loaded)
remove_protected_example = remove_protected env held loaded protected protection load_run refl

abbrev removed : World
removed = record { target = none; leftovers = 0; calls = 17 }

remove_run : remove env after_begin ≡ (ok tt, removed)
unfolding program
remove_run = refl

remove-eq-ok_example :
    (o : Option SessionState) × (e : World) × (load_locked env after_begin ≡ (ok o, e))
    × (removed.target ≡ none)
    × IsBare o
remove-eq-ok_example = remove-eq-ok env after_begin removed remove_run

-- A replacement of the protected session.
abbrev wanted : ConnectRequest
wanted = record {
  mode = text "tun";
  profile = record profile { id = text "home"; name = text "Home" };
  handoff = text " Replace-Podlaz ";
}

abbrev replacing : SessionState
replacing = record protected {
  request = wanted;
  replacement = some (record { previous_request = request; previous_protection = some protection });
}

replace_plan : plan_resume protected wanted ≡ ok (store_first replacing)
unfolding program
replace_plan = refl

wanted_replaces : normalize_handoff_policy wanted.handoff ≡ handoff_replace_podlaz
unfolding program
wanted_replaces = refl

plan_resume_protected_example :
    Repeats protected wanted replacing
    ⊎ Replaces protected wanted protection replacing
    ⊎ Refreshes protected wanted replacing
plan_resume_protected_example = plan_resume_protected protected wanted protection refl replace_plan

restore_change-plan_resume_example :
    restore_change (record replacing { protection = none }) ≡ ok protected
restore_change-plan_resume_example =
    restore_change-plan_resume protected wanted protection none refl refl wanted_replaces
      replace_plan

abbrev committed : SessionState
committed = record replacing {
  replacement = none;
  request = record wanted { handoff = handoff_block };
}

commit_run : commit_change replacing ≡ ok committed
unfolding program
commit_run = refl

abbrev attempted : SessionState
attempted = record protected { recovery_epoch = 1 }

abbrev after_attempt : World
after_attempt = record { target = some (encode_state env attempted); leftovers = 0; calls = 12 }

attempt_run : begin_recovery_attempt env held ≡ (ok (some attempted), after_attempt)
unfolding program
attempt_run = refl

begin_recovery_attempt-Stores_example :
    (s : SessionState) × (e : World) × (load_locked env held ≡ (ok (some s), e))
    × Stores after_attempt attempted
    × (s.recovery_epoch ≢ max_epoch)
    × (attempted ≡ record s { recovery_epoch = suc s.recovery_epoch })
begin_recovery_attempt-Stores_example =
    begin_recovery_attempt-Stores env held attempted after_attempt attempt_run

disarm_run : disarm_change terminal protected ≡ ok (record protected { intent = terminal })
unfolding program
disarm_run = refl

validate_egress_marks-IsMarkSet_example :
    (validate_egress_marks (7 ∷ 9 ∷ []) ≡ ok tt) ↔ IsMarkSet (7 ∷ 9 ∷ [])
validate_egress_marks-IsMarkSet_example = validate_egress_marks-IsMarkSet (7 ∷ 9 ∷ [])

validate_connect_request-IsComplete_example :
    (validate_connect_request wanted ≡ ok tt) ↔ IsComplete wanted
validate_connect_request-IsComplete_example = validate_connect_request-IsComplete wanted

endpoints_run : validate_bootstrap_ipv4 protection.bootstrap_ipv4 ≡ ok tt
unfolding program
endpoints_run = refl

-- The third call fails: the write.
atomic_write-Written_example :
    Written {F = ℕ} 8
      (record { target = some 7; leftovers = 0; calls = 0 })
      (atomic_write_private_file
        (λ n. n == 2)
        (λ _. 0)
        8
        (record { target = some 7; leftovers = 0; calls = 0 }))
atomic_write-Written_example =
    atomic_write-Written (λ n. n == 2) (λ _. 0) 8
      (record { target = some 7; leftovers = 0; calls = 0 })
