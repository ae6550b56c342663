-- ===== src/Transition/Witnesses.antt =====
-- The theorems about the transition, at a plan of two repositories whose forges answer every call.
use platform_gitops.Prelude.{
  ◌≡◌, ◌↔◌, refl, String, Bool, true, false, none, some, List, [], ◌∷◌, ◌==◌, if◌then◌else◌,
}
use platform_gitops.Prelude.Result.{Result, ok}
use platform_gitops.Transition.State.{
  Failure, Forge, ◌>>=◌, require, change, attempt, pure, for_each, lookup, next, attempt_migration,
  insert, Machine, TransitionState, StateFile, StatePayload, written, Snapshot, initial_state,
  shadow, transition, tool_name,
}
use platform_gitops.Transition.Store.{
  load_state, safe_state, store_state, with_lock, loaded, is_accepted, perform_inventory, perform,
  perform_snapshot, store_proof,
}
use platform_gitops.Transition.Approval.{
  Proof, Control, Setting, approve, load_proof, require_confirmation, or_empty, find_proof_repo,
  found_repo,
}
use platform_gitops.Transition.Reconcile.{
  RelayControl, run_round, reconcile_plan, reconciled_state, record_all,
}
use platform_gitops.Transition.Prepare.{pair_up}
use platform_gitops.Transition.Rollback.{rollback_transition_state}
use platform_gitops.Transition.Enter.{
  command_enter, enter_locked, hand_over, check_handover, reconcile_next, take_snapshots, save,
  disable_source, enable_destination, verify_handover, complete_handover,
}
use platform_gitops.Transition.Handover.{authority_after_disable, final_after_freeze}
use platform_gitops.Transition.Finalize.{
  command_finalize, finalize_locked, finalize_evidence_holds, make_final, check_operational,
  freeze_source, apply_final, verify_final, complete_finalize,
}
use platform_gitops.Transition.Confirmed.{all_confirmed}
use platform_gitops.Transition.EnterConfirmed.{confirms, command_enter-all_confirmed}
use platform_gitops.Transition.FinalConfirmed.{confirms_freeze, command_finalize-all_confirmed}
use platform_gitops.Transition.Freezing.{command_finalize-final_after_freeze}
use platform_gitops.Transition.Relay.{OnlySyncs, run_round-OnlySyncs}
use platform_gitops.Transition.Entering.{command_enter-authority_after_disable}
use platform_gitops.Transition.Durable.{IsIntact, load_state-IsIntact, load_state-store_state}

abbrev settings : Snapshot
settings = record { archived = false; settings = "builds=enabled" }

abbrev forge : Forge
forge = record {
  answer = λ calls c. ok (some true);
  snapshot = λ calls name. ok settings;
  inventory = λ calls name. ok (record { contract_verified = true; digest = "inventory" });
  proof_digest = λ calls. "enter-proof";
  canonical_digest = λ st. "state-digest";
  sanitize = λ s. s;
  sanitize_state = λ st. st;
  utc_now = λ calls. "2025-01-01T00:00:00Z";
  lock_attempt = λ calls. written;
  unlink_raises = λ calls. false;
}

abbrev plan : List String
plan = "shop" ∷ "blog" ∷ []

abbrev ready : TransitionState
ready =
    let st = initial_state "plan" in
    record st {
      phase = shadow;
      source_ci_snapshots = ("blog", settings) ∷ [];
      last_shadow_proof_sha256 = some "shadow-proof";
    }

abbrev saved : TransitionState → StatePayload
saved st = record {
  content = st;
  updated_at = "2025-01-01T00:00:00Z";
  repositories_is_object = true;
}

abbrev ready_file : StateFile
ready_file = record { payload = saved ready; state_sha256 = "state-digest" }

abbrev machine : Machine
machine = record { calls = []; file = some ready_file; lock = false; next_state = ready }

abbrev approved : Proof
approved = record {
  tool = tool_name;
  command = "verify-shadow";
  plan_sha256 = "plan";
  proof_sha256 = "shadow-proof";
  verified = true;
  phase = none;
  state_sha256 = "";
  repositories =
      ("shop", record { contract_verified = true; digest = "inventory" })
      ∷ ("blog", record { contract_verified = true; digest = "inventory" })
      ∷ [];
}

-- Every variable has the value that the approval asks for.
abbrev setting : Setting
setting = record {
  environ = λ name. some (if name == "LIVE" then "1" else "shadow-proof");
  proof_digest = λ p. "shadow-proof";
  strip = λ s. s;
  proof_age_seconds = λ p. some 30;
}

abbrev control : Control
control = record { live_env = "LIVE"; change_ticket_env = "TICKET"; max_proof_age_seconds = 3600 }

abbrev entered : Machine
entered = (command_enter forge "plan" plan setting control "CONFIRM" approved machine).0

command_enter-authority_after_disable_example :
    authority_after_disable forge plan entered.calls ≡ true
command_enter-authority_after_disable_example =
    command_enter-authority_after_disable forge "plan" plan setting control "CONFIRM" approved
      machine refl

abbrev undone : Machine × Result Failure (List Bool × TransitionState)
undone = rollback_transition_state forge plan ready true machine

load_state-IsIntact_example :
    (load_state forge "plan" false (some ready_file) ≡ ok ready)
    ↔ (IsIntact forge "plan" ready_file × (ready_file.payload.content ≡ ready))
load_state-IsIntact_example = load_state-IsIntact forge "plan" false ready_file ready

load_state-store_state_example :
    load_state forge "plan" false (store_state forge ready machine).0.file ≡ ok ready
unfolding store_state initial_state
load_state-store_state_example =
    load_state-store_state forge "plan" false ready machine refl refl refl refl λ e. cc

abbrev in_transition : TransitionState
in_transition = record ready { phase = transition; consecutive_failures = 1 }

abbrev in_transition_file : StateFile
in_transition_file = record {
  payload = saved (record in_transition { enter_proof_sha256 = some "enter-proof" });
  state_sha256 = "state-digest";
}

abbrev enter_evidence : Proof
enter_evidence = record approved { command = "enter"; proof_sha256 = "enter-proof" }

abbrev final_setting : Setting
final_setting = record setting {
  environ = λ name. some (if name == "LIVE" then "1" else "enter-proof");
  proof_digest = λ p. "enter-proof";
}

abbrev finalized_machine : Machine
finalized_machine =
    (command_finalize forge "plan" plan final_setting control "CONFIRM" enter_evidence
      (record machine { file = some in_transition_file })).0

command_finalize-final_after_freeze_example :
    final_after_freeze forge plan finalized_machine.calls ≡ true
command_finalize-final_after_freeze_example =
    command_finalize-final_after_freeze forge "plan" plan final_setting control "CONFIRM"
      enter_evidence (record machine { file = some in_transition_file }) refl

-- A threshold of three failures.
abbrev relay : RelayControl
relay = record { relay_failure_threshold = 3; auto_rollback = true; once = true }

run_round-OnlySyncs_example :
    OnlySyncs (run_round forge "plan" plan relay in_transition machine).0.calls
unfolding initial_state
run_round-OnlySyncs_example =
    run_round-OnlySyncs forge "plan" plan relay in_transition machine refl refl

-- The handover succeeds: the transition phase is reached.
entered_phase :
    (command_enter forge "plan" plan setting control "CONFIRM" approved machine).1 ≡ ok true
unfolding command_enter approve load_proof require_confirmation or_empty ◌>>=◌ with_lock
    enter_locked loaded load_state is_accepted initial_state require change attempt pure hand_over
    for_each check_handover find_proof_repo found_repo lookup perform_inventory perform
    reconcile_next next reconcile_plan attempt_migration reconciled_state record_all insert
    take_snapshots perform_snapshot save store_state pair_up disable_source enable_destination
    verify_handover complete_handover store_proof
entered_phase = refl

command_enter-all_confirmed_example : all_confirmed (confirms forge) plan entered.calls ≡ true
command_enter-all_confirmed_example =
    command_enter-all_confirmed forge "plan" plan setting control "CONFIRM" approved machine
      entered_phase

-- The finalization succeeds.
finalized_phase :
    (command_finalize forge "plan" plan final_setting control "CONFIRM" enter_evidence
      (record machine { file = some in_transition_file })).1
    ≡ ok true
unfolding command_finalize approve load_proof require_confirmation or_empty ◌>>=◌ with_lock
    finalize_locked finalize_evidence_holds loaded load_state is_accepted initial_state require
    change attempt pure make_final for_each check_operational lookup perform reconcile_next next
    reconcile_plan attempt_migration reconciled_state record_all insert take_snapshots
    perform_snapshot save store_state safe_state pair_up freeze_source apply_final verify_final
    complete_finalize store_proof
finalized_phase = refl

command_finalize-all_confirmed_example :
    all_confirmed (confirms_freeze forge) plan finalized_machine.calls ≡ true
command_finalize-all_confirmed_example =
    command_finalize-all_confirmed forge "plan" plan final_setting control "CONFIRM" enter_evidence
      (record machine { file = some in_transition_file }) finalized_phase
