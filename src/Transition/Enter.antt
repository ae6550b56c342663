-- ===== src/Transition/Enter.antt =====
-- command_enter, command_rollback and command_fallback: authority moves to the destination, and back.
use Prim.Native.String.{◌++◌}
use platform_gitops.Prelude.{
  String, ◌==◌, Bool, true, false, ◌&&◌, Option, none, some, List, [], ◌∷◌, all, map, if◌then◌else◌,
}
use platform_gitops.Transition.State.{
  Phase, shadow, transition, rollback_failed, TransitionState, Forge, Snapshot, Action,
  discover_repository, source_ci_snapshot, disable_source_ci, set_destination_authority,
  verify_transition_repository, verify_source_authority, for_each, ◌>>=◌, ◌>>◌, pure, require,
  change, next, attempt, is_verified, is_shadow, holds,
}
use platform_gitops.Transition.Store.{
  perform, perform_inventory, perform_snapshot, store_state, store_proof, loaded, with_lock,
}
use platform_gitops.Transition.Approval.{Proof, Control, Setting, approve, find_proof_repo}
use platform_gitops.Transition.Rollback.{rollback_transition_state}
use platform_gitops.Transition.Reconcile.{reconcile_plan}
use platform_gitops.Transition.Prepare.{pair_up}

-- `phase in {"transition", "rollback-failed", "shadow"}`
abbrev pub can_roll_back : Phase → Bool
can_roll_back shadow = true
can_roll_back transition = true
can_roll_back rollback_failed = true
can_roll_back _ = false

-- `next_state["handover_checkpoint"] = ...`
abbrev pub at_handover : String → TransitionState → TransitionState
at_handover checkpoint n = record n { handover_checkpoint = checkpoint }

module _ (forge : Forge) where
  -- `write_state(args.state, next_state)`
  unfoldable pub save : Action (Unit {0})
  save = next >>= store_state forge

module _ (forge : Forge) (plan_sha256 : String) (repositories : List String) where
  unfoldable pub check_handover : Proof → String → Action (Unit {0})
  check_handover shadow_proof name = do
    approved ← find_proof_repo shadow_proof name
    current ← perform_inventory forge (discover_repository name) name
    require current.contract_verified
    require (current.digest == approved.digest)
    source ← perform forge (verify_source_authority name shadow)
    require (is_verified source)

  unfoldable pub reconcile_next : Action (List Bool)
  reconcile_next = do
    state ← next
    (relayed, reconciled) ← reconcile_plan forge plan_sha256 repositories state
    change (λ n. reconciled)
    pure relayed

  unfoldable pub take_snapshots : Action (List Snapshot)
  take_snapshots =
      for_each (λ name. perform_snapshot forge (source_ci_snapshot name) name) repositories

  unfoldable pub disable_source : String × Snapshot → Action (Option Bool)
  disable_source (name, snapshot) = do
    disabled ← perform forge (disable_source_ci name snapshot)
    change (at_handover ("source-ci-disabled:" ++ name))
    save forge
    pure disabled

  unfoldable pub enable_destination : String → Action (Unit {0})
  enable_destination name = do
    authority ← perform forge (set_destination_authority name true)
    require (is_verified authority)
    change (at_handover ("destination-authority-enabled:" ++ name))
    save forge

  -- The relay and the destination authority were required to be verified before.
  unfoldable pub verify_handover : String × Option Bool → Action (Unit {0})
  verify_handover (name, disabled) = do
    verification ← perform forge (verify_transition_repository name transition)
    source ← perform forge (verify_source_authority name transition)
    require (is_verified disabled && (is_verified verification && is_verified source))

  -- The body of the try block.
  unfoldable pub hand_over : Proof → Action (Unit {0})
  hand_over shadow_proof = do
    for_each (check_handover shadow_proof) repositories
    relayed ← reconcile_next
    require (all (λ v. v) relayed)
    snapshots ← take_snapshots
    change (λ n. record n {
      source_ci_snapshots = pair_up repositories (map forge.sanitize snapshots);
      handover_checkpoint = "source-ci-snapshots-captured";
    })
    save forge
    disabled ← for_each disable_source (pair_up repositories snapshots)
    for_each enable_destination repositories
    for_each verify_handover (pair_up repositories disabled)
    pure tt

  -- `except Exception`: the automatic rollback.
  unfoldable pub abandon_handover : Action Bool
  abandon_handover = do
    state ← next
    (results, rollback_state) ← rollback_transition_state forge repositories state false
    store_state forge (
        at_handover
          (if all (λ v. v) results
            then "automatic-rollback-complete"
            else "automatic-rollback-incomplete")
          rollback_state)
    store_proof forge "enter" false
    pure false

  unfoldable pub complete_handover : Action Bool
  complete_handover = do
    digest ← store_proof forge "enter" true
    change (λ n. record n {
      phase = transition;
      destination_authority_enabled = true;
      enter_proof_sha256 = some digest;
      handover_checkpoint = "completed";
    })
    save forge
    pure true

  abbrev pub finish_handover : Option (Unit {0}) → Action Bool
  finish_handover none = abandon_handover
  finish_handover (some u) = complete_handover

  unfoldable pub enter_locked : Proof → Action Bool
  enter_locked shadow_proof = do
    state ← loaded forge plan_sha256 false
    require (is_shadow state.phase)
    require (holds state.last_shadow_proof_sha256 shadow_proof.proof_sha256)
    change (λ n. state)
    outcome ← attempt (hand_over shadow_proof)
    finish_handover outcome

  unfoldable pub command_enter : Setting → Control → String → Proof → Action Bool
  command_enter setting control confirmation_env proof = do
    shadow_proof ←
        approve setting plan_sha256 control ("verify-shadow" ∷ []) true confirmation_env proof
    with_lock forge (enter_locked shadow_proof)

  -- command_rollback stops the relay; command_fallback leaves it running.
  unfoldable pub roll_back_locked : String → Bool → Action Bool
  roll_back_locked command stop_relay = do
    state ← loaded forge plan_sha256 false
    require (can_roll_back state.phase)
    (results, next_state) ← rollback_transition_state forge repositories state stop_relay
    store_proof forge command (all (λ v. v) results)
    store_state forge next_state
    pure (all (λ v. v) results)

  abbrev pub rollback_evidence : List String
  rollback_evidence = "enter" ∷ "status" ∷ "reconcile" ∷ "automatic-rollback" ∷ []

  unfoldable pub command_rollback : Setting → Control → String → Proof → Action Bool
  command_rollback setting control confirmation_env proof = do
    approve setting plan_sha256 control rollback_evidence false confirmation_env proof
    with_lock forge (roll_back_locked "rollback" true)

  unfoldable pub command_fallback : Setting → Control → String → Proof → Action Bool
  command_fallback setting control confirmation_env proof = do
    approve setting plan_sha256 control rollback_evidence false confirmation_env proof
    with_lock forge (roll_back_locked "fallback" false)
