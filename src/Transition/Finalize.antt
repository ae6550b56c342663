-- ===== src/Transition/Finalize.antt =====
-- command_finalize: the source is frozen and the destination becomes final.
use Prim.Native.String.{◌++◌}
use platform_gitops.Prelude.{
  String, ◌==◌, Bool, true, false, not, ◌&&◌, ◌||◌, Option, none, some, List, [], ◌∷◌, all, map,
  if◌then◌else◌,
}
use platform_gitops.Transition.State.{
  Phase, transition, finalized, TransitionState, Forge, Action, freeze_source_repository,
  set_destination_access, set_native_relay_enabled, verify_transition_repository,
  verify_operational_repository, verify_source_authority, for_each, ◌>>=◌, ◌>>◌, pure, require,
  change, next, attempt, is_verified, is_transition, holds,
}
use platform_gitops.Transition.Store.{perform, store_state, store_proof, loaded, with_lock}
use platform_gitops.Transition.Approval.{Proof, Control, Setting, approve}
use platform_gitops.Transition.Rollback.{restore_failed_finalization}
use platform_gitops.Transition.Prepare.{pair_up}
use platform_gitops.Transition.Enter.{save, take_snapshots, reconcile_next}

-- `next_state["finalize_checkpoint"] = ...`
abbrev pub at_finalize : String → TransitionState → TransitionState
at_finalize checkpoint n = record n { finalize_checkpoint = checkpoint }

abbrev pub phase_is_transition : Option Phase → Bool
phase_is_transition none = false
phase_is_transition (some p) = is_transition p

-- Evidence of the enter command is the one in the state, and of a status is of the phase.
unfoldable pub finalize_evidence_holds : TransitionState → Proof → Bool
finalize_evidence_holds state evidence =
    (not (evidence.command == "enter") || holds state.enter_proof_sha256 evidence.proof_sha256)
    && (not (evidence.command == "status") || phase_is_transition evidence.phase)

module _ (forge : Forge) where
  unfoldable pub check_operational : Phase → String → Action (Unit {0})
  check_operational phase name = do
    operational ← perform forge (verify_operational_repository name phase)
    require (is_verified operational)

module _ (forge : Forge) (plan_sha256 : String) (repositories : List String) where
  unfoldable pub freeze_source : String → Action (Option Bool)
  freeze_source name = do
    frozen ← perform forge (freeze_source_repository name)
    change (at_finalize ("source-frozen:" ++ name))
    save forge
    pure frozen

  unfoldable pub apply_final : String → Action (Unit {0})
  apply_final name = do
    stopped ← perform forge (set_native_relay_enabled name false)
    access ← perform forge (set_destination_access name finalized)
    require (is_verified stopped && is_verified access)

  -- The relay, its stop and the access were required to be verified before.
  unfoldable pub verify_final : String × Option Bool → Action (Unit {0})
  verify_final (name, frozen) = do
    verification ← perform forge (verify_transition_repository name finalized)
    source ← perform forge (verify_source_authority name finalized)
    require (is_verified frozen && (is_verified verification && is_verified source))

  unfoldable pub make_final : Action (Unit {0})
  make_final = do
    for_each (check_operational forge transition) repositories
    snapshots ← take_snapshots forge plan_sha256 repositories
    change (λ n. record n {
      finalize_snapshots = pair_up repositories (map forge.sanitize snapshots);
      finalize_checkpoint = "source-snapshots-captured";
    })
    save forge
    frozen ← for_each freeze_source repositories
    relayed ← reconcile_next forge plan_sha256 repositories
    require (all (λ v. v) relayed)
    for_each apply_final repositories
    for_each verify_final (pair_up repositories frozen)
    pure tt

  unfoldable pub abandon_finalize : Action Bool
  abandon_finalize = do
    state ← next
    (results, rollback_state) ← restore_failed_finalization forge repositories state
    store_state forge (
        at_finalize
          (if all (λ v. v) results
            then "automatic-rollback-complete"
            else "automatic-rollback-incomplete")
          rollback_state)
    store_proof forge "finalize" false
    pure false

  unfoldable pub complete_finalize : Action Bool
  complete_finalize = do
    digest ← store_proof forge "finalize" true
    change (λ n. record n {
      phase = finalized;
      destination_authority_enabled = true;
      finalize_proof_sha256 = some digest;
      finalize_checkpoint = "completed";
    })
    save forge
    pure true

  abbrev pub finish_finalize : Option (Unit {0}) → Action Bool
  finish_finalize none = abandon_finalize
  finish_finalize (some u) = complete_finalize

  unfoldable pub finalize_locked : Proof → Action Bool
  finalize_locked evidence = do
    state ← loaded forge plan_sha256 false
    require (is_transition state.phase)
    require (finalize_evidence_holds state evidence)
    change (λ n. state)
    outcome ← attempt make_final
    finish_finalize outcome

  unfoldable pub command_finalize : Setting → Control → String → Proof → Action Bool
  command_finalize setting control confirmation_env proof = do
    evidence ←
        approve setting plan_sha256 control ("enter" ∷ "status" ∷ []) true confirmation_env proof
    with_lock forge (finalize_locked evidence)
