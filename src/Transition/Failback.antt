-- ===== src/Transition/Failback.antt =====
-- command_failback: a finalized destination gives authority back to the source.
use Prim.Native.String.{◌++◌}
use platform_gitops.Prelude.{
  String, ◌==◌, Bool, true, false, not, ◌&&◌, ◌||◌, Option, none, some, List, [], ◌∷◌,
}
use platform_gitops.Prelude.Result.{ok}
use platform_gitops.Transition.State.{
  Phase, shadow, finalized, rolled_back, TransitionState, StateFile, Call, Forge, Snapshot, Action,
  reverse_sync, restore_source_ci, restore_source_repository, set_destination_authority,
  set_destination_access, set_native_relay_enabled, insert, lookup, for_each, ◌>>=◌, ◌>>◌, pure,
  raise, require, change, next, attempt, is_verified, is_finalized, holds,
}
use platform_gitops.Transition.Store.{perform, store_state, store_proof, loaded, with_lock}
use platform_gitops.Transition.Approval.{Proof, Control, Setting, approve}
use platform_gitops.Transition.Rollback.{restore_finalized_after_failback_failure}
use platform_gitops.Transition.Enter.{save}
use platform_gitops.Transition.Finalize.{check_operational}

-- `next_state["failback_checkpoint"] = ...`
abbrev pub at_failback : String → TransitionState → TransitionState
at_failback checkpoint n = record n { failback_checkpoint = checkpoint }

abbrev pub phase_is_finalized : Option Phase → Bool
phase_is_finalized none = false
phase_is_finalized (some p) = is_finalized p

abbrev pub file_digest_is : Option StateFile → String → Bool
file_digest_is none d = false
file_digest_is (some f) d = f.state_sha256 == d

unfoldable pub failback_evidence_holds : TransitionState → Option StateFile → Proof → Bool
failback_evidence_holds state file evidence =
    (not (evidence.command == "finalize")
      || holds state.finalize_proof_sha256 evidence.proof_sha256)
    && (not (evidence.command == "status")
        || (phase_is_finalized evidence.phase && file_digest_is file evidence.state_sha256))

abbrev pub is_present : {A : Type 0} → Option A → Bool
is_present none = false
is_present (some a) = true

-- `state["..."][name]`, a KeyError where it is missing.
abbrev pub stored_snapshot : Option Snapshot → Action Snapshot
stored_snapshot none = raise
stored_snapshot (some s) = pure s

module _ (forge : Forge) where
  -- A call that must be verified, and the checkpoint after it.
  unfoldable pub step_failback : Call → String → Action (Unit {0})
  step_failback call checkpoint = do
    result ← perform forge call
    require (is_verified result)
    change (at_failback checkpoint)
    save forge

module _ (forge : Forge) (plan_sha256 : String) (repositories : List String) where
  unfoldable pub check_failback : TransitionState → String → Action (Unit {0})
  check_failback state name = do
    check_operational forge finalized name
    require (is_present (lookup name state.source_ci_snapshots))
    require (is_present (lookup name state.finalize_snapshots))

  unfoldable pub lock_destination : String → Action (Unit {0})
  lock_destination name = do
    access ← perform forge (set_destination_access name shadow)
    relay ← perform forge (set_native_relay_enabled name false)
    require (is_verified access && is_verified relay)

  unfoldable pub unfreeze_source : TransitionState → String → Action (Unit {0})
  unfreeze_source state name = do
    snapshot ← stored_snapshot (lookup name state.finalize_snapshots)
    step_failback forge (restore_source_repository name snapshot) ("source-unfrozen:" ++ name)

  unfoldable pub sync_back : String → Action (Unit {0})
  sync_back name = do
    result ← perform forge (reverse_sync name)
    require (is_verified result)
    change (λ n. record n { repositories = insert name true n.repositories })
    change (at_failback ("reverse-sync-verified:" ++ name))
    save forge

  unfoldable pub restore_ci : TransitionState → String → Action (Unit {0})
  restore_ci state name = do
    snapshot ← stored_snapshot (lookup name state.source_ci_snapshots)
    step_failback forge (restore_source_ci name snapshot) ("source-ci-restored:" ++ name)

  -- The body of the try block; all calls before the last loop were required to be verified.
  unfoldable pub fail_back : TransitionState → Action (Unit {0})
  fail_back state = do
    for_each (check_failback state) repositories
    change (at_failback "preflight-complete")
    save forge
    for_each
        (λ name.
          step_failback forge (set_destination_authority name false)
            ("destination-authority-disabled:" ++ name))
        repositories
    for_each lock_destination repositories
    for_each (unfreeze_source state) repositories
    for_each sync_back repositories
    for_each (restore_ci state) repositories
    for_each (check_operational forge rolled_back) repositories
    pure tt

  unfoldable pub abandon_failback : Action Bool
  abandon_failback = do
    state ← next
    (results, recovery_state) ← restore_finalized_after_failback_failure forge repositories state
    store_state forge recovery_state
    store_proof forge "failback" false
    pure false

  unfoldable pub complete_failback : Action Bool
  complete_failback = do
    store_proof forge "failback" true
    change (λ n. record n {
      phase = rolled_back;
      destination_authority_enabled = false;
      failback_checkpoint = "completed";
    })
    save forge
    pure true

  abbrev pub finish_failback : Option (Unit {0}) → Action Bool
  finish_failback none = abandon_failback
  finish_failback (some u) = complete_failback

  unfoldable pub failback_locked : Proof → Action Bool
  failback_locked evidence = do
    file ← (λ s. (s, ok s.file))
    state ← loaded forge plan_sha256 false
    require (is_finalized state.phase)
    require (failback_evidence_holds state file evidence)
    change (λ n. state)
    outcome ← attempt (fail_back state)
    finish_failback outcome

  unfoldable pub command_failback : Setting → Control → String → Proof → Action Bool
  command_failback setting control confirmation_env proof = do
    evidence ←
        approve setting plan_sha256 control ("finalize" ∷ "status" ∷ []) true confirmation_env proof
    with_lock forge (failback_locked evidence)
