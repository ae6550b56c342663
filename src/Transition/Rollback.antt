-- ===== src/Transition/Rollback.antt =====
-- rollback_transition_state, restore_failed_finalization and restore_finalized_after_failback_failure:
-- what a command undoes, repository by repository in reverse order, whatever fails.
use mathlib.Core.List.{reverse}
use platform_gitops.Prelude.{
  String, Bool, true, false, not, ◌&&◌, Option, none, some, List, [], ◌∷◌, all, if◌then◌else◌,
}
use platform_gitops.Prelude.Result.{ok, err}
use platform_gitops.Transition.State.{
  shadow, transition, finalized, rolled_back, rollback_failed, Snapshot, TransitionState, Call,
  Forge, Action, set_destination_authority, set_destination_access, set_native_relay_enabled,
  restore_source_ci, restore_source_repository, freeze_source_repository, source_ci_snapshot,
  verify_source_authority, lookup, for_each, ◌>>=◌, ◌>>◌, pure, raise, attempt, is_verified,
  verified_by_default,
}
use platform_gitops.Transition.Store.{perform, perform_snapshot}

-- A child of a repository's result: an exception is an error, a missing `verified` counts as True.
abbrev pub undone : Option (Option Bool) → Bool
undone none = false
undone (some r) = verified_by_default r

-- `bool(results) and all(item.get("verified") for item in results)`
unfoldable pub all_verified : List Bool → Bool
all_verified [] = false
all_verified (b ∷ bs) = all (λ v. v) (b ∷ bs)

-- The state after each of the three, from the results of the repositories.
unfoldable pub rolled_back_state : TransitionState → Bool → List Bool → TransitionState
rolled_back_state state stop_relay results =
    if all_verified results
    then record state {
      phase = if stop_relay then rolled_back else shadow;
      destination_authority_enabled = false;
      source_ci_snapshots = [];
      consecutive_failures = 0;
    }
    else record state { phase = rollback_failed; destination_authority_enabled = false }

unfoldable pub unfinalized_state : TransitionState → List Bool → TransitionState
unfinalized_state state results =
    if all_verified results
    then record state {
      phase = transition;
      destination_authority_enabled = true;
      finalize_snapshots = [];
    }
    else record state { phase = rollback_failed; destination_authority_enabled = true }

unfoldable pub refinalized_state : TransitionState → List Bool → TransitionState
refinalized_state state results =
    if all_verified results
    then record state {
      phase = finalized;
      destination_authority_enabled = true;
      failback_checkpoint = "automatic-recovery-complete";
    }
    else record state {
      phase = rollback_failed;
      destination_authority_enabled = false;
      failback_checkpoint = "automatic-recovery-incomplete";
    }

module _ (forge : Forge) where
  -- With a snapshot the call is made; without one it is skipped and counts as verified.
  abbrev pub with_snapshot : (Snapshot → Call) → Option Snapshot → Action (Option Bool)
  with_snapshot c none = pure (some true)
  with_snapshot c (some snapshot) = perform forge (c snapshot)

  unfoldable pub rollback_repository : TransitionState → Bool → String → Action Bool
  rollback_repository state stop_relay name = do
    authority ← attempt (perform forge (set_destination_authority name false))
    access ← attempt (perform forge (set_destination_access name shadow))
    source_ci ←
        attempt (with_snapshot (restore_source_ci name) (lookup name state.source_ci_snapshots))
    relay ← attempt (perform forge (set_native_relay_enabled name (not stop_relay)))
    pure (undone authority && (undone access && (undone source_ci && undone relay)))

  unfoldable pub rollback_transition_state :
      List String → TransitionState → Bool → Action (List Bool × TransitionState)
  rollback_transition_state repositories state stop_relay = do
    results ← for_each (rollback_repository state stop_relay) (reverse repositories)
    pure (results, rolled_back_state state stop_relay results)

  -- restore_failed_finalization
  unfoldable pub restore_repository : TransitionState → String → Action Bool
  restore_repository state name = do
    access ← attempt (perform forge (set_destination_access name shadow))
    relay ← attempt (perform forge (set_native_relay_enabled name true))
    source ←
        attempt
          (with_snapshot (restore_source_repository name) (lookup name state.finalize_snapshots))
    pure (undone access && (undone relay && undone source))

  unfoldable pub restore_failed_finalization :
      List String → TransitionState → Action (List Bool × TransitionState)
  restore_failed_finalization repositories state = do
    results ← for_each (restore_repository state) (reverse repositories)
    pure (results, unfinalized_state state results)

  -- restore_finalized_after_failback_failure
  -- `restore_source_repository`, `restore_source_ci` and `freeze_source_repository`.
  unfoldable pub refreeze : String → Snapshot → Action (Option Bool)
  refreeze name disabled = do
    perform forge (restore_source_repository name disabled)
    perform forge (restore_source_ci name disabled)
    perform forge (freeze_source_repository name)

  abbrev pub unless_verified : Option Bool → Action (Option Bool) → Action (Option Bool)
  unless_verified r m = if is_verified r then pure r else m

  unfoldable pub freeze_again : String → Snapshot → Action (Option Bool)
  freeze_again name disabled s =
      let (after, r) = perform_snapshot forge (source_ci_snapshot name) name s in
      elim r [
        | err e ↦ (after, err e)
        | ok current ↦ elim current.archived [
          | true ↦
              (perform forge (verify_source_authority name finalized) >>= λ source.
              unless_verified source (refreeze name disabled))
                after
          | false ↦
              (perform forge (restore_source_ci name disabled)
                  >> perform forge (freeze_source_repository name))
                after
        ]
      ]

  abbrev pub freeze_with : String → Option Snapshot → Action (Option Bool)
  freeze_with name none = raise
  freeze_with name (some disabled) = freeze_again name disabled

  unfoldable pub refinalize_repository : TransitionState → String → Action Bool
  refinalize_repository state name = do
    source ← attempt (freeze_with name (lookup name state.finalize_snapshots))
    access ← attempt (perform forge (set_destination_access name finalized))
    authority ← attempt (perform forge (set_destination_authority name true))
    relay ← attempt (perform forge (set_native_relay_enabled name false))
    pure (undone source && (undone access && (undone authority && undone relay)))

  unfoldable pub restore_finalized_after_failback_failure :
      List String → TransitionState → Action (List Bool × TransitionState)
  restore_finalized_after_failback_failure repositories state = do
    results ← for_each (refinalize_repository state) (reverse repositories)
    pure (results, refinalized_state state results)
