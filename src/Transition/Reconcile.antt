-- ===== src/Transition/Reconcile.antt =====
-- reconcile_plan, command_reconcile and command_run_relay: the relay between the forges.
use platform_gitops.Prelude.{
  ℕ, zero, suc, ◌+◌, String, Bool, true, false, ◌&&◌, ◌||◌, Option, none, some, List, [], ◌∷◌, all,
  leb, if◌then◌else◌,
}
use platform_gitops.Prelude.Result.{ok, err}
use platform_gitops.Transition.State.{
  Phase, TransitionState, Forge, Action, reconcile_repository, insert, for_each, ◌>>=◌, ◌>>◌, pure,
  require, attempt_migration, is_verified, is_shadow, is_transition,
}
use platform_gitops.Transition.Store.{perform, store_state, store_proof, loaded, with_lock}
use platform_gitops.Transition.Rollback.{rollback_transition_state}

-- A result of the relay: an error counts as not verified.
abbrev pub synced : Option (Option Bool) → Bool
synced none = false
synced (some r) = is_verified r

unfoldable pub record_all : List String → List Bool → List (String × Bool) → List (String × Bool)
record_all [] bs out = out
record_all (n ∷ ns) [] out = out
record_all (n ∷ ns) (b ∷ bs) out = record_all ns bs (insert n b out)

unfoldable pub reconciled_state : List String → List Bool → TransitionState → TransitionState
reconciled_state names results state = record state {
  repositories = record_all names results state.repositories;
  consecutive_failures = if all (λ v. v) results then 0 else state.consecutive_failures + 1;
}

-- How the relay is run: its failure threshold, and whether that rolls back.
pub record RelayControl : Type 0 where
  pub relay_failure_threshold : ℕ
  pub auto_rollback : Bool
  pub once : Bool

-- How a round of the relay ends: with an exit code, or in another round.
pub data Round : Type 0 where
  exit : Bool → Round
  again : Round

module _ (forge : Forge) (plan_sha256 : String) (repositories : List String) where
  unfoldable pub reconcile_plan : TransitionState → Action (List Bool × TransitionState)
  reconcile_plan state = do
    results ←
        for_each
          (λ name. do
            r ← attempt_migration (perform forge (reconcile_repository name))
            pure (synced r))
          repositories
    pure (results, reconciled_state repositories results state)

  unfoldable pub reconcile_locked : Action Bool
  reconcile_locked = do
    state ← loaded forge plan_sha256 false
    require (is_shadow state.phase || is_transition state.phase)
    (results, next_state) ← reconcile_plan state
    store_state forge next_state
    store_proof forge "reconcile" (all (λ v. v) results)
    pure (all (λ v. v) results)

  unfoldable pub command_reconcile : Action Bool
  command_reconcile = with_lock forge reconcile_locked

  -- What a round does with the reconciled state once the threshold is reached.
  unfoldable pub over_threshold : RelayControl → Phase → TransitionState → Action Round
  over_threshold control phase next_state =
      if is_transition phase && control.auto_rollback
      then (do
        (results, rollback_state) ← rollback_transition_state forge repositories next_state false
        store_proof forge "automatic-rollback" (all (λ v. v) results)
        store_state forge rollback_state
        pure (exit false))
      else store_state forge next_state >> pure (exit false)

  unfoldable pub run_round : RelayControl → TransitionState → Action Round
  run_round control state = do
    (results, next_state) ← reconcile_plan state
    store_proof forge "reconcile" (all (λ v. v) results)
    if leb control.relay_failure_threshold next_state.consecutive_failures
        then over_threshold control state.phase next_state
        else (store_state forge next_state
            >> pure (if control.once then exit (all (λ v. v) results) else again))

  unfoldable pub relay_round : RelayControl → Action Round
  relay_round control = with_lock forge (do
    state ← loaded forge plan_sha256 false
    if is_shadow state.phase || is_transition state.phase
        then run_round control state
        else pure (exit true))

  -- The argument counts the rounds until a signal stops the loop.
  unfoldable pub run_relay : RelayControl → ℕ → Action Bool
  run_relay control zero s = (s, ok true)
  run_relay control (suc rounds) s =
      let (after, r) = relay_round control s in
      let rest = run_relay control rounds after in
      elim r [ err e ↦ (after, err e) | ok (exit code) ↦ (after, ok code) | ok again ↦ rest ]
