-- ===== src/Transition/Prepare.antt =====
-- command_prepare and command_verify_shadow: the shadow phase, before any authority moves.
use platform_gitops.Prelude.{
  String, ◌==◌, Bool, true, false, ◌&&◌, Option, none, some, List, [], ◌∷◌, all, map, if◌then◌else◌,
}
use platform_gitops.Transition.State.{
  Phase, planned, shadow, rolled_back, TransitionState, initial_state, Forge, Action,
  discover_repository, prepare_transition_repository, ensure_relay, set_native_relay_enabled,
  verify_transition_repository, verify_source_authority, for_each, ◌>>=◌, ◌>>◌, pure, require,
  attempt_migration, is_verified, is_shadow, holds,
}
use platform_gitops.Transition.Store.{
  perform, perform_inventory, store_state, store_proof, loaded, with_lock,
}
use platform_gitops.Transition.Approval.{
  Proof, Control, Setting, approve, load_proof, find_proof_repo,
}
use platform_gitops.Transition.Reconcile.{reconcile_plan, record_all}

-- `phase in {"planned", "rolled-back"}`
abbrev pub can_prepare : Phase → Bool
can_prepare planned = true
can_prepare rolled_back = true
can_prepare _ = false

-- Whether the repository was verified, none where a MigrationError ended its preparation.
abbrev pub prepared_ok : Option Bool → Bool
prepared_ok none = false
prepared_ok (some b) = b

unfoldable pub pair_up {ℓ} : {A B : Type ℓ} → List A → List B → List (A × B)
pair_up [] bs = []
pair_up (a ∷ as_) [] = []
pair_up (a ∷ as_) (b ∷ bs) = (a, b) ∷ pair_up as_ bs

module _ (forge : Forge) (plan_sha256 : String) (repositories : List String) where
  unfoldable pub prepare_repository : Proof → String → Action (Option Bool)
  prepare_repository discovery name = do
    approved ← find_proof_repo discovery name
    attempt_migration (do
      current ← perform_inventory forge (discover_repository name) name
      source ← perform forge (verify_source_authority name shadow)
      require
          (current.contract_verified && (is_verified source && current.digest == approved.digest))
      prepared ← perform forge (prepare_transition_repository name)
      relay ← perform forge (ensure_relay name)
      pure (is_verified prepared && is_verified relay))

  -- Relays that were configured are stopped again; a MigrationError is passed over.
  unfoldable pub stop_relay : String × Option Bool → Action (Option (Option Bool))
  stop_relay (name, none) = pure none
  stop_relay (name, some b) =
      attempt_migration (perform forge (set_native_relay_enabled name false))

  unfoldable pub prepared_state : List Bool → String → TransitionState
  prepared_state results digest =
      let start = initial_state plan_sha256 in
      record start {
        phase = shadow;
        prepared_proof_sha256 = some digest;
        repositories = record_all repositories results [];
      }

  unfoldable pub prepare_locked : Proof → Action Bool
  prepare_locked discovery = do
    state ← loaded forge plan_sha256 true
    require (can_prepare state.phase)
    prepared ← for_each (prepare_repository discovery) repositories
    let verified = all prepared_ok prepared
    digest ← store_proof forge "prepare" verified
    if verified
        then (store_state forge (prepared_state (map prepared_ok prepared) digest) >> pure true)
        else (for_each stop_relay (pair_up repositories prepared) >> pure false)

  unfoldable pub command_prepare : Setting → Control → String → Proof → Action Bool
  command_prepare setting control confirmation_env proof = do
    discovery ← approve setting plan_sha256 control ("discover" ∷ []) true confirmation_env proof
    with_lock forge (prepare_locked discovery)

  -- Whether a repository is relayed, verified, unchanged, and its source CI still in authority.
  unfoldable pub verify_shadow_repository : Proof → String × Bool → Action Bool
  verify_shadow_repository prepared (name, relayed) = do
    prepared_repo ← find_proof_repo prepared name
    checked ← attempt_migration (do
      current ← perform_inventory forge (verify_transition_repository name shadow) name
      source ← perform forge (verify_source_authority name shadow)
      pure (
          relayed
          && (current.contract_verified
              && (current.digest == prepared_repo.digest && is_verified source))))
    pure (prepared_ok checked)

  unfoldable pub shadow_state : Bool → String → TransitionState → TransitionState
  shadow_state verified digest state =
      if verified then record state { last_shadow_proof_sha256 = some digest } else state

  unfoldable pub verify_shadow_locked : Proof → Action Bool
  verify_shadow_locked prepared = do
    state ← loaded forge plan_sha256 false
    require (is_shadow state.phase)
    require (holds state.prepared_proof_sha256 prepared.proof_sha256)
    (relayed, next_state) ← reconcile_plan forge plan_sha256 repositories state
    results ← for_each (verify_shadow_repository prepared) (pair_up repositories relayed)
    digest ← store_proof forge "verify-shadow" (all (λ v. v) results)
    store_state forge (shadow_state (all (λ v. v) results) digest next_state)
    pure (all (λ v. v) results)

  unfoldable pub command_verify_shadow : Setting → Proof → Action Bool
  command_verify_shadow setting proof = do
    prepared ← (λ s. (s, load_proof setting plan_sha256 ("prepare" ∷ []) true proof))
    with_lock forge (verify_shadow_locked prepared)
