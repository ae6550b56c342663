-- ===== src/Transition/RolledBack.antt =====
-- rollback_transition_state as a whole: what it has tried, and the state that it returns.
use mathlib.Core.List.{reverse}
use platform_gitops.Prelude.{◌≡◌, String, Bool, true, false, List, [], length, ◌⊎◌, if◌then◌else◌}
use platform_gitops.Transition.State.{
  Call, Forge, TransitionState, shadow, rolled_back, rollback_failed,
}
use platform_gitops.Transition.Rollback.{all_verified}
use platform_gitops.Transition.Leads.{Leads}
use platform_gitops.Transition.Undone.{AllUndone}

module _ (forge : Forge) (state : TransitionState) (stop_relay : Bool) where
  -- Either the rollback failed and keeps its snapshots, or every result was verified.
  abbrev pub IsRolledBack : List Bool → TransitionState → Type 0
  IsRolledBack results after_state =
      ((all_verified results ≡ false)
        × (after_state.phase ≡ rollback_failed)
        × (after_state.source_ci_snapshots ≡ state.source_ci_snapshots))
      ⊎ ((all_verified results ≡ true)
          × (after_state.phase ≡ (if stop_relay then rolled_back else shadow))
          × (after_state.source_ci_snapshots ≡ []))

  abbrev Undoing : List String → List Bool × TransitionState → List Call → Type 0
  Undoing names r calls =
      AllUndone forge state stop_relay (reverse names) calls
      × (length r.0 ≡ length (reverse names))
      × IsRolledBack r.0 r.1
      × (r.1.destination_authority_enabled ≡ false)
