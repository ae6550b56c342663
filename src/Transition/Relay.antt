-- ===== src/Transition/Relay.antt =====
-- A round of the relay below its failure threshold only synchronizes.
use platform_gitops.Prelude.{
  ◌≡◌, refl, arith, suc, ◌≤◌, String, Bool, true, false, ◌&&◌, List, [], ◌∷◌, all, leb,
  if◌then◌else◌,
}
use platform_gitops.Transition.State.{
  Call, Forge, Machine, Action, TransitionState, is_transition, reconcile_repository, write_state,
  write_proof, pure, ◌>>◌,
}
use platform_gitops.Transition.Store.{store_state}
use platform_gitops.Transition.Reconcile.{
  RelayControl, Round, reconcile_plan, reconciled_state, over_threshold, run_round,
}
use platform_gitops.Transition.Keeps.{
  Invariant, Keeps, bind-Keeps, pure-Keeps, for_each-Keeps, perform-Keeps, attempt_migration-Keeps,
  store_state-Keeps, store_proof-Keeps,
}
use platform_gitops.Transition.Leads.{
  Leads, Keeps→Leads, Leads→Keeps, bind-Leads, pure-Leads, Leads_given,
}

-- A call that synchronizes a repository, or writes the state or a proof.
abbrev pub synchronizes : Call → Bool
synchronizes (reconcile_repository n) = true
synchronizes (write_state st) = true
synchronizes (write_proof command verified) = true
synchronizes _ = false

abbrev pub OnlySyncs : List Call → Type 0
OnlySyncs calls = all synchronizes calls ≡ true

keep_syncs : (c : Call) (cs : List Call) → synchronizes c ≡ true → OnlySyncs cs → OnlySyncs (c ∷ cs)
keep_syncs c cs h p = ground arith

abbrev syncs : Invariant
syncs = record { holds = OnlySyncs; allowed = synchronizes; keep = keep_syncs }

if-Keeps :
    {A : Type 0} {i : Invariant} {m n : Action A} (b : Bool)
    → (b ≡ true → Keeps i m)
    → (b ≡ false → Keeps i n)
    → Keeps i (if b then m else n)
if-Keeps true k l = k refl
if-Keeps false k l = l refl

-- Whether the rollback could be due after one more failure.
abbrev pub may_roll_back : RelayControl → TransitionState → Bool
may_roll_back control state =
    leb control.relay_failure_threshold (suc state.consecutive_failures)
    && (is_transition state.phase && control.auto_rollback)

module _ (forge : Forge) (plan : String) (names : List String) where
  reconciled_state-failures :
      (results : List Bool) (state : TransitionState)
      → (reconciled_state names results state).consecutive_failures ≤ suc state.consecutive_failures
  unfolding reconciled_state
  reconciled_state-failures results state = ground arith

  reconcile_plan-Leads :
      (state : TransitionState)
      → Leads OnlySyncs
          (reconcile_plan forge plan names state)
          (λ r cs. OnlySyncs cs × (r.1.consecutive_failures ≤ suc state.consecutive_failures))
          OnlySyncs
  unfolding reconcile_plan
  reconcile_plan-Leads state =
      bind-Leads
        (Keeps→Leads {i = syncs} (
          for_each-Keeps names λ name.
            bind-Keeps (attempt_migration-Keeps (perform-Keeps forge _ refl)) λ r. pure-Keeps _))
        λ results. pure-Leads _ λ cs p. (p, reconciled_state-failures results state)

  over_threshold-Keeps :
      (control : RelayControl) (state next_state : TransitionState)
      → (is_transition state.phase && control.auto_rollback) ≡ false
      → Keeps syncs (over_threshold forge plan names control state.phase next_state)
  unfolding over_threshold
  over_threshold-Keeps control state next_state h =
      if-Keeps (is_transition state.phase && control.auto_rollback)
        (λ due. absurd (ground (arith, due, h)))
        λ other. bind-Keeps (store_state-Keeps forge _ refl) λ u. pure-Keeps _

  finish_round-Keeps :
      (control : RelayControl) (state next_state : TransitionState) (verified : Bool)
      → may_roll_back control state ≡ false
      → next_state.consecutive_failures ≤ suc state.consecutive_failures
      → Keeps syncs (
          if leb control.relay_failure_threshold next_state.consecutive_failures
          then over_threshold forge plan names control state.phase next_state
          else (store_state forge next_state
              >> pure (if control.once then Round.exit verified else Round.again)))
  finish_round-Keeps control state next_state verified h few =
      if-Keeps (leb control.relay_failure_threshold next_state.consecutive_failures)
        (λ reached. over_threshold-Keeps control state next_state (ground (arith, reached, h, few)))
        λ below. bind-Keeps (store_state-Keeps forge _ refl) λ u. pure-Keeps _

  run_round-Keeps :
      (control : RelayControl) (state : TransitionState)
      → may_roll_back control state ≡ false
      → Keeps syncs (run_round forge plan names control state)
  unfolding run_round
  run_round-Keeps control state h = Leads→Keeps {i = syncs} (
      bind-Leads (reconcile_plan-Leads state) λ r. Leads_given λ few. Keeps→Leads {i = syncs} (
        bind-Keeps (store_proof-Keeps forge _ _ refl)
          λ digest. finish_round-Keeps control state r.1 _ h few))

  -- A round of the relay makes no call but to synchronize repositories and to write the state and
  -- proofs, unless one more failure would reach the threshold, the phase is transition, and automatic
  -- rollback is on.
  pub run_round-OnlySyncs :
      (control : RelayControl) (state : TransitionState) (s : Machine)
      → may_roll_back control state ≡ false
      → s.calls ≡ []
      → OnlySyncs (run_round forge plan names control state s).0.calls
  run_round-OnlySyncs control state s h start =
      (run_round-Keeps control state h).kept s (ground (arith, start))
