-- ===== src/Transition/Entering.antt =====
-- command_enter as a whole, its automatic rollback included.
use mathlib.Core.List.{reverse}
use platform_gitops.Prelude.{
  ◌≡◌, refl, arith, sym, subst, String, Bool, true, false, Option, none, some, List, [], ◌⊎◌, inl,
  inr,
}
use platform_gitops.Prelude.Result.{}
use platform_gitops.Transition.State.{
  Call, Forge, Snapshot, Machine, Action, TransitionState, restore_source_ci,
}
use platform_gitops.Transition.Store.{loaded, with_lock}
use platform_gitops.Transition.Approval.{Proof, Control, Setting, approve}
use platform_gitops.Transition.Rollback.{
  with_snapshot, rollback_repository, rollback_transition_state,
}
use platform_gitops.Transition.Enter.{
  abandon_handover, complete_handover, finish_handover, enter_locked, command_enter,
}
use platform_gitops.Transition.Keeps.{
  Invariant, Keeps, bind-Keeps, pure-Keeps, for_each-Keeps, perform-Keeps, next-Keeps, change-Keeps,
  require-Keeps, attempt-Keeps, store_state-Keeps, store_proof-Keeps,
}
use platform_gitops.Transition.Leads.{Leads→Keeps}
use platform_gitops.Transition.Handover.{
  harmless, not-enables, IsOrdered, authority_after_disable, save-Keeps,
}
use platform_gitops.Transition.Authority.{order, hand_over-Leads}

module _ (forge : Forge) where
  -- A command under the lock makes no call, or those of its body.
  with_lock-calls :
      {A : Type 0} (body : Action A) (s : Machine)
      → ((with_lock forge body s).0.calls ≡ s.calls)
        ⊎ ((with_lock forge body s).0.calls ≡ (body (record s { lock = true })).0.calls)
  unfolding with_lock
  with_lock-calls body s = ground arith

pub approve-machine :
    (setting : Setting) (plan : String) (control : Control) (commands : List String)
    (require_verified : Bool) (env : String) (proof : Proof) (s : Machine)
    → (approve setting plan control commands require_verified env proof s).0 ≡ s
unfolding approve
approve-machine setting plan control commands require_verified env proof s = ground arith

module _ {i : Invariant} where
  pub loaded-Keeps :
      (forge : Forge) (plan : String) (allow_missing : Bool)
      → Keeps i (loaded forge plan allow_missing)
  unfolding loaded
  loaded-Keeps forge plan allow_missing = record { kept = λ s p. p }

  pub with_lock-Keeps :
      {A : Type 0} {body : Action A} (forge : Forge) → Keeps i body → Keeps i (with_lock forge body)
  with_lock-Keeps {body = body} forge k = record {
    kept = λ s p. elim (with_lock-calls forge body s) [
      | inl none_made ↦ subst i.holds (sym none_made) p
      | inr made ↦ subst i.holds (sym made) (k.kept (record s { lock = true }) p)
    ];
  }

  pub approve-Keeps :
      (setting : Setting) (plan : String) (control : Control) (commands : List String)
      (require_verified : Bool) (env : String) (proof : Proof)
      → Keeps i (approve setting plan control commands require_verified env proof)
  approve-Keeps setting plan control commands require_verified env proof = record {
    kept = λ s p.
        subst (λ t. i.holds t.calls)
          (sym (approve-machine setting plan control commands require_verified env proof s)) p;
  }

module _ (i : Invariant) (allow : (c : Call) → harmless c ≡ true → i.allowed c ≡ true)
    (forge : Forge) where
  restore_ci-Keeps :
      (name : String) (found : Option Snapshot)
      → Keeps i (with_snapshot forge (restore_source_ci name) found)
  restore_ci-Keeps name none = pure-Keeps _
  restore_ci-Keeps name (some snapshot) = perform-Keeps forge _ (allow _ refl)

  pub rollback_repository-Keeps :
      (state : TransitionState) (stop_relay : Bool) (name : String)
      → Keeps i (rollback_repository forge state stop_relay name)
  unfolding rollback_repository
  rollback_repository-Keeps state stop_relay name =
      bind-Keeps (attempt-Keeps (perform-Keeps forge _ (allow _ refl))) λ a.
        bind-Keeps (attempt-Keeps (perform-Keeps forge _ (allow _ refl))) λ b.
          bind-Keeps (attempt-Keeps (restore_ci-Keeps name _))
            λ c. bind-Keeps (attempt-Keeps (perform-Keeps forge _ (allow _ refl))) λ d. pure-Keeps _

  pub rollback_transition_state-Keeps :
      (names : List String) (state : TransitionState) (stop_relay : Bool)
      → Keeps i (rollback_transition_state forge names state stop_relay)
  unfolding rollback_transition_state
  rollback_transition_state-Keeps names state stop_relay =
      bind-Keeps (for_each-Keeps (reverse names) (rollback_repository-Keeps state stop_relay))
        λ rs. pure-Keeps _

module _ (forge : Forge) (plan : String) (names : List String) where
  finish_handover-Keeps :
      (outcome : Option (Unit {0}))
      → Keeps (order forge names) (finish_handover forge plan names outcome)
  unfolding abandon_handover complete_handover
  finish_handover-Keeps none = bind-Keeps next-Keeps λ state.
      bind-Keeps
        (rollback_transition_state-Keeps (order forge names) not-enables forge names state false)
        λ pair.
          bind-Keeps (store_state-Keeps forge _ refl)
            λ u. bind-Keeps (store_proof-Keeps forge _ _ refl) λ v. pure-Keeps _
  finish_handover-Keeps (some u) = bind-Keeps (store_proof-Keeps forge _ _ refl) λ digest.
      bind-Keeps (change-Keeps _)
        λ v. bind-Keeps (save-Keeps (order forge names) not-enables names forge) λ w. pure-Keeps _

  enter_locked-Keeps :
      (proof : Proof) → Keeps (order forge names) (enter_locked forge plan names proof)
  unfolding enter_locked
  enter_locked-Keeps proof = bind-Keeps (loaded-Keeps forge plan false) λ state.
      bind-Keeps (require-Keeps _) λ u. bind-Keeps (require-Keeps _) λ v.
        bind-Keeps (change-Keeps _) λ w.
          bind-Keeps
            (attempt-Keeps
              (Leads→Keeps {i = order forge names} (hand_over-Leads names forge plan proof)))
            λ outcome. finish_handover-Keeps outcome

  -- However the remote calls answer and whichever raise, every call of command_enter, from its first
  -- call on, that gives a destination authority is made after a call of disable_source_ci for every
  -- repository of the plan, and each of these returned rather than raised. Whether its result was
  -- verified is no part of this: the command looks at that only after the authority is given.
  pub command_enter-authority_after_disable :
      (setting : Setting) (control : Control) (env : String) (proof : Proof) (s : Machine)
      → s.calls ≡ []
      → authority_after_disable forge names
          (command_enter forge plan names setting control env proof s).0.calls
        ≡ true
  unfolding command_enter
  command_enter-authority_after_disable setting control env proof s start =
      (bind-Keeps (approve-Keeps setting plan control _ true env proof)
          λ shadow_proof. with_lock-Keeps forge (enter_locked-Keeps shadow_proof)).kept
        s (subst (IsOrdered forge names) (sym start) refl)
