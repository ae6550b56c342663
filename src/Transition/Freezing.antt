-- ===== src/Transition/Freezing.antt =====
-- In which order command_finalize moves authority: no destination is made final before every source
-- is frozen.
use Prim.Native.String.{◌++◌}
use mathlib.Core.List.{reverse}
use platform_gitops.Prelude.{
  ◌≡◌, refl, arith, subst, sym, String, Bool, true, false, List, [], ◌∷◌, Option, none, some,
  eq_iff,
}
use platform_gitops.Transition.State.{
  Call, Forge, Snapshot, Machine, Phase, TransitionState, for_each, ◌>>◌, pure, change,
  restore_source_repository,
}
use platform_gitops.Transition.Approval.{Proof, Control, Setting}
use platform_gitops.Transition.Prepare.{pair_up}
use platform_gitops.Transition.Rollback.{
  with_snapshot, restore_repository, restore_failed_finalization,
}
use platform_gitops.Transition.Enter.{save, take_snapshots}
use platform_gitops.Transition.Finalize.{
  at_finalize, check_operational, freeze_source, apply_final, verify_final, make_final,
  abandon_finalize, complete_finalize, finish_finalize, finalize_locked, command_finalize,
}
use platform_gitops.Transition.Ordered.{order_of, once_cleared, opened, AllCleared, cleared_in}
use platform_gitops.Transition.Keeps.{
  Invariant, Keeps, bind-Keeps, pure-Keeps, for_each-Keeps, perform-Keeps, perform_snapshot-Keeps,
  next-Keeps, change-Keeps, require-Keeps, attempt-Keeps, store_state-Keeps, store_proof-Keeps,
}
use platform_gitops.Transition.Leads.{
  Leads, Keeps→Leads, Leads→Keeps, bind-Leads, pure-Leads, perform-Leads_either, Leads_mono,
  Leads_and,
}
use platform_gitops.Transition.Handover.{
  harmless, finalizes, freezes, final_after_freeze, not-finalizes, reconcile_next-Keeps, save-Keeps,
}
use platform_gitops.Transition.Entering.{loaded-Keeps, with_lock-Keeps, approve-Keeps}

abbrev IsFrozenFirst : Forge → List String → List Call → Type 0
IsFrozenFirst forge names calls = final_after_freeze forge names calls ≡ true

-- The invariants of command_finalize: all calls but the one that makes a destination final.
abbrev final_order : Forge → List String → Invariant
final_order forge names = order_of finalizes (freezes forge) names

abbrev once_frozen : Forge → String → Invariant
once_frozen forge name = once_cleared finalizes (freezes forge) name

abbrev AllFrozen : Forge → List String → List Call → Type 0
AllFrozen forge names calls = AllCleared finalizes (freezes forge) names calls

abbrev frozen_all : Forge → List String → Invariant
frozen_all forge names = opened finalizes (freezes forge) names

module _ (forge : Forge) (plan : String) (names : List String) where
  finish_freeze-Keeps :
      (i : Invariant) (allow : (c : Call) → harmless c ≡ true → i.allowed c ≡ true) (name : String)
      (r : Option Bool)
      → Keeps i (do change (at_finalize ("source-frozen:" ++ name)); save forge; pure r)
  finish_freeze-Keeps i allow name r =
      bind-Keeps (change-Keeps _) λ u. bind-Keeps (save-Keeps i allow names forge) λ v. pure-Keeps r

  pub freeze_source-Keeps :
      (i : Invariant) (allow : (c : Call) → harmless c ≡ true → i.allowed c ≡ true) (name : String)
      → Keeps i (freeze_source forge plan names name)
  unfolding freeze_source
  freeze_source-Keeps i allow name =
      bind-Keeps (perform-Keeps forge _ (allow _ refl)) λ r. finish_freeze-Keeps i allow name r

  freeze_source-Leads :
      (name : String)
      → Leads
          (IsFrozenFirst forge names)
          (freeze_source forge plan names name)
          (λ r cs. IsFrozenFirst forge names cs × (cleared_in (freezes forge) cs name ≡ true))
          (IsFrozenFirst forge names)
  unfolding freeze_source
  freeze_source-Leads name =
      bind-Leads
        (perform-Leads_either
          {R = λ r cs. IsFrozenFirst forge names cs × (cleared_in (freezes forge) cs name ≡ true)}
          forge _ (λ cs r same p. (ground arith, ground (arith, same, eq_iff name name)))
          (λ cs p. ground arith))
        λ r.
          Leads_and
            (Keeps→Leads (finish_freeze-Keeps (final_order forge names) not-finalizes name r))
            (Keeps→Leads (finish_freeze-Keeps (once_frozen forge name) (λ c h. refl) name r))

  freeze_sources-Leads :
      (ns : List String)
      → Leads
          (IsFrozenFirst forge names)
          (for_each (freeze_source forge plan names) ns)
          (λ rs cs. IsFrozenFirst forge names cs × AllFrozen forge ns cs)
          (IsFrozenFirst forge names)
  unfolding for_each
  freeze_sources-Leads [] = pure-Leads [] λ cs p. (p, refl)
  freeze_sources-Leads (n ∷ ns) = bind-Leads (freeze_source-Leads n) λ b.
      bind-Leads
        (Leads_and (freeze_sources-Leads ns) (
          Keeps→Leads {i = once_frozen forge n}
            (for_each-Keeps ns (freeze_source-Keeps (once_frozen forge n) (λ c h. refl)))))
        λ bs. pure-Leads _ λ cs p. (p.0.0, ground (arith, p.0.1, p.1))

  apply_final-Keeps :
      (name : String) → Keeps (frozen_all forge names) (apply_final forge plan names name)
  unfolding apply_final
  apply_final-Keeps name =
      bind-Keeps (perform-Keeps forge _ refl)
        λ a. bind-Keeps (perform-Keeps forge _ refl) λ b. require-Keeps _

  verify_final-Keeps :
      (pair : String × Option Bool)
      → Keeps (frozen_all forge names) (verify_final forge plan names pair)
  unfolding verify_final
  verify_final-Keeps (name, frozen) =
      bind-Keeps (perform-Keeps forge _ refl)
        λ a. bind-Keeps (perform-Keeps forge _ refl) λ b. require-Keeps _

  check_operational-Keeps :
      (phase : Phase) (name : String)
      → Keeps (final_order forge names) (check_operational forge phase name)
  unfolding check_operational
  check_operational-Keeps phase name = bind-Keeps (perform-Keeps forge _ refl) λ a. require-Keeps _

  take_snapshots-Keeps : Keeps (final_order forge names) (take_snapshots forge plan names)
  unfolding take_snapshots
  take_snapshots-Keeps = for_each-Keeps names λ name. perform_snapshot-Keeps forge _ name refl

  -- Weaker properties after every source was frozen.
  final-Leads :
      {A : Type 0} {m : _}
      → Keeps (frozen_all forge names) m
      → Leads
          (λ cs. IsFrozenFirst forge names cs × AllFrozen forge names cs)
          m
          (λ (a : A) cs. IsFrozenFirst forge names cs)
          (IsFrozenFirst forge names)
  final-Leads k = Leads_mono (Keeps→Leads k) (λ cs p. p) (λ a cs p. p.0) (λ cs p. p.0)

  make_final-Leads :
      Leads
        (IsFrozenFirst forge names)
        (make_final forge plan names)
        (λ u. IsFrozenFirst forge names)
        (IsFrozenFirst forge names)
  unfolding make_final
  make_final-Leads =
      bind-Leads
        (Keeps→Leads {i = final_order forge names}
          (for_each-Keeps names (check_operational-Keeps _)))
        λ a.
          bind-Leads (Keeps→Leads {i = final_order forge names} take_snapshots-Keeps) λ snapshots.
            bind-Leads (Keeps→Leads {i = final_order forge names} (change-Keeps _)) λ b.
              bind-Leads
                (Keeps→Leads {i = final_order forge names}
                  (save-Keeps (final_order forge names) not-finalizes names forge))
                λ c. bind-Leads (freeze_sources-Leads names) λ frozen. final-Leads (
                  bind-Keeps
                    (reconcile_next-Keeps (frozen_all forge names) (λ c h. refl) names forge plan)
                    λ d. bind-Keeps (require-Keeps _) λ e.
                      bind-Keeps (for_each-Keeps names apply_final-Keeps) λ f.
                        bind-Keeps (for_each-Keeps (pair_up names frozen) verify_final-Keeps)
                          λ g. pure-Keeps _)

  restore_source-Keeps :
      (name : String) (found : Option Snapshot)
      → Keeps (final_order forge names) (with_snapshot forge (restore_source_repository name) found)
  restore_source-Keeps name none = pure-Keeps _
  restore_source-Keeps name (some snapshot) = perform-Keeps forge _ refl

  restore_repository-Keeps :
      (state : TransitionState) (name : String)
      → Keeps (final_order forge names) (restore_repository forge state name)
  unfolding restore_repository
  restore_repository-Keeps state name = bind-Keeps (attempt-Keeps (perform-Keeps forge _ refl)) λ a.
      bind-Keeps (attempt-Keeps (perform-Keeps forge _ refl))
        λ b. bind-Keeps (attempt-Keeps (restore_source-Keeps name _)) λ c. pure-Keeps _

  finish_finalize-Keeps :
      (outcome : Option (Unit {0}))
      → Keeps (final_order forge names) (finish_finalize forge plan names outcome)
  unfolding abandon_finalize complete_finalize restore_failed_finalization
  finish_finalize-Keeps none = bind-Keeps next-Keeps λ state.
      bind-Keeps
        (bind-Keeps (for_each-Keeps (reverse names) (restore_repository-Keeps state))
          λ rs. pure-Keeps _)
        λ pair.
          bind-Keeps (store_state-Keeps forge _ refl)
            λ u. bind-Keeps (store_proof-Keeps forge _ _ refl) λ v. pure-Keeps _
  finish_finalize-Keeps (some u) = bind-Keeps (store_proof-Keeps forge _ _ refl) λ digest.
      bind-Keeps (change-Keeps _) λ v.
        bind-Keeps (save-Keeps (final_order forge names) not-finalizes names forge)
          λ w. pure-Keeps _

  finalize_locked-Keeps :
      (proof : Proof) → Keeps (final_order forge names) (finalize_locked forge plan names proof)
  unfolding finalize_locked
  finalize_locked-Keeps proof = bind-Keeps (loaded-Keeps forge plan false) λ state.
      bind-Keeps (require-Keeps _) λ u. bind-Keeps (require-Keeps _) λ v.
        bind-Keeps (change-Keeps _) λ w.
          bind-Keeps (attempt-Keeps (Leads→Keeps {i = final_order forge names} make_final-Leads))
            λ outcome. finish_finalize-Keeps outcome

  -- However the remote calls answer and whichever raise, every call of command_finalize, from its
  -- first call on, that gives a destination the access of the finalized phase is made after a call of
  -- freeze_source_repository for every repository of the plan, and each of these returned rather than
  -- raised. Whether its result was verified is no part of this: the command looks at that only
  -- after the access is given.
  pub command_finalize-final_after_freeze :
      (setting : Setting) (control : Control) (env : String) (proof : Proof) (s : Machine)
      → s.calls ≡ []
      → final_after_freeze forge names
          (command_finalize forge plan names setting control env proof s).0.calls
        ≡ true
  unfolding command_finalize
  command_finalize-final_after_freeze setting control env proof s start =
      (bind-Keeps (approve-Keeps setting plan control _ true env proof)
          λ evidence. with_lock-Keeps forge (finalize_locked-Keeps evidence)).kept
        s (subst (IsFrozenFirst forge names) (sym start) refl)
