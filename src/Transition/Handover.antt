-- ===== src/Transition/Handover.antt =====
-- The order of the calls that move authority, and the steps of command_enter that keep invariants of
-- all other calls.
use Prim.Native.String.{◌++◌}
use platform_gitops.Prelude.{
  ◌≡◌, refl, arith, String, ◌==◌, Bool, true, false, not, ◌||◌, ◌&&◌, List, Option, none, some,
}
use platform_gitops.Prelude.Result.{Result, ok, err}
use platform_gitops.Transition.State.{
  Call, Failure, Forge, Inventory, Snapshot, set_destination_authority, disable_source_ci,
  set_destination_access, freeze_source_repository, finalized, ◌>>◌, pure, change,
}
use platform_gitops.Transition.Approval.{Proof, found_repo, find_proof_repo}
use platform_gitops.Transition.Reconcile.{reconcile_plan}
use platform_gitops.Transition.Enter.{
  at_handover, save, check_handover, reconcile_next, disable_source, verify_handover,
}
use platform_gitops.Transition.Ordered.{Clears, gated_after}
use platform_gitops.Transition.Keeps.{
  Invariant, Keeps, bind-Keeps, pure-Keeps, for_each-Keeps, perform-Keeps, perform_inventory-Keeps,
  next-Keeps, change-Keeps, raise-Keeps, require-Keeps, attempt_migration-Keeps, store_state-Keeps,
}

-- A call that gives a destination authority, and one that disables the CI of a source and returns.
abbrev pub enables : Call → Bool
enables (set_destination_authority n b) = b
enables _ = false

-- A call that returned, whether or not its result says that it was verified.
abbrev pub returned : {A : Type 0} → Result Failure A → Bool
returned (ok a) = true
returned (err e) = false

abbrev pub disables : Forge → Clears
disables forge name older (disable_source_ci n s) =
    name == n && returned (forge.answer older (disable_source_ci n s))
disables forge name older _ = false

-- A call that makes a destination final, and one that freezes a source and returns.
abbrev pub finalizes : Call → Bool
finalizes (set_destination_access n finalized) = true
finalizes _ = false

abbrev pub freezes : Forge → Clears
freezes forge name older (freeze_source_repository n) =
    name == n && returned (forge.answer older (freeze_source_repository n))
freezes forge name older _ = false

-- For each repository, every call that gives a destination authority comes after one that disabled
-- the CI of the repository's source and returned.
abbrev pub authority_after_disable : Forge → List String → List Call → Bool
authority_after_disable forge names calls = gated_after enables (disables forge) names calls

-- For each repository, every call that makes a destination final comes after one that froze the
-- repository's source and returned.
abbrev pub final_after_freeze : Forge → List String → List Call → Bool
final_after_freeze forge names calls = gated_after finalizes (freezes forge) names calls

abbrev pub harmless : Call → Bool
harmless c = not (enables c || finalizes c)

pub not-enables : (c : Call) → harmless c ≡ true → not (enables c) ≡ true
not-enables c h = ground arith

pub not-finalizes : (c : Call) → harmless c ≡ true → not (finalizes c) ≡ true
not-finalizes c h = ground arith

abbrev pub IsOrdered : Forge → List String → List Call → Type 0
IsOrdered forge names calls = authority_after_disable forge names calls ≡ true

-- Steps that neither give a destination authority nor make it final keep an invariant of the other
-- calls.
module _ (i : Invariant) (allow : (c : Call) → harmless c ≡ true → i.allowed c ≡ true)
    (names : List String) where
  found_repo-Keeps : (found : Option Inventory) → Keeps i (found_repo found)
  unfolding found_repo
  found_repo-Keeps none = raise-Keeps
  found_repo-Keeps (some v) = pure-Keeps v

  find_proof_repo-Keeps : (proof : Proof) (name : String) → Keeps i (find_proof_repo proof name)
  unfolding find_proof_repo
  find_proof_repo-Keeps proof name = found_repo-Keeps _

  pub check_handover-Keeps :
      (forge : Forge) (plan : String) (proof : Proof) (name : String)
      → Keeps i (check_handover forge plan names proof name)
  unfolding check_handover
  check_handover-Keeps forge plan proof name =
      bind-Keeps (find_proof_repo-Keeps proof name) λ approved.
        bind-Keeps (perform_inventory-Keeps forge _ name (allow _ refl)) λ current.
          bind-Keeps (require-Keeps _) λ u.
            bind-Keeps (require-Keeps _)
              λ v. bind-Keeps (perform-Keeps forge _ (allow _ refl)) λ source. require-Keeps _

  pub reconcile_next-Keeps :
      (forge : Forge) (plan : String) → Keeps i (reconcile_next forge plan names)
  unfolding reconcile_next reconcile_plan
  reconcile_next-Keeps forge plan = bind-Keeps next-Keeps λ state.
      bind-Keeps
        (bind-Keeps
          (for_each-Keeps names λ name.
            bind-Keeps (attempt_migration-Keeps (perform-Keeps forge _ (allow _ refl)))
              λ r. pure-Keeps _)
          λ results. pure-Keeps _)
        λ pair. bind-Keeps (change-Keeps _) λ u. pure-Keeps _

  pub save-Keeps : (forge : Forge) → Keeps i (save forge)
  unfolding save
  save-Keeps forge = bind-Keeps next-Keeps λ state. store_state-Keeps forge state (allow _ refl)

  pub finish_disable-Keeps :
      (forge : Forge) (name : String) (r : Option Bool)
      → Keeps i (do change (at_handover ("source-ci-disabled:" ++ name)); save forge; pure r)
  finish_disable-Keeps forge name r =
      bind-Keeps (change-Keeps _) λ u. bind-Keeps (save-Keeps forge) λ v. pure-Keeps r

  pub disable_source-Keeps :
      (forge : Forge) (plan : String) (pair : String × Snapshot)
      → Keeps i (disable_source forge plan names pair)
  unfolding disable_source
  disable_source-Keeps forge plan (name, snapshot) =
      bind-Keeps (perform-Keeps forge _ (allow _ refl)) λ r. finish_disable-Keeps forge name r

  pub verify_handover-Keeps :
      (forge : Forge) (plan : String) (pair : String × Option Bool)
      → Keeps i (verify_handover forge plan names pair)
  unfolding verify_handover
  verify_handover-Keeps forge plan (name, disabled) =
      bind-Keeps (perform-Keeps forge _ (allow _ refl))
        λ r. bind-Keeps (perform-Keeps forge _ (allow _ refl)) λ t. require-Keeps _
