-- ===== src/Transition/Approval.antt =====
-- load_proof and require_confirmation: which proof a command accepts, and who approved it.
use platform_gitops.Prelude.{
  ℕ, String, ◌==◌, Bool, false, not, ◌&&◌, ◌||◌, Option, none, some, List, leb, contains,
  if◌then◌else◌,
}
use platform_gitops.Prelude.Result.{Result, ok, err}
use platform_gitops.Transition.State.{
  Phase, Failure, migration_error, Inventory, tool_name, Action, raise, pure, lookup,
}

-- The fields of a proof that commands read.
pub record Proof : Type 0 where
  pub tool : String
  pub command : String
  pub plan_sha256 : String
  pub proof_sha256 : String
  pub verified : Bool
  pub phase : Option Phase
  pub state_sha256 : String
  pub repositories : List (String × Inventory)

-- The control section of a plan: names of environment variables, and the oldest proof.
pub record Control : Type 0 where
  pub live_env : String
  pub change_ticket_env : String
  pub max_proof_age_seconds : ℕ

-- The environment's variables, the digest of a proof, and its age, none where its date is invalid.
pub record Setting : Type 0 where
  pub environ : String → Option String
  pub proof_digest : Proof → String
  pub strip : String → String
  pub proof_age_seconds : Proof → Option ℕ

unfoldable pub or_empty : Option String → String
or_empty none = ""
or_empty (some s) = s

abbrev pub is_recent : Option ℕ → ℕ → Bool
is_recent none max_age = false
is_recent (some age) max_age = leb age max_age

module _ (setting : Setting) (plan_sha256 : String) where
  -- A proof is returned unless its digest, command, plan or, where it must be, `verified` is wrong.
  unfoldable pub load_proof : List String → Bool → Proof → Result Failure Proof
  load_proof commands require_verified proof =
      if proof.proof_sha256 == "" || not (proof.proof_sha256 == setting.proof_digest proof)
      then err migration_error
      else if not (proof.tool == tool_name) || not (contains proof.command commands)
      then err migration_error
      else if not (proof.plan_sha256 == plan_sha256)
      then err migration_error
      else if require_verified && not proof.verified
      then err migration_error
      else ok proof

  unfoldable pub require_confirmation : Control → Proof → String → Result Failure (Unit {0})
  unfolding or_empty
  require_confirmation control proof confirmation_env =
      if not (or_empty (setting.environ control.live_env) == "1")
      then err migration_error
      else if not (or_empty (setting.environ confirmation_env) == proof.proof_sha256)
      then err migration_error
      else if setting.strip (or_empty (setting.environ control.change_ticket_env)) == ""
      then err migration_error
      else if is_recent (setting.proof_age_seconds proof) control.max_proof_age_seconds
      then ok tt
      else err migration_error

  -- The start of a command: the proof is loaded, and where an approval is due, confirmed.
  unfoldable pub approve : Control → List String → Bool → String → Proof → Action Proof
  approve control commands require_verified confirmation_env proof s =
      elim (load_proof commands require_verified proof) [
        | err e ↦ (s, err e)
        | ok p ↦ elim (require_confirmation control p confirmation_env) [
          | err e ↦ (s, err e)
          | ok u ↦ (s, ok p)
        ]
      ]

-- find_proof_repo: the first entry with the name, or a CutoverError.
unfoldable pub found_repo : Option Inventory → Action Inventory
found_repo none = raise
found_repo (some i) = pure i

unfoldable pub find_proof_repo : Proof → String → Action Inventory
find_proof_repo proof name = found_repo (lookup name proof.repositories)
