-- ===== src/Transition/State.antt =====
-- The durable state of a transition, the calls that its commands make, and the actions they are.
use platform_gitops.Prelude.{ℕ, String, ◌==◌, Bool, true, false, Option, none, some, List, [], ◌∷◌}
use platform_gitops.Prelude.Result.{Result, ok, err}

-- TRANSITION_PHASES, and any other text.
pub data Phase : Type 0 where
  planned shadow transition finalized rolled_back rollback_failed : Phase
  other_phase : String → Phase

-- What source_ci_snapshot returns: whether the repository is archived, and its CI settings.
pub record Snapshot : Type 0 where
  pub archived : Bool
  pub settings : String

-- The fields of the state file that commands read.
pub record TransitionState : Type 0 where
  pub tool : String
  pub plan_sha256 : String
  pub phase : Phase
  pub consecutive_failures : ℕ
  pub repositories : List (String × Bool)
  pub source_ci_snapshots : List (String × Snapshot)
  pub finalize_snapshots : List (String × Snapshot)
  pub destination_authority_enabled : Bool
  pub prepared_proof_sha256 : Option String
  pub last_shadow_proof_sha256 : Option String
  pub enter_proof_sha256 : Option String
  pub finalize_proof_sha256 : Option String
  pub handover_checkpoint : String
  pub finalize_checkpoint : String
  pub failback_checkpoint : String

abbrev pub tool_name : String
tool_name = "platform-forge-transition"

unfoldable pub initial_state : String → TransitionState
initial_state plan_sha256 = record {
  tool = tool_name;
  plan_sha256 = plan_sha256;
  phase = planned;
  consecutive_failures = 0;
  repositories = [];
  source_ci_snapshots = [];
  finalize_snapshots = [];
  destination_authority_enabled = false;
  prepared_proof_sha256 = none;
  last_shadow_proof_sha256 = none;
  enter_proof_sha256 = none;
  finalize_proof_sha256 = none;
  handover_checkpoint = "";
  finalize_checkpoint = "";
  failback_checkpoint = "";
}

-- A key of a dictionary, and its replacement or addition at the end.
unfoldable pub lookup {ℓ} : {A : Type ℓ} → String → List (String × A) → Option A
lookup k [] = none
lookup k ((n, a) ∷ rest) =
    let found = lookup k rest in elim (k == n) [ true ↦ some a | false ↦ found ]

unfoldable pub insert {ℓ} : {A : Type ℓ} → String → A → List (String × A) → List (String × A)
insert k a [] = (k, a) ∷ []
insert k a ((n, b) ∷ rest) =
    let added = insert k a rest in elim (k == n) [ true ↦ (n, a) ∷ rest | false ↦ (n, b) ∷ added ]

-- The calls of a command, with the repository's name.
pub data Call : Type 0 where
  discover_repository source_ci_snapshot freeze_source_repository : String → Call
  prepare_transition_repository ensure_relay reconcile_repository reverse_sync : String → Call
  set_destination_authority set_native_relay_enabled : String → Bool → Call
  set_destination_access verify_transition_repository : String → Phase → Call
  verify_source_authority verify_operational_repository : String → Phase → Call
  disable_source_ci restore_source_ci restore_source_repository : String → Snapshot → Call
  write_state : TransitionState → Call
  write_proof : String → Bool → Call

-- A MigrationError, with those that derive from it, or any other exception.
pub data Failure : Type 0 where
  migration_error other_exception : Failure

-- What a repository's discovery shows: its contract, and the digest of its inventory view.
pub record Inventory : Type 0 where
  pub contract_verified : Bool
  pub digest : String

-- What the state file holds beside its digest: the fields that commands read, the time of the write,
-- and whether `repositories` is an object.
pub record StatePayload : Type 0 where
  pub content : TransitionState
  pub updated_at : String
  pub repositories_is_object : Bool

-- How the creation of a lock file ends where none exists: it is written, it is created and the
-- write raises, or nothing is created.
pub data LockAttempt : Type 0 where
  written unwritten : LockAttempt
  uncreated : Failure → LockAttempt

-- What a call meets, after the calls before it, newest first: its `verified` if the result has
-- one, a snapshot, an inventory, the digest of a written proof; or an exception. Also the clock,
-- how a lock file is created, and whether its removal raises.
pub record Forge : Type 0 where
  pub answer : List Call → Call → Result Failure (Option Bool)
  pub snapshot : List Call → String → Result Failure Snapshot
  pub inventory : List Call → String → Result Failure Inventory
  pub proof_digest : List Call → String
  pub canonical_digest : StatePayload → String
  pub sanitize : Snapshot → Snapshot
  pub sanitize_state : TransitionState → TransitionState
  pub utc_now : List Call → String
  pub lock_attempt : List Call → LockAttempt
  pub unlink_raises : List Call → Bool

pub record StateFile : Type 0 where
  pub payload : StatePayload
  pub state_sha256 : String

-- The calls made, newest first, the state file, whether the lock file exists, and the variable
-- `next_state` of the running command.
pub record Machine : Type 0 where
  pub calls : List Call
  pub file : Option StateFile
  pub lock : Bool
  pub next_state : TransitionState

abbrev pub Action : Type 0 → Type 0
Action A = Machine → Machine × Result Failure A

infixl 5 ◌>>=◌
infixl 5 ◌>>◌
unfoldable pub ◌>>=◌ : {A B : Type 0} → Action A → (A → Action B) → Action B
(m >>= f) s = let (after, r) = m s in elim r [ ok a ↦ f a after | err e ↦ (after, err e) ]

abbrev pub ◌>>◌ : {A B : Type 0} → Action A → Action B → Action B
m >> k = m >>= λ _. k

unfoldable pub pure : {A : Type 0} → A → Action A
pure a s = (s, ok a)

unfoldable pub raise : {A : Type 0} → Action A
raise s = (s, err migration_error)

unfoldable pub require : Bool → Action (Unit {0})
require true s = (s, ok tt)
require false s = (s, err migration_error)

-- `try: ... except Exception`, and `except MigrationError`, which lets the others through.
unfoldable pub attempt : {A : Type 0} → Action A → Action (Option A)
attempt m s =
    let (after, r) = m s in elim r [ ok a ↦ (after, ok (some a)) | err e ↦ (after, ok none) ]

unfoldable pub attempt_migration : {A : Type 0} → Action A → Action (Option A)
attempt_migration m s =
    let (after, r) = m s in
    elim r [
      | ok a ↦ (after, ok (some a))
      | err migration_error ↦ (after, ok none)
      | err other_exception ↦ (after, err other_exception)
    ]

-- A loop over repositories, which collects its results.
unfoldable pub for_each : {A B : Type 0} → (A → Action B) → List A → Action (List B)
for_each f [] = pure []
for_each f (a ∷ rest) = do b ← f a; bs ← for_each f rest; pure (b ∷ bs)

-- `result.get("verified")`, and with the default True.
abbrev pub is_verified : Option Bool → Bool
is_verified none = false
is_verified (some b) = b

abbrev pub verified_by_default : Option Bool → Bool
verified_by_default none = true
verified_by_default (some b) = b

unfoldable pub change : (TransitionState → TransitionState) → Action (Unit {0})
change f s = (record s { next_state = f s.next_state }, ok tt)

unfoldable pub next : Action TransitionState
next s = (s, ok s.next_state)

abbrev pub is_shadow : Phase → Bool
is_shadow shadow = true
is_shadow _ = false

abbrev pub is_transition : Phase → Bool
is_transition transition = true
is_transition _ = false

abbrev pub is_finalized : Phase → Bool
is_finalized finalized = true
is_finalized _ = false

-- `state.get(key) == value`
abbrev pub holds : Option String → String → Bool
holds none v = false
holds (some d) v = d == v
