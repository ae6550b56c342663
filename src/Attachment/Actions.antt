-- ===== src/Attachment/Actions.antt =====
-- The calls that the repair makes, and actions, which make calls and may raise.
use platform_gitops.Prelude.{
  ℕ, String, ◌==◌, Bool, ◌&&◌, ◌||◌, Option, none, some, List, ◌∷◌, if◌then◌else◌,
}
use Prim.Native.String.{◌++◌}
use text.Mathlib.Text.{starts_with}
use platform_gitops.Prelude.Result.{Result, ok, err}
use platform_gitops.Attachment.Evaluate.{Candidate, Cluster}

-- A collection stands for the calls of one discovery, with what they returned.
pub data Call : Type 0 where
  collected : Cluster → Call
  slept : ℕ → Call
  delete_pod : String → String → Call
  delete_attachment : String → Call
  get_attachment : String → Call
  quarantine_replica : String → String → Call
  get_state : String → String → Call

abbrev pub Trace : Type 0
Trace = List Call

-- What attachment_state reads, with its defaults.
pub record EngineState : Type 0 where
  pub state : String
  pub robustness : String
  pub current_node : String
  pub engine_node : String
  pub desired : String
  pub current : String

-- What the cluster answers after the calls so far, the newest first; `none` where kubectl or the
-- reading of its output raises. A native attachment that is not found has no identifier.
pub record Kube : Type 0 where
  pub collect : Trace → Option Cluster
  pub succeeds : Call → Trace → Option Bool
  pub attachment_uid : String → Trace → Option (Option String)
  pub engine_state : String → String → Trace → Option EngineState
  pub failed_at : Trace → String

pub data Raised : Type 0 where
  raised : Raised

abbrev pub Action : Type 0 → Type 0
Action A = Trace → Trace × Result Raised A

infixl 5 ◌>>=◌ ◌>>◌
unfoldable pub ◌>>=◌ : {A B : Type 0} → Action A → (A → Action B) → Action B
(m >>= f) t = let (after, r) = m t in elim r [ ok a ↦ f a after | err e ↦ (after, err e) ]

abbrev pub ◌>>◌ : {A B : Type 0} → Action A → Action B → Action B
m >> k = m >>= λ _. k

unfoldable pub pure : {A : Type 0} → A → Action A
pure a t = (t, ok a)

-- A call that is made, and what comes back.
unfoldable pub answered : {A : Type 0} → Call → Option A → Action A
answered call none t = (call ∷ t, err raised)
answered call (some a) t = (call ∷ t, ok a)

-- `kube.run(…, check=False).returncode == 0`
unfoldable pub succeeded : Kube → Call → Action Bool
unfolding answered
succeeded kube call t = answered call (kube.succeeds call t) t

-- The identifier of a native attachment, where it is found.
unfoldable pub read_attachment : Kube → String → Action (Option String)
unfolding answered
read_attachment kube name t = answered (get_attachment name) (kube.attachment_uid name t) t

unfoldable pub sleep : ℕ → Action (Unit {0})
sleep seconds t = (slept seconds ∷ t, ok tt)

-- `part in text`
unfoldable pub occurs : String → String → Bool
occurs part String.[] = part == ""
occurs part (String.◌∷◌ c text) = starts_with (String.◌∷◌ c text) part || occurs part text

abbrev pub or_none : String → String
or_none s = if s == "" then "none" else s

unfoldable pub is_ready : String → EngineState → Bool
is_ready target_node s =
    s.state == "attached"
    && ((s.robustness == "healthy" || s.robustness == "degraded")
        && (s.current_node == target_node
            && (s.engine_node == target_node
                && (s.desired == "running" && s.current == "running"))))

unfoldable pub detail_of : EngineState → String
detail_of s =
    "state="
    ++ s.state
    ++ " robustness="
    ++ s.robustness
    ++ " currentNode="
    ++ or_none s.current_node
    ++ " engineNode="
    ++ or_none s.engine_node
    ++ " engineDesired="
    ++ or_none s.desired
    ++ " engineCurrent="
    ++ or_none s.current

unfoldable pub read_state : Kube → String → String → Action EngineState
unfolding answered
read_state kube volume engine t =
    answered (get_state volume engine) (kube.engine_state volume engine t) t

unfoldable pub attachment_state : Kube → Candidate → Action (Bool × String)
unfolding ◌>>=◌ pure read_state is_ready detail_of
attachment_state kube c = do
  s ← read_state kube c.volume_name c.engine_name
  pure (is_ready c.target_node s, detail_of s)
