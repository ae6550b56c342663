-- ===== src/Attachment/Recycle.antt =====
-- The discoveries, and recycle_stale_native_attachments.
use platform_gitops.Prelude.{
  ℕ, zero, suc, String, ◌==◌, Bool, true, false, not, ◌||◌, Option, none, some, List, [], ◌∷◌, ltb,
  if◌then◌else◌,
}
use platform_gitops.Prelude.Result.{Result, ok, err}
use platform_gitops.Longhorn.Disks.{IsoReader}
use platform_gitops.Attachment.Kube.{Volume}
use platform_gitops.Attachment.Checks.{Reason}
use platform_gitops.Attachment.Evaluate.{
  Candidate, StaleNativeAttachmentCandidate, Cluster, evaluate_stale_native_attachment_candidate,
  evaluate_candidate,
}
use platform_gitops.Attachment.Actions.{
  Kube, collected, delete_pod, delete_attachment, Action, raised, ◌>>=◌, ◌>>◌, pure, answered,
  succeeded, read_attachment, sleep,
}

-- `int(status.get("actualSize") or 0) > 0`, and False where it raises.
unfoldable pub data_bearing : Option ℕ → Bool
data_bearing none = false
data_bearing (some n) = ltb 0 n

-- `candidates.append(candidate)`, where there is one.
unfoldable pub append_candidate : {A : Type 0} → Result Reason A → List A → List A
append_candidate (ok x) rest = x ∷ rest
append_candidate (err r) rest = rest

-- The loop over the volumes of a collection.
unfoldable pub candidates_among : {A : Type 0} → (Volume → Result Reason A) → List Volume → List A
unfolding data_bearing append_candidate
candidates_among evaluate [] = []
candidates_among evaluate (v ∷ rest) =
    let found = candidates_among evaluate rest in
    if not (v.state == "attaching") || not (data_bearing v.actual_size)
    then found
    else append_candidate (evaluate v) found

-- `{candidate.volume_name: candidate for candidate in candidates}`: a later candidate takes the place
-- of an earlier one of its volume.
unfoldable pub put_pending : {A : Type 0} → (A → String) → A → List A → List A
put_pending name x [] = x ∷ []
put_pending name x (y ∷ rest) =
    let later = put_pending name x rest in if name x == name y then x ∷ rest else y ∷ later

unfoldable pub by_volume : {A : Type 0} → (A → String) → List A → List A → List A
unfolding put_pending
by_volume name [] pending = pending
by_volume name (x ∷ rest) pending = by_volume name rest (put_pending name x pending)

-- A collection, recorded with what it returned.
unfoldable pub collect_as : Option Cluster → Action Cluster
unfolding answered
collect_as none t = (t, err raised)
collect_as (some c) t = (collected c ∷ t, ok c)

unfoldable pub collect : Kube → Action Cluster
unfolding collect_as
collect kube t = collect_as (kube.collect t) t

-- Whether any candidate is left: one round over those that are pending.
unfoldable pub check_each : {A : Type 0} → (A → Action Bool) → List A → Action (List A)
unfolding ◌>>=◌ pure
check_each still [] = pure []
check_each still (x ∷ rest) = do
  waits ← still x
  left ← check_each still rest
  pure (if waits then x ∷ left else left)

module _ (from_iso : IsoReader) (kube : Kube) (minimum_age_seconds : ℕ) where
  unfoldable pub discover_stale_native_attachment_candidates :
      Action (List StaleNativeAttachmentCandidate)
  unfolding ◌>>=◌ pure collect candidates_among
  discover_stale_native_attachment_candidates = do
    c ← collect kube
    pure (
        candidates_among (evaluate_stale_native_attachment_candidate from_iso c minimum_age_seconds)
          c.volumes)

  unfoldable pub discover_candidates : Action (List Candidate)
  unfolding ◌>>=◌ pure collect candidates_among
  discover_candidates = do
    c ← collect kube
    pure (candidates_among (evaluate_candidate from_iso c minimum_age_seconds) c.volumes)

-- `if pending: time.sleep(5)`
unfoldable pub pause_while : {A : Type 0} → List A → Action (Unit {0})
unfolding pure sleep
pause_while [] = pure tt
pause_while (x ∷ more) = sleep 5

module _ (kube : Kube) where
  -- The deletions of one candidate, and then of all; false at the first that fails.
  unfoldable pub delete_pods : String → List String → Action Bool
  unfolding ◌>>=◌ pure succeeded
  delete_pods namespace [] = pure true
  delete_pods namespace (pod ∷ rest) = do
    deleted ← succeeded kube (delete_pod namespace pod)
    let others = delete_pods namespace rest
    if deleted then others else pure false

  unfoldable pub recycle : StaleNativeAttachmentCandidate → Action Bool
  unfolding ◌>>=◌ pure succeeded delete_pods
  recycle c = do
    released ← delete_pods c.namespace c.consumer_pods
    if released then succeeded kube (delete_attachment c.attachment_name) else pure false

  unfoldable pub recycle_all : List StaleNativeAttachmentCandidate → Action Bool
  unfolding ◌>>=◌ pure recycle
  recycle_all [] = pure true
  recycle_all (c ∷ rest) = do
    recycled ← recycle c
    let others = recycle_all rest
    if recycled then others else pure false

  unfoldable pub is_same_attachment : String → Option String → Bool
  is_same_attachment uid none = false
  is_same_attachment uid (some current) = current == "" || current == uid

  unfoldable pub attachment_remains : StaleNativeAttachmentCandidate → Action Bool
  unfolding ◌>>=◌ pure read_attachment is_same_attachment
  attachment_remains c = do
    current ← read_attachment kube c.attachment_name
    pure (is_same_attachment c.attachment_uid current)

  -- `while pending and time.monotonic() < deadline`, for the number of rounds that the time is enough
  -- for.
  unfoldable pub await_recycled :
      ℕ → List StaleNativeAttachmentCandidate → Action (List StaleNativeAttachmentCandidate)
  unfolding ◌>>=◌ pure check_each attachment_remains pause_while
  await_recycled rounds [] = pure []
  await_recycled zero (c ∷ rest) = pure (c ∷ rest)
  await_recycled (suc rounds) (c ∷ rest) = do
    left ← check_each attachment_remains (c ∷ rest)
    pause_while left
    await_recycled rounds left

  unfoldable pub exit_code : {A : Type 0} → List A → ℕ
  exit_code [] = 0
  exit_code (x ∷ rest) = 1

  unfoldable pub recycle_stale_native_attachments :
      ℕ → List StaleNativeAttachmentCandidate → Action ℕ
  unfolding ◌>>=◌ pure recycle_all by_volume await_recycled exit_code
  recycle_stale_native_attachments rounds candidates = do
    recycled ← recycle_all candidates
    let wait : Action ℕ = do
      left ← await_recycled rounds (by_volume (λ c. c.volume_name) candidates [])
      pure (exit_code left)
    if recycled then wait else pure 1
