-- ===== src/Attachment/Repair.antt =====
-- repair: stale native attachments first, and otherwise the replicas on disks that are gone.
use platform_gitops.Prelude.{
  ℕ, zero, suc, nat_eq, String, Bool, true, false, Option, none, some, List, [], ◌∷◌, if◌then◌else◌,
}
use platform_gitops.Prelude.Result.{ok, err}
use platform_gitops.Longhorn.Disks.{IsoReader}
use platform_gitops.Attachment.Evaluate.{Candidate, StaleNativeAttachmentCandidate}
use platform_gitops.Attachment.Actions.{
  Kube, quarantine_replica, Action, raised, ◌>>=◌, ◌>>◌, pure, succeeded, sleep, occurs,
  attachment_state,
}
use platform_gitops.Attachment.Recycle.{
  discover_stale_native_attachment_candidates, discover_candidates,
  recycle_stale_native_attachments, by_volume, pause_while,
}

pub data Progress : Type 0 where
  attached became_faulted waiting : Progress

-- A candidate that waits is kept, unless a later one has become faulted.
unfoldable pub keep_waiting : {A : Type 0} → A → Option (List A) → Option (List A)
keep_waiting x none = none
keep_waiting x (some left) = some (x ∷ left)

unfoldable pub progress_of : Bool × String → Progress
unfolding occurs
progress_of (ready, detail) =
    if ready
    then attached
    else if occurs "robustness=faulted" detail
    then became_faulted
    else waiting

-- A call that raises unless it succeeds.
unfoldable pub checked : Bool → Action (Unit {0})
unfolding pure
checked true = pure tt
checked false = λ t. (t, err raised)

-- `failed_at`, the time at which the repair begins to change replicas.
unfoldable pub clock : Kube → Action String
clock kube t = (t, ok (kube.failed_at t))

module _ (kube : Kube) where
  unfoldable pub quarantine_all : String → List Candidate → Action (Unit {0})
  unfolding ◌>>=◌ pure succeeded checked
  quarantine_all failed_at [] = pure tt
  quarantine_all failed_at (c ∷ rest) = do
    patched ← succeeded kube (quarantine_replica c.orphan_replica failed_at)
    checked patched
    quarantine_all failed_at rest

  -- One round over the pending candidates, up to the first that has become faulted.
  unfoldable pub check_attached : List Candidate → Action (Option (List Candidate))
  unfolding ◌>>=◌ pure attachment_state progress_of keep_waiting
  check_attached [] = pure (some [])
  check_attached (c ∷ rest) = do
    state ← attachment_state kube c
    let others = check_attached rest
    elim (progress_of state) [
      | attached ↦ others
      | became_faulted ↦ pure none
      | waiting ↦ others >>= λ left. pure (keep_waiting c left)
    ]

  -- The last look at each candidate that is still pending when the time is over.
  unfoldable pub report_all : List Candidate → Action (Unit {0})
  unfolding ◌>>=◌ pure attachment_state
  report_all [] = pure tt
  report_all (c ∷ rest) = do state ← attachment_state kube c; report_all rest

  -- The loop, for the number of rounds that the time is enough for, and the exit code.
  unfoldable pub await_attached : ℕ → List Candidate → Action ℕ
  unfolding ◌>>=◌ pure check_attached report_all pause_while
  await_attached rounds [] = pure 0
  await_attached zero (c ∷ rest) = report_all (c ∷ rest) >> pure 1
  await_attached (suc rounds) (c ∷ rest) = do
    left ← check_attached (c ∷ rest)
    let again = λ (pending : List Candidate). await_attached rounds pending
    elim left [ none ↦ pure 1 | some pending ↦ pause_while pending >> again pending ]

  unfoldable pub quarantine : ℕ → List Candidate → Action ℕ
  unfolding ◌>>=◌ clock quarantine_all await_attached by_volume
  quarantine rounds candidates = do
    failed_at ← clock kube
    quarantine_all failed_at candidates
    await_attached rounds (by_volume (λ c. c.volume_name) candidates [])

module _ (from_iso : IsoReader) (kube : Kube) (minimum_age_seconds settle_seconds rounds : ℕ) where
  -- A second discovery after the pause; without a pause, the first one stands.
  unfoldable pub settled : {A : Type 0} → Action (List A) → List A → Action (List A)
  unfolding ◌>>=◌ pure sleep
  settled discover found =
      if nat_eq settle_seconds 0 then pure found else sleep settle_seconds >> discover

  unfoldable pub recycle_settled : List StaleNativeAttachmentCandidate → Action ℕ
  unfolding pure recycle_stale_native_attachments
  recycle_settled [] = pure 0
  recycle_settled (c ∷ rest) = recycle_stale_native_attachments kube rounds (c ∷ rest)

  unfoldable pub quarantine_settled : List Candidate → Action ℕ
  unfolding pure quarantine
  quarantine_settled [] = pure 0
  quarantine_settled (c ∷ rest) = quarantine kube rounds (c ∷ rest)

  unfoldable pub repair_replicas : List Candidate → Action ℕ
  unfolding ◌>>=◌ pure settled quarantine_settled discover_candidates
  repair_replicas [] = pure 0
  repair_replicas (c ∷ rest) = do
    candidates ← settled (discover_candidates from_iso kube minimum_age_seconds) (c ∷ rest)
    quarantine_settled candidates

  unfoldable pub repair_found : List StaleNativeAttachmentCandidate → Action ℕ
  unfolding ◌>>=◌ settled recycle_settled repair_replicas discover_candidates
      discover_stale_native_attachment_candidates
  repair_found [] = do
    candidates ← discover_candidates from_iso kube minimum_age_seconds
    repair_replicas candidates
  repair_found (c ∷ rest) = do
    candidates ←
        settled (discover_stale_native_attachment_candidates from_iso kube minimum_age_seconds)
          (c ∷ rest)
    recycle_settled candidates

  unfoldable pub repair : Action ℕ
  unfolding ◌>>=◌ repair_found discover_stale_native_attachment_candidates
  repair = do
    candidates ← discover_stale_native_attachment_candidates from_iso kube minimum_age_seconds
    repair_found candidates
