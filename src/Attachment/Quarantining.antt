-- ===== src/Attachment/Quarantining.antt =====
-- Failing replicas and waiting for their volumes keeps to the candidates of the latest collection.
use platform_gitops.Prelude.{
  Each, ℕ, zero, suc, String, refl, Bool, true, false, Option, none, some, List, [], ◌∷◌,
}
use platform_gitops.Longhorn.Disks.{IsoReader}
use platform_gitops.Attachment.Evaluate.{Candidate, Cluster}
use platform_gitops.Attachment.Actions.{
  Kube, get_state, quarantine_replica, Action, ◌>>=◌, ◌>>◌, pure, read_state, attachment_state,
}
use platform_gitops.Attachment.Recycle.{by_volume, pause_while}
use platform_gitops.Attachment.Repair.{
  Progress, attached, became_faulted, waiting, progress_of, checked, clock, quarantine_all,
  check_attached, report_all, await_attached, quarantine,
}
use platform_gitops.Attachment.Traces.{IsBlockedIn, Allowed, Ends, answered-Ends}
use platform_gitops.Attachment.Recycling.{
  Stays, bind-Stays, pure-Stays, succeeded-Stays, pause_while-Stays,
}

module _ (from_iso : IsoReader) (minimum : ℕ) (kube : Kube) where
  module _ (c : Cluster) where
    abbrev pub Keeps : {A : Type 0} → Action A → Type 0
    Keeps m = Stays from_iso minimum kube c m

    seq-Keeps :
        {A B : Type 0} (m : Action A) (f : A → Action B)
        → Keeps m
        → ((a : A) → Keeps (f a))
        → Keeps (m >>= f)
    seq-Keeps m f p k = bind-Stays from_iso minimum kube c m f p k

    returns : {A : Type 0} (a : A) → Keeps (pure a)
    returns a = pure-Stays from_iso minimum kube c a

    checked-Keeps : (b : Bool) → Keeps (checked b)
    unfolding checked Ends
    checked-Keeps true = returns tt
    checked-Keeps false = λ t h. h.1

    quarantine_all-Keeps :
        (at : String) (xs : List Candidate)
        → Each (IsBlockedIn from_iso minimum c) xs
        → Keeps (quarantine_all kube at xs)
    unfolding quarantine_all Allowed
    quarantine_all-Keeps at [] s = returns tt
    quarantine_all-Keeps at (x ∷ xs) s =
        seq-Keeps _ _
          (succeeded-Stays from_iso minimum kube c (quarantine_replica x.orphan_replica at) refl
            (λ t h. (c, h.0, (x, s.0, refl))))
          (λ b. seq-Keeps _ _ (checked-Keeps b) (λ u. quarantine_all-Keeps at xs s.1))

    read_state-Keeps : (volume engine : String) → Keeps (read_state kube volume engine)
    unfolding read_state Allowed
    read_state-Keeps volume engine t h =
        answered-Ends from_iso minimum c (get_state volume engine)
          (kube.engine_state volume engine t) t refl tt h

    attachment_state-Keeps : (x : Candidate) → Keeps (attachment_state kube x)
    unfolding attachment_state
    attachment_state-Keeps x = seq-Keeps _ _ (read_state-Keeps _ _) (λ s. returns _)

    after_progress :
        (p : Progress) (others none_left kept : Action (Option (List Candidate)))
        → Keeps others
        → Keeps none_left
        → Keeps kept
        → Keeps (elim p [ attached ↦ others | became_faulted ↦ none_left | waiting ↦ kept ])
    after_progress attached others none_left kept o n k = o
    after_progress became_faulted others none_left kept o n k = n
    after_progress waiting others none_left kept o n k = k

    check_attached-Keeps : (xs : List Candidate) → Keeps (check_attached kube xs)
    unfolding check_attached
    check_attached-Keeps [] = returns _
    check_attached-Keeps (x ∷ xs) =
        let rest = check_attached-Keeps xs in
        seq-Keeps _ _ (attachment_state-Keeps x) (λ s.
          after_progress (progress_of s) _ _ _ rest (returns _)
            (seq-Keeps _ _ rest (λ left. returns _)))

    report_all-Keeps : (xs : List Candidate) → Keeps (report_all kube xs)
    unfolding report_all
    report_all-Keeps [] = returns _
    report_all-Keeps (x ∷ xs) = seq-Keeps _ _ (attachment_state-Keeps x) (λ s. report_all-Keeps xs)

    after_round :
        (o : Option (List Candidate)) (again : List Candidate → Action ℕ)
        → ((xs : List Candidate) → Keeps (again xs))
        → Keeps {A = ℕ}
            (elim o [ none ↦ pure 1 | some pending ↦ pause_while pending >> again pending ])
    after_round none again k = returns 1
    after_round (some xs) again k =
        seq-Keeps _ _ (pause_while-Stays from_iso minimum kube c xs) (λ u. k xs)

    await_attached-Keeps :
        (rounds : ℕ) (xs : List Candidate) → Keeps (await_attached kube rounds xs)
    unfolding await_attached
    await_attached-Keeps zero [] = returns 0
    await_attached-Keeps (suc rounds) [] = returns 0
    await_attached-Keeps zero (x ∷ xs) = seq-Keeps _ _ (report_all-Keeps (x ∷ xs)) (λ u. returns 1)
    await_attached-Keeps (suc rounds) (x ∷ xs) =
        seq-Keeps _ _ (check_attached-Keeps (x ∷ xs))
          (λ left. after_round left _ (await_attached-Keeps rounds))

    clock-Keeps : Keeps (clock kube)
    unfolding clock Ends
    clock-Keeps t h = h

    pub quarantine-Keeps :
        (rounds : ℕ) (xs : List Candidate)
        → Each (IsBlockedIn from_iso minimum c) xs
        → Keeps (quarantine kube rounds xs)
    unfolding quarantine
    quarantine-Keeps rounds xs s = seq-Keeps _ _ clock-Keeps (λ at.
        seq-Keeps _ _ (quarantine_all-Keeps at xs s)
          (λ u. await_attached-Keeps rounds (by_volume (λ x. x.volume_name) xs [])))
