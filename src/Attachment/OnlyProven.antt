-- ===== src/Attachment/OnlyProven.antt =====
-- Every change that repair makes is of a candidate of its latest collection.
use platform_gitops.Prelude.{ℕ, nat_eq, List, [], ◌∷◌, Bool-cases, inl, inr}
use platform_gitops.Prelude.Result.{Result, ok, err}
use platform_gitops.Longhorn.Disks.{IsoReader}
use platform_gitops.Attachment.Kube.{Volume}
use platform_gitops.Attachment.Checks.{Reason}
use platform_gitops.Attachment.Evaluate.{
  Candidate, StaleNativeAttachmentCandidate, Cluster, evaluate_stale_native_attachment_candidate,
  evaluate_candidate,
}
use platform_gitops.Attachment.Actions.{Kube, Trace, Action, Raised, sleep}
use platform_gitops.Attachment.Recycle.{
  discover_stale_native_attachment_candidates, discover_candidates,
}
use platform_gitops.Attachment.Repair.{
  settled, recycle_settled, quarantine_settled, repair_replicas, repair_found, repair,
}
use platform_gitops.Attachment.Traces.{Allowed, IsJustified, At, Ends, bind-Ends, pure-Ends}
use platform_gitops.Attachment.Recycling.{
  Found, discover_stale-Ends, discover_candidates-Ends, recycle_stale_native_attachments-Stays,
}
use platform_gitops.Attachment.Quarantining.{quarantine-Keeps}

module _ (from_iso : IsoReader) (minimum : ℕ) (kube : Kube) where
  abbrev Justified : {A : Type 0} → A → Trace → Type 0
  Justified a t = IsJustified from_iso minimum t

  -- Where the latest collection stays, the trace is justified in the end.
  forget :
      {A : Type 0} (c : Cluster) (x : Trace × Result Raised A)
      → Ends from_iso minimum (λ a u. At from_iso minimum c u) x
      → Ends from_iso minimum Justified x
  unfolding Ends
  forget c (t, ok a) h = h.1
  forget c (t, err e) h = h

  module _ (settle_seconds rounds : ℕ) where
    sleep-Justified :
        (t : Trace)
        → IsJustified from_iso minimum t
        → Ends from_iso minimum Justified (sleep settle_seconds t)
    unfolding sleep Ends IsJustified Allowed
    sleep-Justified t h = (tt, h)

    -- The candidates after the pause are of the latest collection, too.
    settled-Found :
        {A : Type 0} (evaluate : Cluster → Volume → Result Reason A) (discover : Action (List A))
        (xs : List A) (t : Trace)
        → ((u : Trace)
            → IsJustified from_iso minimum u
            → Ends from_iso minimum (Found from_iso minimum evaluate) (discover u))
        → Found from_iso minimum evaluate xs t
        → Ends from_iso minimum
            (Found from_iso minimum evaluate)
            (settled from_iso kube minimum settle_seconds rounds discover xs t)
    unfolding settled
    settled-Found evaluate discover xs t d f = elim (Bool-cases (nat_eq settle_seconds 0)) [
      | inl e ↦ rw e (pure-Ends from_iso minimum (Found from_iso minimum evaluate) xs t f)
      | inr e ↦ rw e (
          bind-Ends from_iso minimum Justified _ (sleep settle_seconds) _ t
            (sleep-Justified t f.1.1) (λ a u h. d u h))
    ]

    recycle_settled-Justified :
        (xs : List StaleNativeAttachmentCandidate) (t : Trace)
        → Found from_iso minimum
            (λ c. evaluate_stale_native_attachment_candidate from_iso c minimum)
            xs
            t
        → Ends from_iso minimum Justified
            (recycle_settled from_iso kube minimum settle_seconds rounds xs t)
    unfolding recycle_settled
    recycle_settled-Justified [] t f = pure-Ends from_iso minimum Justified 0 t f.1.1
    recycle_settled-Justified (x ∷ xs) t (c, a, s) =
        forget c _
          (recycle_stale_native_attachments-Stays from_iso minimum kube c rounds (x ∷ xs) s t a)

    quarantine_settled-Justified :
        (xs : List Candidate) (t : Trace)
        → Found from_iso minimum (λ c. evaluate_candidate from_iso c minimum) xs t
        → Ends from_iso minimum Justified
            (quarantine_settled from_iso kube minimum settle_seconds rounds xs t)
    unfolding quarantine_settled
    quarantine_settled-Justified [] t f = pure-Ends from_iso minimum Justified 0 t f.1.1
    quarantine_settled-Justified (x ∷ xs) t (c, a, s) =
        forget c _ (quarantine-Keeps from_iso minimum kube c rounds (x ∷ xs) s t a)

    repair_replicas-Justified :
        (xs : List Candidate) (t : Trace)
        → Found from_iso minimum (λ c. evaluate_candidate from_iso c minimum) xs t
        → Ends from_iso minimum Justified
            (repair_replicas from_iso kube minimum settle_seconds rounds xs t)
    unfolding repair_replicas
    repair_replicas-Justified [] t f = pure-Ends from_iso minimum Justified 0 t f.1.1
    repair_replicas-Justified (x ∷ xs) t f =
        bind-Ends from_iso minimum (Found from_iso minimum _) Justified
          (settled from_iso kube minimum settle_seconds rounds
            (discover_candidates from_iso kube minimum) (x ∷ xs))
          _ t
          (settled-Found (λ c. evaluate_candidate from_iso c minimum)
            (discover_candidates from_iso kube minimum) (x ∷ xs) t
            (discover_candidates-Ends from_iso minimum kube) f)
          quarantine_settled-Justified

    repair_found-Justified :
        (xs : List StaleNativeAttachmentCandidate) (t : Trace)
        → Found from_iso minimum
            (λ c. evaluate_stale_native_attachment_candidate from_iso c minimum)
            xs
            t
        → Ends from_iso minimum Justified
            (repair_found from_iso kube minimum settle_seconds rounds xs t)
    unfolding repair_found
    repair_found-Justified [] t f =
        bind-Ends from_iso minimum (Found from_iso minimum _) Justified
          (discover_candidates from_iso kube minimum) _ t
          (discover_candidates-Ends from_iso minimum kube t f.1.1) repair_replicas-Justified
    repair_found-Justified (x ∷ xs) t f =
        bind-Ends from_iso minimum (Found from_iso minimum _) Justified
          (settled from_iso kube minimum settle_seconds rounds
            (discover_stale_native_attachment_candidates from_iso kube minimum) (x ∷ xs))
          _ t
          (settled-Found (λ c. evaluate_stale_native_attachment_candidate from_iso c minimum)
            (discover_stale_native_attachment_candidates from_iso kube minimum) (x ∷ xs) t
            (discover_stale-Ends from_iso minimum kube) f)
          recycle_settled-Justified

    repair-Justified :
        Ends from_iso minimum Justified (repair from_iso kube minimum settle_seconds rounds [])
    unfolding repair IsJustified
    repair-Justified =
        bind-Ends from_iso minimum (Found from_iso minimum _) Justified
          (discover_stale_native_attachment_candidates from_iso kube minimum) _ []
          (discover_stale-Ends from_iso minimum kube [] tt) repair_found-Justified

    Justified-trace :
        {A : Type 0} (x : Trace × Result Raised A)
        → Ends from_iso minimum Justified x
        → IsJustified from_iso minimum x.0
    unfolding Ends
    Justified-trace (t, ok a) h = h
    Justified-trace (t, err e) h = h

    -- Whatever the cluster holds and answers, each pod and each native attachment that repair deletes
    -- is of a stale candidate, and each replica that it fails is the orphan of a candidate, to which a
    -- volume of the latest collection before that call evaluates; this holds too where repair raises.
    pub repair-IsJustified :
        IsJustified from_iso minimum (repair from_iso kube minimum settle_seconds rounds []).0
    repair-IsJustified = Justified-trace _ repair-Justified
