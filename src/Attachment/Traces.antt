-- ===== src/Attachment/Traces.antt =====
-- Traces of calls in which every change is of a candidate of the latest collection, and rules for the
-- actions that keep to that.
use platform_gitops.Prelude.{
  ℕ, ◌≡◌, refl, Bool, true, false, Option, none, some, [], ◌∷◌, Mem, arith,
}
use platform_gitops.Prelude.Result.{Result, ok, err}
use platform_gitops.Longhorn.Disks.{IsoReader}
use platform_gitops.Attachment.Kube.{Volume}
use platform_gitops.Attachment.Evaluate.{
  Candidate, StaleNativeAttachmentCandidate, Cluster, evaluate_stale_native_attachment_candidate,
  evaluate_candidate,
}
use platform_gitops.Attachment.Actions.{
  Call, collected, slept, delete_pod, delete_attachment, get_attachment, quarantine_replica,
  get_state, Trace, Raised, Action, ◌>>=◌, pure, answered, sleep,
}

unfoldable pub latest : Trace → Option Cluster
latest [] = none
latest (collected c ∷ t) = some c
latest (_ ∷ t) = latest t

-- Calls other than collections leave the latest one.
abbrev pub is_collection : Call → Bool
is_collection (collected c) = true
is_collection _ = false

module _ (from_iso : IsoReader) (minimum : ℕ) where
  -- A candidate that a volume of the cluster evaluates to.
  abbrev pub IsStaleIn : Cluster → StaleNativeAttachmentCandidate → Type 0
  IsStaleIn c x =
      (v : Volume) × Mem v c.volumes
      × (evaluate_stale_native_attachment_candidate from_iso c minimum v ≡ ok x)

  abbrev pub IsBlockedIn : Cluster → Candidate → Type 0
  IsBlockedIn c x =
      (v : Volume) × Mem v c.volumes × (evaluate_candidate from_iso c minimum v ≡ ok x)

  -- What a call needs of the calls before it.
  unfoldable pub Allowed : Call → Trace → Type 0
  Allowed (delete_pod namespace pod) t =
      (c : Cluster) × (latest t ≡ some c)
      × ((x : StaleNativeAttachmentCandidate) × IsStaleIn c x
          × (x.namespace ≡ namespace)
          × Mem pod x.consumer_pods)
  Allowed (delete_attachment name) t =
      (c : Cluster) × (latest t ≡ some c)
      × ((x : StaleNativeAttachmentCandidate) × IsStaleIn c x × (x.attachment_name ≡ name))
  Allowed (quarantine_replica name failed_at) t =
      (c : Cluster) × (latest t ≡ some c)
      × ((x : Candidate) × IsBlockedIn c x × (x.orphan_replica ≡ name))
  Allowed _ t = Unit {0}

  unfoldable pub IsJustified : Trace → Type 0
  unfolding Allowed
  IsJustified [] = Unit {0}
  IsJustified (call ∷ t) = Allowed call t × IsJustified t

  -- A justified trace whose latest collection is the cluster.
  abbrev pub At : Cluster → Trace → Type 0
  At c t = (latest t ≡ some c) × IsJustified t

  -- What holds of a value and the trace in which it is returned; a trace that ends in an exception is
  -- justified.
  unfoldable pub Ends : {A : Type 0} → (A → Trace → Type 0) → Trace × Result Raised A → Type 0
  Ends Q (t, ok a) = Q a t
  Ends Q (t, err e) = IsJustified t

  after_bind :
      {A B : Type 0} (Q : A → Trace → Type 0) (R : B → Trace → Type 0) (f : A → Action B)
      (x : Trace × Result Raised A)
      → Ends Q x
      → ((a : A) (t : Trace) → Q a t → Ends R (f a t))
      → Ends R (((λ s. x) >>= f) x.0)
  unfolding ◌>>=◌ Ends
  after_bind Q R f (t, ok a) q k = k a t q
  after_bind Q R f (t, err e) q k = q

  pub bind-Ends :
      {A B : Type 0} (Q : A → Trace → Type 0) (R : B → Trace → Type 0) (m : Action A)
      (f : A → Action B) (t : Trace)
      → Ends Q (m t)
      → ((a : A) (u : Trace) → Q a u → Ends R (f a u))
      → Ends R ((m >>= f) t)
  unfolding ◌>>=◌
  bind-Ends Q R m f t q k = after_bind Q R f (m t) q k

  pub pure-Ends :
      {A : Type 0} (Q : A → Trace → Type 0) (a : A) (t : Trace) → Q a t → Ends Q (pure a t)
  unfolding pure Ends
  pure-Ends Q a t q = q

  pub At-call :
      (c : Cluster) (call : Call) (t : Trace)
      → is_collection call ≡ false
      → Allowed call t
      → At c t
      → At c (call ∷ t)
  unfolding latest IsJustified
  At-call c (collected d) t n a h = absurd (ground (arith, n))
  At-call c (slept k) t n a h = (h.0, (a, h.1))
  At-call c (delete_pod s p) t n a h = (h.0, (a, h.1))
  At-call c (delete_attachment s) t n a h = (h.0, (a, h.1))
  At-call c (get_attachment s) t n a h = (h.0, (a, h.1))
  At-call c (quarantine_replica s p) t n a h = (h.0, (a, h.1))
  At-call c (get_state s p) t n a h = (h.0, (a, h.1))

  pub answered-Ends :
      {A : Type 0} (c : Cluster) (call : Call) (o : Option A) (t : Trace)
      → is_collection call ≡ false
      → Allowed call t
      → At c t
      → Ends (λ a u. At c u) (answered call o t)
  unfolding answered Ends
  answered-Ends c call none t n a h = (At-call c call t n a h).1
  answered-Ends c call (some x) t n a h = At-call c call t n a h

  pub sleep-Ends : (c : Cluster) (k : ℕ) (t : Trace) → At c t → Ends (λ a u. At c u) (sleep k t)
  unfolding sleep Ends Allowed
  sleep-Ends c k t h = At-call c (slept k) t refl tt h
