-- ===== src/Attachment/Recycling.antt =====
-- What the discoveries return, and that recycling deletes only what its candidates name.
use platform_gitops.Prelude.{
  Each, ℕ, zero, suc, String, ◌==◌, ◌≡◌, refl, Bool, true, false, not, ◌||◌, Option, none, some,
  List, [], ◌∷◌, Mem, mem-cons_self, mem-cons_of_mem, if◌then◌else◌, Bool-cases, inl, inr,
}
use platform_gitops.Prelude.Result.{Result, ok, err}
use platform_gitops.Longhorn.Disks.{IsoReader}
use platform_gitops.Attachment.Kube.{Volume}
use platform_gitops.Attachment.Checks.{Reason}
use platform_gitops.Attachment.Evaluate.{
  StaleNativeAttachmentCandidate, Cluster, evaluate_stale_native_attachment_candidate,
  evaluate_candidate,
}
use platform_gitops.Attachment.Actions.{
  Kube, Call, delete_pod, delete_attachment, get_attachment, Trace, Action, ◌>>=◌, pure, succeeded,
  sleep, read_attachment,
}
use platform_gitops.Attachment.Recycle.{
  data_bearing, append_candidate, candidates_among, collect_as, collect, pause_while, check_each,
  by_volume, discover_stale_native_attachment_candidates, discover_candidates, delete_pods, recycle,
  recycle_all, attachment_remains, await_recycled, recycle_stale_native_attachments,
}
use platform_gitops.Attachment.Traces.{
  latest, IsStaleIn, Allowed, IsJustified, At, Ends, bind-Ends, pure-Ends, answered-Ends,
  sleep-Ends, is_collection,
}

-- Each candidate comes from a volume of the list.
module _ {A : Type 0} (evaluate : Volume → Result Reason A) where
  abbrev pub ComesFrom : List Volume → A → Type 0
  ComesFrom vs x = (v : Volume) × Mem v vs × (evaluate v ≡ ok x)

  weaken :
      (w : Volume) (vs : List Volume) (xs : List A)
      → Each (ComesFrom vs) xs
      → Each (ComesFrom (w ∷ vs)) xs
  weaken w vs [] h = tt
  weaken w vs (x ∷ xs) ((v, m, e), h) = ((v, mem-cons_of_mem w m, e), weaken w vs xs h)

  append-Each :
      (w : Volume) (vs : List Volume) (r : Result Reason A) (xs : List A)
      → evaluate w ≡ r
      → Each (ComesFrom (w ∷ vs)) xs
      → Each (ComesFrom (w ∷ vs)) (append_candidate r xs)
  unfolding append_candidate
  append-Each w vs (ok x) xs e h = ((w, mem-cons_self, e), h)
  append-Each w vs (err r) xs e h = h

  pub candidates_among-Each :
      (vs : List Volume) → Each (ComesFrom vs) (candidates_among evaluate vs)
  unfolding candidates_among
  candidates_among-Each [] = tt
  candidates_among-Each (w ∷ vs) =
      let rest = weaken w vs (candidates_among evaluate vs) (candidates_among-Each vs) in
      elim (Bool-cases (not (w.state == "attaching") || not (data_bearing w.actual_size))) [
        | inl e ↦ rw e rest
        | inr e ↦ rw e (append-Each w vs (evaluate w) (candidates_among evaluate vs) refl rest)
      ]

module _ (from_iso : IsoReader) (minimum : ℕ) where
  -- A discovery returns candidates of the collection that it has just made.
  abbrev pub Found : {A : Type 0} → (Cluster → Volume → Result Reason A) → List A → Trace → Type 0
  Found evaluate xs t =
      (c : Cluster) × At from_iso minimum c t × Each (ComesFrom (evaluate c) c.volumes) xs

  collect_as-Ends :
      (o : Option Cluster) (t : Trace)
      → IsJustified from_iso minimum t
      → Ends from_iso minimum (λ c u. At from_iso minimum c u) (collect_as o t)
  unfolding collect_as Ends latest IsJustified Allowed
  collect_as-Ends none t h = h
  collect_as-Ends (some c) t h = (refl, (tt, h))

  collect-Ends :
      (kube : Kube) (t : Trace)
      → IsJustified from_iso minimum t
      → Ends from_iso minimum (λ c u. At from_iso minimum c u) (collect kube t)
  unfolding collect
  collect-Ends kube t h = collect_as-Ends (kube.collect t) t h

  pub discover_stale-Ends :
      (kube : Kube) (t : Trace)
      → IsJustified from_iso minimum t
      → Ends from_iso minimum
          (Found (λ c. evaluate_stale_native_attachment_candidate from_iso c minimum))
          (discover_stale_native_attachment_candidates from_iso kube minimum t)
  unfolding discover_stale_native_attachment_candidates
  discover_stale-Ends kube t h =
      bind-Ends from_iso minimum (λ c u. At from_iso minimum c u) _ (collect kube) _ t
        (collect-Ends kube t h)
        (λ c u a. pure-Ends from_iso minimum _ _ u (c, a, candidates_among-Each _ c.volumes))

  pub discover_candidates-Ends :
      (kube : Kube) (t : Trace)
      → IsJustified from_iso minimum t
      → Ends from_iso minimum
          (Found (λ c. evaluate_candidate from_iso c minimum))
          (discover_candidates from_iso kube minimum t)
  unfolding discover_candidates
  discover_candidates-Ends kube t h =
      bind-Ends from_iso minimum (λ c u. At from_iso minimum c u) _ (collect kube) _ t
        (collect-Ends kube t h)
        (λ c u a. pure-Ends from_iso minimum _ _ u (c, a, candidates_among-Each _ c.volumes))

  module _ (kube : Kube) (c : Cluster) where
    -- What an action keeps while the latest collection stays.
    abbrev pub Stays : {A : Type 0} → Action A → Type 0
    Stays m =
        (t : Trace)
        → At from_iso minimum c t
        → Ends from_iso minimum (λ a u. At from_iso minimum c u) (m t)

    pub bind-Stays :
        {A B : Type 0} (m : Action A) (f : A → Action B)
        → Stays m
        → ((a : A) → Stays (f a))
        → Stays (m >>= f)
    bind-Stays m f p k t h = bind-Ends from_iso minimum _ _ m f t (p t h) (λ a u q. k a u q)

    pub pure-Stays : {A : Type 0} (a : A) → Stays (pure a)
    pure-Stays a t h = pure-Ends from_iso minimum _ a t h

    pub if-Stays :
        {A : Type 0} (b : Bool) (m n : Action A) → Stays m → Stays n → Stays (if b then m else n)
    if-Stays true m n p q = p
    if-Stays false m n p q = q

    pub check_each-Stays :
        {A : Type 0} (still : A → Action Bool) (xs : List A)
        → ((x : A) → Stays (still x))
        → Stays (check_each still xs)
    unfolding check_each
    check_each-Stays still [] p = pure-Stays _
    check_each-Stays still (x ∷ xs) p =
        bind-Stays _ _ (p x)
          (λ waits. bind-Stays _ _ (check_each-Stays still xs p) (λ left. pure-Stays _))

    pub succeeded-Stays :
        (call : Call)
        → is_collection call ≡ false
        → ((t : Trace) → At from_iso minimum c t → Allowed from_iso minimum call t)
        → Stays (succeeded kube call)
    unfolding succeeded
    succeeded-Stays call n a t h =
        answered-Ends from_iso minimum c call (kube.succeeds call t) t n (a t h) h

    read_attachment-Stays : (name : String) → Stays (read_attachment kube name)
    unfolding read_attachment Allowed
    read_attachment-Stays name t h =
        answered-Ends from_iso minimum c (get_attachment name) (kube.attachment_uid name t) t refl
          tt h

    delete_pods-Stays :
        (x : StaleNativeAttachmentCandidate) (pods : List String)
        → IsStaleIn from_iso minimum c x
        → ((p : String) → Mem p pods → Mem p x.consumer_pods)
        → Stays (delete_pods kube x.namespace pods)
    unfolding delete_pods Allowed
    delete_pods-Stays x [] s m = pure-Stays _
    delete_pods-Stays x (p ∷ pods) s m =
        bind-Stays _ _
          (succeeded-Stays (delete_pod x.namespace p) refl
            (λ t h. (c, h.0, (x, s, refl, m p mem-cons_self))))
          (λ deleted.
            if-Stays deleted _ _ (delete_pods-Stays x pods s (λ q n. m q (mem-cons_of_mem p n)))
              (pure-Stays _))

    recycle-Stays :
        (x : StaleNativeAttachmentCandidate)
        → IsStaleIn from_iso minimum c x
        → Stays (recycle kube x)
    unfolding recycle Allowed
    recycle-Stays x s =
        bind-Stays _ _ (delete_pods-Stays x x.consumer_pods s (λ p m. m)) (λ released.
          if-Stays released _ _
            (succeeded-Stays (delete_attachment x.attachment_name) refl
              (λ t h. (c, h.0, (x, s, refl))))
            (pure-Stays _))

    recycle_all-Stays :
        (xs : List StaleNativeAttachmentCandidate)
        → Each (IsStaleIn from_iso minimum c) xs
        → Stays (recycle_all kube xs)
    unfolding recycle_all
    recycle_all-Stays [] s = pure-Stays _
    recycle_all-Stays (x ∷ xs) s =
        bind-Stays _ _ (recycle-Stays x s.0)
          (λ recycled. if-Stays recycled _ _ (recycle_all-Stays xs s.1) (pure-Stays _))

    attachment_remains-Stays :
        (x : StaleNativeAttachmentCandidate) → Stays (attachment_remains kube x)
    unfolding attachment_remains
    attachment_remains-Stays x =
        bind-Stays _ _ (read_attachment-Stays x.attachment_name) (λ current. pure-Stays _)

    pub sleep-Stays : (k : ℕ) → Stays (sleep k)
    sleep-Stays k t h = sleep-Ends from_iso minimum c k t h

    pub pause_while-Stays : {A : Type 0} (xs : List A) → Stays (pause_while xs)
    unfolding pause_while
    pause_while-Stays [] = pure-Stays tt
    pause_while-Stays (x ∷ xs) = sleep-Stays 5

    await_recycled-Stays :
        (rounds : ℕ) (xs : List StaleNativeAttachmentCandidate)
        → Stays (await_recycled kube rounds xs)
    unfolding await_recycled
    await_recycled-Stays zero [] = pure-Stays _
    await_recycled-Stays (suc rounds) [] = pure-Stays _
    await_recycled-Stays zero (x ∷ xs) = pure-Stays _
    await_recycled-Stays (suc rounds) (x ∷ xs) =
        bind-Stays _ _ (check_each-Stays _ (x ∷ xs) attachment_remains-Stays)
          (λ left. bind-Stays _ _ (pause_while-Stays left) (λ u. await_recycled-Stays rounds left))

    pub recycle_stale_native_attachments-Stays :
        (rounds : ℕ) (xs : List StaleNativeAttachmentCandidate)
        → Each (IsStaleIn from_iso minimum c) xs
        → Stays (recycle_stale_native_attachments kube rounds xs)
    unfolding recycle_stale_native_attachments
    recycle_stale_native_attachments-Stays rounds xs s =
        bind-Stays _ _ (recycle_all-Stays xs s) (λ recycled.
          if-Stays recycled _ _
            (bind-Stays _ _ (await_recycled-Stays rounds (by_volume (λ x. x.volume_name) xs []))
              (λ left. pure-Stays _))
            (pure-Stays _))
