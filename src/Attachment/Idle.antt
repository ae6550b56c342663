-- ===== src/Attachment/Idle.antt =====
-- What a stale native attachment guarantees of the collection that it was found in.
use mathlib.Core.Logic.Or
use platform_gitops.Prelude.{
  ℕ, String, ◌==◌, ◌≡◌, refl, sym, eq_iff, Bool, true, not, List, [], ◌∷◌, map, Mem, mem-cons,
  Mem-elim, mem-cons_self, mem_of_mem-filter, passes_of_mem-filter, mem_of_filter-eq, arith, length,
  length-filter-le, filter, contains, any, any-find, any-mem, all, all-mem, mem-filter,
}
use mathlib.Core.Bool.{Bool-set}
use platform_gitops.Prelude.Sorting.{sorted, contains-sorted}
use platform_gitops.Prelude.Result.{ok, bind-ok}
use platform_gitops.Longhorn.Disks.{IsoReader}
use platform_gitops.Attachment.Kube.{Pod, Volume, NativeAttachment, csi_ticket_nodes}
use platform_gitops.Attachment.Checks.{
  the_only, check_attaching, check_access, check_target, check_engine,
  old_successful_native_attachment_cardinality_not_one,
}
use platform_gitops.Attachment.Evaluate.{
  StaleNativeAttachmentCandidate, Cluster, check_data, check_identity, check_tickets,
  check_only_waiting, uses_claim, is_waiting, is_stale_attachment, stale_of,
  evaluate_stale_native_attachment_candidate,
}
use platform_gitops.Attachment.Sound.{the_only-ok}

contains_of_mem : (n : String) (xs : List String) → Mem n xs → contains n xs ≡ true
contains_of_mem n [] m = Mem-elim m
contains_of_mem n (x ∷ xs) m =
    Or.elim (Bool-set _ _) (mem-cons.0 m) (λ e. ground (arith, (eq_iff n x).1 e))
      (λ r. ground (arith, contains_of_mem n xs r))

named_in_map :
    (n : String) (ps : List Pod)
    → contains n (map (λ p. p.metadata.name) ps) ≡ true
    → any (λ p. n == p.metadata.name) ps ≡ true
named_in_map n [] h = h
named_in_map n (p ∷ ps) h = ground (arith, h, named_in_map n ps)

-- A filter that drops nothing by its length drops nothing.
all-same_length :
    {A : Type 0} (p : A → Bool) (xs : List A) → length (filter p xs) ≡ length xs → all p xs ≡ true
all-same_length p [] h = refl
all-same_length p (x ∷ xs) h = ground (arith, h, length-filter-le p xs, all-same_length p xs)

module _ (from_iso : IsoReader) (c : Cluster) (minimum : ℕ) (v : Volume) where
  -- The pods that would be deleted wait for the volume on its node, and no other live pod has its claim.
  pub record IsIdle (x : StaleNativeAttachmentCandidate) : Type 0 where
    pub unattached : v.current_node_id ≡ ""
    pub one_node :
        (n : String)
        → Mem n (csi_ticket_nodes (c.attachment_of v.metadata.name))
        → n ≡ x.target_node
    pub pending :
        (n : String)
        → Mem n x.consumer_pods
        → (p : Pod) × Mem p c.pods
          × (p.metadata.name ≡ n)
          × (p.metadata.namespace ≡ x.namespace)
          × (p.phase ≡ "Pending")
          × (p.node_name ≡ x.target_node)
    pub no_other :
        (p : Pod)
        → Mem p c.pods
        → uses_claim from_iso c minimum v p ≡ true
        → (p.phase ≡ "Pending") × (p.node_name ≡ x.target_node)
    pub attachment :
        (a : NativeAttachment) × Mem a c.native_attachments
        × (a.metadata.name ≡ x.attachment_name)
        × (a.metadata.uid ≡ x.attachment_uid)
        × (a.source_pv_name ≡ x.pv_name)
        × (a.attached ≡ true)

  abbrev claim_consumers : List Pod
  claim_consumers = filter (uses_claim from_iso c minimum v) c.pods

  check_only_waiting-ok :
      (pods : List Pod)
      → check_only_waiting from_iso c minimum v ≡ ok pods
      → (filter (is_waiting from_iso c minimum v) claim_consumers ≡ pods)
        × (all (is_waiting from_iso c minimum v) claim_consumers ≡ true)
  unfolding check_only_waiting
  check_only_waiting-ok pods h = (
    ground (arith, h),
    ground (
      arith,
      h,
      all-same_length (is_waiting from_iso c minimum v)
          (filter (uses_claim from_iso c minimum v) c.pods),
    ),
  )

  stages :
      (x : StaleNativeAttachmentCandidate)
      → evaluate_stale_native_attachment_candidate from_iso c minimum v ≡ ok x
      → (check_target v ≡ ok tt)
        × (check_tickets from_iso c minimum v ≡ ok tt)
        × ((pods : List Pod) × (check_only_waiting from_iso c minimum v ≡ ok pods)
            × ((a : NativeAttachment) × (filter
                    (is_stale_attachment from_iso c minimum v)
                    c.native_attachments
                  ≡ a ∷ [])
                × (stale_of v a pods ≡ x)))
  unfolding evaluate_stale_native_attachment_candidate
  stages x h =
      let (_, _, h₁) = bind-ok (check_attaching v) _ h in
      let (_, _, h₂) = bind-ok (check_data from_iso c minimum v) _ h₁ in
      let (_, _, h₃) = bind-ok (check_access v) _ h₂ in
      let (u, target, h₄) = bind-ok (check_target v) _ h₃ in
      let (_, _, h₅) = bind-ok (check_identity from_iso c minimum v) _ h₄ in
      let (_, _, h₆) = bind-ok (check_engine v c.engines) _ h₅ in
      let (w, tickets, h₇) = bind-ok (check_tickets from_iso c minimum v) _ h₆ in
      let (pods, waiting, h₈) = bind-ok (check_only_waiting from_iso c minimum v) _ h₇ in
      let (a, only, h₉) =
        bind-ok
          (the_only (filter (is_stale_attachment from_iso c minimum v) c.native_attachments)
            old_successful_native_attachment_cardinality_not_one)
          _ h₈ in
      (target, tickets, (pods, waiting, (a, the_only-ok _ _ a only, ground (arith, h₉))))

  waiting-facts :
      (p : Pod)
      → is_waiting from_iso c minimum v p ≡ true
      → (p.phase ≡ "Pending") × (p.node_name ≡ v.node_id)
  unfolding is_waiting
  waiting-facts p h =
      (ground (arith, h, eq_iff p.phase "Pending"), ground (arith, h, eq_iff p.node_name v.node_id))

  claim-facts :
      (p : Pod)
      → uses_claim from_iso c minimum v p ≡ true
      → p.metadata.namespace ≡ v.kubernetes_status.namespace
  unfolding uses_claim
  claim-facts p h = ground (arith, h, eq_iff p.metadata.namespace v.kubernetes_status.namespace)

  attachment-facts :
      (a : NativeAttachment)
      → is_stale_attachment from_iso c minimum v a ≡ true
      → (a.source_pv_name ≡ v.kubernetes_status.pv_name) × (a.attached ≡ true)
  unfolding is_stale_attachment
  attachment-facts a h =
      (ground (arith, h, eq_iff a.source_pv_name v.kubernetes_status.pv_name), ground (arith, h))

  target-facts : check_target v ≡ ok tt → v.current_node_id ≡ ""
  unfolding check_target
  target-facts h = ground (arith, h, eq_iff v.current_node_id "")

  ticket-facts :
      check_tickets from_iso c minimum v ≡ ok tt
      → (n : String) → Mem n (csi_ticket_nodes (c.attachment_of v.metadata.name))
      → n ≡ v.node_id
  unfolding check_tickets
  ticket-facts h n m = ground (
    arith,
    h,
    any-mem (λ n. not (n == v.node_id)) (csi_ticket_nodes (c.attachment_of v.metadata.name)) n,
    m,
    eq_iff n v.node_id,
  )

  pending_pod :
      (pods : List Pod) (n : String)
      → filter (is_waiting from_iso c minimum v) claim_consumers ≡ pods
      → Mem n (sorted (map (λ p. p.metadata.name) pods))
      → (p : Pod) × Mem p c.pods
        × (p.metadata.name ≡ n)
        × (p.metadata.namespace ≡ v.kubernetes_status.namespace)
        × (p.phase ≡ "Pending")
        × (p.node_name ≡ v.node_id)
  pending_pod pods n same m =
      let named = contains-sorted n _ (contains_of_mem n _ m) in
      let (p, k, e) = any-find (λ p. n == p.metadata.name) pods (named_in_map n pods named) in
      let held : Mem p (filter (is_waiting from_iso c minimum v) claim_consumers) = rw same k in
      let of_claim = mem_of_mem-filter (is_waiting from_iso c minimum v) claim_consumers p held in
      let (phase, node) =
        waiting-facts p
          (passes_of_mem-filter (is_waiting from_iso c minimum v) claim_consumers p held) in
      (
        p,
        mem_of_mem-filter (uses_claim from_iso c minimum v) c.pods p of_claim,
        sym ((eq_iff n p.metadata.name).0 e),
        claim-facts p (passes_of_mem-filter (uses_claim from_iso c minimum v) c.pods p of_claim),
        phase,
        node,
      )

  -- Each pod that a stale candidate names for deletion is pending on the target node, every live pod
  -- that uses the claim is so, the volume is attached nowhere, no attacher's ticket names another node,
  -- and the native attachment is one of the volume that claims to be attached.
  pub evaluate_stale-IsIdle :
      (x : StaleNativeAttachmentCandidate)
      → evaluate_stale_native_attachment_candidate from_iso c minimum v ≡ ok x
      → IsIdle x
  unfolding stale_of
  evaluate_stale-IsIdle x h =
      let (target, tickets, (pods, waiting, (a, only, same))) = stages x h in
      let (all_pods, alone) = check_only_waiting-ok pods waiting in
      let (source, attached) = attachment-facts a (
        passes_of_mem-filter (is_stale_attachment from_iso c minimum v) c.native_attachments a
          (rw only mem-cons_self)) in
      rw (← same) (record {
        unattached = target-facts target;
        one_node = ticket-facts tickets;
        pending = λ n m. pending_pod pods n all_pods m;
        no_other = λ p m u. waiting-facts p (
            all-mem (is_waiting from_iso c minimum v) claim_consumers p alone
              (mem-filter (uses_claim from_iso c minimum v) c.pods p m u));
        attachment = (a, mem_of_filter-eq _ _ a [] only, refl, refl, source, attached);
      })
