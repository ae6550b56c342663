-- ===== src/Attachment/Sound.antt =====
-- What a candidate for quarantine guarantees of the collection that it was found in.
use platform_gitops.Prelude.{
  ℕ, ◌≤◌, ◌==◌, ◌≡◌, ◌≢◌, refl, sym, ap, eq_iff, true, false, not, ◌&&◌, List, [], ◌∷◌, map, Mem,
  arith, length, distinct, filter, mem_of_filter-eq, mem_of_mem-filter, passes_of_mem-filter,
  mem-cons_self,
}
use platform_gitops.Prelude.Sorting.{sorted}
use platform_gitops.Prelude.Result.{ok, bind-ok}
use platform_gitops.Longhorn.Disks.{IsoReader}
use platform_gitops.Attachment.Kube.{
  Pod, Volume, Engine, Replica, NativeAttachment, is_deleting, is_registered,
  replica_history_is_safe,
}
use platform_gitops.Attachment.Checks.{
  Reason, the_only, check_attaching, check_access, check_target, check_engine, is_stopped,
  volume_engines, engine_cardinality_not_one, unmapped_stopped_replica_cardinality_not_one,
  old_failed_native_attachment_cardinality_not_one,
}
use platform_gitops.Attachment.Evaluate.{
  Candidate, Cluster, check_redundancy, check_identity, check_healthy, check_ticket, check_waiting,
  is_healthy, is_unmapped, is_failed_attachment, volume_replicas, candidate_of, evaluate_candidate,
}

pub the_only-ok :
    {A : Type 0} (xs : List A) (r : Reason) (a : A) → the_only xs r ≡ ok a → xs ≡ a ∷ []
unfolding the_only
the_only-ok [] r a h = absurd (ground (arith, h))
the_only-ok (b ∷ []) r a h = ap (λ x. x ∷ []) (ground (arith, h))
the_only-ok (b ∷ d ∷ xs) r a h = absurd (ground (arith, h))

module _ (from_iso : IsoReader) (c : Cluster) (minimum : ℕ) (v : Volume) where
  -- A replica that other replicas of the volume can stand in for: stopped, on a disk that is not
  -- registered, with at least two healthy running ones, on two nodes.
  pub record IsOrphan (r : Replica) (healthy : List Replica) : Type 0 where
    pub held : Mem r c.replicas
    pub of_volume : r.volume_name ≡ v.metadata.name
    pub stopped : r.current_state ≡ "stopped"
    pub unregistered : is_registered r.node_id r.disk_id c.nodes ≡ false
    pub copies : 2 ≤ length healthy
    pub nodes : 2 ≤ length (distinct (map (λ s. s.node_id) healthy))
    pub running :
        (s : Replica)
        → Mem s healthy
        → Mem s c.replicas
          × (s.volume_name ≡ v.metadata.name)
          × (s.current_state ≡ "running")
          × (is_registered s.node_id s.disk_id c.nodes ≡ true)
          × (s.failed_at ≡ "")
          × (s.healthy_at ≢ "")
          × (replica_history_is_safe from_iso s ≡ true)

  check_healthy-ok :
      (healthy : List Replica)
      → check_healthy from_iso c minimum v ≡ ok healthy
      → (filter (is_healthy from_iso c minimum v) (volume_replicas from_iso c minimum v) ≡ healthy)
        × (2 ≤ length healthy)
        × (2 ≤ length (distinct (map (λ s. s.node_id) healthy)))
  unfolding check_healthy
  check_healthy-ok healthy h =
      let all_healthy =
        filter (is_healthy from_iso c minimum v) (volume_replicas from_iso c minimum v) in
      let same : all_healthy ≡ healthy = ground (arith, h) in
      rw (← same) (refl, ground (arith, h), ground (arith, h))

  of_volume :
      (r : Replica)
      → Mem r (volume_replicas from_iso c minimum v)
      → (Mem r c.replicas) × (r.volume_name ≡ v.metadata.name)
  unfolding volume_replicas
  of_volume r m = (
    mem_of_mem-filter _ c.replicas r m,
    ground (
      arith,
      passes_of_mem-filter (λ r. r.volume_name == v.metadata.name && not (is_deleting r.metadata))
          c.replicas r m,
      eq_iff r.volume_name v.metadata.name,
    ),
  )

  unmapped-facts :
      (r : Replica)
      → is_unmapped from_iso c minimum v r ≡ true
      → (r.current_state ≡ "stopped") × (is_registered r.node_id r.disk_id c.nodes ≡ false)
  unfolding is_unmapped
  unmapped-facts r h = (ground (arith, h, eq_iff r.current_state "stopped"), ground (arith, h))

  healthy-facts :
      (s : Replica)
      → is_healthy from_iso c minimum v s ≡ true
      → (s.current_state ≡ "running")
        × (is_registered s.node_id s.disk_id c.nodes ≡ true)
        × (s.failed_at ≡ "")
        × (s.healthy_at ≢ "")
        × (replica_history_is_safe from_iso s ≡ true)
  unfolding is_healthy
  healthy-facts s h = (
    ground (arith, h, eq_iff s.current_state "running"),
    ground (arith, h),
    ground (arith, h, eq_iff s.failed_at ""),
    (λ e. ground (arith, h, (eq_iff s.healthy_at "").1 e)),
    ground (arith, h),
  )

  only-IsOrphan :
      (r : Replica) (healthy : List Replica)
      → check_healthy from_iso c minimum v ≡ ok healthy
      → filter (is_unmapped from_iso c minimum v) (volume_replicas from_iso c minimum v) ≡ r ∷ []
      → IsOrphan r healthy
  only-IsOrphan r healthy h only =
      let (same, copies, nodes) = check_healthy-ok healthy h in
      let (held, of) = of_volume r (mem_of_filter-eq _ _ r [] only) in
      let (stopped, unregistered) = unmapped-facts r (
        passes_of_mem-filter (is_unmapped from_iso c minimum v)
          (volume_replicas from_iso c minimum v) r (rw only mem-cons_self)) in
      record {
        held = held;
        of_volume = of;
        stopped = stopped;
        unregistered = unregistered;
        copies = copies;
        nodes = nodes;
        running = λ s m.
            let n : Mem s
                (filter (is_healthy from_iso c minimum v) (volume_replicas from_iso c minimum v)) =
              rw same m in
            let (kept, named) = of_volume s (mem_of_mem-filter _ _ s n) in
            let (running, on_disk, well, seen, history) = healthy-facts s (
              passes_of_mem-filter (is_healthy from_iso c minimum v)
                (volume_replicas from_iso c minimum v) s n) in
            (kept, named, running, on_disk, well, seen, history);
      }

  -- The stages of evaluate_candidate that have passed.
  stages :
      (x : Candidate)
      → evaluate_candidate from_iso c minimum v ≡ ok x
      → (engine : Engine) × (check_engine v c.engines ≡ ok engine)
        × ((healthy : List Replica) × (check_healthy from_iso c minimum v ≡ ok healthy)
            × ((r : Replica) × (filter
                    (is_unmapped from_iso c minimum v)
                    (volume_replicas from_iso c minimum v)
                  ≡ r ∷ [])
                × ((a : NativeAttachment) × (pods : List Pod) × (candidate_of v engine healthy r a
                        pods
                      ≡ x))))
  unfolding evaluate_candidate
  stages x h =
      let (_, _, h₁) = bind-ok (check_attaching v) _ h in
      let (_, _, h₂) = bind-ok (check_redundancy from_iso c minimum v) _ h₁ in
      let (_, _, h₃) = bind-ok (check_access v) _ h₂ in
      let (_, _, h₄) = bind-ok (check_target v) _ h₃ in
      let (_, _, h₅) = bind-ok (check_identity from_iso c minimum v) _ h₄ in
      let (engine, stopped, h₆) = bind-ok (check_engine v c.engines) _ h₅ in
      let (healthy, running, h₇) = bind-ok (check_healthy from_iso c minimum v) _ h₆ in
      let (r, only, h₈) =
        bind-ok
          (the_only
            (filter (is_unmapped from_iso c minimum v) (volume_replicas from_iso c minimum v))
            unmapped_stopped_replica_cardinality_not_one)
          _ h₇ in
      let (_, _, h₉) = bind-ok (check_ticket from_iso c minimum v) _ h₈ in
      let (a, _, h₁₀) =
        bind-ok
          (the_only (filter (is_failed_attachment from_iso c minimum v) c.native_attachments)
            old_failed_native_attachment_cardinality_not_one)
          _ h₉ in
      let (pods, _, h₁₁) = bind-ok (check_waiting from_iso c minimum v) _ h₁₀ in
      (
        engine,
        stopped,
        (healthy, running, (r, the_only-ok _ _ r only, (a, pods, ground (arith, h₁₁)))),
      )

  check_engine-ok :
      (engine : Engine)
      → check_engine v c.engines ≡ ok engine
      → (volume_engines v.metadata.name c.engines ≡ engine ∷ []) × (is_stopped engine ≡ true)
  unfolding check_engine
  check_engine-ok engine h =
      let (e, only, h₁) =
        bind-ok (the_only (volume_engines v.metadata.name c.engines) engine_cardinality_not_one) _
          h in
      let same : e ≡ engine = ground (arith, h₁) in
      (rw (← same) (the_only-ok _ _ e only), rw (← same) (ground (arith, h₁)))

  stopped-facts :
      (e : Engine)
      → is_stopped e ≡ true
      → (e.node_id ≡ "") × (e.desire_state ≡ "stopped") × (e.current_state ≡ "stopped")
  unfolding is_stopped
  stopped-facts e h = (
    ground (arith, h, eq_iff e.node_id ""),
    ground (arith, h, eq_iff e.desire_state "stopped"),
    ground (arith, h, eq_iff e.current_state "stopped"),
  )

  -- A candidate names the one stopped engine of its volume, at least two replicas that run, with a safe
  -- history of health and no failure, on registered disks of two nodes, and as the orphan a stopped
  -- replica on a disk that is not registered.
  pub evaluate_candidate-IsOrphan :
      (x : Candidate)
      → evaluate_candidate from_iso c minimum v ≡ ok x
      → (x.volume_name ≡ v.metadata.name)
        × ((e : Engine) × (volume_engines v.metadata.name c.engines ≡ e ∷ [])
            × (e.metadata.name ≡ x.engine_name)
            × (e.node_id ≡ "")
            × (e.current_state ≡ "stopped"))
        × ((r : Replica) × (healthy : List Replica) × (r.metadata.name ≡ x.orphan_replica)
            × (sorted (map (λ s. s.metadata.name) healthy) ≡ x.healthy_replicas)
            × IsOrphan r healthy)
  unfolding candidate_of
  evaluate_candidate-IsOrphan x h =
      let (engine, one, (healthy, running, (r, only, (a, pods, same)))) = stages x h in
      let (e, stopped) = check_engine-ok engine one in
      let (off, _, current) = stopped-facts engine stopped in
      (
        sym (ap (λ y. y.volume_name) same),
        (engine, e, ap (λ y. y.engine_name) same, off, current),
        (
          r,
          healthy,
          ap (λ y. y.orphan_replica) same,
          ap (λ y. y.healthy_replicas) same,
          only-IsOrphan r healthy running only,
        ),
      )
