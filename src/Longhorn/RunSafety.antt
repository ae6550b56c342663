-- ===== src/Longhorn/RunSafety.antt =====
-- When a run removes, and when it leaves the file system alone.
use platform_gitops.Prelude.{◌≡◌, ◌≢◌, ◌⊎◌, inl, inr, refl, Bool, true, false, arith, Bool-cases}
use platform_gitops.Prelude.Result.{ok, Result-cases}
use platform_gitops.Longhorn.Candidate.{ReclaimCandidate}
use platform_gitops.Longhorn.Select.{Selection, SelectReason, selected, none_selected}
use platform_gitops.Longhorn.Quarantine.{
  FileSystem, quarantine_candidate, restore_quarantined_candidate, remove_quarantined_candidate,
  remove_tree,
}
use platform_gitops.Longhorn.Quarantined.{IsRemovable, remove_quarantined_candidate-cases}
use platform_gitops.Longhorn.Run.{
  Environment, Report, completed, same_fingerprint, finding_matches, give_back, remove,
  reclaim_quarantined, reclaim, run, start, settle, changed_after_quarantine,
  opened_after_quarantine,
}

pub Selection-cases :
    (x : Selection)
    → ((c : ReclaimCandidate) × (x ≡ selected c)) ⊎ ((r : SelectReason) × (x ≡ none_selected r))
Selection-cases (selected c) = inl (c, refl)
Selection-cases (none_selected r) = inr (r, refl)

module _ (e : Environment) where
  give_back-not_completed :
      (q : ReclaimCandidate) (report : Report) (fs : FileSystem) (x : ReclaimCandidate)
      → report ≢ completed x
      → (give_back e q report fs).1 ≢ completed x
  unfolding give_back
  give_back-not_completed q report fs x ne h =
      elim (Result-cases (restore_quarantined_candidate e.os q fs).1) [
        | inl (c, r) ↦ ne (ground (arith, r, h))
        | inr (y, r) ↦ absurd (ground (arith, r, h))
      ]

  remove-completed :
      (q : ReclaimCandidate) (fs : FileSystem) (x : ReclaimCandidate)
      → (remove e q fs).1 ≡ completed x
      → (q ≡ x)
        × IsRemovable e.has_open_files q fs
        × ((remove e q fs).0 ≡ remove_tree q.directory.path fs)
  unfolding remove
  remove-completed q fs x h =
      elim (remove_quarantined_candidate-cases e.has_open_files e.avoids_symlink_attacks e.rmtree q
        fs) [
          | inl (same, raised) ↦
              elim (Result-cases
                (remove_quarantined_candidate e.has_open_files e.avoids_symlink_attacks e.rmtree q
                  fs).1) [
                    | inl (u, r) ↦ absurd (raised r)
                    | inr (y, r) ↦ absurd (ground (arith, r, h))
                  ]
          | inr (removable, inl (done, gone)) ↦
              (ground (arith, done, h), removable, ground (arith, done, gone))
          | inr (removable, inr (raised, others)) ↦ absurd (ground (arith, raised, h))
        ]

  -- The facts that a run has established when it has removed `q`.
  pub record HasReclaimed (dry_run : Bool) (fs after : FileSystem) (q : ReclaimCandidate)
      : Type 0 where
    pub first : ReclaimCandidate
    pub second : ReclaimCandidate
    pub away : FileSystem
    pub found : e.discover 0 fs ≡ selected first
    pub found_again : e.discover 1 (e.others 0 fs) ≡ selected second
    pub unchanged : same_fingerprint second first ≡ true
    pub wanted : dry_run ≡ false
    pub not_open : e.has_open_files (e.others 0 fs) second.directory.path ≡ false
    pub quarantined : quarantine_candidate e.os second (e.others 0 fs) ≡ (away, ok q)
    pub found_thrice : finding_matches (e.discover 2 (e.others 1 away)) q ≡ true
    pub removable : IsRemovable e.has_open_files q (e.others 1 away)
    pub removed : after ≡ remove_tree q.directory.path (e.others 1 away)

  reclaim_quarantined-completed :
      (q : ReclaimCandidate) (fs : FileSystem) (x : ReclaimCandidate)
      → (reclaim_quarantined e q fs).1 ≡ completed x
      → (q ≡ x)
        × (finding_matches (e.discover 2 fs) q ≡ true)
        × IsRemovable e.has_open_files q fs
        × ((reclaim_quarantined e q fs).0 ≡ remove_tree q.directory.path fs)
  unfolding reclaim_quarantined
  reclaim_quarantined-completed q fs x h = elim (Bool-cases (finding_matches (e.discover 2 fs) q)) [
    | inr differs ↦
        absurd
          (give_back-not_completed q changed_after_quarantine fs x (λ p. cc) (ground (arith, h)))
    | inl same ↦ elim (Bool-cases (e.has_open_files fs q.directory.path)) [
      | inl open_file ↦
          absurd
            (give_back-not_completed q opened_after_quarantine fs x (λ p. cc) (ground (arith, h)))
      | inr closed ↦
          let (is_x, removable, gone) = remove-completed q fs x (ground (arith, h)) in
          (is_x, same, removable, ground (arith, gone))
    ]
  ]

  reclaim-completed :
      (dry_run : Bool) (second : ReclaimCandidate) (fs : FileSystem) (x : ReclaimCandidate)
      → (reclaim e dry_run second fs).1 ≡ completed x
      → (dry_run ≡ false)
        × (e.has_open_files fs second.directory.path ≡ false)
        × ((away : FileSystem) × (quarantine_candidate e.os second fs ≡ (away, ok x))
            × (finding_matches (e.discover 2 (e.others 1 away)) x ≡ true)
            × IsRemovable e.has_open_files x (e.others 1 away)
            × ((reclaim e dry_run second fs).0 ≡ remove_tree x.directory.path (e.others 1 away)))
  unfolding reclaim
  reclaim-completed dry_run second fs x h =
      elim (Bool-cases (e.has_open_files fs second.directory.path)) [
        | inl open_file ↦ absurd (ground (arith, h))
        | inr closed ↦ elim (Bool-cases dry_run) [
          | inl dry ↦ absurd (ground (arith, h))
          | inr wet ↦ elim (Result-cases (quarantine_candidate e.os second fs).1) [
            | inr (y, r) ↦ absurd (ground (arith, r, h))
            | inl (q, r) ↦
                let away : FileSystem = (quarantine_candidate e.os second fs).0 in
                let (is_x, matches, removable, gone) =
                  reclaim_quarantined-completed q (e.others 1 away) x (ground (arith, r, h)) in
                (
                  wet,
                  closed,
                  (
                    away,
                    ground (arith, r, is_x),
                    rw (← is_x) matches,
                    rw (← is_x) removable,
                    rw (← is_x) (ground (arith, r, gone)),
                  ),
                )
          ]
        ]
      ]

  -- A run reports a removal only after three discoveries that agree, outside a dry run, with no open
  -- file before or after the quarantine, of a quarantined directory unchanged since it was measured,
  -- and then exactly that directory is gone.
  pub run-HasReclaimed :
      (dry_run : Bool) (fs : FileSystem) (q : ReclaimCandidate)
      → (run e dry_run fs).1 ≡ completed q
      → HasReclaimed dry_run fs (run e dry_run fs).0 q
  unfolding run start settle
  run-HasReclaimed dry_run fs q h = elim (Selection-cases (e.discover 0 fs)) [
    | inr (r, none_found) ↦ absurd (ground (arith, none_found, h))
    | inl (first, found) ↦ elim (Selection-cases (e.discover 1 (e.others 0 fs))) [
      | inr (r, lost) ↦ absurd (ground (arith, found, lost, h))
      | inl (second, again) ↦ elim (Bool-cases (same_fingerprint second first)) [
        | inr differs ↦ absurd (ground (arith, found, again, h))
        | inl same ↦
            let (wet, closed, (away, moved, matches, removable, gone)) =
              reclaim-completed dry_run second (e.others 0 fs) q
                (ground (arith, found, again, h)) in
            record {
              first = first;
              second = second;
              away = away;
              found = found;
              found_again = again;
              unchanged = same;
              wanted = wet;
              not_open = closed;
              quarantined = moved;
              found_thrice = matches;
              removable = removable;
              removed = ground (arith, found, again, same, gone);
            }
      ]
    ]
  ]
