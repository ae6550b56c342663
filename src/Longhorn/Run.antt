-- ===== src/Longhorn/Run.antt =====
-- run: discovery, settling, a second discovery, quarantine, a third discovery, and the removal.
use platform_gitops.Prelude.{ℕ, ◌==◌, Bool, true, false, not, ◌&&◌, nat_eq, if◌then◌else◌}
use platform_gitops.Prelude.Result.{ok, err}
use platform_gitops.Longhorn.Candidate.{FilePath, ReplicaDirectory, ReclaimCandidate}
use platform_gitops.Longhorn.Select.{Selection, SelectReason, selected, none_selected}
use platform_gitops.Longhorn.Quarantine.{
  FileSystem, Os, Removal, FsError, quarantine_candidate, restore_quarantined_candidate,
  remove_quarantined_candidate,
}

pub bool_eq : Bool → Bool → Bool
bool_eq true b = b
bool_eq false b = not b

-- `fingerprint() == fingerprint()` of directories, and of candidates.
unfoldable pub same_directory : ReplicaDirectory → ReplicaDirectory → Bool
unfolding bool_eq
same_directory d e =
    d.volume_name == e.volume_name
    && (d.directory_name == e.directory_name
        && (d.disk_name == e.disk_name
            && (d.disk_id == e.disk_id
                && (nat_eq d.allocated_bytes e.allocated_bytes
                    && (nat_eq d.newest_mtime_ns e.newest_mtime_ns
                        && (nat_eq d.device e.device
                            && (nat_eq d.inode e.inode && bool_eq d.tombstone e.tombstone)))))))

unfoldable pub same_fingerprint : ReclaimCandidate → ReclaimCandidate → Bool
same_fingerprint a b =
    same_directory a.directory b.directory
    && (a.pvc_namespace == b.pvc_namespace && (a.pvc_name == b.pvc_name && a.pv_name == b.pv_name))

-- The line that a run prints, or the error that ends it.
pub data Report : Type 0 where
  not_needed : SelectReason → Report
  identity_changed_during_settle has_open_files_before changed_after_quarantine
        opened_after_quarantine :
      Report
  verified_only : ReclaimCandidate → Report
  completed : ReclaimCandidate → Report
  failed : FsError → Report

-- What a run meets: the n-th discovery, what others do to the file system while it sleeps and
-- while it discovers after the quarantine, and the open files.
pub record Environment : Type 0 where
  pub discover : ℕ → FileSystem → Selection
  pub others : ℕ → FileSystem → FileSystem
  pub has_open_files : FileSystem → FilePath → Bool
  pub os : Os
  pub avoids_symlink_attacks : Bool
  pub rmtree : FileSystem → FilePath → Removal

abbrev pub finding_matches : Selection → ReclaimCandidate → Bool
finding_matches (none_selected r) c = false
finding_matches (selected x) c = same_fingerprint x c

module _ (e : Environment) where
  -- A restore that raises ends the run with its error.
  unfoldable pub give_back : ReclaimCandidate → Report → FileSystem → FileSystem × Report
  give_back q report fs =
      let (after, result) = restore_quarantined_candidate e.os q fs in
      elim result [ ok c ↦ (after, report) | err x ↦ (after, failed x) ]

  unfoldable pub remove : ReclaimCandidate → FileSystem → FileSystem × Report
  remove q fs =
      let (after, result) =
        remove_quarantined_candidate e.has_open_files e.avoids_symlink_attacks e.rmtree q fs in
      elim result [ ok done ↦ (after, completed q) | err x ↦ (after, failed x) ]

  -- From the quarantine on.
  unfoldable pub reclaim_quarantined : ReclaimCandidate → FileSystem → FileSystem × Report
  reclaim_quarantined q fs =
      if not (finding_matches (e.discover 2 fs) q)
      then give_back q changed_after_quarantine fs
      else if e.has_open_files fs q.directory.path
      then give_back q opened_after_quarantine fs
      else remove q fs

  unfoldable pub reclaim : Bool → ReclaimCandidate → FileSystem → FileSystem × Report
  reclaim dry_run second fs =
      let (after, result) = quarantine_candidate e.os second fs in
      if e.has_open_files fs second.directory.path
      then (fs, has_open_files_before)
      else if dry_run
      then (fs, verified_only second)
      else (elim result [
        | err x ↦ (after, failed x)
        | ok q ↦ reclaim_quarantined q (e.others 1 after)
      ])

  unfoldable pub settle : Bool → ReclaimCandidate → Selection → FileSystem → FileSystem × Report
  settle dry_run candidate (none_selected r) fs = (fs, identity_changed_during_settle)
  settle dry_run candidate (selected second) fs =
      if not (same_fingerprint second candidate)
      then (fs, identity_changed_during_settle)
      else reclaim dry_run second fs

  unfoldable pub start : Bool → Selection → FileSystem → FileSystem × Report
  start dry_run (none_selected r) fs = (fs, not_needed r)
  start dry_run (selected candidate) fs =
      let settled = e.others 0 fs in settle dry_run candidate (e.discover 1 settled) settled

  unfoldable pub run : Bool → FileSystem → FileSystem × Report
  run dry_run fs = start dry_run (e.discover 0 fs) fs
