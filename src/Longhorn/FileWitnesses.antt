-- ===== src/Longhorn/FileWitnesses.antt =====
-- The theorems about quarantine, removal and a run, at a file system with one directory.
use platform_gitops.Prelude.{
  ℕ, suc, ◌≡◌, ◌≢◌, ◌⊎◌, refl, Bool, true, false, none, some, strip_suffix, if◌then◌else◌,
}
use platform_gitops.Prelude.Result.{ok, err}
use platform_gitops.Longhorn.Names.{
  parse_directory_name, parse_logical, starts_with_dot, full_match, volume_directory, fits,
  tombstone_name,
}
use platform_gitops.Longhorn.Metrics.{
  Stat, Entries, dir, regular, nil, cons, directory_metrics, directory_metrics_within, walk,
  list_entries, add_entry, add_stat,
}
use platform_gitops.Longhorn.Candidate.{FilePath, ReclaimCandidate}
use platform_gitops.Longhorn.Select.{Selection, selected}
use platform_gitops.Longhorn.Quarantine.{
  FileSystem, Os, Removal, removed, removal_failed, path_eq, rename, remove_tree, is_same_directory,
  tombstone_path, moved, rename_checked, quarantine_resolved, quarantine_candidate, is_tombstone,
  measure, is_unchanged, restore_quarantined_candidate, remove_measured,
  remove_quarantined_candidate,
}
use platform_gitops.Longhorn.Quarantined.{IsRemovable, remove_quarantined_candidate-cases}
use platform_gitops.Longhorn.Restored.{IsIntact, Succeeds, away_of, back_of, quarantine-restore}
use platform_gitops.Longhorn.Run.{
  Environment, same_fingerprint, same_directory, remove, reclaim_quarantined, reclaim, settle,
  start, run,
}
use platform_gitops.Longhorn.RunSafety.{HasReclaimed, run-HasReclaimed}
use platform_gitops.Longhorn.Examples

abbrev root : Stat
root = record { allocated = 4096; mtime_ns = 5; device = 1; inode = 2 }

abbrev entries : Entries
entries =
    cons "volume.meta" (regular (record { allocated = 512; mtime_ns = 9; device = 1; inode = 3 }))
      nil

abbrev found : ReclaimCandidate
found = record Examples.candidate {
  directory = record (Examples.directory Examples.stale_name 2) {
    allocated_bytes = 4608;
    newest_mtime_ns = 9;
  };
}

abbrev quarantined : ReclaimCandidate
quarantined = moved found (tombstone_path found.directory) true

-- One directory, under the name that it was found with.
abbrev disk : FileSystem
disk p = if path_eq p found.directory.path then some (dir root entries) else none

abbrev away : FileSystem
away = rename found.directory.path (tombstone_path found.directory) disk

abbrev os : Os
os = record {
  real_path = λ p. p;
  resolve = λ fs p. some p;
  opens = λ fs p. true;
  renames = λ fs from to. true;
  lstats = λ fs p. true;
}

-- Every removal is complete.
abbrev remove_all : FileSystem → FilePath → Removal
remove_all fs p = removed

abbrev nothing_open : FileSystem → FilePath → Bool
nothing_open fs p = false

abbrev discovered : ℕ → Selection
discovered (suc (suc n)) = selected quarantined
discovered n = selected found

abbrev quiet : Environment
quiet = record {
  discover = λ n fs. discovered n;
  others = λ n fs. fs;
  has_open_files = nothing_open;
  os = os;
  avoids_symlink_attacks = true;
  rmtree = remove_all;
}

intact : IsIntact os found disk root entries found.directory.path
unfolding path_eq tombstone_name full_match volume_directory fits directory_metrics
    directory_metrics_within walk list_entries add_entry add_stat
intact = record {
  live = refl;
  named = refl;
  replica_name = refl;
  present = refl;
  measured = refl;
  free = refl;
  resolved = refl;
  contained = refl;
}

succeeds : Succeeds os found disk (away_of found disk) (back_of found disk)
succeeds = record {
  opens = refl;
  renames = refl;
  lstats = refl;
  opens_back = refl;
  renames_back = refl;
  lstats_back = refl;
}

quarantine-restore_example :
    (quarantine_candidate os found disk ≡ (away, ok quarantined))
    × (away found.directory.path ≡ none)
    × ((restore_quarantined_candidate os quarantined away).1 ≡ ok found)
    × ((p : FilePath) → (restore_quarantined_candidate os quarantined away).0 p ≡ disk p)
quarantine-restore_example =
    quarantine-restore os found disk root entries found.directory.path intact succeeds

remove_quarantined_candidate-cases_example :
    let removal = remove_quarantined_candidate nothing_open true remove_all quarantined away in
    ((removal.0 ≡ away) × (removal.1 ≢ ok tt))
    ⊎ (IsRemovable nothing_open quarantined away
        × (((removal.1 ≡ ok tt) × (removal.0 ≡ remove_tree quarantined.directory.path away))
            ⊎ ((removal.1 ≡ err removal_failed)
                × ((p : FilePath)
                    → path_eq p quarantined.directory.path ≡ false
                    → removal.0 p ≡ away p))))
remove_quarantined_candidate-cases_example =
    remove_quarantined_candidate-cases nothing_open true remove_all quarantined away

run-HasReclaimed_example : HasReclaimed quiet false disk (run quiet false disk).0 quarantined
unfolding run start settle reclaim reclaim_quarantined remove same_fingerprint same_directory
    quarantine_candidate quarantine_resolved rename_checked rename remove_quarantined_candidate
    remove_measured measure is_unchanged is_tombstone parse_directory_name parse_logical
    starts_with_dot strip_suffix is_same_directory path_eq tombstone_name full_match
    volume_directory fits directory_metrics directory_metrics_within walk list_entries add_entry
    add_stat
run-HasReclaimed_example = run-HasReclaimed quiet false disk quarantined refl
