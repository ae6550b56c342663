-- ===== src/Longhorn/Quarantine.antt =====
-- quarantine_candidate, restore_quarantined_candidate and remove_quarantined_candidate over a file
-- system: what stands at each path. A rename is a single step, as the kernel's is; a recursive
-- removal may raise midway.
use platform_gitops.Prelude.{
  String, ◌==◌, Bool, true, false, not, ◌&&◌, ◌||◌, Option, none, some, nat_eq, if◌then◌else◌,
}
use platform_gitops.Prelude.Result.{Result, ok, err}
use platform_gitops.Longhorn.Names.{Parsed, parse_directory_name, tombstone_name}
use platform_gitops.Longhorn.Metrics.{
  Node, dir, regular, symlink, special, Metrics, MetricsError, directory_metrics,
}
use platform_gitops.Longhorn.Candidate.{FilePath, ReplicaDirectory, ReclaimCandidate}

unfoldable pub path_eq : FilePath → FilePath → Bool
path_eq p q = p.parent == q.parent && p.name == q.name

abbrev pub FileSystem : Type 0
FileSystem = FilePath → Option Node

-- `os.path.realpath` and `Path.resolve(strict=True)`, `none` where the latter raises; and whether a
-- call returns rather than raises: `os.open` of a folder, which must be a directory and no symbolic
-- link, `os.rename` inside it, and `lstat`.
pub record Os : Type 0 where
  pub real_path : String → String
  pub resolve : FileSystem → FilePath → Option FilePath
  pub opens : FileSystem → String → Bool
  pub renames : FileSystem → FilePath → FilePath → Bool
  pub lstats : FileSystem → FilePath → Bool

-- `shutil.rmtree`: the tree is gone, or it raises and leaves something or nothing at the path.
pub data Removal : Type 0 where
  removed : Removal
  stopped : Option Node → Removal

pub data FsError : Type 0 where
  identity_changed_before_quarantine quarantine_path_exists quarantined_identity_changed
        not_quarantined changed_before_restore original_reappeared restored_identity_changed
        changed_before_removal has_open_files safe_removal_unavailable no_such_path
        cannot_open_parent rename_failed lstat_failed removal_failed :
      FsError
  metrics_failed : MetricsError → FsError

-- An operation leaves a file system behind also when it raises.
abbrev pub Outcome : Type 0 → Type 0
Outcome A = FileSystem × Result FsError A

abbrev pub exists : Option Node → Bool
exists none = false
exists (some node) = true

unfoldable pub rename : FilePath → FilePath → FileSystem → FileSystem
rename from to fs p = if path_eq p to then fs from else if path_eq p from then none else fs p

unfoldable pub remove_tree : FilePath → FileSystem → FileSystem
remove_tree path fs p = if path_eq p path then none else fs p

unfoldable pub leave_at : FilePath → Option Node → FileSystem → FileSystem
leave_at path left fs p = if path_eq p path then left else fs p

-- The identity that a directory had when it was measured.
unfoldable pub is_same_directory : ReplicaDirectory → Option Node → Bool
is_same_directory d none = false
is_same_directory d (some (dir s es)) = nat_eq s.device d.device && nat_eq s.inode d.inode
is_same_directory d (some (regular s)) = false
is_same_directory d (some (symlink s)) = false
is_same_directory d (some (special s)) = false

abbrev pub tombstone_path : ReplicaDirectory → FilePath
tombstone_path d = record { parent = d.path.parent; name = tombstone_name d.directory_name }

abbrev pub original_path : ReplicaDirectory → FilePath
original_path d = record { parent = d.path.parent; name = d.directory_name }

abbrev pub moved : ReclaimCandidate → FilePath → Bool → ReclaimCandidate
moved c path tombstone = record c {
  directory = record c.directory { path = path; tombstone = tombstone };
}

-- The rename inside the opened parent, and the look at what arrived.
unfoldable pub rename_checked :
    Os → ReclaimCandidate → FilePath → Bool → FsError → FileSystem → Outcome ReclaimCandidate
rename_checked os c to tombstone changed fs =
    let d = c.directory in
    let after = rename d.path to fs in
    if not (os.opens fs d.path.parent)
    then (fs, err cannot_open_parent)
    else if not (exists (fs d.path))
    then (fs, err no_such_path)
    else if not (os.renames fs d.path to)
    then (fs, err rename_failed)
    else if not (os.lstats after to)
    then (after, err lstat_failed)
    else if not (is_same_directory d (after to))
    then (after, err changed)
    else (after, ok (moved c to tombstone))

unfoldable pub quarantine_resolved :
    Os → ReclaimCandidate → Option FilePath → FileSystem → Outcome ReclaimCandidate
quarantine_resolved os c none fs = (fs, err no_such_path)
quarantine_resolved os c (some resolved) fs =
    let d = c.directory in
    if not (resolved.parent == os.real_path d.path.parent)
    then (fs, err identity_changed_before_quarantine)
    else if exists (fs (tombstone_path d))
    then (fs, err quarantine_path_exists)
    else rename_checked os c (tombstone_path d) true quarantined_identity_changed fs

unfoldable pub quarantine_candidate : Os → ReclaimCandidate → FileSystem → Outcome ReclaimCandidate
quarantine_candidate os c fs =
    if c.directory.tombstone
    then (fs, ok c)
    else quarantine_resolved os c (os.resolve fs c.directory.path) fs

unfoldable pub is_tombstone : Option Parsed → Bool
is_tombstone none = false
is_tombstone (some parsed) = parsed.tombstone

-- `directory_metrics(path) != expected`, or the error of the measurement.
unfoldable pub measure : Option Node → Result FsError Metrics
measure none = err no_such_path
measure (some node) = elim (directory_metrics node) [ ok m ↦ ok m | err e ↦ err (metrics_failed e) ]

unfoldable pub is_unchanged : ReplicaDirectory → Metrics → Bool
is_unchanged d m =
    nat_eq m.allocated d.allocated_bytes
    && (nat_eq m.newest_mtime_ns d.newest_mtime_ns
        && (nat_eq m.device d.device && nat_eq m.inode d.inode))

unfoldable pub restore_measured :
    Os → ReclaimCandidate → Result FsError Metrics → FileSystem → Outcome ReclaimCandidate
restore_measured os c (err e) fs = (fs, err e)
restore_measured os c (ok current) fs =
    let d = c.directory in
    if not (is_unchanged d current)
    then (fs, err changed_before_restore)
    else if exists (fs (original_path d))
    then (fs, err original_reappeared)
    else rename_checked os c (original_path d) false restored_identity_changed fs

unfoldable pub restore_quarantined_candidate :
    Os → ReclaimCandidate → FileSystem → Outcome ReclaimCandidate
restore_quarantined_candidate os c fs =
    let d = c.directory in
    if not d.tombstone || not (is_tombstone (parse_directory_name d.path.name))
    then (fs, err not_quarantined)
    else restore_measured os c (measure (fs d.path)) fs

module _ (open_file_check : FileSystem → FilePath → Bool) (avoids_symlink_attacks : Bool)
    (rmtree : FileSystem → FilePath → Removal) where
  unfoldable pub remove_measured :
      ReclaimCandidate → Result FsError Metrics → FileSystem → Outcome (Unit {0})
  remove_measured c (err e) fs = (fs, err e)
  remove_measured c (ok current) fs =
      let d = c.directory in
      if not (is_unchanged d current)
      then (fs, err changed_before_removal)
      else if open_file_check fs d.path
      then (fs, err has_open_files)
      else if not avoids_symlink_attacks
      then (fs, err safe_removal_unavailable)
      else (elim (rmtree fs d.path) [
        | removed ↦ (remove_tree d.path fs, ok tt)
        | stopped left ↦ (leave_at d.path left fs, err removal_failed)
      ])

  unfoldable pub remove_quarantined_candidate : ReclaimCandidate → FileSystem → Outcome (Unit {0})
  remove_quarantined_candidate c fs =
      let d = c.directory in
      if not d.tombstone || not (is_tombstone (parse_directory_name d.path.name))
      then (fs, err not_quarantined)
      else remove_measured c (measure (fs d.path)) fs
