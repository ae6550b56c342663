-- ===== src/Longhorn/Restored.antt =====
-- A quarantine that is taken back leaves the file system and the candidate as they were.
use text.Mathlib.TextPositions.{eq_refl}
use platform_gitops.Prelude.{
  String, ◌==◌, ◌≡◌, sym, ap, ◌∙◌, eq_iff, true, false, none, some, arith, Bool-cases, inl, inr,
}
use platform_gitops.Prelude.Result.{ok}
use platform_gitops.Longhorn.Names.{
  full_match, volume_directory, parse_directory_name, tombstone_name,
}
use platform_gitops.Longhorn.RoundTrip.{parse-tombstone_name}
use platform_gitops.Longhorn.Metrics.{Stat, Entries, dir, Metrics, directory_metrics}
use platform_gitops.Longhorn.Metrics.Totals.{directory_metrics-identity}
use platform_gitops.Longhorn.Candidate.{FilePath, ReplicaDirectory, ReclaimCandidate}
use platform_gitops.Longhorn.Quarantine.{
  FileSystem, Os, path_eq, rename, is_same_directory, tombstone_path, original_path, moved,
  rename_checked, quarantine_resolved, quarantine_candidate, is_tombstone, measure, is_unchanged,
  restore_measured, restore_quarantined_candidate,
}

-- A name of a replica directory differs from its name under quarantine.
pub tombstone_name-ne :
    (name : String)
    → full_match volume_directory name ≡ true
    → (name == tombstone_name name) ≡ false
tombstone_name-ne name h = elim (Bool-cases (name == tombstone_name name)) [
  | inr e ↦ e
  | inl e ↦
      let (plain, marked) = parse-tombstone_name name h in
      absurd (cc (plain, marked, ap parse_directory_name ((eq_iff name (tombstone_name name)).0 e)))
]

path_eq_refl : (p : FilePath) → path_eq p p ≡ true
unfolding path_eq
path_eq_refl p = rw (eq_refl p.parent, eq_refl p.name)

rename-to : (from to : FilePath) (fs : FileSystem) → rename from to fs to ≡ fs from
unfolding rename
rename-to from to fs = rw (path_eq_refl to)

rename-from :
    (from to : FilePath) (fs : FileSystem) → path_eq from to ≡ false → rename from to fs from ≡ none
unfolding rename
rename-from from to fs h = rw (h, path_eq_refl from)

path_eq_iff : (p q : FilePath) → path_eq p q ≡ true → p ≡ q
unfolding path_eq
path_eq_iff p q h = ground (arith, eq_iff p.parent q.parent, eq_iff p.name q.name)

-- A rename to a free path, and back, changes nothing.
rename-rename :
    (from to : FilePath) (fs : FileSystem) (p : FilePath)
    → fs to ≡ none
    → path_eq from to ≡ false
    → rename to from (rename from to fs) p ≡ fs p
unfolding rename
rename-rename from to fs p free apart = elim (Bool-cases (path_eq p from)) [
  | inl at ↦ rw at (rw (path_eq_refl to) (ap fs (sym (path_eq_iff p from at))))
  | inr off ↦ elim (Bool-cases (path_eq p to)) [
    | inl on ↦ rw (off, on) (sym free ∙ ap fs (sym (path_eq_iff p to on)))
    | inr away ↦ rw (off, away)
  ]
]

-- The measurements that a directory was found with.
abbrev pub measured_as : ReplicaDirectory → Metrics
measured_as d = record {
  allocated = d.allocated_bytes;
  newest_mtime_ns = d.newest_mtime_ns;
  device = d.device;
  inode = d.inode;
}

-- What the candidate's directory was when it was found, with the path of its quarantine free.
pub record IsIntact (os : Os) (c : ReclaimCandidate) (fs : FileSystem) (s : Stat) (es : Entries)
    (r : FilePath) : Type 0 where
  pub live : c.directory.tombstone ≡ false
  pub named : c.directory.path ≡ original_path c.directory
  pub replica_name : full_match volume_directory c.directory.directory_name ≡ true
  pub present : fs c.directory.path ≡ some (dir s es)
  pub measured : directory_metrics (dir s es) ≡ ok (measured_as c.directory)
  pub free : fs (tombstone_path c.directory) ≡ none
  pub resolved : os.resolve fs c.directory.path ≡ some r
  pub contained : r.parent ≡ os.real_path c.directory.path.parent

-- The operating system opens the parent as a directory that is no symbolic link, renames in it and
-- looks at what arrived, on the way away and on the way back.
pub record Succeeds (os : Os) (c : ReclaimCandidate) (fs away back : FileSystem) : Type 0 where
  pub opens : os.opens fs c.directory.path.parent ≡ true
  pub renames : os.renames fs c.directory.path (tombstone_path c.directory) ≡ true
  pub lstats : os.lstats away (tombstone_path c.directory) ≡ true
  pub opens_back : os.opens away c.directory.path.parent ≡ true
  pub renames_back : os.renames away (tombstone_path c.directory) (original_path c.directory) ≡ true
  pub lstats_back : os.lstats back (original_path c.directory) ≡ true

abbrev pub away_of : ReclaimCandidate → FileSystem → FileSystem
away_of c fs = rename c.directory.path (tombstone_path c.directory) fs

abbrev pub back_of : ReclaimCandidate → FileSystem → FileSystem
back_of c fs = rename (tombstone_path c.directory) (original_path c.directory) (away_of c fs)

module _ (os : Os) (c : ReclaimCandidate) (fs : FileSystem) (s : Stat) (es : Entries) (r : FilePath)
    (intact : IsIntact os c fs s es r)
    (succeeds : Succeeds os c fs (away_of c fs) (back_of c fs)) where
  abbrev quarantined : ReclaimCandidate
  quarantined = moved c (tombstone_path c.directory) true

  abbrev away : FileSystem
  away = away_of c fs

  apart : path_eq c.directory.path (tombstone_path c.directory) ≡ false
  unfolding path_eq
  apart = ground (
    arith,
    ap (λ p. p.name) intact.named,
    tombstone_name-ne c.directory.directory_name intact.replica_name,
  )

  is_same : is_same_directory c.directory (some (dir s es)) ≡ true
  unfolding is_same_directory
  is_same = ground (arith, directory_metrics-identity s es _ intact.measured)

  is_same_back : is_same_directory quarantined.directory (some (dir s es)) ≡ true
  unfolding is_same_directory
  is_same_back = ground (arith, directory_metrics-identity s es _ intact.measured)

  quarantine-ok : quarantine_candidate os c fs ≡ (away, ok quarantined)
  unfolding quarantine_candidate quarantine_resolved rename_checked
  quarantine-ok = ground (
    arith,
    intact.live,
    intact.resolved,
    (eq_iff r.parent (os.real_path c.directory.path.parent)).1 intact.contained,
    intact.free,
    intact.present,
    succeeds.opens,
    succeeds.renames,
    succeeds.lstats,
    rename-to c.directory.path (tombstone_path c.directory) fs,
    is_same,
  )

  arrived : away (tombstone_path c.directory) ≡ some (dir s es)
  arrived = rename-to c.directory.path (tombstone_path c.directory) fs ∙ intact.present

  gone : away (original_path c.directory) ≡ none
  gone = rw (← intact.named) (rename-from c.directory.path (tombstone_path c.directory) fs apart)

  back :
      rename
        (tombstone_path c.directory)
        (original_path c.directory)
        away
        (original_path c.directory)
      ≡ some (dir s es)
  back = rename-to (tombstone_path c.directory) (original_path c.directory) away ∙ arrived

  measure-dir : measure (some (dir s es)) ≡ ok (measured_as c.directory)
  unfolding measure
  measure-dir = rw (intact.measured, measure)

  unchanged : is_unchanged quarantined.directory (measured_as c.directory) ≡ true
  unfolding is_unchanged
  unchanged = ground arith

  restore-ok :
      restore_quarantined_candidate os quarantined away
      ≡ (rename (tombstone_path c.directory) (original_path c.directory) away, ok c)
  unfolding restore_quarantined_candidate restore_measured rename_checked is_tombstone
  restore-ok = ground (
    arith,
    intact.live,
    succeeds.opens_back,
    succeeds.renames_back,
    succeeds.lstats_back,
    (parse-tombstone_name c.directory.directory_name intact.replica_name).1,
    arrived,
    measure-dir,
    unchanged,
    gone,
    back,
    is_same_back,
    intact.named,
  )

  -- For an intact candidate (unmarked, as measured, inside its disk, its quarantine path free), where
  -- opening the parent, renaming and looking at what arrived succeed there and back, the quarantine
  -- moves the directory away under its new name, and a restore straight after it gives
  -- back the candidate and, at every path, what stood there.
  pub quarantine-restore :
      (quarantine_candidate os c fs ≡ (away, ok quarantined))
      × (away c.directory.path ≡ none)
      × ((restore_quarantined_candidate os quarantined away).1 ≡ ok c)
      × ((p : FilePath) → (restore_quarantined_candidate os quarantined away).0 p ≡ fs p)
  quarantine-restore = (
    quarantine-ok,
    rename-from c.directory.path (tombstone_path c.directory) fs apart,
    rw restore-ok,
    λ p. rw restore-ok (
        rw (← intact.named)
          (rename-rename c.directory.path (tombstone_path c.directory) fs p intact.free apart)),
  )
