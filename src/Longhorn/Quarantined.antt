-- ===== src/Longhorn/Quarantined.antt =====
-- What quarantine, restore and removal do to the file system.
use platform_gitops.Prelude.{
  ◌≡◌, ◌≢◌, ◌⊎◌, inl, inr, Bool, true, false, not, ◌&&◌, arith, Bool-cases, refl, Option,
}
use platform_gitops.Prelude.Result.{ok, err, Result-cases}
use platform_gitops.Longhorn.Names.{parse_directory_name}
use platform_gitops.Longhorn.Metrics.{Node, Metrics}
use platform_gitops.Longhorn.Candidate.{FilePath, ReplicaDirectory, ReclaimCandidate}
use platform_gitops.Longhorn.Quarantine.{
  FileSystem, Outcome, Removal, removed, stopped, removal_failed, path_eq, remove_tree, leave_at,
  is_tombstone, measure, is_unchanged, remove_measured, remove_quarantined_candidate,
}

is_unchanged-equal :
    (d : ReplicaDirectory) (m : Metrics)
    → is_unchanged d m ≡ true
    → (m.allocated ≡ d.allocated_bytes)
      × (m.newest_mtime_ns ≡ d.newest_mtime_ns)
      × (m.device ≡ d.device)
      × (m.inode ≡ d.inode)
unfolding is_unchanged
is_unchanged-equal d m h = ground arith

-- What a directory shows just before it is removed.
abbrev pub IsRemovable : (FileSystem → FilePath → Bool) → ReclaimCandidate → FileSystem → Type 0
IsRemovable open_file_check c fs =
    (c.directory.tombstone ≡ true)
    × (is_tombstone (parse_directory_name c.directory.path.name) ≡ true)
    × ((m : Metrics) × (measure (fs c.directory.path) ≡ ok m)
        × (m.allocated ≡ c.directory.allocated_bytes)
        × (m.newest_mtime_ns ≡ c.directory.newest_mtime_ns)
        × (m.device ≡ c.directory.device)
        × (m.inode ≡ c.directory.inode))
    × (open_file_check fs c.directory.path ≡ false)

Removal-cases : (r : Removal) → (r ≡ removed) ⊎ ((left : Option Node) × (r ≡ stopped left))
Removal-cases removed = inl refl
Removal-cases (stopped left) = inr (left, refl)

leave_at-other :
    (path p : FilePath) (left : Option Node) (fs : FileSystem)
    → path_eq p path ≡ false
    → leave_at path left fs p ≡ fs p
unfolding leave_at
leave_at-other path p left fs h = rw h

module _ (open_file_check : FileSystem → FilePath → Bool) (avoids : Bool)
    (rmtree : FileSystem → FilePath → Removal) (c : ReclaimCandidate) (fs : FileSystem) where
  abbrev removal : Outcome (Unit {0})
  removal = remove_quarantined_candidate open_file_check avoids rmtree c fs

  abbrev permitted : Metrics → Bool
  permitted m =
      c.directory.tombstone
      && (is_tombstone (parse_directory_name c.directory.path.name)
          && (is_unchanged c.directory m && (not (open_file_check fs c.directory.path) && avoids)))

  permitted-IsRemovable :
      (m : Metrics)
      → measure (fs c.directory.path) ≡ ok m
      → permitted m ≡ true
      → IsRemovable open_file_check c fs
  permitted-IsRemovable m measured goes = (
    ground arith,
    ground arith,
    (let same = is_unchanged-equal c.directory m (ground arith) in
        (m, measured, same.0, same.1, same.2, same.3)),
    ground arith,
  )

  -- A removal raises and has changed nothing; or the directory was quarantined, unchanged since it was
  -- measured and not open, and then either the removal returns and exactly its path is gone, or
  -- rmtree has raised and every other path is as it was.
  pub remove_quarantined_candidate-cases :
      ((removal.0 ≡ fs) × (removal.1 ≢ ok tt))
      ⊎ (IsRemovable open_file_check c fs
          × (((removal.1 ≡ ok tt) × (removal.0 ≡ remove_tree c.directory.path fs))
              ⊎ ((removal.1 ≡ err removal_failed)
                  × ((p : FilePath) → path_eq p c.directory.path ≡ false → removal.0 p ≡ fs p))))
  unfolding remove_quarantined_candidate remove_measured
  remove_quarantined_candidate-cases = elim (Result-cases (measure (fs c.directory.path))) [
    | inr (e, failed) ↦ inl (ground arith, ground arith)
    | inl (m, measured) ↦ elim (Bool-cases (permitted m)) [
      | inr stops ↦ inl (ground (arith, measured), ground (arith, measured))
      | inl goes ↦ inr (
        permitted-IsRemovable m measured goes,
        (elim (Removal-cases (rmtree fs c.directory.path)) [
          | inl gone ↦ inl (ground (arith, measured, gone), ground (arith, measured, gone))
          | inr (left, raised) ↦ inr (
            ground (arith, measured, raised),
            λ p h. ground (arith, measured, raised, leave_at-other c.directory.path p left fs h),
          )
        ]),
      )
    ]
  ]
