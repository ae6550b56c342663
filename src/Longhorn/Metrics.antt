-- ===== src/Longhorn/Metrics.antt =====
-- directory_metrics: the size and the newest change of a replica directory, read with a stack of the
-- directories that are still to be listed. An entry that cannot be read at all is not modelled.
pub mod Totals
use platform_gitops.Prelude.{
  ℕ, zero, suc, ◌+◌, String, Bool, true, false, List, [], ◌∷◌, max, ltb, if◌then◌else◌,
}
use platform_gitops.Prelude.Result.{Result, ok, err, ◌>>=◌}

-- What `lstat` gives, the allocated bytes for `st_blocks * 512`.
pub record Stat : Type 0 where
  pub allocated : ℕ
  pub mtime_ns : ℕ
  pub device : ℕ
  pub inode : ℕ

mutual
  pub data Node : Type 0 where
    dir : Stat → Entries → Node
    regular : Stat → Node
    symlink : Stat → Node
    special : Stat → Node

  pub data Entries : Type 0 where
    nil : Entries
    cons : String → Node → Entries → Entries

abbrev pub max_directory_entries : ℕ
max_directory_entries = 100000

pub data MetricsError : Type 0 where
  not_a_directory too_many_entries contains_symlink contains_special stopped : MetricsError

-- The variables of the loop.
pub record Walk : Type 0 where
  pub allocated : ℕ
  pub newest_mtime_ns : ℕ
  pub entries_seen : ℕ
  pub stack : List Entries

unfoldable pub add_stat : Stat → Walk → Walk
add_stat s w = record w {
  allocated = w.allocated + s.allocated;
  newest_mtime_ns = max w.newest_mtime_ns s.mtime_ns;
}

-- The body of the inner loop behind the count, for one entry.
unfoldable pub add_entry : Node → Walk → Result MetricsError Walk
unfolding add_stat
add_entry (symlink s) w = err contains_symlink
add_entry (special s) w = err contains_special
add_entry (regular s) w = ok (add_stat s w)
add_entry (dir s es) w = let v = add_stat s w in ok (record v { stack = es ∷ v.stack })

module _ (limit : ℕ) where
  unfoldable pub list_entries : Entries → Walk → Result MetricsError Walk
  unfolding add_entry
  list_entries nil w = ok w
  list_entries (cons name node rest) w =
      let counted = record w { entries_seen = w.entries_seen + 1 } in
      let later = add_entry node counted >>= list_entries rest in
      if ltb limit (w.entries_seen + 1) then err too_many_entries else later

  -- `while stack`, with fuel.
  unfoldable pub walk : ℕ → Walk → Result MetricsError Walk
  unfolding list_entries
  walk zero w = elim w.stack [ [] ↦ ok w | es ∷ rest ↦ err stopped ]
  walk (suc fuel) w = elim w.stack [
    | [] ↦ ok w
    | es ∷ rest ↦ list_entries es (record w { stack = rest }) >>= walk fuel
  ]

pub record Metrics : Type 0 where
  pub allocated : ℕ
  pub newest_mtime_ns : ℕ
  pub device : ℕ
  pub inode : ℕ

-- One round of the outer loop for each directory, of which there are at most `limit` below the root.
unfoldable pub directory_metrics_within : ℕ → Node → Result MetricsError Metrics
directory_metrics_within limit (dir s es) = do
  w ← walk limit (suc limit) (record {
    allocated = s.allocated;
    newest_mtime_ns = s.mtime_ns;
    entries_seen = 0;
    stack = es ∷ [];
  })
  ok (record {
    allocated = w.allocated;
    newest_mtime_ns = w.newest_mtime_ns;
    device = s.device;
    inode = s.inode;
  })
directory_metrics_within limit node = err not_a_directory

unfoldable pub directory_metrics : Node → Result MetricsError Metrics
directory_metrics = directory_metrics_within max_directory_entries
