-- ===== src/Longhorn/Metrics/Totals.antt =====
-- directory_metrics against the sums over the whole tree.
use platform_gitops.Prelude.{
  ℕ, zero, suc, ◌+◌, ◌≤◌, ◌≡◌, refl, ap, Bool, true, false, ◌&&◌, List, [], ◌∷◌, max, ltb, arith,
  length, Bool-cases, List-cases, and→both, ltb→le, inl, inr,
}
use platform_gitops.Prelude.Result.{ok, bind-ok}
use platform_gitops.Longhorn.Metrics.{
  Stat, Node, Entries, dir, regular, symlink, special, nil, cons, Walk, Metrics, add_stat,
  add_entry, list_entries, walk, directory_metrics, directory_metrics_within, max_directory_entries,
}

-- Bytes, newest change and number of all entries below, and that none is a link or special.
unfoldable mutual
  pub bytes_of : Node → ℕ
  bytes_of (dir s es) = s.allocated + bytes_in es
  bytes_of (regular s) = s.allocated
  bytes_of (symlink s) = s.allocated
  bytes_of (special s) = s.allocated

  pub bytes_in : Entries → ℕ
  bytes_in nil = 0
  bytes_in (cons name node rest) = bytes_of node + bytes_in rest

unfoldable mutual
  pub newest_of : Node → ℕ
  newest_of (dir s es) = max s.mtime_ns (newest_in es)
  newest_of (regular s) = s.mtime_ns
  newest_of (symlink s) = s.mtime_ns
  newest_of (special s) = s.mtime_ns

  pub newest_in : Entries → ℕ
  newest_in nil = 0
  newest_in (cons name node rest) = max (newest_of node) (newest_in rest)

unfoldable mutual
  pub entries_of : Node → ℕ
  entries_of (dir s es) = entries_in es
  entries_of (regular s) = 0
  entries_of (symlink s) = 0
  entries_of (special s) = 0

  pub entries_in : Entries → ℕ
  entries_in nil = 0
  entries_in (cons name node rest) = 1 + entries_of node + entries_in rest

unfoldable mutual
  pub plain_of : Node → Bool
  plain_of (dir s es) = plain_in es
  plain_of (regular s) = true
  plain_of (symlink s) = false
  plain_of (special s) = false

  pub plain_in : Entries → Bool
  plain_in nil = true
  plain_in (cons name node rest) = plain_of node && plain_in rest

abbrev bytes_on : List Entries → ℕ
bytes_on [] = 0
bytes_on (es ∷ rest) = bytes_in es + bytes_on rest

abbrev newest_on : List Entries → ℕ
newest_on [] = 0
newest_on (es ∷ rest) = max (newest_in es) (newest_on rest)

abbrev entries_on : List Entries → ℕ
entries_on [] = 0
entries_on (es ∷ rest) = entries_in es + entries_on rest

abbrev plain_on : List Entries → Bool
plain_on [] = true
plain_on (es ∷ rest) = plain_in es && plain_on rest

-- `v` stands where `w` and `es`, still to be listed, stood.
record Follows (es : Entries) (w v : Walk) : Type 0 where
  bytes : v.allocated + bytes_on v.stack ≡ w.allocated + bytes_in es + bytes_on w.stack
  newest :
      max v.newest_mtime_ns (newest_on v.stack)
      ≡ max w.newest_mtime_ns (max (newest_in es) (newest_on w.stack))
  seen : v.entries_seen + entries_on v.stack ≡ w.entries_seen + entries_in es + entries_on w.stack
  plain : plain_on v.stack ≡ (plain_in es && plain_on w.stack)
  pushed : length v.stack + w.entries_seen ≤ length w.stack + v.entries_seen

record Adds (node : Node) (w v : Walk) : Type 0 where
  bytes : v.allocated + bytes_on v.stack ≡ w.allocated + bytes_of node + bytes_on w.stack
  newest :
      max v.newest_mtime_ns (newest_on v.stack)
      ≡ max w.newest_mtime_ns (max (newest_of node) (newest_on w.stack))
  seen : v.entries_seen ≡ w.entries_seen
  below : entries_on v.stack ≡ entries_of node + entries_on w.stack
  plain : plain_on v.stack ≡ (plain_of node && plain_on w.stack)
  pushed : length v.stack ≤ length w.stack + 1

add_entry-Adds : (node : Node) (w v : Walk) → add_entry node w ≡ ok v → Adds node w v
unfolding add_entry bytes_of newest_of entries_of plain_of
add_entry-Adds (dir s es) w v h = ground arith
add_entry-Adds (regular s) w v h = ground arith
add_entry-Adds (symlink s) w v h = cc
add_entry-Adds (special s) w v h = cc

module _ (limit : ℕ) where
  list_entries-Follows :
      (es : Entries) (w v : Walk) → list_entries limit es w ≡ ok v → Follows es w v
  unfolding list_entries bytes_in newest_in entries_in plain_in
  list_entries-Follows nil w v h = ground arith
  list_entries-Follows (cons name node rest) w v h =
      elim (Bool-cases (ltb limit (w.entries_seen + 1))) [
        | inl over ↦ absurd (ground arith)
        | inr within ↦
            let counted : Walk = record w { entries_seen = w.entries_seen + 1 } in
            let (u, first, later) =
              bind-ok (add_entry node counted) (list_entries limit rest) (ground arith) in
            let adds = add_entry-Adds node counted u first in
            let follows = list_entries-Follows rest u v later in
            record {
              bytes = omega (arith, adds.bytes, follows.bytes);
              newest = omega (arith, adds.newest, follows.newest);
              seen = omega (arith, adds.seen, adds.below, follows.seen);
              plain = ground (arith, adds.plain, follows.plain);
              pushed = omega (arith, adds.seen, adds.pushed, follows.pushed);
            }
      ]

  -- A listing that stops has met a link, a special file, or one entry too many.
  list_entries-total :
      (es : Entries) (w : Walk)
      → plain_in es ≡ true
      → w.entries_seen + entries_in es ≤ limit
      → (v : Walk) × (list_entries limit es w ≡ ok v)
  unfolding list_entries add_entry add_stat entries_in plain_in entries_of plain_of
  list_entries-total nil w p h = (w, refl)
  list_entries-total (cons name (symlink s) rest) w p h = cc
  list_entries-total (cons name (special s) rest) w p h = cc
  list_entries-total (cons name (regular s) rest) w p h =
      let counted : Walk = record w { entries_seen = w.entries_seen + 1 } in
      let within : ltb limit (w.entries_seen + 1) ≡ false = ground arith in
      rw within (list_entries-total rest (add_stat s counted) p (omega arith))
  list_entries-total (cons name (dir s es) rest) w p h =
      let counted : Walk = record w { entries_seen = w.entries_seen + 1 } in
      let pushed : Walk = record (add_stat s counted) { stack = es ∷ w.stack } in
      let within : ltb limit (w.entries_seen + 1) ≡ false = ground arith in
      rw within
        (list_entries-total rest pushed (and→both (plain_in es) (plain_in rest) p).1 (omega arith))

  -- The walk ends with the sums of all that was on the stack.
  walk-ok :
      (fuel : ℕ) (w v : Walk)
      → walk limit fuel w ≡ ok v
      → (v.allocated ≡ w.allocated + bytes_on w.stack)
        × (v.newest_mtime_ns ≡ max w.newest_mtime_ns (newest_on w.stack))
        × (v.entries_seen ≡ w.entries_seen + entries_on w.stack)
        × (plain_on w.stack ≡ true)
  unfolding walk
  walk-ok zero w v h = elim (List-cases w.stack) [
    | inl e ↦ ground arith
    | inr (es, rest, e) ↦ absurd (ground arith)
  ]
  walk-ok (suc fuel) w v h = elim (List-cases w.stack) [
    | inl e ↦ ground arith
    | inr (es, rest, e) ↦
        let popped : Walk = record w { stack = rest } in
        let (u, listed, later) =
          bind-ok (list_entries limit es popped) (walk limit fuel) (ground arith) in
        let follows = list_entries-Follows es popped u listed in
        let (bytes, newest, seen, plain) = walk-ok fuel u v later in
        rw e (
          omega (arith, bytes, follows.bytes),
          omega (arith, newest, follows.newest),
          omega (arith, seen, follows.seen),
          ground (arith, plain, follows.plain),
        )
  ]

  -- With a round for each entry that may still come, the walk of a plain tree ends.
  walk-total :
      (fuel : ℕ) (w : Walk)
      → plain_on w.stack ≡ true
      → w.entries_seen + entries_on w.stack ≤ limit
      → length w.stack + limit ≤ fuel + w.entries_seen
      → (v : Walk) × (walk limit fuel w ≡ ok v)
  unfolding walk
  walk-total zero w p h enough = elim (List-cases w.stack) [
    | inl e ↦ (w, ground arith)
    | inr (es, rest, e) ↦ absurd (omega (arith, ap length e))
  ]
  walk-total (suc fuel) w p h enough = elim (List-cases w.stack) [
    | inl e ↦ (w, ground arith)
    | inr (es, rest, e) ↦
        let popped : Walk = record w { stack = rest } in
        let plain = and→both (plain_in es) (plain_on rest) (rw e at p) in
        let bound : w.entries_seen + (entries_in es + entries_on rest) ≤ limit = rw e at h in
        let (u, listed) = list_entries-total es popped plain.0 (omega arith) in
        let follows = list_entries-Follows es popped u listed in
        let (v, ends) =
          walk-total fuel u (ground (arith, plain.0, plain.1, follows.plain))
            (omega (arith, follows.seen)) (omega (arith, follows.pushed, ap length e)) in
        (v, ground (arith, listed, ends))
  ]

  -- No more entries are counted than the limit.
  list_entries-within :
      (es : Entries) (w v : Walk)
      → list_entries limit es w ≡ ok v
      → w.entries_seen ≤ limit
      → v.entries_seen ≤ limit
  unfolding list_entries
  list_entries-within nil w v h bound = ground arith
  list_entries-within (cons name node rest) w v h bound =
      elim (Bool-cases (ltb limit (w.entries_seen + 1))) [
        | inl over ↦ absurd (ground arith)
        | inr within ↦
            let counted : Walk = record w { entries_seen = w.entries_seen + 1 } in
            let (u, first, later) =
              bind-ok (add_entry node counted) (list_entries limit rest) (ground arith) in
            list_entries-within rest u v later
              (omega (arith, (add_entry-Adds node counted u first).seen, ltb→le _ _ within))
      ]

  walk-within :
      (fuel : ℕ) (w v : Walk)
      → walk limit fuel w ≡ ok v
      → w.entries_seen ≤ limit
      → v.entries_seen ≤ limit
  unfolding walk
  walk-within zero w v h bound = ground arith
  walk-within (suc fuel) w v h bound = elim (List-cases w.stack) [
    | inl e ↦ ground arith
    | inr (es, rest, e) ↦
        let popped : Walk = record w { stack = rest } in
        let (u, listed, later) =
          bind-ok (list_entries limit es popped) (walk limit fuel) (ground arith) in
        walk-within fuel u v later (list_entries-within es popped u listed bound)
  ]

-- The sums over a directory, the root included.
abbrev pub tree_metrics : Stat → Entries → Metrics
tree_metrics s es = record {
  allocated = s.allocated + bytes_in es;
  newest_mtime_ns = max s.mtime_ns (newest_in es);
  device = s.device;
  inode = s.inode;
}

-- The walk from the root of a directory.
abbrev start : Stat → Entries → Walk
start s es = record {
  allocated = s.allocated;
  newest_mtime_ns = s.mtime_ns;
  entries_seen = 0;
  stack = es ∷ [];
}

module _ (limit : ℕ) (s : Stat) (es : Entries) where
  -- A directory with no link or special file below and no more entries than the limit is measured:
  -- the result is the sum of the sizes and the newest change of the whole tree.
  pub directory_metrics_within_complete :
      plain_in es ≡ true
      → entries_in es ≤ limit
      → directory_metrics_within limit (dir s es) ≡ ok (tree_metrics s es)
  unfolding directory_metrics_within
  directory_metrics_within_complete p h =
      let (v, ends) =
        walk-total limit (suc limit) (start s es) (ground (arith, p)) (omega arith) (omega arith) in
      let (bytes, newest, _, _) = walk-ok limit (suc limit) (start s es) v ends in
      ground (arith, ends, bytes, newest)

  -- A directory that was measured has no link or special file below and no more entries than the
  -- limit.
  pub directory_metrics_within_sound :
      (m : Metrics)
      → directory_metrics_within limit (dir s es) ≡ ok m
      → (plain_in es ≡ true) × (entries_in es ≤ limit)
  unfolding directory_metrics_within
  directory_metrics_within_sound m h =
      let (v, ends, _) = bind-ok (walk limit (suc limit) (start s es)) _ h in
      let (_, _, seen, plain) = walk-ok limit (suc limit) (start s es) v ends in
      (
        ground (arith, plain),
        omega (arith, seen, walk-within limit (suc limit) (start s es) v ends (omega arith)),
      )

-- A measurement keeps the identity of the root.
pub directory_metrics-identity :
    (s : Stat) (es : Entries) (m : Metrics)
    → directory_metrics (dir s es) ≡ ok m
    → (m.device ≡ s.device) × (m.inode ≡ s.inode)
unfolding directory_metrics directory_metrics_within
directory_metrics-identity s es m h =
    let (v, _, e) =
      bind-ok (walk max_directory_entries (suc max_directory_entries) (start s es)) _ h in
    (ground arith, ground arith)
