-- ===== src/Migration/Refs.antt =====
-- References of repositories: what git lists, push_mirror, and compare_refs. A line stands for its
-- words, `line.split()`.
use text.Mathlib.Text.{starts_with}
use platform_gitops.Prelude.{
  ℕ, String, ◌==◌, Bool, true, false, not, ◌&&◌, ◌||◌, Option, none, some, List, [], ◌∷◌, map,
  length, filter, contains, if◌then◌else◌,
}
use platform_gitops.Prelude.Result.{Result, ok, err, ◌>>=◌, ◌>>◌, raise_if}
use platform_gitops.Prelude.Filters.{is_empty}
use platform_gitops.Prelude.Sorting.{sorted}
use platform_gitops.Longhorn.Names.{full_match, hexes}

-- A dictionary from references to object identifiers, in the order of its keys.
abbrev pub Refs : Type 0
Refs = List (String × String)

unfoldable pub get : String → Refs → Option String
get ref [] = none
get ref ((r, id) ∷ rest) = if r == ref then some id else get ref rest

-- `refs[ref] = id`
unfoldable pub put : String → String → Refs → Refs
put ref id [] = (ref, id) ∷ []
put ref id ((r, old) ∷ rest) =
    let later = put ref id rest in if r == ref then (r, id) ∷ rest else (r, old) ∷ later

abbrev pub names : Refs → List String
names = map (λ e. e.0)

-- The loop of ls_remote_refs: lines of two words, each naming an object and a reference.
unfoldable pub remote_refs : List (List String) → Refs → Refs
unfolding put
remote_refs [] refs = refs
remote_refs ([] ∷ lines) refs = remote_refs lines refs
remote_refs ((a ∷ []) ∷ lines) refs = remote_refs lines refs
remote_refs ((id ∷ ref ∷ []) ∷ lines) refs = remote_refs lines (put ref id refs)
remote_refs ((a ∷ b ∷ c ∷ more) ∷ lines) refs = remote_refs lines refs

pub data RefsError : Type 0 where
  cannot_read_source cannot_read_destination cannot_read_source_default
        cannot_read_destination_default cannot_verify_mirror cannot_verify_before_push
        refuse_to_prune :
      RefsError

-- `none` where git fails: the error is not empty then.
unfoldable pub ls_remote_refs : Option (List (List String)) → RefsError → Result RefsError Refs
unfolding remote_refs
ls_remote_refs none e = err e
ls_remote_refs (some lines) e = ok (remote_refs lines [])

unfoldable pub is_object_id : String → Bool
unfolding full_match hexes
is_object_id s = full_match (hexes 40 []) s || full_match (hexes 64 []) s

unfoldable pub is_migratable : String → Bool
is_migratable ref =
    starts_with ref "refs/heads/" || (starts_with ref "refs/tags/" || starts_with ref "refs/notes/")

-- The loop of mirror_migratable_refs: every line is checked, and no reference comes twice.
unfoldable pub mirror_refs : List (List String) → Refs → Result RefsError Refs
unfolding is_object_id is_migratable put
mirror_refs [] refs = ok refs
mirror_refs ([] ∷ lines) refs = err cannot_verify_mirror
mirror_refs ((a ∷ []) ∷ lines) refs = err cannot_verify_mirror
mirror_refs ((id ∷ ref ∷ []) ∷ lines) refs =
    let rest = mirror_refs lines (put ref id refs) in
    if not (is_object_id id) || (not (is_migratable ref) || contains ref (names refs))
    then err cannot_verify_mirror
    else rest
mirror_refs ((a ∷ b ∷ c ∷ more) ∷ lines) refs = err cannot_verify_mirror

unfoldable pub mirror_migratable_refs : List (List String) → Result RefsError Refs
unfolding mirror_refs
mirror_migratable_refs lines = mirror_refs lines []

-- The order of a set is that of the names, each once.
abbrev pub minus : List String → List String → List String
minus ks js = filter (λ k. not (contains k js)) ks

abbrev pub same_id : Option String → Option String → Bool
same_id none none = true
same_id (some a) (some b) = a == b
same_id _ _ = false

unfoldable pub differing : Refs → Refs → List String
unfolding get
differing source destination =
    filter (λ r. not (same_id (get r source) (get r destination)))
      (filter (λ r. contains r (names destination)) (names source))

-- `local_refs == destination_refs`, for dictionaries.
unfoldable pub same_refs : Refs → Refs → Bool
unfolding differing
same_refs source destination =
    is_empty (minus (names source) (names destination))
    && (is_empty (minus (names destination) (names source))
        && is_empty (differing source destination))

-- What push_mirror asks git to do: nothing, or to push these references and prune the others.
pub data Push : Type 0 where
  unchanged : Push
  push_and_prune : Refs → Push

unfoldable pub push_known : Refs → Refs → Result RefsError Push
unfolding same_refs
push_known local destination = do
  raise_if (is_empty local && not (is_empty destination)) refuse_to_prune
  ok (if same_refs local destination then unchanged else push_and_prune local)

unfoldable pub push_mirror :
    List (List String) → Option (List (List String)) → Result RefsError Push
unfolding mirror_migratable_refs ls_remote_refs
push_mirror mirror remote = do
  local ← mirror_migratable_refs mirror
  destination ← ls_remote_refs remote cannot_verify_before_push
  push_known local destination

pub record RefComparison : Type 0 where
  pub verified : Bool
  pub source_ref_count : ℕ
  pub destination_ref_count : ℕ
  pub branch_count : ℕ
  pub tag_count : ℕ
  pub note_ref_count : ℕ
  pub default_branch_verified : Bool
  pub missing_refs : List String
  pub extra_refs : List String
  pub mismatched_refs : List String

unfoldable pub default_verified : Option String → Option String → Bool
default_verified none destination = true
default_verified source destination = same_id source destination

-- The result without its digests, from what was read.
unfoldable pub compared : Refs → Refs → Option String → Option String → RefComparison
unfolding default_verified differing sorted
compared source destination source_default destination_default =
    let missing = sorted (minus (names source) (names destination)) in
    let extra = sorted (minus (names destination) (names source)) in
    let mismatched = sorted (differing source destination) in
    let defaults = default_verified source_default destination_default in
    record {
      verified = is_empty missing && (is_empty extra && (is_empty mismatched && defaults));
      source_ref_count = length source;
      destination_ref_count = length destination;
      branch_count = length (filter (λ r. starts_with r "refs/heads/") (names source));
      tag_count = length (filter (λ r. starts_with r "refs/tags/") (names source));
      note_ref_count = length (filter (λ r. starts_with r "refs/notes/") (names source));
      default_branch_verified = defaults;
      missing_refs = missing;
      extra_refs = extra;
      mismatched_refs = mismatched;
    }

-- What git says of a repository: its references and its default branch, each `none` where git fails.
pub record Repository : Type 0 where
  pub refs : Option (List (List String))
  pub default_branch : Option (Option String)

abbrev pub read_default : Option (Option String) → RefsError → Result RefsError (Option String)
read_default none e = err e
read_default (some branch) e = ok branch

unfoldable pub compare_refs : Repository → Repository → Result RefsError RefComparison
unfolding ls_remote_refs compared
compare_refs source destination = do
  source_refs ← ls_remote_refs source.refs cannot_read_source
  destination_refs ← ls_remote_refs destination.refs cannot_read_destination
  source_default ← read_default source.default_branch cannot_read_source_default
  destination_default ← read_default destination.default_branch cannot_read_destination_default
  ok (compared source_refs destination_refs source_default destination_default)
