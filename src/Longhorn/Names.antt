-- ===== src/Longhorn/Names.antt =====
-- parse_directory_name: the names of replica directories, and of those under quarantine.
use Prim.Native.Char.{code}
use Prim.Native.String.{◌++◌}
use platform_gitops.Prelude.{
  ℕ, zero, suc, String, Bool, true, false, ◌&&◌, ◌||◌, Option, none, some, List, [], ◌∷◌, leb,
  nat_eq, if◌then◌else◌, take, tail, strip_suffix,
}

-- A character of VOLUME_DIRECTORY: `[0-9a-f]`, or one that stands for itself.
pub data Class : Type 0 where
  hex : Class
  lit : ℕ → Class

unfoldable pub fits : Class → ℕ → Bool
fits hex c = (leb b'0' c && leb c b'9') || (leb b'a' c && leb c b'f')
fits (lit k) c = nat_eq c k

-- `fullmatch` of a pattern with no repetition.
unfoldable pub full_match : List Class → String → Bool
unfolding fits
full_match [] String.[] = true
full_match [] (String.◌∷◌ c s) = false
full_match (k ∷ ks) String.[] = false
full_match (k ∷ ks) (String.◌∷◌ c s) = fits k (code c) && full_match ks s

unfoldable pub hexes : ℕ → List Class → List Class
hexes zero rest = rest
hexes (suc n) rest = hex ∷ hexes n rest

unfoldable pub volume_directory : List Class
unfolding hexes
volume_directory =
    lit b'p'
    ∷ lit b'v'
    ∷ lit b'c'
    ∷ lit b'-'
    ∷ hexes 8 (
        lit b'-'
        ∷ hexes 4
            (lit b'-' ∷ hexes 4 (lit b'-' ∷ hexes 4 (lit b'-' ∷ hexes 12 (lit b'-' ∷ hexes 8 [])))))

abbrev pub tombstone_suffix : String
tombstone_suffix = ".platform-stale-replica-reclaim"

pub record Parsed : Type 0 where
  pub volume_name : String
  pub logical_name : String
  pub tombstone : Bool

-- The group `volume` of a full match is its first 40 characters.
unfoldable pub parse_logical : String → Bool → Option Parsed
parse_logical logical_name tombstone =
    if full_match volume_directory logical_name
    then some (record {
      volume_name = take 40 logical_name;
      logical_name = logical_name;
      tombstone = tombstone;
    })
    else none

unfoldable pub starts_with_dot : String → Bool
starts_with_dot String.[] = false
starts_with_dot (String.◌∷◌ c s) = nat_eq (code c) b'.'

unfoldable pub parse_directory_name : String → Option Parsed
parse_directory_name name =
    if starts_with_dot name
    then (elim (strip_suffix tombstone_suffix name) [
      | some marked ↦ parse_logical (tail marked) true
      | none ↦ parse_logical name false
    ])
    else parse_logical name false

-- `.{name}{TOMBSTONE_SUFFIX}`
unfoldable pub tombstone_name : String → String
tombstone_name name = "." ++ (name ++ tombstone_suffix)
