-- ===== src/Longhorn/RoundTrip.antt =====
-- The name of a quarantined directory reads back as the name that it had.
use Prim.Native.String.{◌++◌}
use text.Mathlib.TextLemmas.{append_assoc, cons-append, nil-append}
use platform_gitops.Prelude.{
  String, ◌≡◌, refl, ap, ◌∙◌, Bool, true, false, some, arith, take, tail, strip_suffix,
  strip_suffix-append,
}
use platform_gitops.Longhorn.Names.{
  Parsed, full_match, volume_directory, parse_logical, starts_with_dot, parse_directory_name,
  tombstone_name, tombstone_suffix, fits,
}

-- The parts of a name of a replica directory.
abbrev pub parsed : String → Bool → Parsed
parsed name tombstone = record {
  volume_name = take 40 name;
  logical_name = name;
  tombstone = tombstone;
}

parse_logical-match :
    (name : String) (t : Bool)
    → full_match volume_directory name ≡ true
    → parse_logical name t ≡ some (parsed name t)
unfolding parse_logical
parse_logical-match name t h = rw h

dot-append : (s : String) → "." ++ s ≡ String.◌∷◌ "." s
dot-append s = cons-append "." String.[] s ∙ ap (String.◌∷◌ ".") (nil-append s)

-- A name of a replica directory begins with a letter.
full_match-no_dot :
    (name : String) → full_match volume_directory name ≡ true → starts_with_dot name ≡ false
unfolding full_match volume_directory starts_with_dot fits
full_match-no_dot String.[] h = refl
full_match-no_dot (String.◌∷◌ c s) h = ground arith

tombstone_name-dot : (name : String) → starts_with_dot (tombstone_name name) ≡ true
unfolding tombstone_name starts_with_dot
tombstone_name-dot name = rw (dot-append (name ++ tombstone_suffix))

strip-tombstone_name :
    (name : String) → strip_suffix tombstone_suffix (tombstone_name name) ≡ some ("." ++ name)
unfolding tombstone_name
strip-tombstone_name name =
    rw (← append_assoc "." name tombstone_suffix)
      (strip_suffix-append tombstone_suffix ("." ++ name))

tail-dot : (name : String) → tail ("." ++ name) ≡ name
tail-dot name = rw (dot-append name)

-- A name that matches the pattern of volume directories is read, and the name that quarantine gives
-- it reads back as the same volume and name, marked.
pub parse-tombstone_name :
    (name : String)
    → full_match volume_directory name ≡ true
    → (parse_directory_name name ≡ some (parsed name false))
      × (parse_directory_name (tombstone_name name) ≡ some (parsed name true))
unfolding parse_directory_name
parse-tombstone_name name h = (
  rw (full_match-no_dot name h) (parse_logical-match name false h),
  rw (tombstone_name-dot name, strip-tombstone_name name, tail-dot name)
      (parse_logical-match name true h),
)
