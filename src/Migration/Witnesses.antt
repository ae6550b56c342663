-- ===== src/Migration/Witnesses.antt =====
-- The theorems about comments, at an issue with three of them.
use platform_gitops.Prelude.{◌≡◌, ◌↔◌, refl, String, List, [], ◌∷◌, ◌++◌}
use platform_gitops.Migration.Comments.{after_match, missing_comment_bodies, matched_comments}
use platform_gitops.Migration.Replication.{
  IsSubsequence, matched-missing, missing_comment_bodies-IsSubsequence,
  missing_comment_bodies-append,
}

abbrev source : List String
source = "first" ∷ "second" ∷ "third" ∷ []

-- A comment that was made at the destination stands between those that were copied.
abbrev destination : List String
destination = "first" ∷ "local" ∷ "second" ∷ []

missing_third : missing_comment_bodies source destination ≡ "third" ∷ []
unfolding missing_comment_bodies after_match
missing_third = refl

matched-missing_example :
    matched_comments source destination ++ missing_comment_bodies source destination ≡ source
matched-missing_example = matched-missing source destination

missing_comment_bodies-IsSubsequence_example :
    (missing_comment_bodies source destination ≡ []) ↔ IsSubsequence source destination
missing_comment_bodies-IsSubsequence_example =
    missing_comment_bodies-IsSubsequence source destination

missing_comment_bodies-append_example :
    missing_comment_bodies source (destination ++ missing_comment_bodies source destination) ≡ []
missing_comment_bodies-append_example = missing_comment_bodies-append source destination
