-- ===== src/Migration/Comments.antt =====
-- missing_comment_bodies and the comments of replicated_issue_view: one walk over the destination.
use platform_gitops.Prelude.{String, ◌==◌, Option, none, some, List, [], ◌∷◌, if◌then◌else◌}

-- The inner while loop: what is left after the first comment that is the body, if there is one.
unfoldable pub after_match : String → List String → Option (List String)
after_match body [] = none
after_match body (c ∷ rest) =
    let later = after_match body rest in if c == body then some rest else later

-- Once the destination is used up, no comment of the source is found.
unfoldable pub missing_comment_bodies : List String → List String → List String
missing_comment_bodies [] destination = []
missing_comment_bodies (body ∷ source) destination =
    let used_up = missing_comment_bodies source [] in
    elim (after_match body destination) [
      | some rest ↦ missing_comment_bodies source rest
      | none ↦ body ∷ used_up
    ]

unfoldable pub matched_comments : List String → List String → List String
matched_comments [] destination = []
matched_comments (body ∷ source) destination =
    let used_up = matched_comments source [] in
    elim (after_match body destination) [
      | some rest ↦ body ∷ matched_comments source rest
      | none ↦ used_up
    ]
