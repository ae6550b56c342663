-- ===== src/Migration/Examples.antt =====
-- The theorems about references and issues, at small repositories.
use platform_gitops.Prelude.{◌≡◌, ◌↔◌, ◌⊎◌, refl, String, true, Option, none, some, List, [], ◌∷◌}
use platform_gitops.Prelude.Result.{ok}
use platform_gitops.Migration.Refs.{
  Refs, RefComparison, compare_refs, remote_refs, push_and_prune, push_known, push_mirror,
  mirror_migratable_refs,
}
use platform_gitops.Migration.SameRefs.{AreSame}
use platform_gitops.Migration.Mirrored.{after_push, compare_refs-AreSame, push_mirror-AreSame}
use platform_gitops.Migration.Issues.{
  Issue, compared_issues, compare_issue_sets, replicated_issue_view,
}
use platform_gitops.Migration.Replicated.{
  IsReplicated, AllReplicated, compare_issue_sets-AllReplicated, replicated_issue_view-IsReplicated,
}

abbrev object_id : String
object_id = "0123456789abcdef0123456789abcdef01234567"

abbrev lines : List (List String)
lines = (object_id ∷ "refs/heads/main" ∷ []) ∷ (object_id ∷ "refs/tags/v1" ∷ []) ∷ []

abbrev older : List (List String)
older = (object_id ∷ "refs/heads/main" ∷ []) ∷ (object_id ∷ "refs/heads/gone" ∷ []) ∷ []

abbrev main : Option String
main = some "refs/heads/main"

compare_refs-AreSame_example :
    (c : RefComparison) × (compare_refs
        (record { refs = some lines; default_branch = some main })
        (record { refs = some older; default_branch = some none })
      ≡ ok c)
    × ((c.verified ≡ true)
        ↔ (AreSame (remote_refs lines []) (remote_refs older []) × ((main ≡ none) ⊎ (main ≡ none))))
compare_refs-AreSame_example = compare_refs-AreSame lines older main none

abbrev local : Refs
local = ("refs/heads/main", object_id) ∷ ("refs/tags/v1", object_id) ∷ []

pushed : push_mirror lines (some older) ≡ ok (push_and_prune local)
unfolding push_mirror push_known
pushed = refl

-- A git that does as it says.
push_mirror-AreSame_example :
    (l : Refs) × (mirror_migratable_refs lines ≡ ok l)
    × AreSame (after_push (λ l d. l) (push_and_prune local) (remote_refs older [])) l
    × (l ≡ [] → remote_refs older [] ≡ [])
push_mirror-AreSame_example =
    push_mirror-AreSame (λ l d. l) (λ l d ref id e. e) (λ l d ref e. e) lines older
      (push_and_prune local) pushed

abbrev issue : List String → Issue
issue comments = record {
  title = "Backups fail";
  body = "Since the upgrade.";
  state = "open";
  labels = "bug" ∷ [];
  milestone = "";
  comments = comments;
}

abbrev there : Issue
there = issue ("first" ∷ "local" ∷ [])

abbrev here : Issue
here = issue ("first" ∷ [])

compares :
    compare_issue_sets (λ s. s) (here ∷ []) (there ∷ [])
    ≡ ok (compared_issues (λ s. s) (here ∷ []) (there ∷ []))
unfolding compare_issue_sets
compares = refl

compare_issue_sets-AllReplicated_example :
    ((compared_issues (λ s. s) (here ∷ []) (there ∷ [])).verified ≡ true)
    ↔ AllReplicated (λ s. s) (here ∷ []) (there ∷ [])
compare_issue_sets-AllReplicated_example =
    compare_issue_sets-AllReplicated (λ s. s) (here ∷ []) (there ∷ [])
      (compared_issues (λ s. s) (here ∷ []) (there ∷ [])) compares

replicated_issue_view-IsReplicated_example :
    (replicated_issue_view here there ≡ here) ↔ IsReplicated here there
replicated_issue_view-IsReplicated_example = replicated_issue_view-IsReplicated here there
