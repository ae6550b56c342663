-- ===== src/Migration/Issues.antt =====
-- compare_issue_sets, with issues_by_title, issue_core and replicated_issue_view.
use platform_gitops.Prelude.{
  ℕ, ◌-◌, String, ◌==◌, Bool, true, false, not, ◌&&◌, ◌||◌, Option, none, some, List, [], ◌∷◌, map,
  length, filter, contains, nat_eq, if◌then◌else◌,
}
use platform_gitops.Prelude.Result.{Result, ok, err, ◌>>=◌}
use platform_gitops.Prelude.Filters.{is_empty}
use platform_gitops.Prelude.Sorting.{before}
use platform_gitops.Migration.Refs.{minus}
use platform_gitops.Migration.Comments.{missing_comment_bodies, matched_comments}

-- A normalized issue; its first five fields are what issue_core keeps.
pub record Issue : Type 0 where
  pub title : String
  pub body : String
  pub state : String
  pub labels : List String
  pub milestone : String
  pub comments : List String

abbrev pub titles : List Issue → List String
titles = map (λ i. i.title)

unfoldable pub duplicate_titles : List String → List Issue → List String
duplicate_titles seen [] = []
duplicate_titles seen (i ∷ rest) =
    let later = duplicate_titles (i.title ∷ seen) rest in
    if contains i.title seen then i.title ∷ later else later

pub data IssueError : Type 0 where
  duplicate_issue_titles : List String → IssueError

-- Where no title comes twice, the dictionary has the issues in their order.
unfoldable pub issues_by_title : List Issue → Result IssueError (List Issue)
unfolding duplicate_titles
issues_by_title issues =
    if is_empty (duplicate_titles [] issues)
    then ok issues
    else err (duplicate_issue_titles (duplicate_titles [] issues))

unfoldable pub find : String → List Issue → Option Issue
find title [] = none
find title (i ∷ rest) = if i.title == title then some i else find title rest

abbrev pub same_labels : List String → List String → Bool
same_labels [] [] = true
same_labels (a ∷ more) (b ∷ bs) = a == b && same_labels more bs
same_labels _ _ = false

-- `issue_core(source_issue) == issue_core(destination_issue)`
unfoldable pub same_core : Issue → Issue → Bool
same_core i j =
    i.title == j.title
    && (i.body == j.body
        && (i.state == j.state && (same_labels i.labels j.labels && i.milestone == j.milestone)))

unfoldable pub replicated_issue_view : Issue → Issue → Issue
unfolding matched_comments
replicated_issue_view source destination = record destination {
  comments = matched_comments source.comments destination.comments;
}

-- `sorted(…, key=str.casefold)`, and the sort of issues by title: both keep the order of equal keys.
unfoldable pub insert_by : {A : Type 0} → (A → String) → A → List A → List A
insert_by key a [] = a ∷ []
insert_by key a (b ∷ rest) =
    let later = insert_by key a rest in if before (key a) (key b) then a ∷ b ∷ rest else b ∷ later

unfoldable pub sorted_by : {A : Type 0} → (A → String) → List A → List A
unfolding insert_by
sorted_by key [] = []
sorted_by key (a ∷ rest) = insert_by key a (sorted_by key rest)

unfoldable pub is_mismatched : Option Issue → Option Issue → Bool
unfolding same_core missing_comment_bodies
is_mismatched (some i) (some j) =
    not (same_core i j) || not (is_empty (missing_comment_bodies i.comments j.comments))
is_mismatched _ _ = false

unfoldable pub missing_count : Option Issue → Option Issue → ℕ
unfolding missing_comment_bodies
missing_count (some i) (some j) = length (missing_comment_bodies i.comments j.comments)
missing_count _ _ = 0

-- `max(0, …)`: subtraction stops at 0.
unfoldable pub extra_count : Option Issue → Option Issue → ℕ
extra_count (some i) (some j) = length j.comments - length i.comments
extra_count _ _ = 0

-- The counts that are not 0, by title.
unfoldable pub counts : (String → ℕ) → List String → List (String × ℕ)
counts count [] = []
counts count (t ∷ rest) =
    let later = counts count rest in if nat_eq (count t) 0 then later else (t, count t) ∷ later

unfoldable pub views : List Issue → List Issue → List String → List Issue
unfolding find replicated_issue_view
views source destination [] = []
views source destination (t ∷ rest) =
    let later = views source destination rest in
    elim (find t source) [
      | none ↦ later
      | some i ↦ elim (find t destination) [
        | none ↦ later
        | some j ↦ replicated_issue_view i j ∷ later
      ]
    ]

-- The digests are of `source` and `replicated`.
pub record IssueComparison : Type 0 where
  pub verified : Bool
  pub source_count : ℕ
  pub destination_count : ℕ
  pub source : List Issue
  pub replicated : List Issue
  pub missing : List String
  pub mismatched : List String
  pub extra : List String
  pub missing_comment_counts : List (String × ℕ)
  pub extra_comment_counts : List (String × ℕ)

module _ (casefold : String → String) where
  abbrev pub fold_sorted : List String → List String
  fold_sorted = sorted_by casefold

  unfoldable pub compared_issues : List Issue → List Issue → IssueComparison
  unfolding sorted_by find is_mismatched missing_count extra_count counts views
  compared_issues source destination =
      let missing = fold_sorted (minus (titles source) (titles destination)) in
      let extra = fold_sorted (minus (titles destination) (titles source)) in
      let common = fold_sorted (filter (λ t. contains t (titles destination)) (titles source)) in
      let mismatched = filter (λ t. is_mismatched (find t source) (find t destination)) common in
      record {
        verified = is_empty missing && is_empty mismatched;
        source_count = length source;
        destination_count = length destination;
        source = source;
        replicated = sorted_by (λ i. casefold i.title) (views source destination common);
        missing = missing;
        mismatched = mismatched;
        extra = extra;
        missing_comment_counts =
            counts (λ t. missing_count (find t source) (find t destination)) common;
        extra_comment_counts =
            counts (λ t. extra_count (find t source) (find t destination)) common;
      }

  unfoldable pub compare_issue_sets : List Issue → List Issue → Result IssueError IssueComparison
  unfolding issues_by_title compared_issues
  compare_issue_sets source destination = do
    source_by_title ← issues_by_title source
    destination_by_title ← issues_by_title destination
    ok (compared_issues source_by_title destination_by_title)
