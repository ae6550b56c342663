-- ===== src/Migration/Replicated.antt =====
-- compare_issue_sets verifies exactly the replicated issues.
use platform_gitops.Prelude.{
  String, ◌≡◌, ◌↔◌, refl, sym, ap, ◌∙◌, eq_iff, Bool, true, false, not, ◌&&◌, Option, none, some,
  List, [], ◌∷◌, ◌++◌, arith, length, length-append, filter, contains, inl, inr, Bool-cases,
  Option-cases, nil_of_length,
}
use platform_gitops.Prelude.Filters.{is_empty, is_some, dropped, nothing_left, contains-filter}
use platform_gitops.Prelude.Sequences.{append_nil}
use platform_gitops.Prelude.Sorting.{before}
use platform_gitops.Prelude.Result.{ok, bind-ok}
use platform_gitops.Migration.Refs.{minus}
use platform_gitops.Migration.Comments.{missing_comment_bodies, matched_comments}
use platform_gitops.Migration.Replication.{
  IsSubsequence, missing_comment_bodies-IsSubsequence, matched-missing,
}
use platform_gitops.Migration.Issues.{
  Issue, IssueComparison, titles, find, same_labels, same_core, replicated_issue_view, insert_by,
  sorted_by, is_mismatched, compared_issues, issues_by_title, compare_issue_sets,
}

-- The destination's issue has the same content, and the comments of the source's among its own.
pub record IsReplicated (i j : Issue) : Type 0 where
  pub title : i.title ≡ j.title
  pub body : i.body ≡ j.body
  pub state : i.state ≡ j.state
  pub labels : i.labels ≡ j.labels
  pub milestone : i.milestone ≡ j.milestone
  pub comments : IsSubsequence i.comments j.comments

same_labels-eq : (ks js : List String) → same_labels ks js ≡ true → ks ≡ js
same_labels-eq [] [] h = refl
same_labels-eq [] (b ∷ js) h = absurd (ground (arith, h))
same_labels-eq (a ∷ ks) [] h = absurd (ground (arith, h))
same_labels-eq (a ∷ ks) (b ∷ js) h =
    let here : a ≡ b = (eq_iff a b).0 (ground (arith, h)) in
    let rest = same_labels-eq ks js (ground (arith, h)) in rw here (ap (λ xs. b ∷ xs) rest)

same_labels_self : (ks : List String) → same_labels ks ks ≡ true
same_labels_self [] = refl
same_labels_self (a ∷ ks) = ground (arith, same_labels_self ks, eq_iff a a)

is_empty-nil : (xs : List String) → is_empty xs ≡ true → xs ≡ []
is_empty-nil [] h = refl
is_empty-nil (x ∷ xs) h = absurd (ground (arith, h))

core-eq :
    (i j : Issue)
    → same_core i j ≡ true
    → (i.title ≡ j.title)
      × (i.body ≡ j.body)
      × (i.state ≡ j.state)
      × (i.labels ≡ j.labels)
      × (i.milestone ≡ j.milestone)
unfolding same_core
core-eq i j h = (
  (eq_iff i.title j.title).0 (ground (arith, h)),
  (eq_iff i.body j.body).0 (ground (arith, h)),
  (eq_iff i.state j.state).0 (ground (arith, h)),
  same_labels-eq i.labels j.labels (ground (arith, h)),
  (eq_iff i.milestone j.milestone).0 (ground (arith, h)),
)

same_core_of : (i j : Issue) → IsReplicated i j → same_core i j ≡ true
unfolding same_core
same_core_of i j r = ground (
  arith,
  (eq_iff i.title j.title).1 r.title,
  (eq_iff i.body j.body).1 r.body,
  (eq_iff i.state j.state).1 r.state,
  ap (same_labels i.labels) r.labels,
  same_labels_self i.labels,
  (eq_iff i.milestone j.milestone).1 r.milestone,
)

is_mismatched-IsReplicated :
    (i j : Issue) → (is_mismatched (some i) (some j) ≡ false) ↔ IsReplicated i j
unfolding is_mismatched
is_mismatched-IsReplicated i j = (
  λ h.
      let (title, body, state, labels, milestone) = core-eq i j (ground (arith, h)) in
      record {
        title = title;
        body = body;
        state = state;
        labels = labels;
        milestone = milestone;
        comments =
            (missing_comment_bodies-IsSubsequence i.comments j.comments).0
              (is_empty-nil (missing_comment_bodies i.comments j.comments) (ground (arith, h)));
      },
  λ r. ground (
    arith,
    same_core_of i j r,
    ap is_empty ((missing_comment_bodies-IsSubsequence i.comments j.comments).1 r.comments),
  ),
)

contains-titles :
    (t : String) (issues : List Issue) → contains t (titles issues) ≡ is_some (find t issues)
unfolding find
contains-titles t [] = refl
contains-titles t (i ∷ rest) =
    ground (arith, contains-titles t rest, eq_iff t i.title, eq_iff i.title t)

module _ (key : String → String) where
  is_empty-insert_by : (a : String) (xs : List String) → is_empty (insert_by key a xs) ≡ false
  unfolding insert_by
  is_empty-insert_by a [] = refl
  is_empty-insert_by a (x ∷ xs) = ground arith

  is_empty-sorted_by : (xs : List String) → is_empty (sorted_by key xs) ≡ is_empty xs
  unfolding sorted_by
  is_empty-sorted_by [] = refl
  is_empty-sorted_by (x ∷ xs) = is_empty-insert_by x (sorted_by key xs)

  contains-insert_by :
      (t a : String) (xs : List String) → contains t (insert_by key a xs) ≡ contains t (a ∷ xs)
  unfolding insert_by
  contains-insert_by t a [] = refl
  contains-insert_by t a (x ∷ xs) = elim (Bool-cases (before (key a) (key x))) [
    | inl e ↦ ground (arith, e)
    | inr e ↦ ground (arith, e, contains-insert_by t a xs)
  ]

  contains-sorted_by :
      (t : String) (xs : List String) → contains t (sorted_by key xs) ≡ contains t xs
  unfolding sorted_by
  contains-sorted_by t [] = refl
  contains-sorted_by t (x ∷ xs) =
      ground (arith, contains-insert_by t x (sorted_by key xs), contains-sorted_by t xs)

module _ (casefold : String → String) (s d : List Issue) where
  -- Every issue of the source has its counterpart.
  abbrev pub AllReplicated : Type 0
  AllReplicated =
      (t : String) (i : Issue)
      → find t s ≡ some i
      → (j : Issue) × (find t d ≡ some j) × IsReplicated i j

  abbrev lacking : List String
  lacking = minus (titles s) (titles d)

  abbrev common : List String
  common = filter (λ t. contains t (titles d)) (titles s)

  abbrev differs : String → Bool
  differs t = is_mismatched (find t s) (find t d)

  -- The two tests behind `verified`, in terms of titles.
  abbrev matched : Bool
  matched = is_empty lacking && is_empty (filter differs (sorted_by casefold common))

  verified-matched : (compared_issues casefold s d).verified ≡ matched
  unfolding compared_issues
  verified-matched = ground (arith, is_empty-sorted_by casefold lacking)

  counterpart :
      (t : String) (i : Issue) (b : Option Issue)
      → is_some b ≡ true
      → is_mismatched (some i) b ≡ false
      → (j : Issue) × (b ≡ some j) × IsReplicated i j
  counterpart t i none e h = absurd (ground (arith, e))
  counterpart t i (some j) e h = (j, refl, (is_mismatched-IsReplicated i j).0 h)

  all_replicated : matched ≡ true → AllReplicated
  all_replicated h t i e =
      let here : contains t (titles s) ≡ true = contains-titles t s ∙ ap is_some e in
      let there : contains t (titles d) ≡ true =
        ground (
          arith,
          dropped (λ k. not (contains k (titles d))) (titles s) t (ground (arith, h)) here,
        ) in
      let in_common = contains-filter (λ k. contains k (titles d)) (titles s) t here there in
      let same =
        dropped differs (sorted_by casefold common) t (ground (arith, h))
          (contains-sorted_by casefold t common ∙ in_common) in
      counterpart t i (find t d) (sym (contains-titles t d) ∙ there)
        (ap (λ a. is_mismatched a (find t d)) (sym e) ∙ same)

  none_differs : (a b : Option Issue) → a ≡ none → is_mismatched a b ≡ false
  unfolding is_mismatched
  none_differs none b e = refl
  none_differs (some i) b e = absurd (ground (arith, e))

  same_where : AllReplicated → (t : String) → differs t ≡ false
  same_where all t = elim (Option-cases (find t s)) [
    | inl e ↦ none_differs (find t s) (find t d) e
    | inr (i, e) ↦ let (j, f, r) = all t i e in rw e (rw f ((is_mismatched-IsReplicated i j).1 r))
  ]

  found_there :
      AllReplicated → (t : String) → contains t (titles s) ≡ true → contains t (titles d) ≡ true
  found_there all t h = elim (Option-cases (find t s)) [
    | inl e ↦ absurd (ground (arith, h, contains-titles t s, ap is_some e))
    | inr (i, e) ↦ let (j, f, r) = all t i e in contains-titles t d ∙ ap is_some f
  ]

  matched_of : AllReplicated → matched ≡ true
  matched_of all = ground (
    arith,
    nothing_left (λ k. not (contains k (titles d))) (titles s)
        (λ k m. ground (arith, found_there all k m)),
    nothing_left differs (sorted_by casefold common) (λ k m. same_where all k),
  )

  issues_by_title-ok :
      (issues found : List Issue) → issues_by_title issues ≡ ok found → issues ≡ found
  unfolding issues_by_title
  issues_by_title-ok issues found h = ground (arith, h)

  -- Where no title comes twice on either side, the comparison verifies exactly when each issue of the
  -- source has one at the destination with the same title, body, state, labels and milestone, among
  -- whose comments are its own in their order.
  pub compare_issue_sets-AllReplicated :
      (c : IssueComparison)
      → compare_issue_sets casefold s d ≡ ok c
      → (c.verified ≡ true) ↔ AllReplicated
  unfolding compare_issue_sets
  compare_issue_sets-AllReplicated c h =
      let (s₁, es, h₁) = bind-ok (issues_by_title s) _ h in
      let (d₁, ed, h₂) = bind-ok (issues_by_title d) _ h₁ in
      let same_s = issues_by_title-ok s s₁ es in
      let same_d = issues_by_title-ok d d₁ ed in
      let same : compared_issues casefold s d ≡ c =
        ap (λ x. compared_issues casefold x d) same_s
        ∙ ap (λ x. compared_issues casefold s₁ x) same_d
        ∙ ground (arith, h₂) in
      let v : c.verified ≡ matched = sym (ap (λ x. x.verified) same) ∙ verified-matched in
      (λ e. all_replicated (sym v ∙ e), λ all. v ∙ matched_of all)

whole : (xs ys zs : List String) → xs ++ ys ≡ zs → xs ≡ zs → ys ≡ []
whole xs ys zs e f = nil_of_length ys (omega (arith, length-append xs ys, ap length e, ap length f))

-- The view of a destination's issue is the source's issue, so that the digests agree, exactly when the
-- issue is replicated.
pub replicated_issue_view-IsReplicated :
    (i j : Issue) → (replicated_issue_view i j ≡ i) ↔ IsReplicated i j
unfolding replicated_issue_view
replicated_issue_view-IsReplicated i j = (
  λ h. record {
    title = sym (ap (λ x. x.title) h);
    body = sym (ap (λ x. x.body) h);
    state = sym (ap (λ x. x.state) h);
    labels = sym (ap (λ x. x.labels) h);
    milestone = sym (ap (λ x. x.milestone) h);
    comments = (missing_comment_bodies-IsSubsequence i.comments j.comments).0 (
        whole (matched_comments i.comments j.comments)
          (missing_comment_bodies i.comments j.comments) i.comments
          (matched-missing i.comments j.comments) (ap (λ x. x.comments) h));
  },
  λ r.
      let none_missing =
        (missing_comment_bodies-IsSubsequence i.comments j.comments).1 r.comments in
      let kept : matched_comments i.comments j.comments ≡ i.comments =
        sym (append_nil (matched_comments i.comments j.comments))
        ∙ ap (λ m. matched_comments i.comments j.comments ++ m) (sym none_missing)
        ∙ matched-missing i.comments j.comments in
      view_eq i j (matched_comments i.comments j.comments) r kept,
)
  where
    view_eq :
        (i j : Issue) (m : List String)
        → IsReplicated i j
        → m ≡ i.comments
        → (record j { comments = m }) ≡ i
    view_eq i j m r e = λ k. record {
      title = (sym r.title) k;
      body = (sym r.body) k;
      state = (sym r.state) k;
      labels = (sym r.labels) k;
      milestone = (sym r.milestone) k;
      comments = e k;
    }
