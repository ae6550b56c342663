-- ===== src/Migration/Replication.antt =====
-- What missing_comment_bodies finds missing, and what is enough to add.
use platform_gitops.Prelude.{
  ◌≡◌, ◌↔◌, refl, arith, ap, ◌∙◌, sym, subst, String, ◌==◌, true, false, none, some, List, [], ◌∷◌,
  ◌++◌, Bool-cases, Option-cases, inl, inr, eq_iff,
}
use platform_gitops.Migration.Comments.{after_match, missing_comment_bodies, matched_comments}

-- The comments of the source, in order, are among those of the destination.
pub data IsSubsequence : List String → List String → Type 0 where
  done : {ys : List String} → IsSubsequence [] ys
  keep : {x : String} {xs ys : List String} → IsSubsequence xs ys → IsSubsequence (x ∷ xs) (x ∷ ys)
  skip : {y : String} {xs ys : List String} → IsSubsequence xs ys → IsSubsequence xs (y ∷ ys)

missing-none :
    (b : String) (source destination : List String)
    → after_match b destination ≡ none
    → missing_comment_bodies (b ∷ source) destination ≡ b ∷ missing_comment_bodies source []
unfolding missing_comment_bodies
missing-none b source destination h = ground (arith, h)

missing-some :
    (b : String) (source destination rest : List String)
    → after_match b destination ≡ some rest
    → missing_comment_bodies (b ∷ source) destination ≡ missing_comment_bodies source rest
unfolding missing_comment_bodies
missing-some b source destination rest h = ground (arith, h)

matched-none :
    (b : String) (source destination : List String)
    → after_match b destination ≡ none
    → matched_comments (b ∷ source) destination ≡ matched_comments source []
unfolding matched_comments
matched-none b source destination h = ground (arith, h)

matched-some :
    (b : String) (source destination rest : List String)
    → after_match b destination ≡ some rest
    → matched_comments (b ∷ source) destination ≡ b ∷ matched_comments source rest
unfolding matched_comments
matched-some b source destination rest h = ground (arith, h)

after_match-skip :
    (b c : String) (rest : List String)
    → (c == b) ≡ false
    → after_match b (c ∷ rest) ≡ after_match b rest
unfolding after_match
after_match-skip b c rest h = ground (arith, h)

after_match-here :
    (b c : String) (rest : List String) → (c == b) ≡ true → after_match b (c ∷ rest) ≡ some rest
unfolding after_match
after_match-here b c rest h = ground (arith, h)

after_match-IsSubsequence :
    (b : String) (xs destination rest : List String)
    → after_match b destination ≡ some rest
    → IsSubsequence xs rest
    → IsSubsequence (b ∷ xs) destination
unfolding after_match
after_match-IsSubsequence b xs [] rest h s = absurd (ground (arith, h))
after_match-IsSubsequence b xs (c ∷ cs) rest h s = elim (Bool-cases (c == b)) [
  | inl same ↦
      let e : cs ≡ rest = ground (arith, same, h) in
      let f : c ≡ b = (eq_iff c b).0 same in
      subst (λ d. IsSubsequence (b ∷ xs) (d ∷ cs)) (sym f)
        (keep (subst (λ r. IsSubsequence xs r) (sym e) s))
  | inr other ↦ skip (after_match-IsSubsequence b xs cs rest (ground (arith, other, h)) s)
]

empty_missing : (source : List String) → missing_comment_bodies source [] ≡ source
unfolding missing_comment_bodies after_match
empty_missing [] = refl
empty_missing (b ∷ source) = ap (λ r. b ∷ r) (empty_missing source)

empty_matched : (source : List String) → matched_comments source [] ≡ []
unfolding matched_comments after_match
empty_matched [] = refl
empty_matched (b ∷ source) = empty_matched source

tail-IsSubsequence :
    (b : String) (xs ys : List String) → IsSubsequence (b ∷ xs) ys → IsSubsequence xs ys
tail-IsSubsequence b xs [] x = elim x [ ]
tail-IsSubsequence b xs (y ∷ ys) (keep h) = skip h
tail-IsSubsequence b xs (y ∷ ys) (skip h) = skip (tail-IsSubsequence b xs ys h)

match-IsSubsequence :
    (b : String) (xs ys : List String)
    → IsSubsequence (b ∷ xs) ys
    → (rest : List String) × (after_match b ys ≡ some rest) × IsSubsequence xs rest
match-IsSubsequence b xs [] x = elim x [ ]
match-IsSubsequence b xs (y ∷ ys) (keep h) = (ys, after_match-here b b ys ((eq_iff b b).1 refl), h)
match-IsSubsequence b xs (y ∷ ys) (skip h) = elim (Bool-cases (y == b)) [
  | inl same ↦ (ys, after_match-here b y ys same, tail-IsSubsequence b xs ys h)
  | inr other ↦
      let (rest, found, s) = match-IsSubsequence b xs ys h in
      (rest, after_match-skip b y ys other ∙ found, s)
]

behind-IsSubsequence : (ys zs : List String) → IsSubsequence zs (ys ++ zs)
behind-IsSubsequence [] [] = done
behind-IsSubsequence [] (z ∷ zs) = keep (behind-IsSubsequence [] zs)
behind-IsSubsequence (y ∷ ys) zs = skip (behind-IsSubsequence ys zs)

append-IsSubsequence :
    (xs ys zs : List String) → IsSubsequence xs ys → IsSubsequence (xs ++ zs) (ys ++ zs)
append-IsSubsequence [] ys zs done = behind-IsSubsequence ys zs
append-IsSubsequence (x ∷ xs) (y ∷ ys) zs (keep h) = keep (append-IsSubsequence xs ys zs h)
append-IsSubsequence xs (y ∷ ys) zs (skip h) = skip (append-IsSubsequence xs ys zs h)

-- What is found of the source, and then what is missing, is the whole source in order: the comments
-- that are missing are its last.
pub matched-missing :
    (source destination : List String)
    → matched_comments source destination ++ missing_comment_bodies source destination ≡ source
unfolding matched_comments missing_comment_bodies
matched-missing [] destination = refl
matched-missing (b ∷ source) destination = elim (Option-cases (after_match b destination)) [
  | inl none_left ↦
      ap (λ m. m ++ missing_comment_bodies (b ∷ source) destination)
        (matched-none b source destination none_left ∙ empty_matched source)
      ∙ (missing-none b source destination none_left ∙ ap (λ r. b ∷ r) (empty_missing source))
  | inr (rest, found) ↦
      ap (λ m. m ++ missing_comment_bodies (b ∷ source) destination)
        (matched-some b source destination rest found)
      ∙ (ap (λ m. b ∷ (matched_comments source rest ++ m))
            (missing-some b source destination rest found)
          ∙ ap (λ r. b ∷ r) (matched-missing source rest))
]

matched_comments-IsSubsequence :
    (source destination : List String)
    → IsSubsequence (matched_comments source destination) destination
unfolding matched_comments
matched_comments-IsSubsequence [] destination = done
matched_comments-IsSubsequence (b ∷ source) destination =
    elim (Option-cases (after_match b destination)) [
      | inl none_left ↦
          subst (λ m. IsSubsequence m destination)
            (sym (matched-none b source destination none_left ∙ empty_matched source)) done
      | inr (rest, found) ↦
          subst (λ m. IsSubsequence m destination)
            (sym (matched-some b source destination rest found))
            (after_match-IsSubsequence b (matched_comments source rest) destination rest found
              (matched_comments-IsSubsequence source rest))
    ]

subsequence-none_missing :
    (source destination : List String)
    → IsSubsequence source destination
    → missing_comment_bodies source destination ≡ []
unfolding missing_comment_bodies
subsequence-none_missing [] destination h = refl
subsequence-none_missing (b ∷ source) destination h =
    let (rest, found, s) = match-IsSubsequence b source destination h in
    missing-some b source destination rest found ∙ subsequence-none_missing source rest s

append_nil : (xs ys : List String) → ys ≡ [] → xs ++ ys ≡ xs
append_nil [] ys h = h
append_nil (x ∷ xs) ys h = ap (λ r. x ∷ r) (append_nil xs ys h)

-- No comment is missing exactly when the comments of the source are among those of the destination
-- in their order, with others between them or not.
pub missing_comment_bodies-IsSubsequence :
    (source destination : List String)
    → (missing_comment_bodies source destination ≡ []) ↔ IsSubsequence source destination
missing_comment_bodies-IsSubsequence source destination = (
  (λ h.
      subst (λ m. IsSubsequence m destination)
        (sym (append_nil (matched_comments source destination) _ h)
          ∙ matched-missing source destination)
        (matched_comments-IsSubsequence source destination)),
  subsequence-none_missing source destination,
)

-- Once the missing comments have been added after those of the destination, none is missing: a
-- second import adds nothing.
pub missing_comment_bodies-append :
    (source destination : List String)
    → missing_comment_bodies source (destination ++ missing_comment_bodies source destination) ≡ []
missing_comment_bodies-append source destination =
    subsequence-none_missing source (destination ++ missing_comment_bodies source destination) (
      subst (λ m. IsSubsequence m (destination ++ missing_comment_bodies source destination))
        (matched-missing source destination)
        (append-IsSubsequence (matched_comments source destination) destination
          (missing_comment_bodies source destination)
          (matched_comments-IsSubsequence source destination)))
