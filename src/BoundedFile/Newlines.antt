-- ===== src/BoundedFile/Newlines.antt =====
-- read_bounded_text: the replacements that make every line end a line feed.
use platform_gitops.Prelude.{
  ℕ, ◌≡◌, refl, arith, Bool, true, false, ◌&&◌, List, [], ◌∷◌, nat_eq, if◌then◌else◌, Bool-cases,
  inl, inr,
}

abbrev pub line_feed : ℕ
line_feed = 10

abbrev pub carriage_return : ℕ
carriage_return = 13

-- `replace("\r\n", "\n")`, and `replace("\r", "\n")`, on the code points.
unfoldable pub replace_pairs : List ℕ → List ℕ
replace_pairs [] = []
replace_pairs (c ∷ []) = c ∷ []
replace_pairs (c ∷ d ∷ s) =
    let pair = line_feed ∷ replace_pairs s in
    let single = c ∷ replace_pairs (d ∷ s) in
    if nat_eq c carriage_return && nat_eq d line_feed then pair else single

unfoldable pub replace_returns : List ℕ → List ℕ
replace_returns [] = []
replace_returns (c ∷ s) = (if nat_eq c carriage_return then line_feed else c) ∷ replace_returns s

unfoldable pub normalize_newlines : List ℕ → List ℕ
normalize_newlines s = replace_returns (replace_pairs s)

-- Universal newlines in one pass: the flag says that the character before was a carriage return,
-- whose line end is already written.
unfoldable pub universal : Bool → List ℕ → List ℕ
universal after_return [] = []
universal after_return (c ∷ s) =
    let swallowed = universal false s in
    let returned = line_feed ∷ universal true s in
    let kept = c ∷ universal false s in
    if after_return && nat_eq c line_feed
    then swallowed
    else if nat_eq c carriage_return
    then returned
    else kept

-- The two replacements make every line end, of one or two characters, one line feed: they do what one
-- pass with a flag does.
pub normalize_newlines-universal : (s : List ℕ) → normalize_newlines s ≡ universal false s
unfolding normalize_newlines replace_pairs replace_returns universal
normalize_newlines-universal [] = refl
normalize_newlines-universal (c ∷ []) = ground arith
normalize_newlines-universal (c ∷ d ∷ s) =
    elim (Bool-cases (nat_eq c carriage_return && nat_eq d line_feed)) [
      | inl pair ↦ ground (arith, pair, normalize_newlines-universal s)
      | inr single ↦ ground (arith, single, normalize_newlines-universal (d ∷ s))
    ]
