-- ===== src/Transition/Ordered.antt =====
-- The order of calls in which every gated call comes after one that clears each repository.
use platform_gitops.Prelude.{
  ◌≡◌, refl, arith, String, Bool, true, false, not, ◌&&◌, ◌||◌, List, [], ◌∷◌, all,
}
use platform_gitops.Transition.State.{Call}
use platform_gitops.Transition.Keeps.{Invariant}

-- Which calls clear a repository, given the calls before it: the older calls decide its answer.
abbrev pub Clears : Type 0
Clears = String → List Call → Call → Bool

-- The calls are listed newest first.
abbrev pub cleared_in : Clears → List Call → String → Bool
cleared_in clears [] name = false
cleared_in clears (c ∷ older) name = clears name older c || cleared_in clears older name

abbrev pub gated_after : (Call → Bool) → Clears → List String → List Call → Bool
gated_after gated clears names [] = true
gated_after gated clears names (c ∷ older) =
    (not (gated c) || all (cleared_in clears older) names) && gated_after gated clears names older

module _ (gated : Call → Bool) (clears : Clears) where
  pub keep_order :
      (names : List String) (c : Call) (cs : List Call)
      → not (gated c) ≡ true
      → gated_after gated clears names cs ≡ true
      → gated_after gated clears names (c ∷ cs) ≡ true
  keep_order names c cs h p = ground arith

  -- The invariant of all calls but the gated.
  abbrev pub order_of : List String → Invariant
  order_of names = record {
    holds = λ calls. gated_after gated clears names calls ≡ true;
    allowed = λ c. not (gated c);
    keep = keep_order names;
  }

  pub keep_cleared :
      (name : String) (c : Call) (cs : List Call)
      → cleared_in clears cs name ≡ true
      → cleared_in clears (c ∷ cs) name ≡ true
  keep_cleared name c cs p = ground arith

  -- A call added to the list keeps a repository cleared.
  abbrev pub once_cleared : String → Invariant
  once_cleared name = record {
    holds = λ calls. cleared_in clears calls name ≡ true;
    allowed = λ c. true;
    keep = λ c cs h p. keep_cleared name c cs p;
  }

  abbrev pub AllCleared : List String → List Call → Type 0
  AllCleared names calls = all (cleared_in clears calls) names ≡ true

  cleared_in-cons :
      (c : Call) (cs : List Call) (names : List String)
      → AllCleared names cs
      → AllCleared names (c ∷ cs)
  cleared_in-cons c cs [] h = refl
  cleared_in-cons c cs (n ∷ ns) h = ground (arith, cleared_in-cons c cs ns)

  pub keep_opened :
      (names : List String) (c : Call) (cs : List Call)
      → gated_after gated clears names cs ≡ true
      → AllCleared names cs
      → (gated_after gated clears names (c ∷ cs) ≡ true) × AllCleared names (c ∷ cs)
  keep_opened names c cs p q = (ground arith, cleared_in-cons c cs names q)

  -- Once every repository is cleared, each call keeps the order.
  abbrev pub opened : List String → Invariant
  opened names = record {
    holds = λ calls. (gated_after gated clears names calls ≡ true) × AllCleared names calls;
    allowed = λ c. true;
    keep = λ c cs h p. keep_opened names c cs p.0 p.1;
  }
