-- ===== src/Transition/Confirmed.antt =====
-- The order of calls in which a result that says verified is that of a call which clears its
-- repository: what a command knows that has looked at all results.
use platform_gitops.Prelude.{
  ◌≡◌, refl, arith, String, Bool, true, false, not, ◌&&◌, ◌||◌, Option, List, [], ◌∷◌, all,
}
use platform_gitops.Prelude.Result.{Result, ok, err}
use platform_gitops.Transition.State.{Call, Failure, is_verified}
use platform_gitops.Transition.Prepare.{pair_up}
use platform_gitops.Transition.Ordered.{Clears, cleared_in}
use platform_gitops.Transition.Keeps.{Invariant}

-- A call that returned a result which says that it was verified.
abbrev pub confirmed : Result Failure (Option Bool) → Bool
confirmed (ok r) = is_verified r
confirmed (err e) = false

-- Every repository has a call that clears it.
abbrev pub all_confirmed : Clears → List String → List Call → Bool
all_confirmed clears names calls = all (cleared_in clears calls) names

-- A result that says verified is that of a call which confirms the source.
abbrev pub confirmed_by : Clears → List Call → String → Option Bool → Bool
confirmed_by clears calls name r = not (is_verified r) || cleared_in clears calls name

abbrev pub confirmed_by_all : Clears → List String → List (Option Bool) → List Call → Bool
confirmed_by_all clears [] [] calls = true
confirmed_by_all clears [] (r ∷ rs) calls = false
confirmed_by_all clears (n ∷ ns) [] calls = false
confirmed_by_all clears (n ∷ ns) (r ∷ rs) calls =
    confirmed_by clears calls n r && confirmed_by_all clears ns rs calls

module _ (clears : Clears) where
  pub keep_one :
      (name : String) (r : Option Bool) (c : Call) (cs : List Call)
      → confirmed_by clears cs name r ≡ true
      → confirmed_by clears (c ∷ cs) name r ≡ true
  keep_one name r c cs p = ground arith

  pub keep_all :
      (ns : List String) (rs : List (Option Bool)) (c : Call) (cs : List Call)
      → confirmed_by_all clears ns rs cs ≡ true
      → confirmed_by_all clears ns rs (c ∷ cs) ≡ true
  keep_all [] [] c cs p = refl
  keep_all [] (r ∷ rs) c cs p = absurd (ground (arith, p))
  keep_all (n ∷ ns) [] c cs p = absurd (ground (arith, p))
  keep_all (n ∷ ns) (r ∷ rs) c cs p = ground (arith, p, keep_one n r c cs, keep_all ns rs c cs)

  pub keep_confirmed :
      (ns : List String) (c : Call) (cs : List Call)
      → all_confirmed clears ns cs ≡ true
      → all_confirmed clears ns (c ∷ cs) ≡ true
  keep_confirmed [] c cs p = refl
  keep_confirmed (n ∷ ns) c cs p = ground (arith, p, keep_confirmed ns c cs)

  pub confirmed-verified :
      (ns : List String) (rs : List (Option Bool)) (cs : List Call)
      → confirmed_by_all clears ns rs cs ≡ true
      → all (λ p. is_verified p.1) (pair_up ns rs) ≡ true
      → all_confirmed clears ns cs ≡ true
  unfolding pair_up
  confirmed-verified [] rs cs p q = refl
  confirmed-verified (n ∷ ns) [] cs p q = absurd (ground (arith, p))
  confirmed-verified (n ∷ ns) (r ∷ rs) cs p q = ground (arith, p, q, confirmed-verified ns rs cs)

  abbrev pub one : String → Option Bool → Invariant
  one name r = record {
    holds = λ cs. confirmed_by clears cs name r ≡ true;
    allowed = λ c. true;
    keep = λ c cs h p. keep_one name r c cs p;
  }

  abbrev pub every : List String → List (Option Bool) → Invariant
  every ns rs = record {
    holds = λ cs. confirmed_by_all clears ns rs cs ≡ true;
    allowed = λ c. true;
    keep = λ c cs h p. keep_all ns rs c cs p;
  }

  abbrev pub confirmed_sources : List String → Invariant
  confirmed_sources ns = record {
    holds = λ cs. all_confirmed clears ns cs ≡ true;
    allowed = λ c. true;
    keep = λ c cs h p. keep_confirmed ns c cs p;
  }
