-- ===== src/Transition/Returning.antt =====
-- Rules for what an action has done where it returns; nothing is said where it raises.
use platform_gitops.Prelude.{
  ◌≡◌, refl, arith, sym, subst, Bool, true, false, Option, none, some, List,
}
use platform_gitops.Prelude.Result.{Result, ok, err}
use platform_gitops.Transition.State.{Call, Failure, Forge, Machine, Action, require, attempt}
use platform_gitops.Transition.Store.{with_lock}
use platform_gitops.Transition.Keeps.{Invariant, Keeps}
use platform_gitops.Transition.Leads.{Arrives, Leads, Keeps→Leads, Leads_mono}

-- Whatever a call may end with.
abbrev pub Anything : List Call → Type 0
Anything calls = Unit {0}

module _ {A : Type 0} where
  pub from_ok :
      (Q : A → List Call → Type 0) (x : Machine × Result Failure A)
      → ((a : A) → x.1 ≡ ok a → Q a x.0.calls)
      → Arrives Q Anything x
  from_ok Q (s, ok a) k = k a refl
  from_ok Q (s, err e) k = tt

  ok_injective : (Q : A → Type 0) (a b : A) → ◌≡◌ {A = Result Failure A} (ok a) (ok b) → Q a → Q b
  ok_injective Q a b e q = subst Q (cc e) q

  pub to_ok :
      (Q : A → List Call → Type 0) (x : Machine × Result Failure A) (a : A)
      → Arrives Q Anything x
      → x.1 ≡ ok a
      → Q a x.0.calls
  to_ok Q (s, ok b) a q e = ok_injective (λ c. Q c s.calls) b a e q
  to_ok Q (s, err f) a q e = absurd (ground (arith, e))

  pub any-Leads : {P : List Call → Type 0} (m : Action A) → Leads P m (λ a. Anything) Anything
  any-Leads m = record { leads = λ s p. from_ok (λ a. Anything) (m s) (λ a e. tt) }

  pub Keeps→Leads_ok :
      {i : Invariant} {m : Action A} → Keeps i m → Leads i.holds m (λ a. i.holds) Anything
  Keeps→Leads_ok k = Leads_mono (Keeps→Leads k) (λ cs p. p) (λ a cs p. p) (λ cs p. tt)

  -- What a try block has done where it did not raise.
  abbrev pub WhereDone : (A → List Call → Type 0) → Option A → List Call → Type 0
  WhereDone Q none calls = Unit {0}
  WhereDone Q (some a) calls = Q a calls

  after_attempt :
      (Q : A → List Call → Type 0) (x : Machine × Result Failure A)
      → Arrives Q Anything x
      → Arrives (WhereDone Q) Anything (attempt (λ t. x) x.0)
  unfolding attempt
  after_attempt Q (s, ok a) q = q
  after_attempt Q (s, err e) q = tt

  pub attempt_done-Leads :
      {P : List Call → Type 0} {Q : A → List Call → Type 0} {m : Action A}
      → Leads P m Q Anything
      → Leads P (attempt m) (WhereDone Q) Anything
  unfolding attempt
  attempt_done-Leads {Q = Q} {m = m} h = record {
    leads = λ s p. after_attempt Q (m s) (h.leads s p);
  }

  -- A command that returns under the lock is its body.
  with_lock-ok :
      (forge : Forge) (body : Action A) (s : Machine) (a : A)
      → (with_lock forge body s).1 ≡ ok a
      → ((body (record s { lock = true })).1 ≡ ok a)
        × ((with_lock forge body s).0.calls ≡ (body (record s { lock = true })).0.calls)
  unfolding with_lock
  with_lock-ok forge body s a h = (ground (arith, h), ground (arith, h))

  pub with_lock-Leads :
      {P : List Call → Type 0} {Q : A → List Call → Type 0} {body : Action A} (forge : Forge)
      → Leads P body Q Anything
      → Leads P (with_lock forge body) Q Anything
  with_lock-Leads {Q = Q} {body = body} forge h = record {
    leads = λ s p. from_ok Q (with_lock forge body s) λ a e.
        let (done, same) = with_lock-ok forge body s a e in
        let held : Machine = record s { lock = true } in
        subst (Q a) (sym same) (to_ok Q (body held) a (h.leads held p) done);
  }

after_require :
    (P : List Call → Type 0) (b : Bool) (s : Machine)
    → P s.calls
    → Arrives (λ u cs. P cs × (b ≡ true)) Anything (require b s)
unfolding require
after_require P true s p = (p, refl)
after_require P false s p = tt

pub require-Leads :
    {P : List Call → Type 0} (b : Bool) → Leads P (require b) (λ u cs. P cs × (b ≡ true)) Anything
require-Leads {P = P} b = record { leads = λ s p. after_require P b s p }
