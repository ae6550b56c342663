-- ===== src/Transition/Leads.antt =====
-- Where an action leads from calls with a property: to one where it returns, to another where it
-- raises.
use platform_gitops.Prelude.{◌≡◌, refl, arith, Bool, Option, List, [], ◌∷◌, length}
use platform_gitops.Prelude.Result.{Result, ok, err}
use platform_gitops.Transition.State.{
  attempt, Call, Failure, Forge, Machine, Action, for_each, ◌>>=◌, pure,
}
use platform_gitops.Transition.Store.{perform}
use platform_gitops.Transition.Keeps.{Invariant, Keeps}

abbrev pub Arrives :
    {A : Type 0}
    → (A → List Call → Type 0)
    → (List Call → Type 0)
    → Machine × Result Failure A
    → Type 0
Arrives Q E (s, ok a) = Q a s.calls
Arrives Q E (s, err e) = E s.calls

pub record Leads {A : Type 0} (P : List Call → Type 0) (m : Action A) (Q : A → List Call → Type 0)
    (E : List Call → Type 0) : Type 0 where
  pub leads : (s : Machine) → P s.calls → Arrives Q E (m s)

module _ {A B : Type 0} (R : A → List Call → Type 0) (Q : B → List Call → Type 0)
    (E : List Call → Type 0) where
  after_leads :
      (f : A → Action B) (x : Machine × Result Failure A)
      → Arrives R E x
      → ((a : A) → Leads (R a) (f a) Q E)
      → Arrives Q E (((λ s. x) >>= f) x.0)
  unfolding ◌>>=◌
  after_leads f (s, ok a) p k = (k a).leads s p
  after_leads f (s, err e) p k = p

module _ {A B : Type 0} {P E : List Call → Type 0} where
  pub bind-Leads :
      {R : A → List Call → Type 0} {Q : B → List Call → Type 0} {m : Action A} {f : A → Action B}
      → Leads P m R E
      → ((a : A) → Leads (R a) (f a) Q E)
      → Leads P (m >>= f) Q E
  unfolding ◌>>=◌
  bind-Leads {m = m} {f = f} km kf = record {
    leads = λ s p. after_leads _ _ _ f (m s) (km.leads s p) kf;
  }

module _ {A : Type 0} (P : List Call → Type 0) where
  after_keeps : (x : Machine × Result Failure A) → P x.0.calls → Arrives (λ a. P) P x
  after_keeps (s, ok a) p = p
  after_keeps (s, err e) p = p

pub Keeps→Leads :
    {A : Type 0} {i : Invariant} {m : Action A} → Keeps i m → Leads i.holds m (λ a. i.holds) i.holds
Keeps→Leads {i = i} {m = m} k = record { leads = λ s p. after_keeps i.holds (m s) (k.kept s p) }

module _ {A : Type 0} (E : List Call → Type 0) (Q : A → List Call → Type 0) where
  after_weaker :
      (R : A → List Call → Type 0) (F : List Call → Type 0) (x : Machine × Result Failure A)
      → Arrives R F x
      → ((a : A) (cs : List Call) → R a cs → Q a cs)
      → ((cs : List Call) → F cs → E cs)
      → Arrives Q E x
  after_weaker R F (s, ok a) r k l = k a s.calls r
  after_weaker R F (s, err e) r k l = l s.calls r

  after_both :
      (R : List Call → Type 0) (x : Machine × Result Failure A)
      → Arrives Q E x
      → Arrives (λ a. R) R x
      → Arrives (λ a cs. Q a cs × R cs) E x
  after_both R (s, ok a) q r = (q, r)
  after_both R (s, err e) q r = q

module _ {A : Type 0} {P E : List Call → Type 0} {Q : A → List Call → Type 0} where
  pub pure-Leads : (a : A) → ((cs : List Call) → P cs → Q a cs) → Leads P (pure a) Q E
  unfolding pure
  pure-Leads a k = record { leads = λ s p. k s.calls p }

  -- From a stronger property, to weaker ones.
  pub Leads_mono :
      {P' : List Call → Type 0} {R : A → List Call → Type 0} {F : List Call → Type 0} {m : Action A}
      → Leads P' m R F
      → ((cs : List Call) → P cs → P' cs)
      → ((a : A) (cs : List Call) → R a cs → Q a cs)
      → ((cs : List Call) → F cs → E cs)
      → Leads P m Q E
  Leads_mono {m = m} h j k l = record {
    leads = λ s p. after_weaker E Q _ _ (m s) (h.leads s (j s.calls p)) k l;
  }

  -- Together with what the action keeps.
  pub Leads_and :
      {R : List Call → Type 0} {m : Action A}
      → Leads P m Q E
      → Leads R m (λ a. R) R
      → Leads (λ cs. P cs × R cs) m (λ a cs. Q a cs × R cs) E
  Leads_and {R = R} {m = m} h k = record {
    leads = λ s p. after_both E Q R (m s) (h.leads s p.0) (k.leads s p.1);
  }

module _ {A : Type 0} (R : A → List Call → Type 0) (E : List Call → Type 0) (s : Machine) where
  after_answer :
      (x : Result Failure A) → ((a : A) → x ≡ ok a → R a s.calls) → E s.calls → Arrives R E (s, x)
  after_answer (ok a) k l = k a refl
  after_answer (err e) k l = l

pub perform-Leads :
    {P R E : List Call → Type 0} (forge : Forge) (c : Call)
    → ((cs : List Call) → P cs → R (c ∷ cs))
    → ((cs : List Call) → R cs → E cs)
    → Leads P (perform forge c) (λ r. R) E
unfolding perform
perform-Leads {P = P} {R = R} {E = E} forge c k l = record {
  leads = λ s p.
      after_weaker E (λ r. R) (λ r. R) R (perform forge c s)
        (after_keeps R (perform forge c s) (k s.calls p)) (λ a cs r. r) l;
}

-- A call leads to one property where it returns, and to another where it raises.
pub perform-Leads_either :
    {P E : List Call → Type 0} {R : Option Bool → List Call → Type 0} (forge : Forge) (c : Call)
    → ((cs : List Call) (r : Option Bool) → forge.answer cs c ≡ ok r → P cs → R r (c ∷ cs))
    → ((cs : List Call) → P cs → E (c ∷ cs))
    → Leads P (perform forge c) R E
unfolding perform
perform-Leads_either {P = P} {E = E} {R = R} forge c k l = record {
  leads = λ s p.
      after_answer R E (record s { calls = c ∷ s.calls }) (forge.answer s.calls c)
        (λ r same. k s.calls r same p) (l s.calls p);
}

-- A fact that holds before an action may be used to show where it leads.
pub Leads_given :
    {A : Type 0} {P E : List Call → Type 0} {Q : A → List Call → Type 0} {C : Type 0} {m : Action A}
    → (C → Leads P m Q E)
    → Leads (λ cs. P cs × C) m Q E
Leads_given k = record { leads = λ s p. (k p.1).leads s p.0 }

module _ {A : Type 0} (P : List Call → Type 0) where
  after_either : (x : Machine × Result Failure A) → Arrives (λ a. P) P x → P x.0.calls
  after_either (s, ok a) p = p
  after_either (s, err e) p = p

pub Leads→Keeps :
    {A : Type 0} {i : Invariant} {m : Action A} → Leads i.holds m (λ a. i.holds) i.holds → Keeps i m
Leads→Keeps {i = i} {m = m} h = record { kept = λ s p. after_either i.holds (m s) (h.leads s p) }

-- A loop that returns has a result for each item.
pub for_each-length :
    {A B : Type 0} {i : Invariant} {f : A → Action B} (xs : List A)
    → ((a : A) → Keeps i (f a))
    → Leads i.holds (for_each f xs) (λ bs cs. i.holds cs × (length bs ≡ length xs)) i.holds
unfolding for_each
for_each-length [] k = pure-Leads [] λ cs p. (p, refl)
for_each-length (x ∷ xs) k =
    bind-Leads (Keeps→Leads (k x))
      λ b. bind-Leads (for_each-length xs k) λ bs. pure-Leads _ λ cs p. (p.0, omega (arith, p.1))

module _ {A : Type 0} (R : List Call → Type 0) (E : List Call → Type 0) where
  after_attempt :
      (x : Machine × Result Failure A)
      → Arrives (λ a. R) R x
      → Arrives (λ o. R) E (attempt (λ t. x) x.0)
  unfolding attempt
  after_attempt (s, ok a) r = r
  after_attempt (s, err e) r = r

-- What a try block has done, whether or not it raised; the block does not raise.
pub attempt-Leads :
    {A : Type 0} {P R E : List Call → Type 0} {m : Action A}
    → Leads P m (λ a. R) R
    → Leads P (attempt m) (λ o. R) E
unfolding attempt
attempt-Leads {R = R} {E = E} {m = m} h = record {
  leads = λ s p. after_attempt R E (m s) (h.leads s p);
}
