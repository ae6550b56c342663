-- ===== src/Transition/Undone.antt =====
-- What rollback_transition_state has tried when it ends, whatever its calls answered or raised.
use mathlib.Core.Logic.Or
use platform_gitops.Prelude.{
  ◌≡◌, refl, arith, sym, subst, String, Bool, true, false, not, Option, none, some, List, [], ◌∷◌,
  Mem, mem-cons, Mem-prop, mem-cons_self, mem-cons_of_mem, Mem-elim, length,
}
use platform_gitops.Prelude.Result.{Result, ok, err}
use platform_gitops.Transition.State.{
  Call, Failure, Forge, Snapshot, Machine, TransitionState, for_each, shadow,
  set_destination_authority, set_destination_access, set_native_relay_enabled, restore_source_ci,
  lookup,
}
use platform_gitops.Transition.Rollback.{with_snapshot, rollback_repository}
use platform_gitops.Transition.Keeps.{Invariant, for_each-Keeps}
use platform_gitops.Transition.Leads.{
  Leads, Arrives, Keeps→Leads, bind-Leads, pure-Leads, perform-Leads, attempt-Leads, Leads_and,
  Leads_mono,
}
use platform_gitops.Transition.Entering.{rollback_repository-Keeps}

-- The calls that undo the transition of a repository; its CI only where a snapshot was kept.
abbrev pub IsRestored : String → Option Snapshot → List Call → Type 0
IsRestored name none calls = Unit {0}
IsRestored name (some snapshot) calls = Mem (restore_source_ci name snapshot) calls

abbrev pub IsUndone : TransitionState → Bool → String → List Call → Type 0
IsUndone state stop_relay name calls =
    Mem (set_destination_authority name false) calls
    × Mem (set_destination_access name shadow) calls
    × IsRestored name (lookup name state.source_ci_snapshots) calls
    × Mem (set_native_relay_enabled name (not stop_relay)) calls

pub IsRestored-cons :
    (name : String) (found : Option Snapshot) (c : Call) (cs : List Call)
    → IsRestored name found cs
    → IsRestored name found (c ∷ cs)
IsRestored-cons name none c cs u = tt
IsRestored-cons name (some snapshot) c cs m = mem-cons_of_mem c m

pub after_total :
    {A : Type 0} (Q : A → List Call → Type 0) (x : Machine × Result Failure A)
    → Arrives Q (λ cs. ⊥) x
    → (a : A) × (x.1 ≡ ok a) × Q a x.0.calls
after_total Q (s, ok a) q = (a, refl, q)
after_total Q (s, err e) q = absurd q

module _ (forge : Forge) (state : TransitionState) (stop_relay : Bool) where
  abbrev pub undone : String → Invariant
  undone name = record {
    holds = IsUndone state stop_relay name;
    allowed = λ c. true;
    keep = λ c cs h p. (
      mem-cons_of_mem c p.0,
      mem-cons_of_mem c p.1,
      IsRestored-cons name (lookup name state.source_ci_snapshots) c cs p.2,
      mem-cons_of_mem c p.3,
    );
  }

  restore_ci-Leads :
      (P E : List Call → Type 0) (name : String) (found : Option Snapshot)
      → ((c : Call) (cs : List Call) → P cs → P (c ∷ cs))
      → ((cs : List Call) → (P cs × IsRestored name found cs) → E cs)
      → Leads P
          (with_snapshot forge (restore_source_ci name) found)
          (λ r cs. P cs × IsRestored name found cs)
          E
  restore_ci-Leads P E name none k l = pure-Leads _ λ cs p. (p, tt)
  restore_ci-Leads P E name (some snapshot) k l =
      perform-Leads {R = λ cs. P cs × IsRestored name (some snapshot) cs} forge _
        (λ cs p. (k _ cs p, mem-cons_self)) l

  -- Never raises.
  rollback_repository-Leads :
      (name : String)
      → Leads
          (λ cs. Unit {0})
          (rollback_repository forge state stop_relay name)
          (λ b. IsUndone state stop_relay name)
          (λ cs. ⊥)
  unfolding rollback_repository
  rollback_repository-Leads name =
      bind-Leads
        (attempt-Leads (
          perform-Leads {R = λ cs. Mem (set_destination_authority name false) cs} forge _
            (λ cs p. mem-cons_self) (λ cs p. p)))
        λ a.
          bind-Leads
            (attempt-Leads (
              perform-Leads
                {R = λ cs.
                  Mem (set_destination_authority name false) cs
                  × Mem (set_destination_access name shadow) cs}
                forge _ (λ cs p. (mem-cons_of_mem _ p, mem-cons_self)) (λ cs p. p)))
            λ b.
              bind-Leads
                (attempt-Leads (
                  restore_ci-Leads _ _ name (lookup name state.source_ci_snapshots)
                    (λ c cs p. (mem-cons_of_mem c p.0, mem-cons_of_mem c p.1)) (λ cs p. p)))
                λ d.
                  bind-Leads
                    (attempt-Leads (
                      perform-Leads {R = IsUndone state stop_relay name} forge _
                        (λ cs p. (
                          mem-cons_of_mem _ p.0.0,
                          mem-cons_of_mem _ p.0.1,
                          IsRestored-cons name _ _ cs p.1,
                          mem-cons_self,
                        ))
                        (λ cs p. p)))
                    λ e. pure-Leads _ λ cs p. p

  -- Each of the names has been undone.
  abbrev pub AllUndone : List String → List Call → Type 0
  AllUndone [] calls = Unit {0}
  AllUndone (n ∷ ns) calls = IsUndone state stop_relay n calls × AllUndone ns calls

  IsRestored-prop :
      (name : String) (found : Option Snapshot) (calls : List Call)
      → IsProp (IsRestored name found calls)
  IsRestored-prop name none calls = hlevel
  IsRestored-prop name (some snapshot) calls = Mem-prop

  IsUndone-prop :
      (name : String) (calls : List Call) → IsProp (IsUndone state stop_relay name calls)
  IsUndone-prop name calls = hlevel (Mem-prop, IsRestored-prop name _ calls)

  pub AllUndone-mem :
      (ns : List String) (name : String) (calls : List Call)
      → AllUndone ns calls
      → Mem name ns
      → IsUndone state stop_relay name calls
  AllUndone-mem [] name calls h m = Mem-elim m
  AllUndone-mem (n ∷ ns) name calls h m =
      Or.elim (IsUndone-prop name calls) (mem-cons.0 m)
        (λ e. subst (λ k. IsUndone state stop_relay k calls) (sym e) h.0)
        (AllUndone-mem ns name calls h.1)

  pub rollback_each-Leads :
      (ns : List String)
      → Leads
          (λ cs. Unit {0})
          (for_each (rollback_repository forge state stop_relay) ns)
          (λ bs cs. AllUndone ns cs × (length bs ≡ length ns))
          (λ cs. ⊥)
  unfolding for_each
  rollback_each-Leads [] = pure-Leads [] λ cs p. (tt, refl)
  rollback_each-Leads (n ∷ ns) = bind-Leads (rollback_repository-Leads n) λ b.
      bind-Leads
        (Leads_mono
          (Leads_and (rollback_each-Leads ns) (
            Keeps→Leads {i = undone n} (
              for_each-Keeps ns
                (rollback_repository-Keeps (undone n) (λ c h. refl) forge state stop_relay))))
          (λ cs p. (tt, p)) (λ bs cs q. q) (λ cs q. q))
        λ bs. pure-Leads _ λ cs p. ((p.1, p.0.0), omega (arith, p.0.1))
