-- ===== src/Transition/FinalConfirmed.antt =====
-- What the success of command_finalize says of the freezing of the sources.
use platform_gitops.Prelude.{
  ◌≡◌, refl, arith, String, ◌==◌, Bool, true, false, not, ◌&&◌, ◌||◌, Option, none, some, List, [],
  ◌∷◌, all, eq_iff,
}
use platform_gitops.Prelude.Result.{ok}
use platform_gitops.Transition.State.{
  Call, Forge, Machine, freeze_source_repository, for_each, pure, require, is_verified, ◌>>=◌, ◌>>◌,
}
use platform_gitops.Transition.Approval.{Proof, Control, Setting}
use platform_gitops.Transition.Prepare.{pair_up}
use platform_gitops.Transition.Finalize.{
  freeze_source, apply_final, verify_final, make_final, abandon_finalize, complete_finalize,
  finish_finalize, finalize_locked, command_finalize,
}
use platform_gitops.Transition.Enter.{reconcile_next}
use platform_gitops.Transition.Freezing.{freeze_source-Keeps}
use platform_gitops.Transition.Ordered.{Clears}
use platform_gitops.Transition.Keeps.{
  Keeps, bind-Keeps, for_each-Keeps, perform-Keeps, change-Keeps, require-Keeps, store_proof-Keeps,
}
use platform_gitops.Transition.Leads.{
  Leads_given, Leads, Keeps→Leads, bind-Leads, pure-Leads, Leads_mono, Leads_and,
  perform-Leads_either,
}
use platform_gitops.Transition.Returning.{
  Anything, WhereDone, any-Leads, Keeps→Leads_ok, attempt_done-Leads, with_lock-Leads,
  require-Leads, to_ok,
}
use platform_gitops.Transition.Handover.{save-Keeps, reconcile_next-Keeps}
use platform_gitops.Transition.Confirmed.{
  confirmed, all_confirmed, confirmed_by, confirmed_by_all, one, every, confirmed_sources,
  confirmed-verified,
}

-- A call that freezes a source, and whose result says that it was verified.
abbrev pub confirms_freeze : Forge → Clears
confirms_freeze forge name older (freeze_source_repository n) =
    name == n && confirmed (forge.answer older (freeze_source_repository n))
confirms_freeze forge name older _ = false

module _ (forge : Forge) (plan : String) (names : List String) where
  freeze_source-Leads :
      (name : String)
      → Leads Anything
          (freeze_source forge plan names name)
          (λ r cs. confirmed_by (confirms_freeze forge) cs name r ≡ true)
          Anything
  unfolding freeze_source
  freeze_source-Leads name =
      bind-Leads
        (perform-Leads_either {R = λ r cs. confirmed_by (confirms_freeze forge) cs name r ≡ true}
          forge _ (λ cs r same p. ground (arith, same, eq_iff name name)) (λ cs p. tt))
        λ r.
          bind-Leads (Keeps→Leads_ok {i = one (confirms_freeze forge) name r} (change-Keeps _)) λ u.
            bind-Leads
              (Keeps→Leads_ok {i = one (confirms_freeze forge) name r}
                (save-Keeps (one (confirms_freeze forge) name r) (λ c h. refl) names forge))
              λ v. pure-Leads r λ cs p. p

  freeze_sources-Leads :
      (ns : List String)
      → Leads Anything
          (for_each (freeze_source forge plan names) ns)
          (λ rs cs. confirmed_by_all (confirms_freeze forge) ns rs cs ≡ true)
          Anything
  unfolding for_each
  freeze_sources-Leads [] = pure-Leads [] λ cs p. refl
  freeze_sources-Leads (n ∷ ns) = bind-Leads (freeze_source-Leads n) λ r.
      bind-Leads
        (Leads_mono
          (Leads_and (freeze_sources-Leads ns) (
            Keeps→Leads {i = one (confirms_freeze forge) n r} (
              for_each-Keeps ns (
                freeze_source-Keeps forge plan names (one (confirms_freeze forge) n r)
                  (λ c h. refl)))))
          (λ cs p. (tt, p)) (λ rs cs p. p) (λ cs p. tt))
        λ rs. pure-Leads _ λ cs p. ground (arith, p.0, p.1)

  apply_final-Keeps :
      (ns : List String) (rs : List (Option Bool)) (name : String)
      → Keeps (every (confirms_freeze forge) ns rs) (apply_final forge plan names name)
  unfolding apply_final
  apply_final-Keeps ns rs name =
      bind-Keeps (perform-Keeps forge _ refl)
        λ a. bind-Keeps (perform-Keeps forge _ refl) λ b. require-Keeps _

  verify_final-Leads :
      (ns : List String) (rs : List (Option Bool)) (name : String) (r : Option Bool)
      → Leads
          (λ cs. confirmed_by_all (confirms_freeze forge) ns rs cs ≡ true)
          (verify_final forge plan names (name, r))
          (λ u cs.
            (confirmed_by_all (confirms_freeze forge) ns rs cs ≡ true) × (is_verified r ≡ true))
          Anything
  unfolding verify_final
  verify_final-Leads ns rs name r =
      bind-Leads
        (Keeps→Leads_ok {i = every (confirms_freeze forge) ns rs} (perform-Keeps forge _ refl))
        λ a.
          bind-Leads
            (Keeps→Leads_ok {i = every (confirms_freeze forge) ns rs} (perform-Keeps forge _ refl))
            λ b.
              Leads_mono (require-Leads _) (λ cs p. p) (λ u cs p. (p.0, ground (arith, p.1)))
                (λ cs p. tt)

  verify_finals-Leads :
      (ns : List String) (rs : List (Option Bool)) (pairs : List (String × Option Bool))
      → Leads
          (λ cs. confirmed_by_all (confirms_freeze forge) ns rs cs ≡ true)
          (for_each (verify_final forge plan names) pairs)
          (λ us cs.
            (confirmed_by_all (confirms_freeze forge) ns rs cs ≡ true)
            × (all (λ p. is_verified p.1) pairs ≡ true))
          Anything
  unfolding for_each
  verify_finals-Leads ns rs [] = pure-Leads [] λ cs p. (p, refl)
  verify_finals-Leads ns rs ((name, r) ∷ pairs) = bind-Leads (verify_final-Leads ns rs name r) λ u.
      Leads_given λ verified.
        bind-Leads (verify_finals-Leads ns rs pairs)
          λ us. pure-Leads _ λ cs p. (p.0, ground (arith, verified, p.1))

  -- The part of the finalization behind the freezing of the sources.
  finish_make_final-Leads :
      (rs : List (Option Bool))
      → Leads
          (λ cs. confirmed_by_all (confirms_freeze forge) names rs cs ≡ true)
          (do
            relayed ← reconcile_next forge plan names
            require (all (λ v. v) relayed)
            for_each (apply_final forge plan names) names
            for_each (verify_final forge plan names) (pair_up names rs)
            pure tt)
          (λ u cs. all_confirmed (confirms_freeze forge) names cs ≡ true)
          Anything
  finish_make_final-Leads rs =
      let i = every (confirms_freeze forge) names rs in
      bind-Leads (Keeps→Leads_ok {i = i} (reconcile_next-Keeps i (λ c h. refl) names forge plan))
        λ relayed. bind-Leads (Keeps→Leads_ok {i = i} (require-Keeps _)) λ v.
          bind-Leads (Keeps→Leads_ok {i = i} (for_each-Keeps names (apply_final-Keeps names rs)))
            λ u. bind-Leads (verify_finals-Leads names rs (pair_up names rs)) λ w.
              pure-Leads tt λ cs p. confirmed-verified (confirms_freeze forge) names rs cs p.0 p.1

  make_final-Leads :
      Leads Anything
        (make_final forge plan names)
        (λ u cs. all_confirmed (confirms_freeze forge) names cs ≡ true)
        Anything
  unfolding make_final
  make_final-Leads = bind-Leads {R = λ a. Anything} (any-Leads _) λ checked.
      bind-Leads {R = λ a. Anything} (any-Leads _) λ snapshots.
        bind-Leads {R = λ a. Anything} (any-Leads _) λ changed.
          bind-Leads {R = λ a. Anything} (any-Leads _) λ saved.
            bind-Leads (freeze_sources-Leads names) λ frozen. finish_make_final-Leads frozen

  abbrev IsConfirmed : Bool → List Call → Type 0
  IsConfirmed done cs = (not done || all_confirmed (confirms_freeze forge) names cs) ≡ true

  finish_finalize-Leads :
      (outcome : Option (Unit {0}))
      → Leads
          (WhereDone (λ u cs. all_confirmed (confirms_freeze forge) names cs ≡ true) outcome)
          (finish_finalize forge plan names outcome)
          IsConfirmed
          Anything
  unfolding abandon_finalize complete_finalize
  finish_finalize-Leads none = bind-Leads {R = λ a. Anything} (any-Leads _) λ state.
      bind-Leads {R = λ a. Anything} (any-Leads _) λ pair.
        bind-Leads {R = λ a. Anything} (any-Leads _) λ stored.
          bind-Leads {R = λ a. Anything} (any-Leads _) λ proof. pure-Leads false λ cs p. refl
  finish_finalize-Leads (some u) =
      let i = confirmed_sources (confirms_freeze forge) names in
      bind-Leads (Keeps→Leads_ok {i = i} (store_proof-Keeps forge _ _ refl)) λ digest.
        bind-Leads (Keeps→Leads_ok {i = i} (change-Keeps _)) λ v.
          bind-Leads (Keeps→Leads_ok {i = i} (save-Keeps i (λ c h. refl) names forge))
            λ w. pure-Leads true λ cs p. ground (arith, p)

  finalize_locked-Leads :
      (proof : Proof) → Leads Anything (finalize_locked forge plan names proof) IsConfirmed Anything
  unfolding finalize_locked
  finalize_locked-Leads proof = bind-Leads {R = λ a. Anything} (any-Leads _) λ state.
      bind-Leads {R = λ a. Anything} (any-Leads _) λ u.
        bind-Leads {R = λ a. Anything} (any-Leads _) λ v.
          bind-Leads {R = λ a. Anything} (any-Leads _) λ w.
            bind-Leads (attempt_done-Leads make_final-Leads)
              λ outcome. finish_finalize-Leads outcome

  -- Where command_finalize succeeds, the calls hold, for every repository of the plan, one of
  -- freeze_source_repository that returned a result which says that it was verified.
  pub command_finalize-all_confirmed :
      (setting : Setting) (control : Control) (env : String) (proof : Proof) (s : Machine)
      → (command_finalize forge plan names setting control env proof s).1 ≡ ok true
      → all_confirmed
          (confirms_freeze forge)
          names
          (command_finalize forge plan names setting control env proof s).0.calls
        ≡ true
  unfolding command_finalize
  command_finalize-all_confirmed setting control env proof s done =
      let body = command_finalize forge plan names setting control env proof in
      let leads : Leads Anything body IsConfirmed Anything =
        bind-Leads {R = λ a. Anything} (any-Leads _)
          λ evidence. with_lock-Leads forge (finalize_locked-Leads evidence) in
      ground (arith, to_ok IsConfirmed (body s) true (leads.leads s tt) done)
