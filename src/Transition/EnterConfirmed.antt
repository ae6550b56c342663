-- ===== src/Transition/EnterConfirmed.antt =====
-- What the success of command_enter says of the CI of the sources.
use platform_gitops.Prelude.{
  ◌≡◌, refl, arith, String, ◌==◌, Bool, true, false, not, ◌&&◌, ◌||◌, Option, none, some, List, [],
  ◌∷◌, all, length, eq_iff,
}
use platform_gitops.Prelude.Result.{ok}
use platform_gitops.Transition.State.{
  Call, Forge, Snapshot, Machine, disable_source_ci, for_each, pure, is_verified, ◌>>◌,
}
use platform_gitops.Transition.Approval.{Proof, Control, Setting}
use platform_gitops.Transition.Prepare.{pair_up}
use platform_gitops.Transition.Enter.{
  disable_source, enable_destination, verify_handover, hand_over, take_snapshots, abandon_handover,
  complete_handover, finish_handover, enter_locked, command_enter,
}
use platform_gitops.Transition.Ordered.{Clears}
use platform_gitops.Transition.Keeps.{
  Invariant, Keeps, bind-Keeps, for_each-Keeps, perform-Keeps, change-Keeps, require-Keeps,
  store_proof-Keeps, perform_snapshot-Keeps,
}
use platform_gitops.Transition.Leads.{
  for_each-length, Leads_given, Leads, Keeps→Leads, bind-Leads, pure-Leads, Leads_mono, Leads_and,
  perform-Leads_either,
}
use platform_gitops.Transition.Returning.{
  Anything, WhereDone, any-Leads, Keeps→Leads_ok, attempt_done-Leads, with_lock-Leads,
  require-Leads, to_ok,
}
use platform_gitops.Transition.Handover.{save-Keeps, disable_source-Keeps}
use platform_gitops.Transition.Confirmed.{
  confirmed, all_confirmed, confirmed_by, confirmed_by_all, one, every, confirmed_sources,
  confirmed-verified,
}

-- A call that disables the CI of a source, and whose result says that it was verified.
abbrev pub confirms : Forge → Clears
confirms forge name older (disable_source_ci n s) =
    name == n && confirmed (forge.answer older (disable_source_ci n s))
confirms forge name older _ = false

module _ (forge : Forge) (plan : String) (names : List String) where
  disable_source-Leads :
      (name : String) (snapshot : Snapshot)
      → Leads Anything
          (disable_source forge plan names (name, snapshot))
          (λ r cs. confirmed_by (confirms forge) cs name r ≡ true)
          Anything
  unfolding disable_source
  disable_source-Leads name snapshot =
      bind-Leads
        (perform-Leads_either {R = λ r cs. confirmed_by (confirms forge) cs name r ≡ true} forge _
          (λ cs r same p. ground (arith, same, eq_iff name name)) (λ cs p. tt))
        λ r. bind-Leads (Keeps→Leads_ok {i = one (confirms forge) name r} (change-Keeps _)) λ u.
          bind-Leads
            (Keeps→Leads_ok {i = one (confirms forge) name r}
              (save-Keeps (one (confirms forge) name r) (λ c h. refl) names forge))
            λ v. pure-Leads r λ cs p. p

  disable_sources-Leads :
      (ns : List String) (bs : List Snapshot)
      → length bs ≡ length ns
      → Leads Anything
          (for_each (disable_source forge plan names) (pair_up ns bs))
          (λ rs cs. confirmed_by_all (confirms forge) ns rs cs ≡ true)
          Anything
  unfolding for_each pair_up
  disable_sources-Leads [] bs h = pure-Leads [] λ cs p. refl
  disable_sources-Leads (n ∷ ns) [] h = absurd (omega (arith, h))
  disable_sources-Leads (n ∷ ns) (b ∷ bs) h = bind-Leads (disable_source-Leads n b) λ r.
      bind-Leads
        (Leads_mono
          (Leads_and (disable_sources-Leads ns bs (omega (arith, h))) (
            Keeps→Leads {i = one (confirms forge) n r} (
              for_each-Keeps (pair_up ns bs)
                (disable_source-Keeps (one (confirms forge) n r) (λ c h. refl) names forge plan))))
          (λ cs p. (tt, p)) (λ rs cs p. p) (λ cs p. tt))
        λ rs. pure-Leads _ λ cs p. ground (arith, p.0, p.1)

  enable_destination-Keeps :
      (ns : List String) (rs : List (Option Bool)) (name : String)
      → Keeps (every (confirms forge) ns rs) (enable_destination forge plan names name)
  unfolding enable_destination
  enable_destination-Keeps ns rs name = bind-Keeps (perform-Keeps forge _ refl) λ r.
      bind-Keeps (require-Keeps _) λ u.
        bind-Keeps (change-Keeps _)
          λ v. save-Keeps (every (confirms forge) ns rs) (λ c h. refl) names forge

  verify_handover-Leads :
      (ns : List String) (rs : List (Option Bool)) (name : String) (r : Option Bool)
      → Leads
          (λ cs. confirmed_by_all (confirms forge) ns rs cs ≡ true)
          (verify_handover forge plan names (name, r))
          (λ u cs. (confirmed_by_all (confirms forge) ns rs cs ≡ true) × (is_verified r ≡ true))
          Anything
  unfolding verify_handover
  verify_handover-Leads ns rs name r =
      bind-Leads (Keeps→Leads_ok {i = every (confirms forge) ns rs} (perform-Keeps forge _ refl))
        λ a.
          bind-Leads
            (Keeps→Leads_ok {i = every (confirms forge) ns rs} (perform-Keeps forge _ refl))
            λ b.
              Leads_mono (require-Leads _) (λ cs p. p) (λ u cs p. (p.0, ground (arith, p.1)))
                (λ cs p. tt)

  verify_handovers-Leads :
      (ns : List String) (rs : List (Option Bool)) (pairs : List (String × Option Bool))
      → Leads
          (λ cs. confirmed_by_all (confirms forge) ns rs cs ≡ true)
          (for_each (verify_handover forge plan names) pairs)
          (λ us cs.
            (confirmed_by_all (confirms forge) ns rs cs ≡ true)
            × (all (λ p. is_verified p.1) pairs ≡ true))
          Anything
  unfolding for_each
  verify_handovers-Leads ns rs [] = pure-Leads [] λ cs p. (p, refl)
  verify_handovers-Leads ns rs ((name, r) ∷ pairs) =
      bind-Leads (verify_handover-Leads ns rs name r) λ u. Leads_given λ verified.
        bind-Leads (verify_handovers-Leads ns rs pairs)
          λ us. pure-Leads _ λ cs p. (p.0, ground (arith, verified, p.1))

  -- The part of the handover behind the disabling of the sources.
  finish_hand_over-Leads :
      (rs : List (Option Bool))
      → Leads
          (λ cs. confirmed_by_all (confirms forge) names rs cs ≡ true)
          (do
            for_each (enable_destination forge plan names) names
            for_each (verify_handover forge plan names) (pair_up names rs)
            pure tt)
          (λ u cs. all_confirmed (confirms forge) names cs ≡ true)
          Anything
  finish_hand_over-Leads rs =
      bind-Leads
        (Keeps→Leads_ok {i = every (confirms forge) names rs}
          (for_each-Keeps names (enable_destination-Keeps names rs)))
        λ u.
          bind-Leads (verify_handovers-Leads names rs (pair_up names rs))
            λ v. pure-Leads tt λ cs p. confirmed-verified (confirms forge) names rs cs p.0 p.1

  abbrev no_rule : Invariant
  no_rule = record { holds = Anything; allowed = λ c. true; keep = λ c cs h p. tt }

  take_snapshots-Leads :
      Leads Anything
        (take_snapshots forge plan names)
        (λ bs cs. Anything cs × (length bs ≡ length names))
        Anything
  unfolding take_snapshots
  take_snapshots-Leads =
      for_each-length {i = no_rule} names λ name. perform_snapshot-Keeps forge _ name refl

  hand_over-Leads :
      (proof : Proof)
      → Leads Anything
          (hand_over forge plan names proof)
          (λ u cs. all_confirmed (confirms forge) names cs ≡ true)
          Anything
  unfolding hand_over
  hand_over-Leads proof = bind-Leads {R = λ a. Anything} (any-Leads _) λ checked.
      bind-Leads {R = λ a. Anything} (any-Leads _) λ relayed.
        bind-Leads {R = λ a. Anything} (any-Leads _) λ required.
          bind-Leads take_snapshots-Leads λ snapshots. Leads_given λ complete.
            bind-Leads {R = λ a. Anything} (any-Leads _) λ changed.
              bind-Leads {R = λ a. Anything} (any-Leads _) λ saved.
                bind-Leads (disable_sources-Leads names snapshots complete)
                  λ disabled. finish_hand_over-Leads disabled

  abbrev IsConfirmed : Bool → List Call → Type 0
  IsConfirmed entered cs = (not entered || all_confirmed (confirms forge) names cs) ≡ true

  finish_handover-Leads :
      (outcome : Option (Unit {0}))
      → Leads
          (WhereDone (λ u cs. all_confirmed (confirms forge) names cs ≡ true) outcome)
          (finish_handover forge plan names outcome)
          IsConfirmed
          Anything
  unfolding abandon_handover complete_handover
  finish_handover-Leads none = bind-Leads {R = λ a. Anything} (any-Leads _) λ state.
      bind-Leads {R = λ a. Anything} (any-Leads _) λ pair.
        bind-Leads {R = λ a. Anything} (any-Leads _) λ stored.
          bind-Leads {R = λ a. Anything} (any-Leads _) λ proof. pure-Leads false λ cs p. refl
  finish_handover-Leads (some u) =
      let i = confirmed_sources (confirms forge) names in
      bind-Leads (Keeps→Leads_ok {i = i} (store_proof-Keeps forge _ _ refl)) λ digest.
        bind-Leads (Keeps→Leads_ok {i = i} (change-Keeps _)) λ v.
          bind-Leads (Keeps→Leads_ok {i = i} (save-Keeps i (λ c h. refl) names forge))
            λ w. pure-Leads true λ cs p. ground (arith, p)

  enter_locked-Leads :
      (proof : Proof) → Leads Anything (enter_locked forge plan names proof) IsConfirmed Anything
  unfolding enter_locked
  enter_locked-Leads proof = bind-Leads {R = λ a. Anything} (any-Leads _) λ state.
      bind-Leads {R = λ a. Anything} (any-Leads _) λ u.
        bind-Leads {R = λ a. Anything} (any-Leads _) λ v.
          bind-Leads {R = λ a. Anything} (any-Leads _) λ w.
            bind-Leads (attempt_done-Leads (hand_over-Leads proof))
              λ outcome. finish_handover-Leads outcome

  -- Where command_enter succeeds, the calls hold, for every repository of the plan, one of
  -- disable_source_ci that returned a result which says that it was verified.
  pub command_enter-all_confirmed :
      (setting : Setting) (control : Control) (env : String) (proof : Proof) (s : Machine)
      → (command_enter forge plan names setting control env proof s).1 ≡ ok true
      → all_confirmed
          (confirms forge)
          names
          (command_enter forge plan names setting control env proof s).0.calls
        ≡ true
  unfolding command_enter
  command_enter-all_confirmed setting control env proof s entered =
      let body = command_enter forge plan names setting control env proof in
      let leads : Leads Anything body IsConfirmed Anything =
        bind-Leads {R = λ a. Anything} (any-Leads _)
          λ shadow_proof. with_lock-Leads forge (enter_locked-Leads shadow_proof) in
      ground (arith, to_ok IsConfirmed (body s) true (leads.leads s tt) entered)
