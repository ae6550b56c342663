-- ===== src/Transition/Authority.antt =====
-- In which order command_enter moves authority: no destination is enabled before every source is
-- disabled.
use platform_gitops.Prelude.{
  ◌≡◌, refl, arith, ap, subst, String, Bool, true, List, [], ◌∷◌, length, map, eq_iff, Option,
}
use platform_gitops.Transition.State.{Call, Forge, Snapshot, for_each, ◌>>◌, pure}
use platform_gitops.Transition.Approval.{Proof}
use platform_gitops.Transition.Prepare.{pair_up}
use platform_gitops.Transition.Enter.{
  save, take_snapshots, disable_source, enable_destination, verify_handover, hand_over,
}
use platform_gitops.Transition.Keeps.{
  Invariant, Keeps, bind-Keeps, pure-Keeps, for_each-Keeps, perform-Keeps, perform_snapshot-Keeps,
  change-Keeps, require-Keeps,
}
use platform_gitops.Transition.Leads.{
  Leads, Keeps→Leads, bind-Leads, pure-Leads, perform-Leads_either, Leads_given, for_each-length,
  Leads_mono, Leads_and,
}
use platform_gitops.Transition.Ordered.{order_of, once_cleared, opened, AllCleared, cleared_in}
use platform_gitops.Transition.Handover.{
  enables, disables, not-enables, IsOrdered, check_handover-Keeps, reconcile_next-Keeps, save-Keeps,
  finish_disable-Keeps, disable_source-Keeps, verify_handover-Keeps,
}

-- The invariant of all calls but the one that gives a destination authority.
abbrev pub order : Forge → List String → Invariant
order forge names = order_of enables (disables forge) names

abbrev once_disabled : Forge → String → Invariant
once_disabled forge name = once_cleared enables (disables forge) name

abbrev AllDisabled : Forge → List String → List Call → Type 0
AllDisabled forge names calls = AllCleared enables (disables forge) names calls

abbrev handed_over : Forge → List String → Invariant
handed_over forge names = opened enables (disables forge) names

module _ (names : List String) (forge : Forge) (plan : String) where
  disable_source-Leads :
      (pair : String × Snapshot)
      → Leads
          (IsOrdered forge names)
          (disable_source forge plan names pair)
          (λ r calls.
            IsOrdered forge names calls × (cleared_in (disables forge) calls pair.0 ≡ true))
          (IsOrdered forge names)
  unfolding disable_source
  disable_source-Leads (name, snapshot) =
      bind-Leads
        (perform-Leads_either
          {R = λ r cs. IsOrdered forge names cs × (cleared_in (disables forge) cs name ≡ true)}
          forge _ (λ cs r same p. (ground arith, ground (arith, same, eq_iff name name)))
          (λ cs p. ground arith))
        λ r.
          Leads_and
            (Keeps→Leads (finish_disable-Keeps (order forge names) not-enables names forge name r))
            (Keeps→Leads
              (finish_disable-Keeps (once_disabled forge name) (λ c h. refl) names forge name r))

  disable_sources-Leads :
      (pairs : List (String × Snapshot))
      → Leads
          (IsOrdered forge names)
          (for_each (disable_source forge plan names) pairs)
          (λ rs calls. IsOrdered forge names calls × AllDisabled forge (map (λ p. p.0) pairs) calls)
          (IsOrdered forge names)
  unfolding for_each
  disable_sources-Leads [] = pure-Leads [] λ cs p. (p, refl)
  disable_sources-Leads ((name, snapshot) ∷ pairs) =
      bind-Leads (disable_source-Leads (name, snapshot)) λ b.
        bind-Leads
          (Leads_and (disable_sources-Leads pairs) (
            Keeps→Leads {i = once_disabled forge name} (
              for_each-Keeps pairs
                (disable_source-Keeps (once_disabled forge name) (λ c h. refl) names forge plan))))
          λ bs. pure-Leads _ λ cs p. (p.0.0, ground (arith, p.0.1, p.1))

  pair_up-names :
      (ns : List String) (bs : List Snapshot)
      → length bs ≡ length ns
      → map (λ p. p.0) (pair_up ns bs) ≡ ns
  unfolding pair_up
  pair_up-names [] bs h = refl
  pair_up-names (n ∷ ns) [] h = absurd (omega (arith, h))
  pair_up-names (n ∷ ns) (b ∷ bs) h = ap (λ ms. n ∷ ms) (pair_up-names ns bs (omega (arith, h)))

  take_snapshots-Leads :
      Leads
        (IsOrdered forge names)
        (take_snapshots forge plan names)
        (λ bs cs. IsOrdered forge names cs × (length bs ≡ length names))
        (IsOrdered forge names)
  unfolding take_snapshots
  take_snapshots-Leads =
      for_each-length {i = order forge names} names λ name. perform_snapshot-Keeps forge _ name refl

  enable_destination-Keeps :
      (name : String) → Keeps (handed_over forge names) (enable_destination forge plan names name)
  unfolding enable_destination save
  enable_destination-Keeps name = bind-Keeps (perform-Keeps forge _ refl) λ r.
      bind-Keeps (require-Keeps _) λ u.
        bind-Keeps (change-Keeps _)
          λ v. save-Keeps (handed_over forge names) (λ c h. refl) names forge

  -- The part of the handover after every source was disabled.
  finish_hand_over-Keeps :
      (pairs : List (String × Option Bool))
      → Keeps (handed_over forge names) (do
        for_each (enable_destination forge plan names) names
        for_each (verify_handover forge plan names) pairs
        pure tt)
  finish_hand_over-Keeps pairs = bind-Keeps (for_each-Keeps names enable_destination-Keeps) λ u.
      bind-Keeps
        (for_each-Keeps pairs
          (verify_handover-Keeps (handed_over forge names) (λ c h. refl) names forge plan))
        λ v. pure-Keeps tt

  pub hand_over-Leads :
      (proof : Proof)
      → Leads
          (IsOrdered forge names)
          (hand_over forge plan names proof)
          (λ u. IsOrdered forge names)
          (IsOrdered forge names)
  unfolding hand_over
  hand_over-Leads proof =
      bind-Leads
        (Keeps→Leads {i = order forge names} (
          for_each-Keeps names
            (check_handover-Keeps (order forge names) not-enables names forge plan proof)))
        λ checked.
          bind-Leads
            (Keeps→Leads {i = order forge names}
              (reconcile_next-Keeps (order forge names) not-enables names forge plan))
            λ relayed.
              bind-Leads (Keeps→Leads {i = order forge names} (require-Keeps _)) λ all_relayed.
                bind-Leads take_snapshots-Leads λ snapshots. Leads_given λ complete.
                  bind-Leads (Keeps→Leads {i = order forge names} (change-Keeps _)) λ changed.
                    bind-Leads
                      (Keeps→Leads {i = order forge names}
                        (save-Keeps (order forge names) not-enables names forge))
                      λ saved.
                        bind-Leads (disable_sources-Leads (pair_up names snapshots)) λ disabled.
                          Leads_mono (Keeps→Leads (finish_hand_over-Keeps (pair_up names disabled)))
                            (λ cs p. (
                              p.0,
                              subst (λ ns. AllDisabled forge ns cs)
                                  (pair_up-names names snapshots complete) p.1,
                            ))
                            (λ u cs p. p.0) (λ cs p. p.0)
