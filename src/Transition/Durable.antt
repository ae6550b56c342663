-- ===== src/Transition/Durable.antt =====
-- What load_state accepts: the states that write_state stored, for the same plan.
use platform_gitops.Prelude.{
  ap, ◌∙◌, ◌≡◌, ◌≢◌, ◌↔◌, refl, arith, String, Bool, true, some, eq_iff, Bool-cases, inl, inr,
}
use platform_gitops.Prelude.Result.{ok}
use platform_gitops.Transition.State.{TransitionState, Forge, StateFile, Machine, tool_name}
use platform_gitops.Transition.Store.{
  is_known_phase, is_accepted, load_state, safe_state, store_state,
}

-- A state file that was stored for the plan and has not been changed since.
abbrev pub IsIntact : Forge → String → StateFile → Type 0
IsIntact forge plan f =
    (f.payload.content.tool ≡ tool_name)
    × (f.payload.content.plan_sha256 ≡ plan)
    × (f.state_sha256 ≢ "")
    × (f.state_sha256 ≡ forge.canonical_digest f.payload)
    × (is_known_phase f.payload.content.phase ≡ true)
    × (f.payload.repositories_is_object ≡ true)

module _ (forge : Forge) (plan : String) where
  is_accepted-IsIntact : (f : StateFile) → is_accepted forge plan f ≡ true → IsIntact forge plan f
  unfolding is_accepted
  is_accepted-IsIntact f h = (
    ground (arith, eq_iff f.payload.content.tool tool_name),
    ground (arith, eq_iff f.payload.content.plan_sha256 plan),
    (λ e. ground (arith, eq_iff f.state_sha256 "")),
    ground (arith, eq_iff f.state_sha256 (forge.canonical_digest f.payload)),
    ground arith,
    ground arith,
  )

  intact-is_accepted : (f : StateFile) → IsIntact forge plan f → is_accepted forge plan f ≡ true
  unfolding is_accepted
  intact-is_accepted f (t, p, n, d, k, o) = ground (
    arith,
    t,
    p,
    n,
    d,
    k,
    o,
    eq_iff f.payload.content.tool tool_name,
    eq_iff f.payload.content.plan_sha256 plan,
    eq_iff f.state_sha256 "",
    eq_iff f.state_sha256 (forge.canonical_digest f.payload),
  )

  -- A state file is loaded exactly when it is of this tool and plan, its recorded digest is not empty
  -- and is that of what it holds, its phase is known and its repositories are an object; what is
  -- loaded is its content.
  pub load_state-IsIntact :
      (allow_missing : Bool) (f : StateFile) (st : TransitionState)
      → (load_state forge plan allow_missing (some f) ≡ ok st)
        ↔ (IsIntact forge plan f × (f.payload.content ≡ st))
  unfolding load_state
  load_state-IsIntact allow_missing f st = (
    (λ h. elim (Bool-cases (is_accepted forge plan f)) [
      | inl good ↦ (is_accepted-IsIntact f good, ground (arith, good, h))
      | inr bad ↦ absurd (ground (arith, bad, h))
    ]),
    (λ (intact, same). ground (arith, intact-is_accepted f intact, same)),
  )

  stored_file :
      (st : TransitionState) (s : Machine)
      → (store_state forge st s).1 ≡ ok tt
      → (store_state forge st s).0.file
        ≡ some (record {
          payload = safe_state forge st s.calls;
          state_sha256 = forge.canonical_digest (safe_state forge st s.calls);
        })
  unfolding store_state
  stored_file st s h = ground (arith, h)

  -- After write_state has stored a state without raising, load_state returns its sanitized form, where
  -- that form is of this tool and plan and in a known phase, and its digest is not empty.
  pub load_state-store_state :
      (allow_missing : Bool) (st : TransitionState) (s : Machine)
      → (store_state forge st s).1 ≡ ok tt
      → (forge.sanitize_state st).tool ≡ tool_name
      → (forge.sanitize_state st).plan_sha256 ≡ plan
      → is_known_phase (forge.sanitize_state st).phase ≡ true
      → forge.canonical_digest (safe_state forge st s.calls) ≢ ""
      → load_state forge plan allow_missing (store_state forge st s).0.file
        ≡ ok (forge.sanitize_state st)
  unfolding safe_state
  load_state-store_state allow_missing st s stored t p k d =
      let f : StateFile = record {
        payload = safe_state forge st s.calls;
        state_sha256 = forge.canonical_digest (safe_state forge st s.calls);
      } in
      ap (load_state forge plan allow_missing) (stored_file st s stored)
      ∙ (load_state-IsIntact allow_missing f (forge.sanitize_state st)).1
          ((t, p, d, refl, k, refl), refl)
