-- ===== src/Transition/Store.antt =====
-- load_state, write_state and StateLock, and the calls that other actions make.
use platform_gitops.Prelude.{
  String, ◌==◌, Bool, true, false, not, ◌&&◌, Option, none, some, List, ◌∷◌, if◌then◌else◌,
}
use platform_gitops.Prelude.Result.{Result, ok, err}
use platform_gitops.Transition.State.{
  Phase, other_phase, TransitionState, tool_name, initial_state, Call, Failure, migration_error,
  other_exception, Forge, StateFile, StatePayload, written, unwritten, uncreated, Snapshot,
  Inventory, Action, write_state,
}

-- `phase in TRANSITION_PHASES`
abbrev pub is_known_phase : Phase → Bool
is_known_phase (other_phase s) = false
is_known_phase _ = true

module _ (forge : Forge) where
  -- A call is recorded and answered.
  unfoldable pub perform : Call → Action (Option Bool)
  perform c s = (record s { calls = c ∷ s.calls }, forge.answer s.calls c)

  unfoldable pub perform_snapshot : Call → String → Action Snapshot
  perform_snapshot c name s = (record s { calls = c ∷ s.calls }, forge.snapshot s.calls name)

  unfoldable pub perform_inventory : Call → String → Action Inventory
  perform_inventory c name s = (record s { calls = c ∷ s.calls }, forge.inventory s.calls name)

  -- The sanitized state with the time of the write.
  unfoldable pub safe_state : TransitionState → List Call → StatePayload
  safe_state st calls = record {
    content = forge.sanitize_state st;
    updated_at = forge.utc_now calls;
    repositories_is_object = true;
  }

  -- `state_sha256` is the digest of the state without it; a write that raises leaves the file.
  unfoldable pub store_state : TransitionState → Action (Unit {0})
  store_state st s = elim (forge.answer s.calls (write_state st)) [
    | err e ↦ (record s { calls = write_state st ∷ s.calls }, err migration_error)
    | ok r ↦ (
      record {
        calls = write_state st ∷ s.calls;
        file = some (record {
          payload = safe_state st s.calls;
          state_sha256 = forge.canonical_digest (safe_state st s.calls);
        });
        lock = s.lock;
        next_state = s.next_state;
      },
      ok tt,
    )
  ]

  -- The proof's digest, or the error of the write.
  unfoldable pub store_proof : String → Bool → Action String
  store_proof command verified s = elim (forge.answer s.calls (Call.write_proof command verified)) [
    | err e ↦
        (record s { calls = Call.write_proof command verified ∷ s.calls }, err migration_error)
    | ok r ↦ (
      record s { calls = Call.write_proof command verified ∷ s.calls },
      ok (forge.proof_digest s.calls),
    )
  ]

  unfoldable pub is_accepted : String → StateFile → Bool
  is_accepted plan_sha256 f =
      (f.payload.content.tool == tool_name && f.payload.content.plan_sha256 == plan_sha256)
      && ((not (f.state_sha256 == "") && f.state_sha256 == forge.canonical_digest f.payload)
          && (is_known_phase f.payload.content.phase && f.payload.repositories_is_object))

  unfoldable pub load_state : String → Bool → Option StateFile → Result Failure TransitionState
  load_state plan_sha256 allow_missing none =
      if allow_missing then ok (initial_state plan_sha256) else err migration_error
  load_state plan_sha256 allow_missing (some f) =
      if is_accepted plan_sha256 f then ok f.payload.content else err migration_error

  unfoldable pub loaded : String → Bool → Action TransitionState
  loaded plan_sha256 allow_missing s = (s, load_state plan_sha256 allow_missing s.file)

  -- `with StateLock(...)`: the lock file is created, or exists. A write that raises leaves it and
  -- the body does not run; it is removed however the body ends, unless the removal raises.
  unfoldable pub with_lock : {A : Type 0} → Action A → Action A
  with_lock body s =
      let (after, r) = body (record s { lock = true }) in
      elim (forge.lock_attempt s.calls) [
        | uncreated e ↦ (s, err e)
        | unwritten ↦
            if s.lock
            then (s, err migration_error)
            else (record s { lock = true }, err other_exception)
        | written ↦
            if s.lock
            then (s, err migration_error)
            else (record after { lock = forge.unlink_raises after.calls }, r)
      ]
