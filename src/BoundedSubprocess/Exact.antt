-- ===== src/BoundedSubprocess/Exact.antt =====
-- What the results of run_bounded say of the output that was read.
use platform_gitops.Prelude.{
  ℕ, ◌+◌, ◌≤◌, ◌<◌, ◌≡◌, refl, arith, ap, sym, subst, ◌∙◌, String, Bool, true, false, List, length,
  Bool-cases, inl, inr,
}
use platform_gitops.BoundedSubprocess.Capture.{
  Reader, reading, stopping, ended, calling, Capture, started, retain_stdout, retain_stderr,
}
use platform_gitops.BoundedSubprocess.Threads.{
  Step, Reach, here, next, stdout_chunk, stderr_chunk, stdout_eof, stderr_eof, stdout_raises,
  stderr_raises, stdout_terminates, stderr_terminates, callback_goes_on, callback_stops,
  callback_raises, input_written, input_raises, main_terminates,
}
use platform_gitops.BoundedSubprocess.Outcome.{
  completed, output_limit_exceeded, run_result, is_alive,
}
use platform_gitops.BoundedSubprocess.Sound.{IsPrefix, Reach-IsSound}

-- What later steps keep: the event stays set, and a reader that has returned reads no more.
record Keeps (s t : Capture) : Type 0 where
  exceeded_kept : s.exceeded ≡ true → t.exceeded ≡ true
  stdout_kept :
      s.stdout_reader ≡ ended → (t.stdout_reader ≡ ended) × (t.stdout_read ≡ s.stdout_read)
  stderr_kept :
      s.stderr_reader ≡ ended → (t.stderr_reader ≡ ended) × (t.stderr_read ≡ s.stderr_read)

module _ (s t : Capture) where
  other-Keeps :
      (f : List String) (k w : Bool) (out err : Reader)
      → (s.stdout_reader ≡ ended → out ≡ ended)
      → (s.stderr_reader ≡ ended → err ≡ ended)
      → t ≡ record s {
        reader_failures = f;
        killed = k;
        stdout_reader = out;
        stderr_reader = err;
        writer_alive = w;
      }
      → Keeps s t
  other-Keeps f k w out err o r e = subst (Keeps s) (sym e) (record {
    exceeded_kept = λ h. h;
    stdout_kept = λ h. (o h, refl);
    stderr_kept = λ h. (r h, refl);
  })

  reading-not_ended : (r : Reader) → r ≡ reading → r ≡ ended → ⊥
  reading-not_ended r h k = cc

-- A reader in another place has not returned.
elsewhere : (r r' x : Reader) → r ≡ r' → is_alive r' ≡ true → r ≡ ended → x ≡ ended
elsewhere r reading x h a k = cc
elsewhere r stopping x h a k = cc
elsewhere r (calling c) x h a k = cc
elsewhere r ended x h a k = cc

retain_stdout-Keeps :
    (limit : ℕ) (has_callback : Bool) (chunk : List ℕ) (s : Capture)
    → s.stdout_reader ≡ reading
    → Keeps s (retain_stdout limit has_callback chunk s)
unfolding retain_stdout
retain_stdout-Keeps limit has_callback chunk s r = record {
  exceeded_kept = λ h. ground (arith, h);
  stdout_kept = λ h. absurd (reading-not_ended s s s.stdout_reader r h);
  stderr_kept = λ h. (h, refl);
}

retain_stderr-Keeps :
    (limit : ℕ) (chunk : List ℕ) (s : Capture)
    → s.stderr_reader ≡ reading
    → Keeps s (retain_stderr limit chunk s)
unfolding retain_stderr
retain_stderr-Keeps limit chunk s r = record {
  exceeded_kept = λ h. ground (arith, h);
  stdout_kept = λ h. (h, refl);
  stderr_kept = λ h. absurd (reading-not_ended s s s.stderr_reader r h);
}

Step-Keeps :
    {limit : ℕ} {has_callback : Bool} {s t : Capture} → Step limit has_callback s t → Keeps s t
Step-Keeps {limit} {has_callback} {s} {t} (stdout_chunk chunk r e) =
    subst (Keeps s) (sym e) (retain_stdout-Keeps limit has_callback chunk s r)
Step-Keeps {limit} {has_callback} {s} {t} (stderr_chunk chunk r e) =
    subst (Keeps s) (sym e) (retain_stderr-Keeps limit chunk s r)
Step-Keeps {s = s} {t = t} (stdout_eof r e) =
    other-Keeps s t _ _ _ _ _ (elsewhere _ _ _ r refl) (λ h. h) e
Step-Keeps {s = s} {t = t} (stderr_eof r e) =
    other-Keeps s t _ _ _ _ _ (λ h. h) (elsewhere _ _ _ r refl) e
Step-Keeps {s = s} {t = t} (stdout_raises f r e) =
    other-Keeps s t _ _ _ _ _ (elsewhere _ _ _ r refl) (λ h. h) e
Step-Keeps {s = s} {t = t} (stderr_raises f r e) =
    other-Keeps s t _ _ _ _ _ (λ h. h) (elsewhere _ _ _ r refl) e
Step-Keeps {s = s} {t = t} (stdout_terminates r e) =
    other-Keeps s t _ _ _ _ _ (elsewhere _ _ _ r refl) (λ h. h) e
Step-Keeps {s = s} {t = t} (stderr_terminates r e) =
    other-Keeps s t _ _ _ _ _ (λ h. h) (elsewhere _ _ _ r refl) e
Step-Keeps {s = s} {t = t} (callback_goes_on c r e) =
    other-Keeps s t _ _ _ _ _ (elsewhere _ _ _ r refl) (λ h. h) e
Step-Keeps {s = s} {t = t} (callback_stops c r e) =
    other-Keeps s t _ _ _ _ _ (elsewhere _ _ _ r refl) (λ h. h) e
Step-Keeps {s = s} {t = t} (callback_raises c f r e) =
    other-Keeps s t _ _ _ _ _ (elsewhere _ _ _ r refl) (λ h. h) e
Step-Keeps {s = s} {t = t} (input_written r e) = other-Keeps s t _ _ _ _ _ (λ h. h) (λ h. h) e
Step-Keeps {s = s} {t = t} (input_raises f r e) = other-Keeps s t _ _ _ _ _ (λ h. h) (λ h. h) e
Step-Keeps {s = s} {t = t} (main_terminates e) = other-Keeps s t _ _ _ _ _ (λ h. h) (λ h. h) e

Reach-Keeps :
    {limit : ℕ} {has_callback : Bool} {s t : Capture} → Reach limit has_callback s t → Keeps s t
Reach-Keeps here = record {
  exceeded_kept = λ h. h;
  stdout_kept = λ h. (h, refl);
  stderr_kept = λ h. (h, refl);
}
Reach-Keeps (next r st) =
    let k = Reach-Keeps r in
    let l = Step-Keeps st in
    record {
      exceeded_kept = λ h. l.exceeded_kept (k.exceeded_kept h);
      stdout_kept = λ h.
          let (at, same) = k.stdout_kept h in
          let (now, again) = l.stdout_kept at in (now, again ∙ same);
      stderr_kept = λ h.
          let (at, same) = k.stderr_kept h in
          let (now, again) = l.stderr_kept at in (now, again ∙ same);
    }

Reach-trans :
    {limit : ℕ} {has_callback : Bool} {s t u : Capture}
    → Reach limit has_callback s t
    → Reach limit has_callback t u
    → Reach limit has_callback s u
Reach-trans r here = r
Reach-trans r (next q st) = next (Reach-trans r q) st

not_exceeded : {s t : Capture} → Keeps s t → t.exceeded ≡ false → s.exceeded ≡ false
not_exceeded {s = s} k h = elim (Bool-cases s.exceeded) [
  | inl past ↦ absurd (ground (arith, h, k.exceeded_kept past))
  | inr within ↦ within
]

module _ (limit : ℕ) (has_callback : Bool) (copied asked joined : Capture) where
  -- The capture is copied, then the event is asked, then the threads, with any steps in between.
  pub record IsRun : Type 0 where
    pub ran : Reach limit has_callback started copied
    pub went_on : Reach limit has_callback copied asked
    pub ended_with : Reach limit has_callback asked joined

  run_result-parts :
      (timed_out check : Bool) (returncode : ℕ) (out err : List ℕ)
      → run_result timed_out check returncode copied asked joined ≡ completed out err
      → (timed_out ≡ false)
        × (asked.exceeded ≡ false)
        × (copied.stdout_buffer ≡ out)
        × (copied.stderr_buffer ≡ err)
        × (check ≡ true → returncode ≡ 0)
  unfolding run_result
  run_result-parts timed_out check returncode out err h = (
    ground (arith, h),
    ground (arith, h),
    ground (arith, h),
    ground (arith, h),
    λ c. ground (arith, h, c),
  )

  -- Bytes that are returned are all that the readers had read when the buffers were copied, within the
  -- limit, and, from a reader that had returned by then, all that it ever reads; the child was not
  -- timed out, and its return code is 0 where it is checked.
  pub run_result-completed :
      (timed_out check : Bool) (returncode : ℕ) (out err : List ℕ)
      → IsRun
      → run_result timed_out check returncode copied asked joined ≡ completed out err
      → (out ≡ copied.stdout_read)
        × (err ≡ copied.stderr_read)
        × (length out + length err ≤ limit)
        × (copied.stdout_reader ≡ ended → out ≡ joined.stdout_read)
        × (copied.stderr_reader ≡ ended → err ≡ joined.stderr_read)
        × (timed_out ≡ false)
        × (check ≡ true → returncode ≡ 0)
  run_result-completed timed_out check returncode out err run h =
      let (in_time, asked_within, is_out, is_err, code) =
        run_result-parts timed_out check returncode out err h in
      let i = Reach-IsSound run.ran in
      let k = Reach-Keeps run.went_on in
      let l = Reach-Keeps run.ended_with in
      let within : copied.exceeded ≡ false = not_exceeded k asked_within in
      let whole_out : out ≡ copied.stdout_read = sym is_out ∙ i.stdout_whole within in
      let whole_err : err ≡ copied.stderr_read = sym is_err ∙ i.stderr_whole within in
      (
        whole_out,
        whole_err,
        omega (arith, ap length is_out, ap length is_err, i.counted, i.within),
        (λ e.
            let (still, same) = k.stdout_kept e in
            whole_out ∙ sym ((l.stdout_kept still).1 ∙ same)),
        (λ e.
            let (still, same) = k.stderr_kept e in
            whole_err ∙ sym ((l.stderr_kept still).1 ∙ same)),
        in_time,
        code,
      )

  exceeded-parts :
      (timed_out check : Bool) (returncode : ℕ) (out err : List ℕ)
      → run_result timed_out check returncode copied asked joined ≡ output_limit_exceeded out err
      → (asked.exceeded ≡ true) × (copied.stdout_buffer ≡ out) × (copied.stderr_buffer ≡ err)
  unfolding run_result
  exceeded-parts timed_out check returncode out err h =
      (ground (arith, h), ground (arith, h), ground (arith, h))

  -- The limit error is raised only when the readers have read more than the limit, and the output in
  -- it is within the limit, a prefix of what was read from each stream.
  pub run_result-exceeded :
      (timed_out check : Bool) (returncode : ℕ) (out err : List ℕ)
      → IsRun
      → run_result timed_out check returncode copied asked joined ≡ output_limit_exceeded out err
      → (limit < length asked.stdout_read + length asked.stderr_read)
        × (length out + length err ≤ limit)
        × IsPrefix out copied.stdout_read
        × IsPrefix err copied.stderr_read
  run_result-exceeded timed_out check returncode out err run h =
      let (past, is_out, is_err) = exceeded-parts timed_out check returncode out err h in
      let i = Reach-IsSound run.ran in
      let j = Reach-IsSound (Reach-trans run.ran run.went_on) in
      (
        j.passed past,
        omega (arith, ap length is_out, ap length is_err, i.counted, i.within),
        subst (λ b. IsPrefix b copied.stdout_read) is_out i.stdout_prefix,
        subst (λ b. IsPrefix b copied.stderr_read) is_err i.stderr_prefix,
      )
