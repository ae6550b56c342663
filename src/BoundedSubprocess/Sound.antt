-- ===== src/BoundedSubprocess/Sound.antt =====
-- What holds of the capture in every interleaving of the threads.
use platform_gitops.Prelude.{
  ℕ, ◌+◌, ◌≤◌, ◌<◌, ◌≡◌, refl, arith, ap, sym, subst, String, ◌∙◌, Bool, true, false, ◌||◌, List,
  [], ◌++◌, length, length-append, ltb→lt, Bool-cases, inl, inr,
}
use platform_gitops.Prelude.Sequences.{
  take, drop, take-drop, length-take, take_all, append_nil, append_assoc,
}
use platform_gitops.BoundedSubprocess.Capture.{
  Reader, Capture, started, remaining, over, retain_stdout, retain_stderr,
}
use platform_gitops.BoundedSubprocess.Threads.{
  Step, Reach, here, next, stdout_chunk, stderr_chunk, stdout_eof, stderr_eof, stdout_raises,
  stderr_raises, stdout_terminates, stderr_terminates, callback_goes_on, callback_stops,
  callback_raises, input_written, input_raises, main_terminates,
}

-- One buffer and what was read from its stream: a prefix, and all of it until the limit is passed.
abbrev pub IsPrefix : List ℕ → List ℕ → Type 0
IsPrefix xs ys = (rest : List ℕ) × (xs ++ rest ≡ ys)

pub record IsSound (limit : ℕ) (c : Capture) : Type 0 where
  pub counted : c.retained_total ≡ length c.stdout_buffer + length c.stderr_buffer
  pub within : c.retained_total ≤ limit
  pub stdout_prefix : IsPrefix c.stdout_buffer c.stdout_read
  pub stderr_prefix : IsPrefix c.stderr_buffer c.stderr_read
  pub stdout_whole : c.exceeded ≡ false → c.stdout_buffer ≡ c.stdout_read
  pub stderr_whole : c.exceeded ≡ false → c.stderr_buffer ≡ c.stderr_read
  pub full : c.exceeded ≡ true → c.retained_total ≡ limit
  pub passed : c.exceeded ≡ true → limit < length c.stdout_read + length c.stderr_read

pub started-IsSound : (limit : ℕ) → IsSound limit started
unfolding started
started-IsSound limit = record {
  counted = omega arith;
  within = omega arith;
  stdout_prefix = ([], refl);
  stderr_prefix = ([], refl);
  stdout_whole = λ h. refl;
  stderr_whole = λ h. refl;
  full = λ h. cc;
  passed = λ h. cc;
}

-- A chunk for one buffer, whatever the other holds.
module _ (limit : ℕ) (c : Capture) (i : IsSound limit c) (chunk : List ℕ) where
  retained-prefix :
      (buffer read : List ℕ)
      → IsPrefix buffer read
      → (c.exceeded ≡ false → buffer ≡ read)
      → IsPrefix (buffer ++ take (remaining limit c) chunk) (read ++ chunk)
  unfolding take
  retained-prefix buffer read (rest, split) whole = elim (Bool-cases c.exceeded) [
    | inr within ↦ (
      drop (remaining limit c) chunk,
      append_assoc buffer (take (remaining limit c) chunk) (drop (remaining limit c) chunk)
          ∙ (ap (λ r. buffer ++ r) (take-drop (remaining limit c) chunk)
              ∙ ap (λ b. b ++ chunk) (whole within)),
    )
    | inl past ↦
        let none_left : remaining limit c ≡ 0 = omega (arith, i.full past) in
        (
          rest ++ chunk,
          ap (λ n. (buffer ++ take n chunk) ++ (rest ++ chunk)) none_left
              ∙ (ap (λ b. b ++ (rest ++ chunk)) (append_nil buffer)
                  ∙ (sym (append_assoc buffer rest chunk) ∙ ap (λ r. r ++ chunk) split)),
        )
  ]

  retained-whole :
      (buffer read : List ℕ)
      → (c.exceeded ≡ false → buffer ≡ read)
      → (c.exceeded || over limit c chunk) ≡ false
      → buffer ++ take (remaining limit c) chunk ≡ read ++ chunk
  retained-whole buffer read whole h =
      ap (λ r. buffer ++ r) (take_all (remaining limit c) chunk (ground (arith, h)))
      ∙ ap (λ b. b ++ chunk) (whole (ground (arith, h)))

  retained-le : c.retained_total + length (take (remaining limit c) chunk) ≤ limit
  retained-le = omega (arith, length-take (remaining limit c) chunk, i.within)

  retained-full :
      (c.exceeded || over limit c chunk) ≡ true
      → c.retained_total + length (take (remaining limit c) chunk) ≡ limit
  retained-full h = elim (Bool-cases c.exceeded) [
    | inl past ↦ omega (arith, length-take (remaining limit c) chunk, i.full past)
    | inr within ↦ omega (
      arith,
      length-take (remaining limit c) chunk,
      i.within,
      ltb→lt (remaining limit c) (length chunk) (ground (arith, h, within)),
    )
  ]

  retained-passed :
      (c.exceeded || over limit c chunk) ≡ true
      → limit < length c.stdout_read + length c.stderr_read + length chunk
  retained-passed h = elim (Bool-cases c.exceeded) [
    | inl past ↦ omega (arith, i.passed past)
    | inr within ↦ omega (
      arith,
      ap length (i.stdout_whole within),
      ap length (i.stderr_whole within),
      i.counted,
      i.within,
      ltb→lt (remaining limit c) (length chunk) (ground (arith, h, within)),
    )
  ]

  retain_stdout-IsSound :
      (has_callback : Bool) → IsSound limit (retain_stdout limit has_callback chunk c)
  unfolding retain_stdout
  retain_stdout-IsSound has_callback = record {
    counted =
        omega (arith, i.counted, length-append c.stdout_buffer (take (remaining limit c) chunk));
    within = retained-le;
    stdout_prefix = retained-prefix c.stdout_buffer c.stdout_read i.stdout_prefix i.stdout_whole;
    stderr_prefix = i.stderr_prefix;
    stdout_whole = retained-whole c.stdout_buffer c.stdout_read i.stdout_whole;
    stderr_whole = λ h. i.stderr_whole (ground (arith, h));
    full = retained-full;
    passed = λ h. omega (arith, retained-passed h, length-append c.stdout_read chunk);
  }

  retain_stderr-IsSound : IsSound limit (retain_stderr limit chunk c)
  unfolding retain_stderr
  retain_stderr-IsSound = record {
    counted =
        omega (arith, i.counted, length-append c.stderr_buffer (take (remaining limit c) chunk));
    within = retained-le;
    stdout_prefix = i.stdout_prefix;
    stderr_prefix = retained-prefix c.stderr_buffer c.stderr_read i.stderr_prefix i.stderr_whole;
    stdout_whole = λ h. i.stdout_whole (ground (arith, h));
    stderr_whole = retained-whole c.stderr_buffer c.stderr_read i.stderr_whole;
    full = retained-full;
    passed = λ h. omega (arith, retained-passed h, length-append c.stderr_read chunk);
  }

-- The other steps change none of these fields.
module _ (limit : ℕ) (has_callback : Bool) (s : Capture) (i : IsSound limit s) where
  unchanged-IsSound :
      (f : List String) (k w : Bool) (out err : Reader)
      → IsSound limit (record s {
        reader_failures = f;
        killed = k;
        stdout_reader = out;
        stderr_reader = err;
        writer_alive = w;
      })
  unchanged-IsSound f k w out err = record {
    counted = i.counted;
    within = i.within;
    stdout_prefix = i.stdout_prefix;
    stderr_prefix = i.stderr_prefix;
    stdout_whole = i.stdout_whole;
    stderr_whole = i.stderr_whole;
    full = i.full;
    passed = i.passed;
  }

  other-IsSound :
      (t : Capture) (f : List String) (k w : Bool) (out err : Reader)
      → t ≡ record s {
        reader_failures = f;
        killed = k;
        stdout_reader = out;
        stderr_reader = err;
        writer_alive = w;
      }
      → IsSound limit t
  other-IsSound t f k w out err e = subst (IsSound limit) (sym e) (unchanged-IsSound f k w out err)

pub Step-IsSound :
    {limit : ℕ} {has_callback : Bool} {s t : Capture}
    → Step limit has_callback s t
    → IsSound limit s
    → IsSound limit t
Step-IsSound {limit} {has_callback} {s} {t} (stdout_chunk chunk r e) i =
    subst (IsSound limit) (sym e) (retain_stdout-IsSound limit s i chunk has_callback)
Step-IsSound {limit} {has_callback} {s} {t} (stderr_chunk chunk r e) i =
    subst (IsSound limit) (sym e) (retain_stderr-IsSound limit s i chunk)
Step-IsSound {limit} {has_callback} {s} {t} (stdout_eof r e) i =
    other-IsSound limit has_callback s i t _ _ _ _ _ e
Step-IsSound {limit} {has_callback} {s} {t} (stderr_eof r e) i =
    other-IsSound limit has_callback s i t _ _ _ _ _ e
Step-IsSound {limit} {has_callback} {s} {t} (stdout_raises f r e) i =
    other-IsSound limit has_callback s i t _ _ _ _ _ e
Step-IsSound {limit} {has_callback} {s} {t} (stderr_raises f r e) i =
    other-IsSound limit has_callback s i t _ _ _ _ _ e
Step-IsSound {limit} {has_callback} {s} {t} (stdout_terminates r e) i =
    other-IsSound limit has_callback s i t _ _ _ _ _ e
Step-IsSound {limit} {has_callback} {s} {t} (stderr_terminates r e) i =
    other-IsSound limit has_callback s i t _ _ _ _ _ e
Step-IsSound {limit} {has_callback} {s} {t} (callback_goes_on c r e) i =
    other-IsSound limit has_callback s i t _ _ _ _ _ e
Step-IsSound {limit} {has_callback} {s} {t} (callback_stops c r e) i =
    other-IsSound limit has_callback s i t _ _ _ _ _ e
Step-IsSound {limit} {has_callback} {s} {t} (callback_raises c f r e) i =
    other-IsSound limit has_callback s i t _ _ _ _ _ e
Step-IsSound {limit} {has_callback} {s} {t} (input_written r e) i =
    other-IsSound limit has_callback s i t _ _ _ _ _ e
Step-IsSound {limit} {has_callback} {s} {t} (input_raises f r e) i =
    other-IsSound limit has_callback s i t _ _ _ _ _ e
Step-IsSound {limit} {has_callback} {s} {t} (main_terminates e) i =
    other-IsSound limit has_callback s i t _ _ _ _ _ e

-- In every interleaving of the readers, the writer and the main thread from the start: the two
-- buffers together hold `retained_total` bytes, no more than the limit; each is a prefix of what was
-- read from its stream, and all of it unless the event is set; and the event is set only when more
-- than the limit was read, with the buffers full.
pub Reach-IsSound :
    {limit : ℕ} {has_callback : Bool} {c : Capture}
    → Reach limit has_callback started c
    → IsSound limit c
Reach-IsSound {limit} here = started-IsSound limit
Reach-IsSound (next r st) = Step-IsSound st (Reach-IsSound r)
