-- ===== src/BoundedSubprocess/Threads.antt =====
-- The steps of the threads, in any order: read_stream for the two streams, and write_input.
use platform_gitops.Prelude.{ℕ, ◌≡◌, String, Bool, true, false, List, [], ◌∷◌, ◌++◌}
use platform_gitops.BoundedSubprocess.Capture.{
  reading, stopping, ended, calling, Capture, retain_stdout, retain_stderr,
}

-- One step of one thread from `s` to `t`. What a stream, the callback and the child do is free.
pub data Step (limit : ℕ) (has_callback : Bool) (s t : Capture) : Type 0 where
  stdout_chunk :
      (chunk : List ℕ)
      → s.stdout_reader ≡ reading
      → t ≡ retain_stdout limit has_callback chunk s
      → Step limit has_callback s t
  stderr_chunk :
      (chunk : List ℕ)
      → s.stderr_reader ≡ reading
      → t ≡ retain_stderr limit chunk s
      → Step limit has_callback s t
  -- `if not chunk: return`
  stdout_eof :
      s.stdout_reader ≡ reading
      → t ≡ record s { stdout_reader = ended }
      → Step limit has_callback s t
  stderr_eof :
      s.stderr_reader ≡ reading
      → t ≡ record s { stderr_reader = ended }
      → Step limit has_callback s t
  -- `except (OSError, ValueError)`
  stdout_raises :
      (failure : String)
      → s.stdout_reader ≡ reading
      → t
        ≡ record s { reader_failures = s.reader_failures ++ failure ∷ []; stdout_reader = stopping }
      → Step limit has_callback s t
  stderr_raises :
      (failure : String)
      → s.stderr_reader ≡ reading
      → t
        ≡ record s { reader_failures = s.reader_failures ++ failure ∷ []; stderr_reader = stopping }
      → Step limit has_callback s t
  -- `terminate()`, and the thread returns.
  stdout_terminates :
      s.stdout_reader ≡ stopping
      → t ≡ record s { killed = true; stdout_reader = ended }
      → Step limit has_callback s t
  stderr_terminates :
      s.stderr_reader ≡ stopping
      → t ≡ record s { killed = true; stderr_reader = ended }
      → Step limit has_callback s t
  -- `stdout_callback(chunk)` returns False, returns True, or raises.
  callback_goes_on :
      (chunk : List ℕ)
      → s.stdout_reader ≡ calling chunk
      → t ≡ record s { stdout_reader = reading }
      → Step limit has_callback s t
  callback_stops :
      (chunk : List ℕ)
      → s.stdout_reader ≡ calling chunk
      → t ≡ record s { stdout_reader = stopping }
      → Step limit has_callback s t
  callback_raises :
      (chunk : List ℕ) (failure : String)
      → s.stdout_reader ≡ calling chunk
      → t
        ≡ record s { reader_failures = s.reader_failures ++ failure ∷ []; stdout_reader = stopping }
      → Step limit has_callback s t
  -- write_input returns, or raises another error than BrokenPipeError and terminates the child.
  input_written :
      s.writer_alive ≡ true → t ≡ record s { writer_alive = false } → Step limit has_callback s t
  input_raises :
      (failure : String)
      → s.writer_alive ≡ true
      → t ≡ record s {
        reader_failures = s.reader_failures ++ failure ∷ [];
        killed = true;
        writer_alive = false;
      }
      → Step limit has_callback s t
  -- The main thread's `terminate()` after a timeout.
  main_terminates : t ≡ record s { killed = true } → Step limit has_callback s t

-- Any number of steps.
pub data Reach (limit : ℕ) (has_callback : Bool) (s : Capture) : Capture → Type 0 where
  here : Reach limit has_callback s s
  next :
      {t u : Capture}
      → Reach limit has_callback s t
      → Step limit has_callback t u
      → Reach limit has_callback s u
