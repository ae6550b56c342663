-- ===== src/BoundedSubprocess/Capture.antt =====
-- The shared state of a run_bounded call, and the section of read_stream under the lock.
use platform_gitops.Prelude.{
  ℕ, ◌+◌, ◌-◌, String, Bool, true, false, ◌||◌, List, [], ◌++◌, length, ltb, if◌then◌else◌,
}
use platform_gitops.Prelude.Sequences.{take}

-- Where a reader stands: in a read, before `terminate`, in the callback with a chunk, or returned.
pub data Reader : Type 0 where
  reading stopping ended : Reader
  calling : List ℕ → Reader

-- The variables of run_bounded that its threads share. The last two fields are no variables: they
-- are all bytes that the readers have read.
pub record Capture : Type 0 where
  pub retained_total : ℕ
  pub stdout_buffer : List ℕ
  pub stderr_buffer : List ℕ
  pub exceeded : Bool
  pub reader_failures : List String
  pub killed : Bool
  pub stdout_reader : Reader
  pub stderr_reader : Reader
  pub writer_alive : Bool
  pub stdout_read : List ℕ
  pub stderr_read : List ℕ

unfoldable pub started : Capture
started = record {
  retained_total = 0;
  stdout_buffer = [];
  stderr_buffer = [];
  exceeded = false;
  reader_failures = [];
  killed = false;
  stdout_reader = reading;
  stderr_reader = reading;
  writer_alive = true;
  stdout_read = [];
  stderr_read = [];
}

module _ (limit : ℕ) where
  -- `max(limit - retained_total, 0)`; subtraction stops at 0.
  abbrev pub remaining : Capture → ℕ
  remaining c = limit - c.retained_total

  -- A chunk that does not fit sets the event, and the thread goes on to terminate the child.
  abbrev pub over : Capture → List ℕ → Bool
  over c chunk = ltb (remaining c) (length chunk)

  -- The section under the lock, for each of the two readers; `stdout_callback` is not None.
  unfoldable pub retain_stdout : Bool → List ℕ → Capture → Capture
  retain_stdout has_callback chunk c = record c {
    retained_total = c.retained_total + length (take (remaining c) chunk);
    stdout_buffer = c.stdout_buffer ++ take (remaining c) chunk;
    exceeded = c.exceeded || over c chunk;
    stdout_reader =
        if over c chunk then stopping else if has_callback then calling chunk else reading;
    stdout_read = c.stdout_read ++ chunk;
  }

  unfoldable pub retain_stderr : List ℕ → Capture → Capture
  retain_stderr chunk c = record c {
    retained_total = c.retained_total + length (take (remaining c) chunk);
    stderr_buffer = c.stderr_buffer ++ take (remaining c) chunk;
    exceeded = c.exceeded || over c chunk;
    stderr_reader = if over c chunk then stopping else reading;
    stderr_read = c.stderr_read ++ chunk;
  }
