-- ===== src/BoundedSubprocess/Outcome.antt =====
-- The end of run_bounded: what it raises or returns, from the capture as it is read.
use platform_gitops.Prelude.{
  ℕ, String, Bool, true, false, not, ◌&&◌, ◌||◌, List, [], ◌∷◌, nat_eq, if◌then◌else◌,
}
use platform_gitops.BoundedSubprocess.Capture.{Reader, ended, Capture}

pub data RunResult : Type 0 where
  timeout_expired output_limit_exceeded completed : List ℕ → List ℕ → RunResult
  called_process_error : ℕ → List ℕ → List ℕ → RunResult
  streams_did_not_close : RunResult
  capture_failed : List String → RunResult

abbrev pub is_alive : Reader → Bool
is_alive ended = false
is_alive _ = true

-- `any(thread.is_alive() for thread in [writer, *readers])`
abbrev pub any_alive : Capture → Bool
any_alive c = c.writer_alive || (is_alive c.stdout_reader || is_alive c.stderr_reader)

abbrev pub has_failures : List String → Bool
has_failures [] = false
has_failures (f ∷ fs) = true

-- The buffers and the failures are copied under the lock, in the state `copied`; the event is asked
-- in `asked` and the threads in `joined`, and other threads may have made steps in between. A
-- return code that is not 0 stands for a signal, too; text mode decodes the bytes afterwards.
unfoldable pub run_result : Bool → Bool → ℕ → Capture → Capture → Capture → RunResult
run_result timed_out check returncode copied asked joined =
    if timed_out
    then timeout_expired copied.stdout_buffer copied.stderr_buffer
    else if asked.exceeded
    then output_limit_exceeded copied.stdout_buffer copied.stderr_buffer
    else if any_alive joined
    then streams_did_not_close
    else if has_failures copied.reader_failures
    then capture_failed copied.reader_failures
    else if check && not (nat_eq returncode 0)
    then called_process_error returncode copied.stdout_buffer copied.stderr_buffer
    else completed copied.stdout_buffer copied.stderr_buffer
