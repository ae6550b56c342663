-- ===== src/BoundedSubprocess/Witnesses.antt =====
-- The theorems at a child that writes three bytes under a limit of four, and at one that writes five,
-- and at a variable that is set.
use platform_gitops.Prelude.{ℕ, ◌+◌, ◌≤◌, ◌<◌, ◌≡◌, refl, Bool, true, false, List, [], ◌∷◌, length}
use platform_gitops.Prelude.{Option, none, some}
use platform_gitops.Prelude.Result.{ok}
use platform_gitops.BoundedFile.Limit.{LimitValue, whole, Texts}
use platform_gitops.BoundedSubprocess.OutputLimit.{
  max_output_max_bytes, default_output_max_bytes, selected_limit, selected_limit_bounds,
}
use platform_gitops.BoundedSubprocess.Capture.{reading, ended, Capture, started, retain_stdout}
use platform_gitops.BoundedSubprocess.Threads.{
  Reach, here, next, stdout_chunk, stdout_eof, stderr_eof, input_written,
}
use platform_gitops.BoundedSubprocess.Outcome.{run_result}
use platform_gitops.BoundedSubprocess.Sound.{IsSound, IsPrefix, Reach-IsSound}
use platform_gitops.BoundedSubprocess.Exact.{IsRun, run_result-completed, run_result-exceeded}
use platform_gitops.Prelude.Sequences.{take}

abbrev three : List ℕ
three = 97 ∷ 98 ∷ 99 ∷ []

abbrev five : List ℕ
five = 97 ∷ 98 ∷ 99 ∷ 100 ∷ 101 ∷ []

abbrev after_chunk : List ℕ → Capture
after_chunk chunk = retain_stdout 4 false chunk started

abbrev closed : Capture
closed =
    let c = after_chunk three in
    record c { stdout_reader = ended; stderr_reader = ended; writer_alive = false }

read_three : Reach 4 false started closed
unfolding started retain_stdout take
read_three =
    next
      (next (next (next here (stdout_chunk three refl refl)) (stdout_eof refl refl))
        (stderr_eof refl refl))
      (input_written refl refl)

three_run : IsRun 4 false closed closed closed
three_run = record { ran = read_three; went_on = here; ended_with = here }

Reach-IsSound_example : IsSound 4 closed
Reach-IsSound_example = Reach-IsSound read_three

run_result-completed_example :
    (three ≡ closed.stdout_read)
    × ([] ≡ closed.stderr_read)
    × (length three + 0 ≤ 4)
    × (closed.stdout_reader ≡ ended → three ≡ closed.stdout_read)
    × (closed.stderr_reader ≡ ended → [] ≡ closed.stderr_read)
    × (◌≡◌ {A = Bool} false false)
    × (◌≡◌ {A = Bool} true true → ◌≡◌ {A = ℕ} 0 0)
unfolding started retain_stdout take run_result
run_result-completed_example =
    run_result-completed 4 false closed closed closed false true 0 three [] three_run refl

-- Five bytes under a limit of four: the reader is about to terminate the child.
abbrev past : Capture
past = after_chunk five

read_five : Reach 4 false started past
read_five = next here (stdout_chunk five stands refl)
  where
    stands : started.stdout_reader ≡ reading
    stands = unfold started in refl

five_run : IsRun 4 false past past past
five_run = record { ran = read_five; went_on = here; ended_with = here }

run_result-exceeded_example :
    (4 < length past.stdout_read + length past.stderr_read)
    × (length (take 4 five) + 0 ≤ 4)
    × IsPrefix (take 4 five) past.stdout_read
    × IsPrefix [] past.stderr_read
unfolding started retain_stdout take run_result
run_result-exceeded_example =
    run_result-exceeded 4 false past past past false true 0 (take 4 five) [] five_run refl

-- Texts without blanks around them, of which each stands for 4096.
abbrev texts : Texts
texts = record { strip = λ s. s; parse = λ s. whole 4096 }

selected_limit_bounds_example :
    ((given : Option LimitValue) (n : ℕ)
      → selected_limit texts (some "4096") given ≡ ok n
      → (0 < n) × (n ≤ max_output_max_bytes))
    × (texts.strip "4096" ≡ ""
        → selected_limit texts (some "4096") none ≡ ok default_output_max_bytes)
selected_limit_bounds_example = selected_limit_bounds texts (some "4096")
