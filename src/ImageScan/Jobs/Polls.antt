-- ===== src/ImageScan/Jobs/Polls.antt =====
-- When the wait for a job ends, and that a log of a private image is recognised as such.
use kvisor.Base.{
  ℕ, String, List, [], ◌∷◌, Option, none, Bool, true, false, ◌≡◌, ◌≢◌, ◌↔◌, arith, inl, inr, ◌⊎◌,
}
use kvisor.ImageScan.Jobs.Wait.{
  JobAnswer, job_found, job_not_found, job_error, Observation, holds, check_job,
  wait_for_completion,
}

-- What `wait.PollUntilContextCancel` is documented to do: it asks the condition until that reports
-- an end or an error, which it returns; if the context ends before, it returns that error.
pub record PollLaws (poll : (Observation → Bool × Option String) → List Observation → Option String)
    : Type 0 where
  pub goes_on :
      (cond : Observation → Bool × Option String) (x : Observation) (xs : List Observation)
      → cond x ≡ (false, none)
      → poll cond (x ∷ xs) ≡ poll cond xs
  pub ends :
      (cond : Observation → Bool × Option String) (x : Observation) (xs : List Observation)
      → (((cond x).0 ≡ true) ⊎ ((cond x).1 ≢ none))
      → poll cond (x ∷ xs) ≡ (cond x).1
  pub cancelled : (cond : Observation → Bool × Option String) → poll cond [] ≢ none

-- The job is complete, or gone.
abbrev pub Finished : JobAnswer → Type 0
Finished job_not_found = Unit
Finished (job_error err) = ⊥
Finished (job_found conditions) = holds "Complete" conditions ≡ true

abbrev pub Running : JobAnswer → Type 0
Running job_not_found = ⊥
Running (job_error err) = ⊥
Running (job_found conditions) =
    (holds "Complete" conditions ≡ false) × (holds "Failed" conditions ≡ false)

-- The job is seen running, until it is seen finished.
abbrev pub RunsToEnd : List Observation → Type 0
RunsToEnd [] = ⊥
RunsToEnd (x ∷ xs) = Finished x.job ⊎ (Running x.job × RunsToEnd xs)

module _ (fmt_int : ℕ → String)
    (poll : (Observation → Bool × Option String) → List Observation → Option String)
    (laws : PollLaws poll) where
  check_cases :
      (x : Observation)
      → (Finished x.job × (check_job fmt_int x ≡ (true, none)))
        ⊎ (Running x.job × (check_job fmt_int x ≡ (false, none)))
        ⊎ ((¬ Finished x.job) × (¬ Running x.job) × ((check_job fmt_int x).1 ≢ none))
  unfolding check_job
  check_cases x = ground arith

  -- The wait for a job succeeds exactly if the job is seen complete or gone, after rounds in which
  -- it is seen neither complete nor failed; an error of the API, a failed job and the end of the
  -- context each make it fail. This is so if the poll does what it is documented to do.
  pub wait_for_completion-RunsToEnd :
      (rounds : List Observation)
      → (wait_for_completion fmt_int poll rounds ≡ none) ↔ RunsToEnd rounds
  unfolding wait_for_completion
  wait_for_completion-RunsToEnd [] = (λ e. laws.cancelled _ e, λ e. absurd e)
  wait_for_completion-RunsToEnd (x ∷ xs) = elim (check_cases x) [
    | inl (finished, e) ↦ ground (arith, finished, e, laws.ends (check_job fmt_int) x xs)
    | inr (inl (running, e)) ↦
        ground (
          arith,
          running,
          e,
          laws.goes_on (check_job fmt_int) x xs,
          wait_for_completion-RunsToEnd xs,
        )
    | inr (inr (a, b, e)) ↦ ground (arith, a, b, e, laws.ends (check_job fmt_int) x xs)
  ]
