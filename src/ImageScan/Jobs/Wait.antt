-- ===== src/ImageScan/Jobs/Wait.antt =====
-- imagescan/scanner.go: `waitForCompletion`, `getJobPod` and `getPodConditionsString`. An error is
-- its text, which is all that the callers read of it. What the cluster answers is an argument.
use Prim.Native.String.{◌++◌}
use kvisor.Base.{
  ℕ, String, List, [], ◌∷◌, map, Option, none, some, Bool, true, false, ◌&&◌, ◌⊎◌, inl, inr,
  if◌then◌else◌, eq_str, any, length,
}
use kvisor.ImageScan.Jobs.Spec.{join}

pub record JobCondition : Type 0 where
  pub status : String
  pub type : String

pub record PodCondition : Type 0 where
  pub type : String
  pub status : String
  pub reason : String
  pub message : String

pub record JobPod : Type 0 where
  pub name : String
  pub conditions : List PodCondition

-- The answers to `jobs.Get`, to the listing of pods and to reading a log.
pub data JobAnswer : Type 0 where
  job_found : List JobCondition → JobAnswer
  job_not_found : JobAnswer
  job_error : String → JobAnswer

pub data PodsAnswer : Type 0 where
  pods_listed : List JobPod → PodsAnswer
  pods_error : String → PodsAnswer

pub data LogAnswer : Type 0 where
  log_read : String → LogAnswer
  open_error read_error : String → LogAnswer

-- What the cluster answers in one round of the poll.
pub record Observation : Type 0 where
  pub job : JobAnswer
  pub pods : PodsAnswer
  pub log : LogAnswer

abbrev condition_text : PodCondition → String
condition_text c =
    let reason = if eq_str c.reason "" then c.message else c.reason in
    "[type=" ++ c.type ++ ", status=" ++ c.status ++ ", reason=" ++ reason ++ "]"

unfoldable pub get_pod_conditions_string : List PodCondition → String
unfolding join
get_pod_conditions_string conditions = join (map condition_text conditions) ", "

unfoldable pub holds : String → List JobCondition → Bool
holds type conditions = any (λ v. eq_str v.status "True" && eq_str v.type type) conditions

-- `fmt_int` is `%d` of package fmt.
module _ (fmt_int : ℕ → String) where
  unfoldable pub get_job_pod : PodsAnswer → String ⊎ JobPod
  get_job_pod (pods_error err) = inl err
  get_job_pod (pods_listed []) = inl "job pod not found"
  get_job_pod (pods_listed (pod ∷ [])) = inr pod
  get_job_pod (pods_listed (pod ∷ other ∷ pods)) =
      inl ("expected to get one job pod, got " ++ fmt_int (length (pod ∷ other ∷ pods)))

  -- The error of a job that failed: its log, or why the log could not be read.
  unfoldable pub failed_job_error : Observation → String
  unfolding get_job_pod
  failed_job_error seen = elim (get_job_pod seen.pods) [
    | inl err ↦ err
    | inr pod ↦ elim seen.log [
      | open_error err ↦ "creating logs stream for failed job: " ++ err
      | read_error err ↦ "reading failed job logs: " ++ err
      | log_read text ↦ "scan job failed: " ++ text
    ]
  ]

  -- The condition of the poll: whether it is done, and its error.
  unfoldable pub check_job : Observation → Bool × Option String
  unfolding holds failed_job_error
  check_job seen = elim seen.job [
    | job_not_found ↦ (true, none)
    | job_error err ↦ (false, some err)
    | job_found conditions ↦
        if holds "Complete" conditions
        then (true, none)
        else if holds "Failed" conditions
        then (true, some (failed_job_error seen))
        else (false, none)
  ]

  -- `poll` is `wait.PollUntilContextCancel`, given the answers of the rounds before the context ends.
  unfoldable pub wait_for_completion :
      ((Observation → Bool × Option String) → List Observation → Option String)
      → List Observation
      → Option String
  unfolding check_job
  wait_for_completion poll rounds = poll check_job rounds
