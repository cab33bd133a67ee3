-- ===== src/Samples/LinterRuns.antt =====
-- The linter's rounds, on the small cluster.
use kvisor.Base.{
  map, some, String, has, keep, not, eq_str, ◌≢◌, arith, lookup, ◌≡◌, refl, List, [], ◌∷◌, true,
}
use kvisor.Linter.Bench.{
  Lru, NodeJob, Bench, Answers, Logs, job_not_found, job_deleted, deletion_failed, logs_failed,
  controls_read, schedule_job, run_job, get_report, finish_scan, lint_node,
}
use kvisor.Linter.Bench.Scanned.{lint_node-scanned}
use kvisor.Linter.Specs.{BenchContainer, BenchJob}
use kvisor.Linter.Specs.Created.{job_to_create, created}
use kvisor.Linter.Specs.Confined.{ConfinedJob, job_to_create-ConfinedJob}
use kvisor.Linter.Specs.Polls
use kvisor.Linter.Specs.Polls.{
  PodAnswer, no_pods, pod_in_other_phase, pod_succeeded, still_there, wait_job_deleted, answers_of,
  pod_poll, SeenSucceeded,
}
use kvisor.Kube.Owners.{KvisorImageDetails}
use kvisor.Kube.Object.{Node}
use kvisor.Samples.{meta_of, web_node}

-- A cache that forgets nothing.
abbrev unbounded : Lru
unbounded = record {
  Cache = List String;
  contains = λ c k. has k c;
  put = λ c k. k ∷ c;
  remove = λ c k. keep (λ other. not (eq_str other k)) c;
}

put_kept : (c : List String) (k : String) → has k (k ∷ c) ≡ true
put_kept c k = ground arith

abbrev same_group : Node
same_group = record web_node { meta = meta_of "Node" "n2" "u2" [] }

abbrev waiting : NodeJob
waiting = record {
  node = web_node;
  backoff = record { duration = 15; factor = 3; steps = 8 };
  next = 3;
}

abbrev bench : Bench unbounded
bench = record { delta = ("u1", waiting) ∷ []; scanned_nodes = []; reports = [] }

abbrev answers : Logs → Answers
answers logs = record {
  deletion = job_not_found;
  waited = true;
  pod_succeeded = true;
  logs = logs;
  sent = true;
}

abbrev polled : List PodAnswer
polled = no_pods ∷ pod_in_other_phase ∷ pod_succeeded ∷ []

lint_node-scanned_example :
    (job_deleted ≢ deletion_failed)
    × (job_deleted ≡ job_deleted → wait_job_deleted (still_there ∷ Polls.job_not_found ∷ []) ≡ true)
    × SeenSucceeded polled
    × (controls_read "{}" ≢ logs_failed)
    × (true ≡ true)
unfolding lookup lint_node schedule_job run_job get_report finish_scan answers_of wait_job_deleted
    pod_poll
lint_node-scanned_example =
    lint_node-scanned unbounded (λ text. text) (λ uid. true) bench web_node job_deleted
      (still_there ∷ Polls.job_not_found ∷ []) polled (controls_read "{}") true refl refl

abbrev own_image : KvisorImageDetails
own_image = record { image_name = "kvisor:1"; image_pull_secrets = "pull" ∷ [] }

job_to_create-ConfinedJob_example :
    (job : BenchJob) × (job_to_create "gke" web_node "kube-bench-1" "Always" (some own_image)
      ≡ created job)
    × ConfinedJob "n1" "kube-bench-1" job
    × (map (λ (c : BenchContainer). c.image) job.containers ≡ "kvisor:1" ∷ [])
    × (map (λ (c : BenchContainer). c.image_pull_policy) job.containers ≡ "Always" ∷ [])
    × (job.image_pull_secrets ≡ "pull" ∷ [])
job_to_create-ConfinedJob_example =
    job_to_create-ConfinedJob "gke" web_node "kube-bench-1" "Always" own_image
