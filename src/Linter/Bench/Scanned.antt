-- ===== src/Linter/Bench/Scanned.antt =====
-- What it takes that a node without a kept report counts as scanned.
use kvisor.Base.{String, lookup, List, none, Bool, true, ◌≡◌, ◌≢◌, arith}
use kvisor.Kube.Object.{Node}
use kvisor.Linter.Bench.{
  Lru, Bench, Deletion, job_deleted, deletion_failed, Logs, logs_failed, Answers, scanned,
  lint_node, schedule_job, run_job, get_report, finish_scan, node_group,
}
use kvisor.Linter.Specs.Polls.{
  PodAnswer, JobAnswer, answers_of, wait_job_deleted, SeenSucceeded, pod_poll-SeenSucceeded,
}

module _ (lru : Lru) (hash : String → String) (is_uuid : String → Bool) where
  run_job-scanned :
      (s : Bench lru) (n : Node) (a : Answers)
      → (run_job lru hash is_uuid s n a).1 ≡ scanned
      → (a.pod_succeeded ≡ true) × (a.logs ≢ logs_failed) × (a.sent ≡ true)
  unfolding run_job get_report finish_scan
  run_job-scanned s n a e = ground (arith, e)

  schedule_job-scanned :
      (s : Bench lru) (n : Node) (a : Answers)
      → (schedule_job lru hash is_uuid s n a).1 ≡ scanned
      → (a.deletion ≢ deletion_failed)
        × (a.deletion ≡ job_deleted → a.waited ≡ true)
        × ((run_job lru hash is_uuid s n a).1 ≡ scanned)
  unfolding schedule_job
  schedule_job-scanned s n a e = ground (arith, e)

  -- A node for whose configuration no report is kept counts as scanned only if an old job was absent
  -- or was deleted and then seen gone, the pod of the new job was seen succeeded, before which no
  -- answer ended the poll, its logs were read, and the client took the report.
  pub lint_node-scanned :
      (s : Bench lru) (n : Node) (deletion : Deletion) (jobs : List JobAnswer)
      (pods : List PodAnswer) (logs : Logs) (sent : Bool)
      → lookup (hash (node_group n)) s.reports ≡ none
      → (lint_node lru hash is_uuid s n (answers_of deletion jobs pods logs sent)).1 ≡ scanned
      → (deletion ≢ deletion_failed)
        × (deletion ≡ job_deleted → wait_job_deleted jobs ≡ true)
        × SeenSucceeded pods
        × (logs ≢ logs_failed)
        × (sent ≡ true)
  unfolding lint_node answers_of
  lint_node-scanned s n deletion jobs pods logs sent new e =
      let a = answers_of deletion jobs pods logs sent in
      let scheduled : (schedule_job lru hash is_uuid s n a).1 ≡ scanned =
        rw (new, lint_node) at e in
      let job = schedule_job-scanned s n a scheduled in
      let run = run_job-scanned s n a job.2 in
      (job.0, job.1, pod_poll-SeenSucceeded pods run.0, run.1, run.2)
