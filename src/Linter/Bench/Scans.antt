-- ===== src/Linter/Bench/Scans.antt =====
-- What a scan of a node does, and when it panics.
use kvisor.Base.{
  ℕ, String, GoMap, AllEntries, lookup, insert, lookup-insert_self, lookup-delete, delete, subst,
  insert-AllEntries, lookup-AllEntries, ◌≡◌, ◌≢◌, refl, sym, Option, none, some, Bool, true, false,
  is_some, arith, Bool-cases, Option-cases, inl, inr,
}
use kvisor.Kube.Object.{Node}
use kvisor.ImageScan.State.{Backoff}
use kvisor.Linter.Bench.{
  Lru, NodeJob, Report, Bench, Deletion, job_not_found, job_deleted, deletion_failed, Logs,
  logs_failed, no_controls, controls_read, Answers, Outcome, scanned, failed, panicked, node_group,
  on_add, finish_scan, get_report, run_job, schedule_job, lint_node, find_nodes_for_scan, process,
}

module _ (lru : Lru) (hash : String → String) (is_uuid : String → Bool) where
  nil_report_kept :
      (s : Bench lru) (n : Node) (a : Answers)
      → lookup (hash (node_group n)) s.reports ≡ none
      → a.deletion ≡ job_not_found
      → a.pod_succeeded ≡ true
      → a.logs ≡ no_controls
      → (lint_node lru hash is_uuid s n a).0.reports ≡ insert (hash (node_group n)) none s.reports
  unfolding lint_node schedule_job run_job get_report finish_scan
  nil_report_kept s n a new free ran empty = ground (arith, new, free, ran, empty)

  nil_report-panics :
      (s : Bench lru) (m : Node) (b : Answers)
      → lookup (hash (node_group m)) s.reports ≡ some none
      → (lint_node lru hash is_uuid s m b).1 ≡ panicked
  unfolding lint_node
  nil_report-panics s m b there = ground (arith, there)

  -- If no report is kept for a node's configuration, and its scan finds no controls, then a nil
  -- report is kept, whether or not it could be sent, and the scan of any node of the same
  -- configuration panics afterwards.
  pub nil_report_panics :
      (s : Bench lru) (n m : Node) (a b : Answers)
      → lookup (hash (node_group n)) s.reports ≡ none
      → a.deletion ≡ job_not_found
      → a.pod_succeeded ≡ true
      → a.logs ≡ no_controls
      → node_group m ≡ node_group n
      → (lint_node lru hash is_uuid (lint_node lru hash is_uuid s n a).0 m b).1 ≡ panicked
  nil_report_panics s n m a b new free ran empty group =
      nil_report-panics (lint_node lru hash is_uuid s n a).0 m b (
        rw (nil_report_kept s n a new free ran empty, group)
          (lookup-insert_self (hash (node_group n)) none s.reports))

  -- No report is nil.
  abbrev pub HasReports : GoMap (Option Report) → Type 0
  HasReports reports = AllEntries (λ k report. is_some report ≡ true) reports

  abbrev Sound : Bench lru × Outcome → Type 0
  Sound (s, outcome) = (outcome ≢ panicked) × HasReports s.reports

  finish_scan-Sound :
      (s : Bench lru) (n : Node) (sent : Bool)
      → HasReports s.reports
      → Sound (finish_scan lru hash is_uuid s n sent)
  unfolding finish_scan
  finish_scan-Sound s n true good = (λ e. cc, good)
  finish_scan-Sound s n false good = (λ e. cc, good)

  logs-Sound :
      (s : Bench lru) (n : Node) (logs : Logs) (sent : Bool)
      → HasReports s.reports
      → is_uuid n.uid ≡ true
      → logs ≢ no_controls
      → Sound (elim (get_report lru hash is_uuid n logs) as (λ _. Bench lru × Outcome) [
        | none ↦ (s, failed)
        | some report ↦
            finish_scan lru hash is_uuid
              (record s { reports = insert (hash (node_group n)) report s.reports })
              n
              sent
      ])
  unfolding get_report
  logs-Sound s n logs_failed sent good uuid full = (λ e. cc, good)
  logs-Sound s n no_controls sent good uuid full = absurd (full refl)
  logs-Sound s n (controls_read controls) sent good uuid full =
      rw uuid (finish_scan-Sound _ n sent (insert-AllEntries _ _ _ s.reports refl good))

  run_job-Sound :
      (s : Bench lru) (n : Node) (a : Answers)
      → HasReports s.reports
      → is_uuid n.uid ≡ true
      → a.logs ≢ no_controls
      → Sound (run_job lru hash is_uuid s n a)
  unfolding run_job
  run_job-Sound s n a good uuid full = elim (Bool-cases a.pod_succeeded) [
    | inl ran ↦ rw (ran, run_job) (logs-Sound s n a.logs a.sent good uuid full)
    | inr not_run ↦ rw (not_run, run_job) (λ e. cc, good)
  ]

  schedule_job-Sound :
      (s : Bench lru) (n : Node) (a : Answers) (deletion : Deletion)
      → a.deletion ≡ deletion
      → HasReports s.reports
      → is_uuid n.uid ≡ true
      → a.logs ≢ no_controls
      → Sound (schedule_job lru hash is_uuid s n a)
  unfolding schedule_job
  schedule_job-Sound s n a deletion_failed e good uuid full = rw (e, schedule_job) (λ h. cc, good)
  schedule_job-Sound s n a job_not_found e good uuid full =
      rw (e, schedule_job) (run_job-Sound s n a good uuid full)
  schedule_job-Sound s n a job_deleted e good uuid full = elim (Bool-cases a.waited) [
    | inl gone ↦ rw (e, schedule_job) (rw gone (run_job-Sound s n a good uuid full))
    | inr there ↦ rw (e, schedule_job) (rw there (λ h. cc, good))
  ]

  -- As long as no nil report is kept, the scan of a node whose UID is a UUID and whose report, if it
  -- is read, has controls does not panic, whatever else the cluster answers, and no nil report is
  -- kept afterwards.
  pub lint_node_total :
      (s : Bench lru) (n : Node) (a : Answers)
      → HasReports s.reports
      → is_uuid n.uid ≡ true
      → a.logs ≢ no_controls
      → ((lint_node lru hash is_uuid s n a).1 ≢ panicked)
        × HasReports (lint_node lru hash is_uuid s n a).0.reports
  unfolding lint_node
  lint_node_total s n a good uuid full =
      elim (Option-cases (lookup (hash (node_group n)) s.reports)) [
        | inl new ↦ rw (new, lint_node) (schedule_job-Sound s n a a.deletion refl good uuid full)
        | inr (cached, there) ↦ go cached there
      ]
    where
      go :
          (cached : Option Report)
          → lookup (hash (node_group n)) s.reports ≡ some cached
          → Sound (lint_node lru hash is_uuid s n a)
      go none there =
          let some_report = lookup-AllEntries _ (hash (node_group n)) none s.reports good there in
          cc
      go (some report) there = rw (there, lint_node) (rw uuid (finish_scan-Sound s n a.sent good))

  finish_scan-put :
      (s : Bench lru) (n : Node) (sent : Bool)
      → (finish_scan lru hash is_uuid s n sent).1 ≡ scanned
      → (finish_scan lru hash is_uuid s n sent).0.scanned_nodes ≡ lru.put s.scanned_nodes n.uid
  unfolding finish_scan
  finish_scan-put s n true e = refl
  finish_scan-put s n false e = cc

  lint_node-put :
      (s : Bench lru) (n : Node) (a : Answers)
      → (lint_node lru hash is_uuid s n a).1 ≡ scanned
      → (lint_node lru hash is_uuid s n a).0.scanned_nodes ≡ lru.put s.scanned_nodes n.uid
  unfolding lint_node schedule_job run_job get_report finish_scan
  lint_node-put s n a e = ground (arith, e)

  on_add_skips :
      (s : Bench lru) (later : ℕ) (n : Node)
      → lru.contains s.scanned_nodes n.uid ≡ true
      → on_add lru hash is_uuid s later n ≡ s
  unfolding on_add
  on_add_skips s later n e = ground (arith, e)

  process-scanned :
      (step : Backoff → ℕ × Backoff) (s : Bench lru) (now : ℕ) (a : Answers) (job : NodeJob)
      → find_nodes_for_scan lru hash is_uuid s now ≡ some job
      → (lint_node lru hash is_uuid s job.node a).1 ≡ scanned
      → let s' = (lint_node lru hash is_uuid s job.node a).0 in
        (process lru hash is_uuid step s now a).0
        ≡ record s' { delta = delete job.node.uid s'.delta }
  unfolding process
  process-scanned step s now a job found done = rw (found, process) (rw done refl)

  -- A node whose scan went well waits no more, and additions and updates with its UID do not queue
  -- it again, as long as the LRU cache holds what was just put into it.
  pub process_done :
      ((c : lru.Cache) (k : String) → lru.contains (lru.put c k) k ≡ true)
      → (step : Backoff → ℕ × Backoff) (s : Bench lru) (now : ℕ) (a : Answers) (job : NodeJob)
      → find_nodes_for_scan lru hash is_uuid s now ≡ some job
      → (lint_node lru hash is_uuid s job.node a).1 ≡ scanned
      → let s' = (process lru hash is_uuid step s now a).0 in
        (lookup job.node.uid s'.delta ≡ none)
        × ((later : ℕ) (n : Node) → n.uid ≡ job.node.uid → on_add lru hash is_uuid s' later n ≡ s')
  process_done keeps step s now a job found done =
      let s' = (lint_node lru hash is_uuid s job.node a).0 in
      let after : Bench lru = record s' { delta = delete job.node.uid s'.delta } in
      subst
        (λ x.
          (lookup job.node.uid x.delta ≡ none)
          × ((later : ℕ) (n : Node) → n.uid ≡ job.node.uid → on_add lru hash is_uuid x later n ≡ x))
        (sym (process-scanned step s now a job found done))
        (
          ground (arith, lookup-delete job.node.uid job.node.uid s'.delta),
          λ later n same.
              on_add_skips after later n
                (rw (lint_node-put s job.node a done, same) (keeps s.scanned_nodes job.node.uid)),
        )
