-- ===== src/Linter/Bench.antt =====
-- linters/kubebench/: the nodes that wait for a scan (delta.go), and the scan of a node
-- (controller.go). The cluster, the logs and the client are outside: their answers are arguments.
-- Jobs are scanned one at a time (`maxConcurrentJobs`).
pub mod Scans
pub mod Scanned
use Prim.Native.String.{◌++◌}
use kvisor.Base.{
  ℕ, ◌+◌, String, GoMap, lookup, insert, delete, values, List, [], ◌∷◌, Option, none, some, Bool,
  true, false, ◌&&◌, eq_str, if◌then◌else◌, ltb, find,
}
use kvisor.Kube.Object.{Node, NodeCondition, ConditionStatus, condition_true}
use kvisor.ImageScan.State.{Backoff}

-- `github.com/hashicorp/golang-lru`, as far as it is used here.
pub record Lru : Type 1 where
  pub Cache : Type 0
  pub contains : Cache → String → Bool
  pub put : Cache → String → Cache
  pub remove : Cache → String → Cache

pub record NodeJob : Type 0 where
  pub node : Node
  pub backoff : Backoff
  pub next : ℕ

-- `castai.KubeBenchReport`, with the controls as they were marshalled.
pub record Report : Type 0 where
  pub controls : String
  pub node_name : String
  pub resource_id : String

-- The state of `Controller`; a nil report is `none`.
pub record Bench (lru : Lru) : Type 0 where
  pub delta : GoMap NodeJob
  pub scanned_nodes : lru.Cache
  pub reports : GoMap (Option Report)

abbrev last_condition : List NodeCondition → Option NodeCondition
last_condition [] = none
last_condition (c ∷ []) = some c
last_condition (c ∷ d ∷ cs) = last_condition (d ∷ cs)

abbrev is_true : ConditionStatus → Bool
is_true condition_true = true
is_true _ = false

unfoldable pub is_node_ready : Node → Bool
is_node_ready n = elim (last_condition n.conditions) [
  | none ↦ false
  | some c ↦ eq_str c.type_name "Ready" && is_true c.status
]

unfoldable pub upsert_node : GoMap NodeJob → ℕ → Node → GoMap NodeJob
upsert_node delta now n = elim (lookup n.uid delta) [
  | some job ↦ insert n.uid (record job { node = n }) delta
  | none ↦
      insert n.uid
        (record { node = n; backoff = record { duration = 15; factor = 3; steps = 8 }; next = now })
        delta
]

abbrev or_empty_label : Option String → String
or_empty_label none = ""
or_empty_label (some v) = v

-- What `getNodeGroupKey` hashes.
unfoldable pub node_group : Node → String
node_group n =
    or_empty_label (lookup "provisioner.cast.ai/node-configuration-name" n.labels)
    ++ (or_empty_label (lookup "provisioner.cast.ai/node-configuration-version" n.labels)
        ++ (n.architecture ++ (n.container_runtime_version ++ (n.kubelet_version ++ n.os_image))))

-- The answers of the cluster to the scan of a node: the deletion of an old job, the wait for it,
-- the run of the new job's pod, the report in its logs, and the client.
pub data Deletion : Type 0 where
  job_not_found job_deleted deletion_failed : Deletion

pub data Logs : Type 0 where
  logs_failed no_controls : Logs
  controls_read : String → Logs

pub record Answers : Type 0 where
  pub deletion : Deletion
  pub waited : Bool
  pub pod_succeeded : Bool
  pub logs : Logs
  pub sent : Bool

pub data Outcome : Type 0 where
  scanned failed panicked : Outcome

-- `hash` is `maphash`, with its value as a text; `is_uuid` tells what `uuid.Parse` accepts.
module _ (lru : Lru) (hash : String → String) (is_uuid : String → Bool) where
  unfoldable pub on_add : Bench lru → ℕ → Node → Bench lru
  unfolding is_node_ready upsert_node
  on_add s now n =
      if is_node_ready n
      then if lru.contains s.scanned_nodes n.uid
        then s
        else record s { delta = upsert_node s.delta now n }
      else s

  unfoldable pub on_delete : Bench lru → Node → Bench lru
  on_delete s n = record s {
    delta = delete n.uid s.delta;
    scanned_nodes = lru.remove s.scanned_nodes n.uid;
  }

  -- The end of `lintNode`: the report is sent, and the node is scanned if that went well.
  unfoldable pub finish_scan : Bench lru → Node → Bool → Bench lru × Outcome
  finish_scan s n sent =
      if sent
      then (record s { scanned_nodes = lru.put s.scanned_nodes n.uid }, scanned)
      else (s, failed)

  -- `getReportFromLogs`; the outer `none` is an error, the inner one the nil report.
  unfoldable pub get_report : Node → Logs → Option (Option Report)
  get_report n logs_failed = none
  get_report n no_controls = some none
  get_report n (controls_read controls) =
      if is_uuid n.uid
      then some (some (record { controls = controls; node_name = n.name; resource_id = n.uid }))
      else none

  -- `lintNode` from the creation of the job on.
  unfoldable pub run_job : Bench lru → Node → Answers → Bench lru × Outcome
  unfolding get_report finish_scan node_group
  run_job s n a =
      if a.pod_succeeded
      then elim (get_report n a.logs) [
        | none ↦ (s, failed)
        | some report ↦
            finish_scan (record s { reports = insert (hash (node_group n)) report s.reports }) n
              a.sent
      ]
      else (s, failed)

  unfoldable pub schedule_job : Bench lru → Node → Answers → Bench lru × Outcome
  unfolding run_job
  schedule_job s n a = elim a.deletion [
    | deletion_failed ↦ (s, failed)
    | job_not_found ↦ run_job s n a
    | job_deleted ↦ if a.waited then run_job s n a else (s, failed)
  ]

  -- A cached report is sent with the node's name; a nil one, or a UID that is no UUID, is a panic.
  unfoldable pub lint_node : Bench lru → Node → Answers → Bench lru × Outcome
  unfolding schedule_job finish_scan node_group
  lint_node s n a = elim (lookup (hash (node_group n)) s.reports) [
    | none ↦ schedule_job s n a
    | some cached ↦ elim cached [
      | none ↦ (s, panicked)
      | some report ↦ if is_uuid n.uid then finish_scan s n a.sent else (s, panicked)
    ]
  ]

  abbrev is_eligible : ℕ → NodeJob → Bool
  is_eligible now job = ltb job.next now && elim job.node.taints [ [] ↦ true | _ ∷ _ ↦ false ]

  -- At most one.
  unfoldable pub find_nodes_for_scan : Bench lru → ℕ → Option NodeJob
  find_nodes_for_scan s now = find (is_eligible now) (values s.delta)

  -- `setFailed` on the job that the map holds, if it still does; `step` is `Backoff.Step`.
  unfoldable pub set_failed : (Backoff → ℕ × Backoff) → GoMap NodeJob → ℕ → Node → GoMap NodeJob
  set_failed step delta now n = elim (lookup n.uid delta) [
    | none ↦ delta
    | some job ↦
        insert n.uid
          (record job { backoff = (step job.backoff).1; next = now + (step job.backoff).0 }) delta
  ]

  -- A round of `process`; the second component tells a panic.
  unfoldable pub process : (Backoff → ℕ × Backoff) → Bench lru → ℕ → Answers → Bench lru × Bool
  unfolding lint_node find_nodes_for_scan set_failed
  process step s now a = elim (find_nodes_for_scan s now) [
    | none ↦ (s, false)
    | some job ↦
        let (s', outcome) = lint_node s job.node a in
        elim outcome [
          | scanned ↦ (record s' { delta = delete job.node.uid s'.delta }, false)
          | failed ↦ (record s' { delta = set_failed step s'.delta now job.node }, false)
          | panicked ↦ (s', true)
        ]
  ]
