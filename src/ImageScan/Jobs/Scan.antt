-- ===== src/ImageScan/Jobs/Scan.antt =====
-- imagescan/scanner.go: `ScanImage`, with the calls it makes to the cluster in order.
use Prim.Native.String.{◌++◌ as ◌<>◌}
use mathlib.Core.List.{◌++◌}
use kvisor.Base.{
  ℕ, zero, suc, pos, negsuc, String, List, [], ◌∷◌, Option, none, some, Bool, true, false, inl, inr,
  if◌then◌else◌, eq_str, ◌>>=◌,
}
use kvisor.ImageScan.Jobs.Spec.{
  ScannerConfig, ScanImageParams, ScanJob, Toleration, env_vars, pod_annotations, scan_job_spec,
}
use kvisor.ImageScan.Jobs.Volumes.{mode_for, volumes_for}
use kvisor.ImageScan.Jobs.Wait.{
  Observation, PodsAnswer, get_job_pod, get_pod_conditions_string, wait_for_completion,
}

pub data Call (Q : Type 0) : Type 0 where
  get_job : String → Call Q
  create_job : ScanJob Q → Call Q
  wait_for list_pods delete_job : String → Call Q

pub data DeleteAnswer : Type 0 where
  deleted already_gone : DeleteAnswer
  delete_error : String → DeleteAnswer

-- The answer to the look-up of the job; every error is taken for the absence of the job.
pub data GetAnswer : Type 0 where
  found not_found : GetAnswer
  get_error : String → GetAnswer

abbrev pub was_found : GetAnswer → Bool
was_found found = true
was_found not_found = false
was_found (get_error err) = false

-- What the cluster answers to one scan, and whether the context ends in the wait before the job is
-- deleted, with the error of the context.
pub record Answers : Type 0 where
  pub get : GetAnswer
  pub create_error : Option String
  pub rounds : List Observation
  pub pods_after : PodsAnswer
  pub done_in_wait : Option String
  pub delete : DeleteAnswer

pub record Outcome (Q : Type 0) : Type 0 where
  pub calls : List (Call Q)
  pub result : Option String

-- The first of the required values that is missing.
unfoldable pub missing : ScannerConfig → ScanImageParams → Option String
missing cfg params =
    if eq_str params.image_id ""
    then some "image ID is required"
    else if eq_str params.image_name ""
    then some "image name is required"
    else if eq_str params.container_runtime ""
    then some "container runtime is required"
    else elim params.resource_ids [
      | [] ↦ some "resource ids are required"
      | _ ∷ _ ↦
          if eq_str params.node_name ""
          then some "node name is required"
          else if eq_str cfg.pod_namespace ""
          then some "pod namespace is required"
          else none
    ]

-- `fnv_hex` is the FNV-1 hash of 128 bits, in hexadecimal digits.
unfoldable pub gen_job_name : (String → String) → String → String
gen_job_name fnv_hex image_name = "imgscan-" <> fnv_hex image_name

abbrev pub scan_tolerations : List Toleration
scan_tolerations = record { effect = "NoSchedule"; operator = "Exists" } ∷ []

module _ {Q : Type 0} (must_parse : String → Option Q) (fnv_hex : String → String) where
  -- The job that `ScanImage` asks for; `none` is a panic.
  unfoldable pub job_of : ScannerConfig → ScanImageParams → Option (ScanJob Q)
  unfolding mode_for volumes_for env_vars pod_annotations scan_job_spec gen_job_name
  job_of cfg params =
      let mode = mode_for params.container_runtime params.mode in
      scan_job_spec must_parse cfg.pod_namespace params.node_name
        (gen_job_name fnv_hex params.image_name) (env_vars cfg params mode) (pod_annotations cfg)
        (volumes_for cfg params.container_runtime mode) scan_tolerations cfg
        params.collector_image_details

module _ (fmt_int : ℕ → String) where
  -- The error of a wait that failed, after the pod of the job was looked up.
  unfoldable pub wait_error : Answers → String → String
  unfolding get_job_pod get_pod_conditions_string
  wait_error answers err = elim (get_job_pod fmt_int answers.pods_after) [
    | inl _ ↦ "wait for completion: " <> err
    | inr pod ↦
        "wait for completion, pod_conditions="
        <> (get_pod_conditions_string pod.conditions <> (": " <> err))
  ]

module _ {Q : Type 0} (fmt_int : ℕ → String)
    (poll : (Observation → Bool × Option String) → List Observation → Option String) where
  -- The creation of the job, and the wait for it.
  unfoldable pub create_and_wait : ScanImageParams → Answers → ScanJob Q → String → Outcome Q
  unfolding wait_for_completion wait_error
  create_and_wait params answers job name = elim answers.create_error [
    | some err ↦ record { calls = create_job job ∷ []; result = some ("creating job: " <> err) }
    | none ↦
        if params.wait_for_completion
        then elim (wait_for_completion fmt_int poll answers.rounds) [
          | none ↦ record { calls = create_job job ∷ wait_for name ∷ []; result = none }
          | some err ↦ record {
            calls = create_job job ∷ wait_for name ∷ list_pods name ∷ [];
            result = some (wait_error fmt_int answers err);
          }
        ]
        else record { calls = create_job job ∷ []; result = none }
  ]

  -- The body of `ScanImage` after the job is put together, without what is deferred.
  unfoldable pub run_job : ScanImageParams → Answers → ScanJob Q → String → Outcome Q
  unfolding wait_for_completion create_and_wait
  run_job params answers job name =
      if was_found answers.get
      then record {
        calls = get_job job.name ∷ wait_for name ∷ [];
        result = elim (wait_for_completion fmt_int poll answers.rounds) [
          | none ↦ none
          | some err ↦ some ("job already exist, wait for completion: " <> err)
        ];
      }
      else (let run = create_and_wait params answers job name in
          record run { calls = get_job job.name ∷ run.calls })

-- The error that ends the wait before the deletion, if there is a wait.
unfoldable pub wait_ends : ScanImageParams → Answers → Option String
wait_ends params answers = elim params.wait_duration_after_completion [
  | pos zero ↦ none
  | pos (suc n) ↦ answers.done_in_wait
  | negsuc n ↦ answers.done_in_wait
]

-- The deferred function, on what the body has done.
unfoldable pub clean_up : {Q : Type 0} → ScanImageParams → Answers → String → Outcome Q → Outcome Q
unfolding wait_ends
clean_up params answers name run = elim (wait_ends params answers) [
  | some err ↦ record run { result = some err }
  | none ↦ record {
    calls = run.calls ++ delete_job name ∷ [];
    result = elim answers.delete [
      | deleted ↦ run.result
      | already_gone ↦ run.result
      | delete_error err ↦ some ("deleting finished job: " <> err)
    ];
  }
]

module _ {Q : Type 0} (must_parse : String → Option Q) (fnv_hex : String → String)
    (fmt_int : ℕ → String)
    (poll : (Observation → Bool × Option String) → List Observation → Option String) where
  -- `ScanImage`; `none` is a panic.
  unfoldable pub scan_image : ScannerConfig → ScanImageParams → Answers → Option (Outcome Q)
  unfolding missing job_of run_job clean_up gen_job_name
  scan_image cfg params answers = elim (missing cfg params) [
    | some err ↦ some (record { calls = []; result = some err })
    | none ↦ do
      job ← job_of must_parse fnv_hex cfg params
      let name = gen_job_name fnv_hex params.image_name in
          let run = run_job fmt_int poll params answers job name in
          if params.delete_finished_job
          then some (clean_up params answers job.name run)
          else some run
  ]
