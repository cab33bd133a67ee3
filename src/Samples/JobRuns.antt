-- ===== src/Samples/JobRuns.antt =====
-- A job that scans an image and fails, since the image is private.
use mathlib.Core.List.{◌++◌}
use kvisor.Base.{
  ℕ, pos, String, lookup, List, [], ◌∷◌, Option, some, none, Bool, true, false, ◌≡◌, ◌≢◌, ◌↔◌, refl,
  ap, ◌⊎◌, inl, inr, arith, All, has, if◌then◌else◌, eq_str-test, GoMap, differs,
}
use kvisor.ImageScan.Schedule.{end_scan, failed, is_image_pending}
use kvisor.ImageScan.State.{private_image, Image}
use kvisor.ImageScan.Jobs.Spec.{ScannerConfig, ScanImageParams, ScanJob, CollectorContainer}
use kvisor.ImageScan.Jobs.Wait.{
  JobCondition, JobPod, Observation, pods_listed, holds, wait_for_completion,
}
use kvisor.ImageScan.Jobs.Scan.{
  Call, delete_job, deleted, already_gone, Answers, Outcome, missing, gen_job_name, job_of,
  wait_ends, get_error, scan_image,
}
use kvisor.ImageScan.Jobs.Mounts.{allowed_source, volume_names, job_of-Confined, job_of_made}
use kvisor.ImageScan.Jobs.Cleanup.{About, deletes, scan_image-About, scan_image-succeeds}
use kvisor.ImageScan.Jobs.Polls.{PollLaws, RunsToEnd, wait_for_completion-RunsToEnd}
use kvisor.ImageScan.Jobs.Errors.{contains, is_private_image_error, parse_error_from_log}
use kvisor.ImageScan.Jobs.Private.{observed, scan_image-private}
use kvisor.ImageScan.Collector.{CollectorConfig, RegistryAuth, reading_secret, get_image}
use kvisor.ImageScan.Collector.Secrets.{mounted, docker_remote_scan_fails}
use kvisor.ImageScan.Jobs.Volumes.{mode_for, secret_mount_path, volumes_for}
use kvisor.ImageScan.Jobs.Spec.{VolumeMount}
use kvisor.Samples.ScanRuns.{state, web_image, steady, held}

-- A poll that asks until the condition ends it.
abbrev after : Bool × Option String → Option String → Option String
after (true, err) rest = err
after (false, some err) rest = some err
after (false, none) rest = rest

abbrev polled : (Observation → Bool × Option String) → List Observation → Option String
polled cond [] = some "context deadline exceeded"
polled cond (x ∷ xs) = after (cond x) (polled cond xs)

after_end :
    (answer : Bool × Option String) (rest : Option String)
    → ((answer.0 ≡ true) ⊎ (answer.1 ≢ none))
    → after answer rest ≡ answer.1
after_end (true, err) rest h = refl
after_end (false, some err) rest h = refl
after_end (false, none) rest (inl h) = cc
after_end (false, none) rest (inr h) = absurd (h refl)

polled-PollLaws : PollLaws polled
polled-PollLaws = record {
  goes_on = λ cond x xs e. ap (λ answer. after answer (polled cond xs)) e;
  ends = λ cond x xs h. after_end (cond x) (polled cond xs) h;
  cancelled = λ cond e. cc;
}

abbrev parse : String → Option (Unit {0})
parse text = some tt

abbrev same_name : String → String
same_name name = name

abbrev show : ℕ → String
show n = "2"

abbrev same_names : List String → List String
same_names names = names

abbrev pub settings : ScannerConfig
settings = record {
  pod_namespace = "castai-agent";
  pull_policy = "IfNotPresent";
  api_url = "http://kvisor:6060";
  docker_options_path = "";
  cpu_request = "1m";
  cpu_limit = "4";
  memory_request = "1Mi";
  memory_limit = "2Gi";
  profile_enabled = false;
  phlare_enabled = false;
  pull_secret = "regcred";
  service_account_name = "";
}

abbrev params : ScanImageParams
params = record {
  image_name = "web:1";
  image_id = "web@sha";
  container_runtime = "containerd";
  mode = "";
  node_name = "n1";
  resource_ids = "d1" ∷ [];
  delete_finished_job = true;
  wait_for_completion = true;
  wait_duration_after_completion = pos 30000000000;
  architecture = "amd64";
  os = "linux";
  collector_image_details = record { image_name = "kvisor:1"; image_pull_secrets = [] };
}

abbrev conditions : List JobCondition
conditions = record { status = "True"; type = "Failed" } ∷ []

abbrev job_pod : JobPod
job_pod = record { name = "imgscan-1"; conditions = [] }

abbrev rounds : List Observation
rounds = observed conditions job_pod "unauthorized" ∷ []

abbrev answers : Answers
answers = record {
  get = get_error "etcdserver: request timed out";
  create_error = none;
  rounds = rounds;
  pods_after = pods_listed [];
  done_in_wait = none;
  delete = deleted;
}

made : (job : ScanJob (Unit {0})) × (job_of parse same_name settings params ≡ some job)
made = job_of_made parse same_name settings params (record {
  cpu_request = inr (tt, refl);
  cpu_limit = inr (tt, refl);
  memory_request = inr (tt, refl);
  memory_limit = inr (tt, refl);
})

complete : missing settings params ≡ none
unfolding missing
complete = ground (
  arith,
  eq_str-test "web@sha" "",
  eq_str-test "web:1" "",
  eq_str-test "containerd" "",
  eq_str-test "n1" "",
  eq_str-test "castai-agent" "",
)

job_of-Confined_example :
    All (λ v. allowed_source "regcred" "containerd" v.source ≡ true) made.0.volumes
    × (made.0.automount_service_account_token ≡ false)
    × (c : CollectorContainer (Unit {0})) × (made.0.containers ≡ c ∷ [])
    × All
        (λ m. (m.read_only ≡ true) × (has m.name (volume_names made.0.volumes) ≡ true))
        c.volume_mounts
    × (c.run_as_non_root ≡ true)
    × (c.allow_privilege_escalation ≡ false)
job_of-Confined_example = job_of-Confined parse same_name settings params made.0 made.1

scan_image-About_example :
    (out : Outcome (Unit {0})) × (scan_image parse same_name show polled settings params answers
      ≡ some out)
    × (body : List (Call (Unit {0}))) × About (gen_job_name same_name "web:1") false body
    × (out.calls
        ≡ body
          ++ (if deletes params answers
              then delete_job (gen_job_name same_name "web:1") ∷ []
              else []))
scan_image-About_example =
    scan_image-About parse same_name show polled settings params answers made.0 complete made.1

scan_image-succeeds_example :
    (out : Outcome (Unit {0})) × (scan_image parse same_name show polled settings params answers
      ≡ some out)
    × ((out.result ≡ none) ↔ (
        (missing settings params ≡ none)
        × ((false ≡ true) ⊎ (Path (Option String) none none))
        × (wait_for_completion show polled rounds ≡ none)
        × (wait_ends params answers ≡ none)
        × ((deleted ≡ deleted) ⊎ (deleted ≡ already_gone))))
scan_image-succeeds_example =
    scan_image-succeeds parse same_name show polled settings params answers made.0 refl refl made.1

wait_for_completion-RunsToEnd_example :
    (wait_for_completion show polled rounds ≡ none) ↔ RunsToEnd rounds
wait_for_completion-RunsToEnd_example =
    wait_for_completion-RunsToEnd show polled polled-PollLaws rounds

abbrev no_match : List ℕ → Option (List (String × String))
no_match line = none

abbrev lower : List ℕ → List ℕ
lower text = text

holds_complete : holds "Complete" conditions ≡ false
unfolding holds
holds_complete = ground (arith, eq_str-test "True" "True", eq_str-test "Failed" "Complete")

holds_failed : holds "Failed" conditions ≡ true
unfolding holds
holds_failed = ground (arith, eq_str-test "True" "True", eq_str-test "Failed" "Failed")

scan_image-private_example :
    (out : Outcome (Unit {0})) × (scan_image parse same_name show polled settings params answers
      ≡ some out)
    × (err : String) × (out.result ≡ some err)
    × (parse_error_from_log lower no_match err ≡ private_image)
    × ((t : ℕ)
        → (img' : Image) × (lookup "k1"
              (end_scan steady state 5 "k1"
                (failed (parse_error_from_log lower no_match err))).images
            ≡ some img')
          × (is_image_pending img' t ≡ false))
unfolding is_private_image_error contains wait_ends
scan_image-private_example =
    scan_image-private lower no_match (λ a b. refl) show polled polled-PollLaws parse same_name
      settings params answers made.0 conditions job_pod "unauthorized" [] steady state "k1"
      web_image 5 complete made.1 refl refl holds_complete holds_failed refl refl refl refl
      (held "k1" web_image) (omega arith)

-- The collector of a Docker node, in remote mode.
abbrev docker_config : CollectorConfig
docker_config = record {
  image_name = "web:1";
  image_id = "web@sha";
  image_architecture = "amd64";
  image_os = "linux";
  image_pull_secret = "regcred";
  mode = "remote";
  runtime = "docker";
  docker_option_path = "";
}

-- An empty secret, which is there if it is mounted.
abbrev read_secret : List VolumeMount → Option (String ⊎ GoMap RegistryAuth)
read_secret mounts = if mounted secret_mount_path mounts then some (inr []) else none

remote_mode_kept : "remote" ≡ mode_for "docker" "remote"
unfolding mode_for
remote_mode_kept = ground (arith, eq_str-test "remote" "")

docker_remote_scan_fails_example :
    get_image same_names "docker.io/library/web"
      (read_secret (volumes_for settings "docker" "remote").mounts)
      none
      true
      docker_config
    ≡ inl reading_secret
docker_remote_scan_fails_example =
    docker_remote_scan_fails same_names "docker.io/library/web" read_secret none settings
      docker_config (λ mounts unmounted. ap (λ b. if b then some (inr []) else none) unmounted)
      (differs "regcred" "" refl) refl refl remote_mode_kept
