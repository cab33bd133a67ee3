-- ===== src/ImageScan/Jobs/Spec.antt =====
-- imagescan/scanner.go: the job that scans an image, with its volumes, variables and annotations,
-- as `ScanImage` and `scanJobSpec` put them together.
use Prim.Native.String.{◌++◌ as ◌<>◌}
use mathlib.Core.List.{◌++◌}
use kvisor.Base.{
  ℕ, ℤ, String, GoMap, insert, List, [], ◌∷◌, Option, none, some, Bool, true, false, if◌then◌else◌,
  eq_str, ◌>>=◌,
}

pub data VolumeSource : Type 0 where
  host_path : String → String → VolumeSource
  secret : String → VolumeSource

pub record Volume : Type 0 where
  pub name : String
  pub source : VolumeSource

pub record VolumeMount : Type 0 where
  pub name : String
  pub read_only : Bool
  pub mount_path : String

-- `volumesAndMounts`.
pub record VolumesAndMounts : Type 0 where
  pub volumes : List Volume
  pub mounts : List VolumeMount

pub record EnvVar : Type 0 where
  pub name : String
  pub value : String

pub record Toleration : Type 0 where
  pub effect : String
  pub operator : String

-- A `NodeSelectorRequirement` with the operator In.
pub record KeyIn : Type 0 where
  pub key : String
  pub values : List String

-- `config.ImageScan`, the settings that the scanner reads.
pub record ScannerConfig : Type 0 where
  pub pod_namespace : String
  pub pull_policy : String
  pub api_url : String
  pub docker_options_path : String
  pub cpu_request : String
  pub cpu_limit : String
  pub memory_request : String
  pub memory_limit : String
  pub profile_enabled : Bool
  pub phlare_enabled : Bool
  pub pull_secret : String
  pub service_account_name : String

-- `kube.KvisorImageDetails`.
pub record KvisorImageDetails : Type 0 where
  pub image_name : String
  pub image_pull_secrets : List String

-- `ScanImageParams`; a duration is in nanoseconds.
pub record ScanImageParams : Type 0 where
  pub image_name : String
  pub image_id : String
  pub container_runtime : String
  pub mode : String
  pub node_name : String
  pub resource_ids : List String
  pub delete_finished_job : Bool
  pub wait_for_completion : Bool
  pub wait_duration_after_completion : ℤ
  pub architecture : String
  pub os : String
  pub collector_image_details : KvisorImageDetails

-- `strings.Join`.
unfoldable pub join : List String → String → String
join [] sep = ""
join (x ∷ []) sep = x
join (x ∷ y ∷ xs) sep = x <> (sep <> join (y ∷ xs) sep)

abbrev variable : String → String → EnvVar
variable name value = record { name = name; value = value }

unfoldable pub env_vars : ScannerConfig → ScanImageParams → String → List EnvVar
unfolding join
env_vars cfg params mode =
    (variable "GOMEMLIMIT" "1800MiB"
      ∷ variable "COLLECTOR_IMAGE_ID" params.image_id
      ∷ variable "COLLECTOR_IMAGE_NAME" params.image_name
      ∷ variable "COLLECTOR_TIMEOUT" "5m"
      ∷ variable "COLLECTOR_MODE" mode
      ∷ variable "COLLECTOR_RUNTIME" params.container_runtime
      ∷ variable "COLLECTOR_DOCKER_OPTION_PATH" cfg.docker_options_path
      ∷ variable "COLLECTOR_RESOURCE_IDS" (join params.resource_ids ",")
      ∷ variable "KVISOR_SERVER_API_URL" cfg.api_url
      ∷ variable "COLLECTOR_IMAGE_ARCHITECTURE" params.architecture
      ∷ variable "COLLECTOR_IMAGE_OS" params.os
      ∷ [])
    ++ (if eq_str cfg.pull_secret ""
        then []
        else variable "COLLECTOR_PULL_SECRET" cfg.pull_secret ∷ [])
    ++ (if cfg.profile_enabled then variable "COLLECTOR_PPROF_ADDR" ":6060" ∷ [] else [])

unfoldable pub pod_annotations : ScannerConfig → GoMap String
pod_annotations cfg =
    if cfg.profile_enabled
    then if cfg.phlare_enabled
      then insert "phlare.grafana.com/port" "6060" (insert "phlare.grafana.com/scrape" "true" [])
      else []
    else []

-- The container of the job; `Q` stands for `resource.Quantity`.
pub record CollectorContainer (Q : Type 0) : Type 0 where
  pub name : String
  pub image : String
  pub args : List String
  pub image_pull_policy : String
  pub run_as_user : ℕ
  pub run_as_non_root : Bool
  pub allow_privilege_escalation : Bool
  pub env : List EnvVar
  pub volume_mounts : List VolumeMount
  pub limits : GoMap Q
  pub requests : GoMap Q

pub record ScanJob (Q : Type 0) : Type 0 where
  pub name : String
  pub namespace : String
  pub annotations : GoMap String
  pub labels : GoMap String
  pub ttl_seconds_after_finished : ℕ
  pub backoff_limit : ℕ
  pub template_annotations : GoMap String
  pub restart_policy : String
  pub priority : ℕ
  pub required_node : List KeyIn
  pub preferred_node : List KeyIn
  pub tolerations : List Toleration
  pub automount_service_account_token : Bool
  pub service_account_name : String
  pub image_pull_secrets : List String
  pub containers : List (CollectorContainer Q)
  pub volumes : List Volume

-- `must_parse` is `resource.MustParse`; `none` is its panic.
module _ {Q : Type 0} (must_parse : String → Option Q) where
  -- One of the four blocks on limits and requests, from the map so far.
  unfoldable pub with_quantity : String → String → GoMap Q → Option (GoMap Q)
  with_quantity resource text amounts =
      if eq_str text ""
      then some amounts
      else elim (must_parse text) [ none ↦ none | some q ↦ some (insert resource q amounts) ]

  unfoldable pub scan_job_spec :
      String
      → String
      → String
      → List EnvVar
      → GoMap String
      → VolumesAndMounts
      → List Toleration
      → ScannerConfig
      → KvisorImageDetails
      → Option (ScanJob Q)
  unfolding with_quantity
  scan_job_spec ns node_name job_name env annotations vol tolerations cfg details = do
    cpu_limits ← with_quantity "cpu" cfg.cpu_limit []
    cpu_requests ← with_quantity "cpu" cfg.cpu_request []
    requests ← with_quantity "memory" cfg.memory_request cpu_requests
    limits ← with_quantity "memory" cfg.memory_limit cpu_limits
    some (record {
      name = job_name;
      namespace = ns;
      annotations = ("autoscaling.cast.ai/disposable", "true") ∷ [];
      labels = ("app.kubernetes.io/managed-by", "castai") ∷ [];
      ttl_seconds_after_finished = 100;
      backoff_limit = 0;
      template_annotations = annotations;
      restart_policy = "Never";
      priority = 0;
      required_node = record { key = "kubernetes.io/os"; values = "linux" ∷ [] } ∷ [];
      preferred_node = record { key = "kubernetes.io/hostname"; values = node_name ∷ [] } ∷ [];
      tolerations = tolerations;
      automount_service_account_token = false;
      service_account_name = cfg.service_account_name;
      image_pull_secrets = details.image_pull_secrets;
      containers =
          record {
            name = "collector";
            image = details.image_name;
            args = "analyze-image" ∷ [];
            image_pull_policy = cfg.pull_policy;
            run_as_user = 65532;
            run_as_non_root = true;
            allow_privilege_escalation = false;
            env = env;
            volume_mounts = vol.mounts;
            limits = limits;
            requests = requests;
          }
          ∷ [];
      volumes = vol.volumes;
    })
