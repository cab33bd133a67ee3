-- ===== src/Config.antt =====
-- config/config.go: `Load`, with its checks and its defaults. What the YAML file and the environment
-- fill in is an argument. A duration is in nanoseconds; integers are signed.
pub mod Defaults
use kvisor.Base.{
  ℕ, zero, ◌*◌, ℤ, pos, String, List, Option, none, some, Bool, ◌⊎◌, inl, inr, if◌then◌else◌,
  eq_str,
}

pub record PolicyEnforcement : Type 0 where
  pub enabled : Bool
  pub webhook_name : String
  pub bundles : List String

pub record CloudScanGke : Type 0 where
  pub cluster_name : String
  pub credentials_file : String
  pub service_account_name : String

pub record CloudScan : Type 0 where
  pub enabled : Bool
  pub scan_interval : ℤ
  pub gke : Option CloudScanGke
  pub eks_cluster_name : Option String

-- `ImageScan`, with the one field of `ImageScanImage`.
pub record ImageScan : Type 0 where
  pub enabled : Bool
  pub scan_interval : ℤ
  pub scan_timeout : ℤ
  pub max_concurrent_scans : ℤ
  pub pull_policy : String
  pub mode : String
  pub api_url : String
  pub docker_options_path : String
  pub cpu_request : String
  pub cpu_limit : String
  pub memory_request : String
  pub memory_limit : String
  pub profile_enabled : Bool
  pub phlare_enabled : Bool
  pub pull_secret : String
  pub init_delay : ℤ
  pub service_account_name : String

pub record Linter : Type 0 where
  pub enabled : Bool
  pub scan_interval : ℤ

-- `KubeBench`, with the one field of `KubeBenchImage`.
pub record KubeBench : Type 0 where
  pub enabled : Bool
  pub force : Bool
  pub scan_interval : ℤ
  pub pull_policy : String

pub record KubeClient : Type 0 where
  pub qps : ℤ
  pub burst : ℤ
  pub kube_config_path : String
  pub use_protobuf : Bool

pub record Api : Type 0 where
  pub key : String
  pub url : String
  pub cluster_id : String

-- `Config`; the level of `Log` and the interval of `Telemetry` are fields of it.
pub record Config : Type 0 where
  pub pod_ip : String
  pub pod_namespace : String
  pub service_name : String
  pub service_port : ℤ
  pub certs_dir : String
  pub certs_secret : String
  pub leader_election : Bool
  pub policy_enforcement : PolicyEnforcement
  pub kube_client : KubeClient
  pub log_level : String
  pub api : Api
  pub http_port : ℤ
  pub status_port : ℤ
  pub provider : String
  pub delta_sync_interval : ℤ
  pub image_scan : ImageScan
  pub linter : Linter
  pub kube_bench : KubeBench
  pub cloud_scan : CloudScan
  pub telemetry_interval : ℤ

-- `if x == 0 { x = default }` and `if x == "" { x = default }`.
abbrev pub or_number : ℤ → ℕ → ℤ
or_number (pos zero) n = pos n
or_number x n = x

abbrev pub or_text : String → String → String
or_text s default = if eq_str s "" then default else s

abbrev pub second : ℕ
second = 1000000000

unfoldable pub image_scan_defaults : ImageScan → ImageScan
image_scan_defaults c =
    if c.enabled
    then record c {
      pull_policy = or_text c.pull_policy "IfNotPresent";
      max_concurrent_scans = or_number c.max_concurrent_scans 3;
      scan_interval = or_number c.scan_interval (15 * second);
      scan_timeout = or_number c.scan_timeout (600 * second);
      cpu_limit = or_text c.cpu_limit "4";
      cpu_request = or_text c.cpu_request "1m";
      memory_limit = or_text c.memory_limit "2Gi";
      memory_request = or_text c.memory_request "1Mi";
      api_url = or_text c.api_url "http://kvisor.castai-agent.svc.cluster.local.:6060";
      init_delay = or_number c.init_delay (60 * second);
      service_account_name = or_text c.service_account_name "";
    }
    else c

unfoldable pub cloud_scan_defaults : CloudScan → CloudScan
cloud_scan_defaults c =
    if c.enabled then record c { scan_interval = or_number c.scan_interval (3600 * second) } else c

unfoldable pub kube_bench_defaults : KubeBench → KubeBench
kube_bench_defaults c =
    if c.enabled
    then record c {
      scan_interval = or_number c.scan_interval (30 * second);
      pull_policy = or_text c.pull_policy "IfNotPresent";
    }
    else c

unfoldable pub linter_defaults : Linter → Linter
linter_defaults c =
    if c.enabled then record c { scan_interval = or_number c.scan_interval (30 * second) } else c

unfoldable pub kube_client_defaults : KubeClient → KubeClient
kube_client_defaults c = record c { qps = or_number c.qps 25; burst = or_number c.burst 150 }

-- The defaults of `Load`, all of them.
unfoldable pub set_defaults : Config → Config
unfolding image_scan_defaults cloud_scan_defaults kube_bench_defaults linter_defaults
    kube_client_defaults
set_defaults cfg = record cfg {
  kube_client = kube_client_defaults cfg.kube_client;
  log_level = or_text cfg.log_level "debug";
  image_scan = image_scan_defaults cfg.image_scan;
  cloud_scan = cloud_scan_defaults cfg.cloud_scan;
  kube_bench = kube_bench_defaults cfg.kube_bench;
  linter = linter_defaults cfg.linter;
  http_port = or_number cfg.http_port 6060;
  provider = or_text cfg.provider "on-premise";
  delta_sync_interval = or_number cfg.delta_sync_interval (15 * second);
  status_port = or_number cfg.status_port 7071;
  telemetry_interval = or_number cfg.telemetry_interval (60 * second);
}

pub data LoadError : Type 0 where
  required : String → LoadError
  bad_level : String → LoadError

-- `Load` on the configuration that was read. `parse_level` is the error of `logrus.ParseLevel`.
unfoldable pub load : (String → Option String) → Config → LoadError ⊎ Config
unfolding set_defaults
load parse_level cfg =
    if eq_str cfg.api.url ""
    then inl (required "API_URL")
    else if eq_str cfg.api.key ""
    then inl (required "API_KEY")
    else if eq_str cfg.api.cluster_id ""
    then inl (required "CLUSTER_ID")
    else if eq_str cfg.log_level ""
    then inr (set_defaults cfg)
    else elim (parse_level cfg.log_level) [
      | some err ↦ inl (bad_level err)
      | none ↦ inr (set_defaults cfg)
    ]
