-- ===== src/Linter/Specs.antt =====
-- linters/kubebench/spec/: the jobs that run kube-bench on a node. What the five files say in the same
-- words stands here once. A quantity is the text that `resource.MustParse` reads.
pub mod Clouds
pub mod Plain
pub mod Created
pub mod Confined
pub mod Polls
use kvisor.Base.{ℕ, String, GoMap, List, [], ◌∷◌, Bool, true, false}

pub record VolumeMount : Type 0 where
  pub name : String
  pub mount_path : String
  pub read_only : Bool

-- A volume from a path of the node.
pub record HostVolume : Type 0 where
  pub name : String
  pub path : String

pub record Toleration : Type 0 where
  pub key : String
  pub operator : String
  pub effect : String

pub record BenchContainer : Type 0 where
  pub name : String
  pub image : String
  pub image_pull_policy : String
  pub read_only_root_filesystem : Bool
  pub allow_privilege_escalation : Bool
  pub requests : GoMap String
  pub limits : GoMap String
  pub args : List String
  pub volume_mounts : List VolumeMount

-- `batchv1.Job`, with the fields that the specs set.
pub record BenchJob : Type 0 where
  pub name : String
  pub annotations : GoMap String
  pub labels : GoMap String
  pub backoff_limit : ℕ
  pub host_pid : Bool
  pub tolerations : List Toleration
  pub node_name : String
  pub restart_policy : String
  pub automount_service_account_token : Bool
  pub image_pull_secrets : List String
  pub containers : List BenchContainer
  pub volumes : List HostVolume

abbrev pub read_only : String → String → VolumeMount
read_only name path = record { name = name; mount_path = path; read_only = true }

abbrev pub host : String → String → HostVolume
host name path = record { name = name; path = path }

abbrev pub bench_container : List String → List VolumeMount → BenchContainer
bench_container args mounts = record {
  name = "kube-bench";
  image = "<placeholder>";
  image_pull_policy = "";
  read_only_root_filesystem = true;
  allow_privilege_escalation = false;
  requests = ("cpu", "10m") ∷ ("memory", "64Mi") ∷ [];
  limits = ("cpu", "200m") ∷ ("memory", "128Mi") ∷ [];
  args = args;
  volume_mounts = mounts;
}

unfoldable pub bench_job :
    String → String → List Toleration → List String → List VolumeMount → List HostVolume → BenchJob
bench_job node_name job_name tolerations args mounts volumes = record {
  name = job_name;
  annotations = ("autoscaling.cast.ai/disposable", "true") ∷ [];
  labels = ("app", "kube-bench") ∷ ("app.kubernetes.io/managed-by", "castai") ∷ [];
  backoff_limit = 0;
  host_pid = true;
  tolerations = tolerations;
  node_name = node_name;
  restart_policy = "Never";
  automount_service_account_token = true;
  image_pull_secrets = [];
  containers = bench_container args mounts ∷ [];
  volumes = volumes;
}
