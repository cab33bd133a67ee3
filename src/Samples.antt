-- ===== src/Samples.antt =====
-- A small cluster, and the theorems applied to it.
mod CloudRuns
mod KubeRuns
mod DeltaRuns
mod ImageRuns
mod ScanRuns
mod JobRuns
mod PolicyRuns
mod ClientRuns
mod LinterRuns
mod AgentRuns
use kvisor.Base.{
  String, ℕ, GoMap, ℤ, pos, List, [], ◌∷◌, Option, none, some, Bool, true, false, lookup, eq_str,
}
use kvisor.Kube.Object.{
  Meta, OwnerReference, Container, ContainerStatus, PodSpec, Pod, Node, Workload, Deployment,
  LabelSelector, Object, running,
}
use kvisor.Kube.Index.{Controller}
use kvisor.Delta.Item.{Outside}

abbrev pub meta_of : String → String → String → List OwnerReference → Meta
meta_of kind name uid owners = record {
  kind = kind;
  api_version = "v1";
  name = name;
  namespace = "default";
  uid = uid;
  labels = ("app", "web") ∷ [];
  annotations = [];
  owner_references = owners;
  created_at = 7;
}

abbrev pub web_container : Container
web_container = record {
  name = "web";
  image = "web:1";
  request_cpu = pos 2;
  request_memory = pos 5;
}

abbrev pub web_spec : PodSpec
web_spec = record {
  node_name = "n1";
  containers = web_container ∷ [];
  init_containers = [];
  image_pull_secrets = [];
}

abbrev pub web_status : ContainerStatus
web_status = record { name = "web"; image_id = "web@sha"; container_id = "containerd://c1" }

abbrev pub web_pod : Pod
web_pod = record {
  meta = meta_of "Pod" "web-1" "p1" (record { kind = "ReplicaSet"; uid = "rs1" } ∷ []);
  spec = web_spec;
  phase = running;
  container_statuses = web_status ∷ [];
  init_container_statuses = [];
}

abbrev pub web_node : Node
web_node = record {
  meta = meta_of "Node" "n1" "u1" [];
  architecture = "arm64";
  operating_system = "linux";
  container_runtime_version = "containerd";
  kubelet_version = "1.25";
  os_image = "bottlerocket";
  allocatable_memory = pos 100;
  allocatable_cpu = pos 10;
  taints = [];
  conditions = [];
}

abbrev pub web_replica_set : Workload
web_replica_set = record {
  meta = meta_of "ReplicaSet" "web" "rs1" (record { kind = "Deployment"; uid = "d1" } ∷ []);
  template = web_spec;
}

abbrev pub web_deployment : Deployment
web_deployment = record {
  meta = meta_of "Deployment" "web" "d1" [];
  selector = record { match_labels = ("app", "web") ∷ []; match_expressions = [] };
  template = web_spec;
}

-- Selection by the label "app" alone.
abbrev pub by_app : LabelSelector → GoMap String → Option Bool
by_app selector labels = elim (lookup "app" selector.match_labels) [
  | none ↦ some true
  | some wanted ↦ elim (lookup "app" labels) [
    | none ↦ some false
    | some app ↦ some (eq_str app wanted)
  ]
]

abbrev pub outside : Outside
outside = record {
  marshal_status = λ o. some "{}";
  marshal_spec = λ o. some "{}";
  get_pod_owner_id = λ p. p.uid;
}
