-- ===== src/Kube/Object.antt =====
-- The Kubernetes objects that kvisor reads, with the fields that its code uses, and the
-- `kube.Object` interface of kube/types.go. CPU and memory amounts are integers of a common scale.
use kvisor.Base.{ℕ, String, List, GoMap, ℤ}

pub record OwnerReference : Type 0 where
  pub kind : String
  pub uid : String

-- TypeMeta and ObjectMeta.
pub record Meta : Type 0 where
  pub kind : String
  pub api_version : String
  pub name : String
  pub namespace : String
  pub uid : String
  pub labels : GoMap String
  pub annotations : GoMap String
  pub owner_references : List OwnerReference
  pub created_at : ℕ

pub record Container : Type 0 where
  pub name : String
  pub image : String
  pub request_cpu : ℤ
  pub request_memory : ℤ

pub record ContainerStatus : Type 0 where
  pub name : String
  pub image_id : String
  pub container_id : String

pub record PodSpec : Type 0 where
  pub node_name : String
  pub containers : List Container
  pub init_containers : List Container
  pub image_pull_secrets : List String

pub data PodPhase : Type 0 where
  pending running succeeded failed unknown : PodPhase

pub record Pod : Type 0 where
  pub meta : Meta
  pub open meta use *
  pub spec : PodSpec
  pub phase : PodPhase
  pub container_statuses : List ContainerStatus
  pub init_container_statuses : List ContainerStatus

pub data ConditionStatus : Type 0 where
  condition_true condition_false condition_unknown : ConditionStatus

pub record NodeCondition : Type 0 where
  pub type_name : String
  pub status : ConditionStatus

pub record Node : Type 0 where
  pub meta : Meta
  pub open meta use *
  pub architecture : String
  pub operating_system : String
  pub container_runtime_version : String
  pub kubelet_version : String
  pub os_image : String
  pub allocatable_memory : ℤ
  pub allocatable_cpu : ℤ
  pub taints : List String
  pub conditions : List NodeCondition

pub record SelectorRequirement : Type 0 where
  pub key : String
  pub operator : String
  pub choices : List String

pub record LabelSelector : Type 0 where
  pub match_labels : GoMap String
  pub match_expressions : List SelectorRequirement

pub record Deployment : Type 0 where
  pub meta : Meta
  pub open meta use *
  pub selector : LabelSelector
  pub template : PodSpec

-- ReplicaSet, StatefulSet, DaemonSet, Job and CronJob: what is read of them is the pod template.
pub record Workload : Type 0 where
  pub meta : Meta
  pub open meta use *
  pub template : PodSpec

-- The dynamic types that the code's type switches tell apart.
pub data Object : Type 0 where
  pod : Pod → Object
  node : Node → Object
  deployment : Deployment → Object
  replica_set : Workload → Object
  stateful_set : Workload → Object
  daemon_set : Workload → Object
  job : Workload → Object
  cron_job : Workload → Object
  cron_job_beta : Workload → Object
  service : Meta → Object
  ingress : Meta → Object
  network_policy : Meta → Object
  namespace_object : Meta → Object
  cluster_role_binding : Meta → Object
  role_binding : Meta → Object
  cluster_role : Meta → Object
  role : Meta → Object

-- The accessors of `metav1.Object`.
abbrev pub get_meta : Object → Meta
get_meta (pod o) = o.meta
get_meta (node o) = o.meta
get_meta (deployment o) = o.meta
get_meta (replica_set o) = o.meta
get_meta (stateful_set o) = o.meta
get_meta (daemon_set o) = o.meta
get_meta (job o) = o.meta
get_meta (cron_job o) = o.meta
get_meta (cron_job_beta o) = o.meta
get_meta (service m) = m
get_meta (ingress m) = m
get_meta (network_policy m) = m
get_meta (namespace_object m) = m
get_meta (cluster_role_binding m) = m
get_meta (role_binding m) = m
get_meta (cluster_role m) = m
get_meta (role m) = m

abbrev pub get_uid : Object → String
get_uid o = (get_meta o).uid

-- `kube.Event`.
pub data Event : Type 0 where
  event_add event_update event_delete : Event

-- The types by which informers are registered.
pub data ResourceType : Type 0 where
  type_pod type_node type_deployment type_replica_set type_stateful_set type_daemon_set type_job
        type_cron_job type_cron_job_beta type_service type_ingress type_network_policy
        type_namespace type_cluster_role_binding type_role_binding type_cluster_role type_role :
      ResourceType

unfoldable pub ResourceType-discrete : Discrete ResourceType
ResourceType-discrete = hlevel
