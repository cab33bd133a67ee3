-- ===== src/Kube/Informers.antt =====
-- kube/controller.go: which informers there are (`NewController`), which of them each subscriber
-- asks for (`RequiredInformers`), and the start of a subscriber (`runSubscriber`).
pub mod Coverage
use kvisor.Base.{
  ℕ, List, [], ◌∷◌, ◌++◌, Bool, true, false, if◌then◌else◌, leb, ite, Option, none, some, any, keep,
}
use kvisor.Kube.Object.{
  ResourceType, ResourceType-discrete, type_pod, type_node, type_deployment, type_replica_set,
  type_stateful_set, type_daemon_set, type_job, type_cron_job, type_cron_job_beta, type_service,
  type_ingress, type_network_policy, type_namespace, type_cluster_role_binding, type_role_binding,
  type_cluster_role, type_role,
}

-- The keys of `typeInformerMap`.
unfoldable pub type_informers : ℕ → List ResourceType
type_informers minor =
    type_node
    ∷ type_replica_set
    ∷ type_job
    ∷ type_namespace
    ∷ type_service
    ∷ type_deployment
    ∷ type_daemon_set
    ∷ type_stateful_set
    ∷ type_cluster_role_binding
    ∷ type_role_binding
    ∷ type_cluster_role
    ∷ type_role
    ∷ type_network_policy
    ∷ type_ingress
    ∷ type_pod
    ∷ (if leb 21 minor then type_cron_job else type_cron_job_beta)
    ∷ []

pub data Subscriber : Type 0 where
  delta_subscriber image_scan_subscriber kube_bench_subscriber linter_subscriber : Subscriber

-- `RequiredInformers` of delta/controller.go.
unfoldable pub delta_informers : ℕ → List ResourceType
delta_informers minor =
    type_pod
    ∷ type_namespace
    ∷ type_service
    ∷ type_node
    ∷ type_deployment
    ∷ type_replica_set
    ∷ type_daemon_set
    ∷ type_stateful_set
    ∷ type_cluster_role_binding
    ∷ type_role_binding
    ∷ type_cluster_role
    ∷ type_role
    ∷ type_job
    ∷ type_ingress
    ∷ type_network_policy
    ∷ (if leb 21 minor then type_cron_job else type_cron_job_beta)
    ∷ []

-- `RequiredInformers` of linters/kubelinter/controller.go.
unfoldable pub linter_informers : List ResourceType
linter_informers =
    type_pod ∷ type_namespace ∷ type_service ∷ type_deployment ∷ type_daemon_set ∷ type_stateful_set
    ∷ type_cluster_role_binding ∷ type_role_binding ∷ type_cluster_role ∷ type_role
    ∷ type_network_policy ∷ type_ingress ∷ type_job ∷ type_cron_job ∷ []

unfoldable pub required_informers : ℕ → Subscriber → List ResourceType
unfolding delta_informers linter_informers
required_informers minor delta_subscriber = delta_informers minor
required_informers minor image_scan_subscriber = type_pod ∷ type_node ∷ []
required_informers minor kube_bench_subscriber = type_node ∷ []
required_informers minor linter_subscriber = linter_informers

abbrev pub has_type : ResourceType → List ResourceType → Bool
has_type typ types = any (λ other. ite (ResourceType-discrete other typ) true false) types

pub data StartError : Type 0 where
  no_informer : ResourceType → StartError
  sync_failed : StartError

-- The loop over the required types: the first one without an informer stops the subscriber.
unfoldable pub missing_informer : List ResourceType → List ResourceType → Option ResourceType
missing_informer informers [] = none
missing_informer informers (typ ∷ types) =
    if has_type typ informers then missing_informer informers types else some typ

-- `runSubscriber` up to `subscriber.Run`; `synced` is the answer of `cache.WaitForCacheSync`, and
-- `none` means that the subscriber runs.
unfoldable pub run_subscriber : List ResourceType → List ResourceType → Bool → Option StartError
unfolding missing_informer
run_subscriber informers required synced = elim (missing_informer informers required) [
  | some typ ↦ some (no_informer typ)
  | none ↦ elim required [ [] ↦ none | _ ∷ _ ↦ if synced then none else some sync_failed ]
]

-- `eventsHandler`: the subscribers that are told of events of a type.
unfoldable pub subscribers_of : ℕ → ResourceType → List Subscriber → List Subscriber
unfolding required_informers
subscribers_of minor typ subscribers =
    keep (λ v. has_type typ (required_informers minor v)) subscribers
