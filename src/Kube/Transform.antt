-- ===== src/Kube/Transform.antt =====
-- kube/controller.go: `addObjectMeta`, by which informers fill in the kind and the version of objects.
pub mod Policies
use kvisor.Base.{String}
use kvisor.Kube.Object.{
  Meta, Object, deployment, replica_set, stateful_set, daemon_set, node, pod, job, cron_job,
  cron_job_beta, namespace_object, service, cluster_role_binding, role_binding, cluster_role, role,
  ingress, network_policy,
}

abbrev pub of_type : String → String → Meta → Meta
of_type kind api_version m = record m { kind = kind; api_version = api_version }

-- `addObjectMeta`.
unfoldable pub add_object_meta : Object → Object
add_object_meta (deployment o) =
    deployment (record o { meta = of_type "Deployment" "apps/v1" o.meta })
add_object_meta (replica_set o) =
    replica_set (record o { meta = of_type "ReplicaSet" "apps/v1" o.meta })
add_object_meta (stateful_set o) =
    stateful_set (record o { meta = of_type "StatefulSet" "apps/v1" o.meta })
add_object_meta (daemon_set o) =
    daemon_set (record o { meta = of_type "DaemonSet" "apps/v1" o.meta })
add_object_meta (node o) = node (record o { meta = of_type "Node" "v1" o.meta })
add_object_meta (pod o) = pod (record o { meta = of_type "Pod" "v1" o.meta })
add_object_meta (job o) = job (record o { meta = of_type "Job" "batch/v1" o.meta })
add_object_meta (cron_job o) = cron_job (record o { meta = of_type "CronJob" "batch/v1" o.meta })
add_object_meta (cron_job_beta o) =
    cron_job_beta (record o { meta = of_type "CronJob" "batch/v1beta1" o.meta })
add_object_meta (namespace_object m) = namespace_object (of_type "Namespace" "v1" m)
add_object_meta (service m) = service (of_type "Service" "v1" m)
add_object_meta (cluster_role_binding m) =
    cluster_role_binding (of_type "ClusterRoleBinding" "rbac.authorization.k8s.io/v1" m)
add_object_meta (role_binding m) =
    role_binding (of_type "RoleBinding" "rbac.authorization.k8s.io/v1" m)
add_object_meta (cluster_role m) =
    cluster_role (of_type "ClusterRole" "rbac.authorization.k8s.io/v1" m)
add_object_meta (role m) = role (of_type "Role" "rbac.authorization.k8s.io/v1" m)
add_object_meta (ingress m) = ingress (of_type "Ingress" "networking/v1" m)
add_object_meta (network_policy m) = network_policy (of_type "NetworkPolicy" "networking/v1" m)
