-- ===== src/Kube/Transform/Policies.antt =====
-- What the kinds and versions that the informers fill in mean to the code that reads them: the
-- buffering of pod events, and the check on network policies.
use kvisor.Base.{String, List, [], ◌∷◌, map, Bool, true, false, any, ◌≡◌, refl, arith, eq_str-test}
use kvisor.Kube.Object.{
  Meta, Object, Event, namespace_object, deployment, replica_set, stateful_set, daemon_set, node,
  pod, job, cron_job, cron_job_beta, service, cluster_role_binding, role_binding, cluster_role,
  role, ingress, network_policy,
}
use kvisor.Kube.Dispatch.{is_pod_event}
use kvisor.Kube.Transform.{add_object_meta}
use kvisor.Linter.Custom.{is_policy_of, network_policy_messages}

abbrev pub is_pod : Object → Bool
is_pod (pod o) = true
is_pod _ = false

-- The pod events that are held back are those of pods, for objects as the informers hand them on.
pub is_pod_event-transformed :
    (event : Event) (obj : Object) → is_pod_event (event, add_object_meta obj) ≡ is_pod obj
unfolding add_object_meta
is_pod_event-transformed event (deployment o) = eq_str-test "Deployment" "Pod"
is_pod_event-transformed event (replica_set o) = eq_str-test "ReplicaSet" "Pod"
is_pod_event-transformed event (stateful_set o) = eq_str-test "StatefulSet" "Pod"
is_pod_event-transformed event (daemon_set o) = eq_str-test "DaemonSet" "Pod"
is_pod_event-transformed event (node o) = eq_str-test "Node" "Pod"
is_pod_event-transformed event (pod o) = eq_str-test "Pod" "Pod"
is_pod_event-transformed event (job o) = eq_str-test "Job" "Pod"
is_pod_event-transformed event (cron_job o) = eq_str-test "CronJob" "Pod"
is_pod_event-transformed event (cron_job_beta o) = eq_str-test "CronJob" "Pod"
is_pod_event-transformed event (namespace_object o) = eq_str-test "Namespace" "Pod"
is_pod_event-transformed event (service o) = eq_str-test "Service" "Pod"
is_pod_event-transformed event (cluster_role_binding o) = eq_str-test "ClusterRoleBinding" "Pod"
is_pod_event-transformed event (role_binding o) = eq_str-test "RoleBinding" "Pod"
is_pod_event-transformed event (cluster_role o) = eq_str-test "ClusterRole" "Pod"
is_pod_event-transformed event (role o) = eq_str-test "Role" "Pod"
is_pod_event-transformed event (ingress o) = eq_str-test "Ingress" "Pod"
is_pod_event-transformed event (network_policy o) = eq_str-test "NetworkPolicy" "Pod"

other_group : (ns : String) (obj : Object) → is_policy_of ns (add_object_meta obj) ≡ false
unfolding is_policy_of add_object_meta
other_group ns (deployment o) = ground (arith, eq_str-test "apps/v1" "networking.k8s.io/v1")
other_group ns (replica_set o) = ground (arith, eq_str-test "apps/v1" "networking.k8s.io/v1")
other_group ns (stateful_set o) = ground (arith, eq_str-test "apps/v1" "networking.k8s.io/v1")
other_group ns (daemon_set o) = ground (arith, eq_str-test "apps/v1" "networking.k8s.io/v1")
other_group ns (node o) = ground (arith, eq_str-test "v1" "networking.k8s.io/v1")
other_group ns (pod o) = ground (arith, eq_str-test "v1" "networking.k8s.io/v1")
other_group ns (job o) = ground (arith, eq_str-test "batch/v1" "networking.k8s.io/v1")
other_group ns (cron_job o) = ground (arith, eq_str-test "batch/v1" "networking.k8s.io/v1")
other_group ns (cron_job_beta o) =
    ground (arith, eq_str-test "batch/v1beta1" "networking.k8s.io/v1")
other_group ns (namespace_object o) = ground (arith, eq_str-test "v1" "networking.k8s.io/v1")
other_group ns (service o) = ground (arith, eq_str-test "v1" "networking.k8s.io/v1")
other_group ns (cluster_role_binding o) =
    ground (arith, eq_str-test "rbac.authorization.k8s.io/v1" "networking.k8s.io/v1")
other_group ns (role_binding o) =
    ground (arith, eq_str-test "rbac.authorization.k8s.io/v1" "networking.k8s.io/v1")
other_group ns (cluster_role o) =
    ground (arith, eq_str-test "rbac.authorization.k8s.io/v1" "networking.k8s.io/v1")
other_group ns (role o) =
    ground (arith, eq_str-test "rbac.authorization.k8s.io/v1" "networking.k8s.io/v1")
other_group ns (ingress o) = ground (arith, eq_str-test "networking/v1" "networking.k8s.io/v1")
other_group ns (network_policy o) =
    ground (arith, eq_str-test "networking/v1" "networking.k8s.io/v1")

none_found :
    (ns : String) (objects : List Object)
    → any (is_policy_of ns) (map add_object_meta objects) ≡ false
none_found ns [] = refl
none_found ns (obj ∷ objects) = ground (arith, other_group ns obj, none_found ns objects)

-- Of objects as the informers hand them on, the check network-policy-per-namespace finds every
-- namespace without a network policy, whatever network policies there are: the version that the
-- informers fill in is not the one that the check compares with.
pub no_policy_found :
    (objects : List Object) (m : Meta)
    → network_policy_messages (map add_object_meta objects) (add_object_meta (namespace_object m))
      ≡ "Namespace does not have any network policy" ∷ []
unfolding network_policy_messages add_object_meta
no_policy_found objects m = ground (arith, none_found m.name objects)
