-- ===== src/ImageScan/State/Usage.antt =====
-- imagescan/delta.go: the resources of nodes (`updateNodeUsage`, `updateNodesUsageFromPod`).
use kvisor.Base.{pos, lookup, insert, delete, [], none, some, false, eq_str}
use kvisor.Kube.Object.{Pod, Node, PodPhase, pending, running}
use kvisor.ImageScan.State.{
  PodUsage, NodeUsage, DeltaState, sum_pod_request_memory, sum_pod_request_cpu,
}

unfoldable pub new_node : Node → NodeUsage
new_node v = record {
  name = v.name;
  architecture = v.architecture;
  os = v.operating_system;
  allocatable_mem = pos 0;
  allocatable_cpu = pos 0;
  pods = [];
  castai_managed = elim (lookup "provisioner.cast.ai/managed-by" v.labels) [
    | none ↦ false
    | some by ↦ eq_str by "cast.ai"
  ];
}

unfoldable pub update_node_usage : DeltaState → Node → DeltaState
unfolding new_node
update_node_usage d v =
    let n : NodeUsage = elim (lookup v.name d.nodes) [ none ↦ new_node v | some n ↦ n ] in
    record d {
      nodes =
          insert v.name
            (record n {
              allocatable_mem = v.allocatable_memory;
              allocatable_cpu = v.allocatable_cpu;
            })
            d.nodes;
    }

pub data Activity : Type 0 where
  active inactive : Activity

-- The switch over the phase.
abbrev pub activity : PodPhase → Activity
activity running = active
activity pending = active
activity _ = inactive

unfoldable pub record_pod : NodeUsage → Pod → NodeUsage
record_pod n v =
    let p : PodUsage = elim (lookup v.uid n.pods) [
      | none ↦ record { id = v.uid; request_cpu = pos 0; request_memory = pos 0 }
      | some p ↦ p
    ] in
    record n {
      pods =
          insert v.uid
            (record p {
              request_memory = sum_pod_request_memory v.spec;
              request_cpu = sum_pod_request_cpu v.spec;
            })
            n.pods;
    }

unfoldable pub update_nodes_usage_from_pod : DeltaState → Pod → DeltaState
unfolding record_pod
update_nodes_usage_from_pod d v = elim (lookup v.spec.node_name d.nodes) [
  | none ↦ d
  | some n ↦ elim (activity v.phase) [
    | active ↦ record d { nodes = insert v.spec.node_name (record_pod n v) d.nodes }
    | inactive ↦ record d {
      nodes = insert v.spec.node_name (record n { pods = delete v.uid n.pods }) d.nodes;
    }
  ]
]
