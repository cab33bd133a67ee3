-- ===== src/Samples/ImageRuns.antt =====
-- The state of the image scanning, on the small cluster.
use kvisor.Base.{◌≡◌, refl}
use kvisor.Kube.Object.{node}
use kvisor.ImageScan.Runtime.{
  get_container_runtime, runtime_none, runtime_docker, runtime_containerd,
}
use kvisor.ImageScan.State.{DeltaState, new_delta_state}
use kvisor.ImageScan.State.Pods.{upsert}
use kvisor.ImageScan.State.Invariant.{Inv}
use kvisor.ImageScan.State.Events.{upsert-Inv}
use kvisor.Samples.{web_node}

docker_runtime : get_container_runtime "docker://a1b2" ≡ runtime_docker
unfolding get_container_runtime
docker_runtime = refl

containerd_runtime : get_container_runtime "containerd://a1b2" ≡ runtime_containerd
unfolding get_container_runtime
containerd_runtime = refl

no_runtime : get_container_runtime "containerd://a1://b2" ≡ runtime_none
unfolding get_container_runtime
no_runtime = refl

empty-Inv : Inv new_delta_state
empty-Inv = record { images_map = tt; images_good = tt; nodes_map = tt; nodes_good = tt }

abbrev with_node : DeltaState
with_node = upsert (λ p. p.uid) new_delta_state 5 (node web_node)

with_node-Inv : Inv with_node
with_node-Inv = upsert-Inv (λ p. p.uid) 5 new_delta_state (node web_node) empty-Inv
