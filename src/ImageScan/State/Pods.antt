-- ===== src/ImageScan/State/Pods.antt =====
-- imagescan/delta.go: the informer events (`upsert`, `delete`) and what they do to images and nodes.
use Prim.Native.String.{◌++◌ as ◌+++◌}
use kvisor.Base.{
  ℕ, String, GoMap, GoSet, lookup, insert, delete, range_update, find, length, List, [], ◌∷◌, ◌++◌,
  Option, none, some, Bool, false, true, eq_str, ◌||◌, not, ◌==◌, if◌then◌else◌,
}
use kvisor.Kube.Object.{
  Container, ContainerStatus, Pod, Node, Object, pod, node, running, succeeded,
}
use kvisor.ImageScan.Runtime.{runtime_none, get_container_runtime}
use kvisor.ImageScan.State.{Image, DeltaState, Platform, get_pod_platform, is_unused}
use kvisor.ImageScan.State.Usage.{update_node_usage, update_nodes_usage_from_pod}

unfoldable pub new_image : Image
new_image = record {
  key = "";
  id = "";
  name = "";
  architecture = "";
  os = "";
  container_runtime = runtime_none;
  owners = [];
  nodes = [];
  scanned = false;
  last_scan_err = none;
  failures = 0;
  retry_backoff = record { duration = 60; factor = 3; steps = 8 };
  next_scan = 0;
  last_remote_sync_at = 0;
  owner_changed_at = 0;
  resources_updated_at = 0;
}

-- `podIDs[podID] = struct{}{}` in the set under `k`, which is made if it is missing.
unfoldable pub add_pod : String → String → GoMap GoSet → GoMap GoSet
add_pod k pod_id m = elim (lookup k m) [
  | some pod_ids ↦ insert k (insert pod_id tt pod_ids) m
  | none ↦ insert k ((pod_id, tt) ∷ []) m
]

abbrev pub image_key : ContainerStatus → Platform → Container → String
image_key cs platform cont = cs.image_id +++ (platform.architecture +++ cont.image)

-- The image of a container, with the owner and the node of the pod.
unfoldable pub use_image : Image → ℕ → Pod → String → ContainerStatus → Image
unfolding add_pod
use_image img now p owner_id cs = record img {
  id = cs.image_id;
  container_runtime = get_container_runtime cs.container_id;
  owners = add_pod owner_id p.uid img.owners;
  owner_changed_at = elim (lookup owner_id img.owners) [
    | none ↦ now
    | some _ ↦ img.owner_changed_at
  ];
  nodes = add_pod p.spec.node_name p.uid img.nodes;
}

-- The image under the key, made if it is missing.
unfoldable pub find_image : GoMap Image → String → Platform → Container → Image
unfolding new_image
find_image images key platform cont = elim (lookup key images) [
  | some img ↦ img
  | none ↦ record new_image {
    name = cont.image;
    key = key;
    architecture = platform.architecture;
    os = platform.os;
  }
]

-- The body of the loop over the containers.
unfoldable pub upsert_image :
    DeltaState → ℕ → Pod → String → List ContainerStatus → Container → DeltaState
unfolding find_image use_image
upsert_image d now p owner_id statuses cont = elim (find (λ v. eq_str v.name cont.name) statuses) [
  | none ↦ d
  | some cs ↦
      if eq_str cs.image_id "" || eq_str cont.image ""
      then d
      else let platform = get_pod_platform d p in
        let key = image_key cs platform cont in
        let img = find_image d.images key platform cont in
        record d { images = insert key (use_image img now p owner_id cs) d.images }
]

unfoldable pub upsert_containers :
    DeltaState → ℕ → Pod → String → List ContainerStatus → List Container → DeltaState
upsert_containers d now p owner_id statuses [] = d
upsert_containers d now p owner_id statuses (cont ∷ containers) =
    upsert_containers (upsert_image d now p owner_id statuses cont) now p owner_id statuses
      containers

unfoldable pub upsert_images : (Pod → String) → DeltaState → ℕ → Pod → DeltaState
unfolding upsert_containers
upsert_images get_pod_owner_id d now p = elim (lookup p.spec.node_name d.nodes) [
  | none ↦ d
  | some _ ↦
      upsert_containers d now p (get_pod_owner_id p)
        (p.container_statuses ++ p.init_container_statuses)
        (p.spec.containers ++ p.spec.init_containers)
]

-- `delete(podIDs, podID)` in the set under `k`, if there is one.
unfoldable pub remove_pod : String → String → GoMap GoSet → GoMap GoSet
remove_pod k pod_id m = elim (lookup k m) [
  | none ↦ m
  | some pod_ids ↦ insert k (delete pod_id pod_ids) m
]

-- The same for an owner, which goes with its last pod; the second component says whether it went.
unfoldable pub remove_owner_pod : String → String → GoMap GoSet → GoMap GoSet × Bool
remove_owner_pod owner_id pod_id owners = elim (lookup owner_id owners) [
  | none ↦ (owners, false)
  | some pod_ids ↦
      let left = delete pod_id pod_ids in
      if length left == 0
      then (delete owner_id owners, true)
      else (insert owner_id left owners, false)
]

-- The image without the pod.
unfoldable pub release_pod : String → ℕ → Pod → Image → Image
unfolding remove_pod remove_owner_pod
release_pod owner_id now p img =
    let (owners', gone) = remove_owner_pod owner_id p.uid img.owners in
    record img {
      nodes = remove_pod p.spec.node_name p.uid img.nodes;
      owners = owners';
      owner_changed_at = if gone then now else img.owner_changed_at;
    }

-- The body of the loop over the images in `handlePodDelete`; `none` deletes the image.
unfoldable pub release_image : String → String → ℕ → Pod → Image → Option Image
unfolding release_pod
release_image architecture owner_id now p img =
    if not (eq_str img.architecture architecture)
    then some img
    else let img' = release_pod owner_id now p img in if is_unused img' then none else some img'

-- The end of `handlePodDelete`.
unfoldable pub forget_pod : DeltaState → Pod → DeltaState
forget_pod d p = elim (lookup p.spec.node_name d.nodes) [
  | none ↦ d
  | some n ↦ record d {
    nodes = insert p.spec.node_name (record n { pods = delete p.uid n.pods }) d.nodes;
  }
]

unfoldable pub handle_pod_delete : (Pod → String) → DeltaState → ℕ → Pod → DeltaState
unfolding release_image forget_pod
handle_pod_delete get_pod_owner_id d now p =
    forget_pod
      (record d {
        images =
            range_update
              (λ _ img.
                release_image (get_pod_platform d p).architecture (get_pod_owner_id p) now p img)
              d.images;
      })
      p

unfoldable pub handle_pod_update : (Pod → String) → DeltaState → ℕ → Pod → DeltaState
unfolding handle_pod_delete upsert_images update_nodes_usage_from_pod
handle_pod_update get_pod_owner_id d now p = elim p.phase [
  | succeeded ↦ update_nodes_usage_from_pod (handle_pod_delete get_pod_owner_id d now p) p
  | running ↦ update_nodes_usage_from_pod (upsert_images get_pod_owner_id d now p) p
  | _ ↦ update_nodes_usage_from_pod d p
]

-- The body of the loop in `handleNodeDelete`.
unfoldable pub leave_node : String → Image → Option Image
leave_node name img =
    let img' : Image = record img { nodes = delete name img.nodes } in
    if is_unused img' then none else some img'

unfoldable pub handle_node_delete : DeltaState → Node → DeltaState
unfolding leave_node
handle_node_delete d v = record {
  images = range_update (λ _ img. leave_node v.name img) d.images;
  nodes = delete v.name d.nodes;
}

unfoldable pub upsert : (Pod → String) → DeltaState → ℕ → Object → DeltaState
unfolding handle_pod_update update_node_usage
upsert get_pod_owner_id d now (pod v) = handle_pod_update get_pod_owner_id d now v
upsert get_pod_owner_id d now (node v) = update_node_usage d v
upsert get_pod_owner_id d now _ = d

unfoldable pub delete_object : (Pod → String) → DeltaState → ℕ → Object → DeltaState
unfolding handle_pod_delete handle_node_delete
delete_object get_pod_owner_id d now (pod v) = handle_pod_delete get_pod_owner_id d now v
delete_object get_pod_owner_id d now (node v) = handle_node_delete d v
delete_object get_pod_owner_id d now _ = d
