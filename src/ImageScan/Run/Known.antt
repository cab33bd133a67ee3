-- ===== src/ImageScan/Run/Known.antt =====
-- The nodes that the controller knows, by the events about them.
use kvisor.Base.{
  ℕ, String, lookup, lookup-insert, lookup-delete, insert, delete, GoMap, str_dec, subst, is_some,
  List, [], ◌∷◌, ◌++◌, some, Bool, true, false, eq_str, ◌≡◌, refl, ◌∙◌, if◌then◌else◌, arith,
  Option-cases, inl, inr,
}
use kvisor.Kube.Object.{
  ContainerStatus, Container, Object, Node, Pod, Event, event_add, event_update, event_delete, pod,
  node,
}
use kvisor.ImageScan.State.{DeltaState}
use kvisor.ImageScan.State.Usage.{record_pod, update_node_usage, update_nodes_usage_from_pod}
use kvisor.ImageScan.State.Pods.{
  upsert_image, upsert_containers, upsert_images, forget_pod, handle_pod_delete, handle_pod_update,
  handle_node_delete, upsert, delete_object,
}
use kvisor.ImageScan.Report.{
  Controller, ScannedImage, SyncAnswer, images_state, sync_error, no_images, set_images_scanned,
  set_image_scanned, mark_synced, mark_reported, apply_sync_state, sync_from_remote_state,
  update_image_statuses,
}
use kvisor.ImageScan.Run.{handle_delta}

abbrev pub knows : DeltaState → String → Bool
knows d name = is_some (lookup name d.nodes)

-- Whether a node is there after an event, by the event alone.
abbrev pub there_after : String → Bool → Event × Object → Bool
there_after name before (event_delete, node v) = if eq_str v.name name then false else before
there_after name before (_, node v) = if eq_str v.name name then true else before
there_after name before (_, _) = before

-- The same after events, by the last one about the node.
abbrev pub last_there : String → Bool → List (Event × Object) → Bool
last_there name before [] = before
last_there name before (item ∷ items) = last_there name (there_after name before item) items

pub last_there-append :
    (name : String) (before : Bool) (xs ys : List (Event × Object))
    → last_there name before (xs ++ ys) ≡ last_there name (last_there name before xs) ys
last_there-append name before [] ys = refl
last_there-append name before (x ∷ xs) ys = last_there-append name (there_after name before x) xs ys

insert-known {ℓ} :
    {V : Type ℓ} (k name : String) (v : V) (m : GoMap V)
    → is_some (lookup name (insert k v m))
      ≡ (if eq_str k name then true else is_some (lookup name m))
insert-known k name v m = ground (arith, lookup-insert k name v m)

-- A key that is there is inserted without a change of the keys.
insert-same {ℓ} :
    {V : Type ℓ} (k name : String) (v n : V) (m : GoMap V)
    → lookup k m ≡ some n
    → is_some (lookup name (insert k v m)) ≡ is_some (lookup name m)
insert-same k name v n m there = elim (str_dec k name) [
  | yes same ↦ ground (arith, lookup-insert k name v m, subst (λ j. lookup j m ≡ some n) same there)
  | no other ↦ ground (arith, lookup-insert k name v m, other)
]

usage-knows :
    (d : DeltaState) (p : Pod) (name : String)
    → knows (update_nodes_usage_from_pod d p) name ≡ knows d name
unfolding update_nodes_usage_from_pod
usage-knows d p name = elim (Option-cases (lookup p.spec.node_name d.nodes)) [
  | inl gone ↦ rw (gone, update_nodes_usage_from_pod) refl
  | inr (n, there) ↦ ground (
    arith,
    there,
    insert-same p.spec.node_name name (record_pod n p) n d.nodes there,
    insert-same p.spec.node_name name (record n { pods = delete p.uid n.pods }) n d.nodes there,
  )
]

forget-knows :
    (d : DeltaState) (p : Pod) (name : String) → knows (forget_pod d p) name ≡ knows d name
unfolding forget_pod
forget-knows d p name = elim (Option-cases (lookup p.spec.node_name d.nodes)) [
  | inl gone ↦ rw (gone, forget_pod) refl
  | inr (n, there) ↦ rw (there, forget_pod) (insert-same p.spec.node_name name _ n d.nodes there)
]

upsert_image-nodes :
    (d : DeltaState) (now : ℕ) (p : Pod) (owner_id : String) (statuses : List ContainerStatus)
    (c : Container)
    → (upsert_image d now p owner_id statuses c).nodes ≡ d.nodes
unfolding upsert_image
upsert_image-nodes d now p owner_id statuses c = ground arith

upsert_containers-nodes :
    (d : DeltaState) (now : ℕ) (p : Pod) (owner_id : String) (statuses : List ContainerStatus)
    (cs : List Container)
    → (upsert_containers d now p owner_id statuses cs).nodes ≡ d.nodes
unfolding upsert_containers
upsert_containers-nodes d now p owner_id statuses [] = refl
upsert_containers-nodes d now p owner_id statuses (c ∷ cs) =
    upsert_containers-nodes (upsert_image d now p owner_id statuses c) now p owner_id statuses cs
    ∙ upsert_image-nodes d now p owner_id statuses c

upsert_images-nodes :
    (get_pod_owner_id : Pod → String) (d : DeltaState) (now : ℕ) (p : Pod)
    → (upsert_images get_pod_owner_id d now p).nodes ≡ d.nodes
unfolding upsert_images
upsert_images-nodes get_pod_owner_id d now p =
    elim (Option-cases (lookup p.spec.node_name d.nodes)) [
      | inl gone ↦ rw (gone, upsert_images) refl
      | inr (n, there) ↦
          rw (there, upsert_images)
            (upsert_containers-nodes d now p (get_pod_owner_id p)
              (p.container_statuses ++ p.init_container_statuses)
              (p.spec.containers ++ p.spec.init_containers))
    ]

delete-knows :
    (get_pod_owner_id : Pod → String) (d : DeltaState) (now : ℕ) (p : Pod) (name : String)
    → knows (handle_pod_delete get_pod_owner_id d now p) name ≡ knows d name
unfolding handle_pod_delete
delete-knows get_pod_owner_id d now p name = forget-knows _ p name

update-knows :
    (get_pod_owner_id : Pod → String) (d : DeltaState) (now : ℕ) (p : Pod) (name : String)
    → knows (handle_pod_update get_pod_owner_id d now p) name ≡ knows d name
unfolding handle_pod_update
update-knows get_pod_owner_id d now p name = ground (
  arith,
  usage-knows d p name,
  usage-knows (handle_pod_delete get_pod_owner_id d now p) p name,
  usage-knows (upsert_images get_pod_owner_id d now p) p name,
  delete-knows get_pod_owner_id d now p name,
  upsert_images-nodes get_pod_owner_id d now p,
)

updated-knows :
    (d : DeltaState) (v : Node) (name : String)
    → knows (update_node_usage d v) name ≡ (if eq_str v.name name then true else knows d name)
unfolding update_node_usage
updated-knows d v name = insert-known v.name name _ d.nodes

-- An event does to the nodes that are known what it says.
pub handle_delta-knows :
    (get_pod_owner_id : Pod → String) (d : DeltaState) (now : ℕ) (item : Event × Object)
    (name : String)
    → knows (handle_delta get_pod_owner_id d now item) name ≡ there_after name (knows d name) item
unfolding handle_delta upsert delete_object update_node_usage handle_node_delete
handle_delta-knows get_pod_owner_id d now (event_add, pod p) name =
    update-knows get_pod_owner_id d now p name
handle_delta-knows get_pod_owner_id d now (event_update, pod p) name =
    update-knows get_pod_owner_id d now p name
handle_delta-knows get_pod_owner_id d now (event_delete, pod p) name =
    delete-knows get_pod_owner_id d now p name
handle_delta-knows get_pod_owner_id d now (event_delete, node v) name =
    ground (arith, lookup-delete v.name name d.nodes)
handle_delta-knows get_pod_owner_id d now (event_add, node v) name = updated-knows d v name
handle_delta-knows get_pod_owner_id d now (event_update, node v) name = updated-knows d v name
handle_delta-knows get_pod_owner_id d now (event, o) name = ground arith

set_images_scanned-nodes :
    (d : DeltaState) (images : List ScannedImage) → (set_images_scanned d images).nodes ≡ d.nodes
unfolding set_images_scanned set_image_scanned
set_images_scanned-nodes d [] = refl
set_images_scanned-nodes d (img ∷ images) =
    set_images_scanned-nodes (set_image_scanned d img) images

pub sync-nodes :
    (c : Controller) (now : ℕ) (answer : SyncAnswer)
    → (sync_from_remote_state c now answer).delta.nodes ≡ c.delta.nodes
unfolding sync_from_remote_state apply_sync_state mark_synced
sync-nodes c now sync_error = ground arith
sync-nodes c now no_images = ground arith
sync-nodes c now (images_state state) =
    ground (arith, set_images_scanned-nodes (mark_synced now c.delta) state.scanned_images)

pub statuses-nodes :
    (c : Controller) (now : ℕ) (delivered : Bool)
    → (update_image_statuses c now delivered).delta.nodes ≡ c.delta.nodes
unfolding update_image_statuses mark_reported
statuses-nodes c now delivered = ground arith
