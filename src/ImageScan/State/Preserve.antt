-- ===== src/ImageScan/State/Preserve.antt =====
-- The state stays well formed, and holds no image that nothing uses, after any informer event.
use kvisor.Base.{
  ℕ, pos, String, GoMap, IsMap, AllEntries, lookup, insert, delete, insert-IsMap, delete-IsMap,
  insert-AllEntries, delete-AllEntries, lookup-AllEntries, find, List, [], ◌∷◌, Option, none, some,
  ◌≡◌, refl, arith, Option-cases, Bool-cases, inl, inr, eq_str, ◌||◌,
}
use kvisor.Kube.Object.{Container, ContainerStatus, Pod}
use kvisor.ImageScan.State.{PodUsage, NodeUsage, Image, DeltaState, Platform}
use kvisor.ImageScan.State.Usage.{
  update_nodes_usage_from_pod, record_pod, active, inactive, activity,
}
use kvisor.ImageScan.State.Pods.{find_image, use_image, upsert_image, upsert_containers, forget_pod}
use kvisor.ImageScan.State.Invariant.{
  IsBusy, ImageInv, NodeInv, Inv, add_pod-IsMap, add_pod-IsBusy, add_pod_nonempty,
}

find_image-ImageInv :
    (images : GoMap Image) (key : String) (platform : Platform) (cont : Container)
    → AllEntries ImageInv images
    → let img = find_image images key platform cont in
      (img.key ≡ key) × IsMap img.owners × IsBusy img.owners × IsMap img.nodes
unfolding find_image
find_image-ImageInv images key platform cont h = elim (Option-cases (lookup key images)) [
  | inl new ↦ rw (new, find_image) (refl, tt, tt, tt)
  | inr (img, old) ↦
      let v = lookup-AllEntries ImageInv key img images h old in
      rw (old, find_image) (v.keyed, v.owners_map, v.owners_busy, v.nodes_map)
]

use_image-ImageInv :
    (k : String) (img : Image) (now : ℕ) (p : Pod) (owner_id : String) (cs : ContainerStatus)
    → img.key ≡ k
    → IsMap img.owners
    → IsBusy img.owners
    → IsMap img.nodes
    → ImageInv k (use_image img now p owner_id cs)
unfolding use_image
use_image-ImageInv k img now p owner_id cs key om ob nm = record {
  keyed = key;
  owners_map = add_pod-IsMap owner_id p.uid img.owners om;
  owners_busy = add_pod-IsBusy owner_id p.uid img.owners ob;
  nodes_map = add_pod-IsMap p.spec.node_name p.uid img.nodes nm;
  used = ground (arith, add_pod_nonempty p.spec.node_name p.uid img.nodes);
}

-- A change of one image.
insert_image-Inv :
    (d : DeltaState) (k : String) (img : Image)
    → ImageInv k img
    → Inv d
    → Inv (record d { images = insert k img d.images })
insert_image-Inv d k img v h = record {
  images_map = insert-IsMap k img d.images h.images_map;
  images_good = insert-AllEntries ImageInv k img d.images v h.images_good;
  nodes_map = h.nodes_map;
  nodes_good = h.nodes_good;
}

module _ (now : ℕ) where
  upsert_image-Inv :
      (d : DeltaState) (p : Pod) (owner_id : String) (statuses : List ContainerStatus)
      (cont : Container)
      → Inv d
      → Inv (upsert_image d now p owner_id statuses cont)
  unfolding upsert_image
  upsert_image-Inv d p owner_id statuses cont h =
      elim (Option-cases (find (λ v. eq_str v.name cont.name) statuses)) [
        | inl missing ↦ rw (missing, upsert_image) h
        | inr (cs, found) ↦ elim (Bool-cases (eq_str cs.image_id "" || eq_str cont.image "")) [
          | inl nameless ↦ rw (found, upsert_image) (rw nameless h)
          | inr named ↦ rw (found, upsert_image) (rw named (inserted cs _ _))
        ]
      ]
    where
      inserted :
          (cs : ContainerStatus) (platform : Platform) (key : String)
          → Inv (record d {
            images =
                insert key
                  (use_image (find_image d.images key platform cont) now p owner_id cs)
                  d.images;
          })
      inserted cs platform key =
          let (k, om, ob, nm) = find_image-ImageInv d.images key platform cont h.images_good in
          insert_image-Inv d key
            (use_image (find_image d.images key platform cont) now p owner_id cs)
            (use_image-ImageInv key (find_image d.images key platform cont) now p owner_id cs k om
              ob nm)
            h

  pub upsert_containers-Inv :
      (d : DeltaState) (p : Pod) (owner_id : String) (statuses : List ContainerStatus)
      (containers : List Container)
      → Inv d
      → Inv (upsert_containers d now p owner_id statuses containers)
  unfolding upsert_containers
  upsert_containers-Inv d p owner_id statuses [] h = h
  upsert_containers-Inv d p owner_id statuses (cont ∷ containers) h =
      upsert_containers-Inv (upsert_image d now p owner_id statuses cont) p owner_id statuses
        containers (upsert_image-Inv d p owner_id statuses cont h)

-- A change of one node.
pub insert_node-Inv :
    (d : DeltaState) (k : String) (n : NodeUsage)
    → NodeInv k n
    → Inv d
    → Inv (record d { nodes = insert k n d.nodes })
insert_node-Inv d k n v h = record {
  images_map = h.images_map;
  images_good = h.images_good;
  nodes_map = insert-IsMap k n d.nodes h.nodes_map;
  nodes_good = insert-AllEntries NodeInv k n d.nodes v h.nodes_good;
}

record_pod-NodeInv :
    (k : String) (n : NodeUsage) (p : Pod) → NodeInv k n → NodeInv k (record_pod n p)
unfolding record_pod
record_pod-NodeInv k n p v = record {
  named = v.named;
  pods_map = insert-IsMap p.uid _ n.pods v.pods_map;
  pods_keyed = insert-AllEntries _ p.uid _ n.pods (known (lookup p.uid n.pods) refl) v.pods_keyed;
}
  where
    known :
        (o : Option PodUsage)
        → lookup p.uid n.pods ≡ o
        → (elim o as (λ _. PodUsage) [
          | none ↦ record { id = p.uid; request_cpu = pos 0; request_memory = pos 0 }
          | some q ↦ q
        ]).id
          ≡ p.uid
    known none e = refl
    known (some q) e = lookup-AllEntries _ p.uid q n.pods v.pods_keyed e

drop_pod-NodeInv :
    (k uid : String) (n : NodeUsage)
    → NodeInv k n
    → NodeInv k (record n { pods = delete uid n.pods })
drop_pod-NodeInv k uid n v = record {
  named = v.named;
  pods_map = delete-IsMap uid n.pods v.pods_map;
  pods_keyed = delete-AllEntries _ uid n.pods v.pods_keyed;
}

pub update_nodes_usage_from_pod-Inv :
    (d : DeltaState) (p : Pod) → Inv d → Inv (update_nodes_usage_from_pod d p)
unfolding update_nodes_usage_from_pod
update_nodes_usage_from_pod-Inv d p h = elim (Option-cases (lookup p.spec.node_name d.nodes)) [
  | inl unknown ↦ rw (unknown, update_nodes_usage_from_pod) h
  | inr (n, known) ↦
      let v = lookup-AllEntries NodeInv p.spec.node_name n d.nodes h.nodes_good known in
      rw (known, update_nodes_usage_from_pod)
        (elim (activity p.phase)
          as (λ a. Inv (elim a [
            | active ↦ record d { nodes = insert p.spec.node_name (record_pod n p) d.nodes }
            | inactive ↦ record d {
              nodes = insert p.spec.node_name (record n { pods = delete p.uid n.pods }) d.nodes;
            }
          ])) [
            | active ↦ insert_node-Inv d _ _ (record_pod-NodeInv _ n p v) h
            | inactive ↦ insert_node-Inv d _ _ (drop_pod-NodeInv _ p.uid n v) h
          ])
]

pub forget_pod-Inv : (d : DeltaState) (p : Pod) → Inv d → Inv (forget_pod d p)
unfolding forget_pod
forget_pod-Inv d p h = elim (Option-cases (lookup p.spec.node_name d.nodes)) [
  | inl unknown ↦ rw (unknown, forget_pod) h
  | inr (n, known) ↦
      let v = lookup-AllEntries NodeInv p.spec.node_name n d.nodes h.nodes_good known in
      rw (known, forget_pod) (insert_node-Inv d _ _ (drop_pod-NodeInv _ p.uid n v) h)
]
