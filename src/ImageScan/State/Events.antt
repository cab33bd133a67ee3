-- ===== src/ImageScan/State/Events.antt =====
-- What every informer event keeps, and what the deletion of a pod or a node leaves behind.
use kvisor.Base.{
  ℕ, String, lookup, delete, range_update, delete-IsMap, range_update-IsMap, delete-AllEntries,
  lookup-AllEntries, range_update-AllEntries, Option, none, some, true, false, ◌≡◌, refl, sym,
  subst, ◌∙◌, ◌⊎◌, some_inj, Option-cases, Bool-cases, inl, inr, eq_str, ◌++◌,
}
use kvisor.Kube.Object.{Pod, Node, PodPhase, running, succeeded, Object, pod, node}
use kvisor.ImageScan.State.{Image, NodeUsage, DeltaState, is_unused, get_pod_platform}
use kvisor.ImageScan.State.Usage.{update_node_usage, new_node}
use kvisor.ImageScan.State.Pods.{
  release_pod, release_image, leave_node, upsert_images, handle_pod_delete, handle_pod_update,
  handle_node_delete, upsert, delete_object,
}
use kvisor.ImageScan.State.Invariant.{
  ImageInv, NodeInv, Inv, remove_pod-IsMap, remove_owner_pod-keeps,
}
use kvisor.ImageScan.State.Preserve.{
  insert_node-Inv, upsert_containers-Inv, update_nodes_usage_from_pod-Inv, forget_pod-Inv,
}

module _ (architecture owner_id : String) (now : ℕ) (p : Pod) where
  release_pod-ImageInv :
      (k : String) (img : Image)
      → is_unused (release_pod owner_id now p img) ≡ false
      → ImageInv k img
      → ImageInv k (release_pod owner_id now p img)
  unfolding release_pod
  release_pod-ImageInv k img used v =
      let (om, ob) = remove_owner_pod-keeps owner_id p.uid img.owners v.owners_map v.owners_busy in
      record {
        keyed = v.keyed;
        owners_map = om;
        owners_busy = ob;
        nodes_map = remove_pod-IsMap p.spec.node_name p.uid img.nodes v.nodes_map;
        used = used;
      }

  -- An image of another architecture stays as it is; of this one it loses the pod, and goes if that
  -- leaves it unused.
  pub release_image-cases :
      (img : Image)
      → ((eq_str img.architecture architecture ≡ false)
          × (release_image architecture owner_id now p img ≡ some img))
        ⊎ ((eq_str img.architecture architecture ≡ true)
            × (is_unused (release_pod owner_id now p img) ≡ true)
            × (release_image architecture owner_id now p img ≡ none))
        ⊎ ((eq_str img.architecture architecture ≡ true)
            × (is_unused (release_pod owner_id now p img) ≡ false)
            × (release_image architecture owner_id now p img
                ≡ some (release_pod owner_id now p img)))
  unfolding release_image
  release_image-cases img = elim (Bool-cases (eq_str img.architecture architecture)) [
    | inl same ↦ elim (Bool-cases (is_unused (release_pod owner_id now p img))) [
      | inl unused ↦ inr (inl (same, unused, rw (same, release_image) (rw unused refl)))
      | inr used ↦ inr (inr (same, used, rw (same, release_image) (rw used refl)))
    ]
    | inr other ↦ inl (other, rw (other, release_image) refl)
  ]

  release_image-ImageInv :
      (k : String) (img img' : Image)
      → release_image architecture owner_id now p img ≡ some img'
      → ImageInv k img
      → ImageInv k img'
  release_image-ImageInv k img img' e v = elim (release_image-cases img) [
    | inl (_, same) ↦ subst (ImageInv k) (some_inj (sym same ∙ e)) v
    | inr (inl (_, _, gone)) ↦ cc
    | inr (inr (_, used, kept)) ↦
        subst (ImageInv k) (some_inj (sym kept ∙ e)) (release_pod-ImageInv k img used v)
  ]

leave_node-ImageInv :
    (name k : String) (img img' : Image)
    → leave_node name img ≡ some img'
    → ImageInv k img
    → ImageInv k img'
unfolding leave_node
leave_node-ImageInv name k img img' e v =
    elim (Bool-cases (is_unused (record img { nodes = delete name img.nodes }))) [
      | inl unused ↦ cc (gone unused)
      | inr used ↦ subst (ImageInv k) (some_inj (sym (kept used) ∙ e)) (record {
        keyed = v.keyed;
        owners_map = v.owners_map;
        owners_busy = v.owners_busy;
        nodes_map = delete-IsMap name img.nodes v.nodes_map;
        used = used;
      })
    ]
  where
    gone :
        is_unused (record img { nodes = delete name img.nodes }) ≡ true → leave_node name img ≡ none
    gone unused = rw (unused, leave_node) refl

    kept :
        is_unused (record img { nodes = delete name img.nodes }) ≡ false
        → leave_node name img ≡ some (record img { nodes = delete name img.nodes })
    kept used = rw (used, leave_node) refl

-- A loop over the images.
loop-Inv :
    (f : Image → Option Image)
    → ((k : String) (img img' : Image) → f img ≡ some img' → ImageInv k img → ImageInv k img')
    → (d : DeltaState) → Inv d
    → Inv (record d { images = range_update (λ _ img. f img) d.images })
loop-Inv f body d h = record {
  images_map = range_update-IsMap (λ _ img. f img) d.images h.images_map;
  images_good = range_update-AllEntries ImageInv (λ _ img. f img) body d.images h.images_good;
  nodes_map = h.nodes_map;
  nodes_good = h.nodes_good;
}

module _ (get_pod_owner_id : Pod → String) (now : ℕ) where
  handle_pod_delete-Inv :
      (d : DeltaState) (p : Pod) → Inv d → Inv (handle_pod_delete get_pod_owner_id d now p)
  unfolding handle_pod_delete
  handle_pod_delete-Inv d p h = forget_pod-Inv _ p (
      loop-Inv _
        (release_image-ImageInv (get_pod_platform d p).architecture (get_pod_owner_id p) now p) d h)

  upsert_images-Inv :
      (d : DeltaState) (p : Pod) → Inv d → Inv (upsert_images get_pod_owner_id d now p)
  unfolding upsert_images
  upsert_images-Inv d p h = elim (Option-cases (lookup p.spec.node_name d.nodes)) [
    | inl unknown_node ↦ rw (unknown_node, upsert_images) h
    | inr (n, known) ↦
        rw (known, upsert_images)
          (upsert_containers-Inv now d p (get_pod_owner_id p)
            (p.container_statuses ++ p.init_container_statuses)
            (p.spec.containers ++ p.spec.init_containers) h)
  ]

  handle_pod_update-Inv :
      (d : DeltaState) (p : Pod) (phase : PodPhase)
      → p.phase ≡ phase
      → Inv d
      → Inv (handle_pod_update get_pod_owner_id d now p)
  unfolding handle_pod_update
  handle_pod_update-Inv d p succeeded e h =
      rw (e, handle_pod_update) (update_nodes_usage_from_pod-Inv _ p (handle_pod_delete-Inv d p h))
  handle_pod_update-Inv d p running e h =
      rw (e, handle_pod_update) (update_nodes_usage_from_pod-Inv _ p (upsert_images-Inv d p h))
  handle_pod_update-Inv d p _ e h =
      rw (e, handle_pod_update) (update_nodes_usage_from_pod-Inv d p h)

  handle_node_delete-Inv : (d : DeltaState) (v : Node) → Inv d → Inv (handle_node_delete d v)
  unfolding handle_node_delete
  handle_node_delete-Inv d v h =
      let l = loop-Inv _ (leave_node-ImageInv v.name) d h in
      record {
        images_map = l.images_map;
        images_good = l.images_good;
        nodes_map = delete-IsMap v.name d.nodes h.nodes_map;
        nodes_good = delete-AllEntries NodeInv v.name d.nodes h.nodes_good;
      }

  update_node_usage-Inv : (d : DeltaState) (v : Node) → Inv d → Inv (update_node_usage d v)
  unfolding update_node_usage
  update_node_usage-Inv d v h = insert_node-Inv d v.name _ (good (lookup v.name d.nodes) refl) h
    where
      good :
          (o : Option NodeUsage)
          → lookup v.name d.nodes ≡ o
          → NodeInv v.name (record (elim o as (λ _. NodeUsage) [ none ↦ new_node v | some n ↦ n ]) {
            allocatable_mem = v.allocatable_memory;
            allocatable_cpu = v.allocatable_cpu;
          })
      good none e = record { named = refl; pods_map = tt; pods_keyed = tt }
      good (some n) e =
          let w = lookup-AllEntries NodeInv v.name n d.nodes h.nodes_good e in
          record { named = w.named; pods_map = w.pods_map; pods_keyed = w.pods_keyed }

  -- Adding or updating any object keeps the state well formed: images and nodes once, under their
  -- own keys, no owner without pods, and no image that neither an owner nor a node uses.
  pub upsert-Inv : (d : DeltaState) (o : Object) → Inv d → Inv (upsert get_pod_owner_id d now o)
  unfolding upsert
  upsert-Inv d (pod v) h = handle_pod_update-Inv d v v.phase refl h
  upsert-Inv d (node v) h = update_node_usage-Inv d v h
  upsert-Inv d _ h = h

  -- Deleting any object keeps the state well formed: images and nodes once, under their own keys,
  -- no owner without pods, and no image that neither an owner nor a node uses.
  pub delete_object-Inv :
      (d : DeltaState) (o : Object) → Inv d → Inv (delete_object get_pod_owner_id d now o)
  unfolding delete_object
  delete_object-Inv d (pod v) h = handle_pod_delete-Inv d v h
  delete_object-Inv d (node v) h = handle_node_delete-Inv d v h
  delete_object-Inv d _ h = h
