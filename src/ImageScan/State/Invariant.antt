-- ===== src/ImageScan/State/Invariant.antt =====
-- When the state is well formed: each image and node once, under its own key; every image in use;
-- no owner without pods. The sets of pods keep their part of it.
use kvisor.Base.{
  String, GoMap, GoSet, IsMap, AllEntries, lookup, insert, delete, length, insert-IsMap,
  delete-IsMap, insert-AllEntries, delete-AllEntries, insert_nonempty, [], ◌∷◌, false, ◌==◌, ◌≡◌,
  refl, Option-cases, Bool-cases, inl, inr,
}
use kvisor.ImageScan.State.{PodUsage, NodeUsage, Image, DeltaState, is_unused}
use kvisor.ImageScan.State.Pods.{add_pod, remove_pod, remove_owner_pod}

-- Every owner has a pod.
abbrev pub IsBusy : GoMap GoSet → Type 0
IsBusy = AllEntries (λ _ pod_ids. (length pod_ids == 0) ≡ false)

pub record ImageInv (k : String) (img : Image) : Type 0 where
  pub keyed : img.key ≡ k
  pub owners_map : IsMap img.owners
  pub owners_busy : IsBusy img.owners
  pub nodes_map : IsMap img.nodes
  pub used : is_unused img ≡ false

pub record NodeInv (k : String) (n : NodeUsage) : Type 0 where
  pub named : n.name ≡ k
  pub pods_map : IsMap n.pods
  pub pods_keyed : AllEntries (λ i (p : PodUsage). p.id ≡ i) n.pods

pub record Inv (d : DeltaState) : Type 0 where
  pub images_map : IsMap d.images
  pub images_good : AllEntries ImageInv d.images
  pub nodes_map : IsMap d.nodes
  pub nodes_good : AllEntries NodeInv d.nodes

module _ (k pod_id : String) (m : GoMap GoSet) where
  pub add_pod-IsMap : IsMap m → IsMap (add_pod k pod_id m)
  unfolding add_pod
  add_pod-IsMap h = elim (Option-cases (lookup k m)) [
    | inl new ↦ rw (new, add_pod) (insert-IsMap k ((pod_id, tt) ∷ []) m h)
    | inr (pods, old) ↦ rw (old, add_pod) (insert-IsMap k (insert pod_id tt pods) m h)
  ]

  pub add_pod-IsBusy : IsBusy m → IsBusy (add_pod k pod_id m)
  unfolding add_pod
  add_pod-IsBusy h = elim (Option-cases (lookup k m)) [
    | inl new ↦ rw (new, add_pod) (insert-AllEntries _ k ((pod_id, tt) ∷ []) m refl h)
    | inr (pods, old) ↦
        rw (old, add_pod)
          (insert-AllEntries _ k (insert pod_id tt pods) m (insert_nonempty pod_id tt pods) h)
  ]

  pub add_pod_nonempty : (length (add_pod k pod_id m) == 0) ≡ false
  unfolding add_pod
  add_pod_nonempty = elim (Option-cases (lookup k m)) [
    | inl new ↦ rw (new, add_pod) (insert_nonempty k ((pod_id, tt) ∷ []) m)
    | inr (pods, old) ↦ rw (old, add_pod) (insert_nonempty k (insert pod_id tt pods) m)
  ]

  pub remove_pod-IsMap : IsMap m → IsMap (remove_pod k pod_id m)
  unfolding remove_pod
  remove_pod-IsMap h = elim (Option-cases (lookup k m)) [
    | inl gone ↦ rw (gone, remove_pod) h
    | inr (pods, old) ↦ rw (old, remove_pod) (insert-IsMap k (delete pod_id pods) m h)
  ]

  pub remove_owner_pod-keeps :
      IsMap m
      → IsBusy m
      → IsMap (remove_owner_pod k pod_id m).0 × IsBusy (remove_owner_pod k pod_id m).0
  unfolding remove_owner_pod
  remove_owner_pod-keeps h b = elim (Option-cases (lookup k m)) [
    | inl gone ↦ rw (gone, remove_owner_pod) (h, b)
    | inr (pods, old) ↦ elim (Bool-cases (length (delete pod_id pods) == 0)) [
      | inl last ↦
          rw (old, remove_owner_pod) (rw last (delete-IsMap k m h, delete-AllEntries _ k m b))
      | inr more ↦
          rw (old, remove_owner_pod)
            (rw more (insert-IsMap k _ m h, insert-AllEntries _ k _ m more b))
    ]
  ]
