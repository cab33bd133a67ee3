-- ===== src/Kube/Owners/Order.antt =====
-- The order in which Go visits the index does not change the owner of a pod.
use mathlib.Core.List.{Mem, Perm}
use mathlib.Core.List.Perm
use kvisor.Base.{String, GoMap, ◌≡◌, refl, sym, ◌∙◌, ap, Option, none, some, Bool, arith}
use kvisor.Kube.Object.{Pod, Deployment, LabelSelector}
use kvisor.Kube.Index.{Controller}
use kvisor.Kube.Owners.{
  find_owner_from_deployments, replica_set_owner, job_owner, owner_by_reference, get_pod_owner_id,
}
use kvisor.Kube.Owners.Found.{Selects, find_owner-mem, find_owner-none}

-- The deployments that select the pod, if there are several, are one object.
abbrev pub SelectedOnce :
    (LabelSelector → GoMap String → Option Bool) → Pod → GoMap Deployment → Type 0
SelectedOnce selects p items =
    (d e : String × Deployment)
    → Mem d items
    → Mem e items
    → Selects selects p d.1
    → Selects selects p e.1
    → d.1.uid ≡ e.1.uid

module _ (selects : LabelSelector → GoMap String → Option Bool) (p : Pod)
    (items others : GoMap Deployment) (same : Perm items others)
    (once : SelectedOnce selects p items) where
  agree :
      (a b : Option String)
      → find_owner_from_deployments selects items p ≡ a
      → find_owner_from_deployments selects others p ≡ b
      → a ≡ b
  agree none none e f = refl
  agree none (some j) e f =
      let (y, m, s, u) = find_owner-mem selects p others j f in
      absurd (find_owner-none selects p items e y (Perm.subset (Perm.symm same) y m) s)
  agree (some i) none e f =
      let (x, m, s, u) = find_owner-mem selects p items i e in
      absurd (find_owner-none selects p others f x (Perm.subset same x m) s)
  agree (some i) (some j) e f =
      let (x, m, s, u) = find_owner-mem selects p items i e in
      let (y, n, t, v) = find_owner-mem selects p others j f in
      ap some (sym u ∙ once x y m (Perm.subset (Perm.symm same) y n) s t ∙ v)

  find_owner-perm :
      find_owner_from_deployments selects items p ≡ find_owner_from_deployments selects others p
  find_owner-perm = agree _ _ refl refl

-- If the deployments that select the pod are one object, the order in which the index is visited
-- does not change the pod's owner.
pub get_pod_owner_id-perm :
    (selects : LabelSelector → GoMap String → Option Bool) (c : Controller) (p : Pod)
    (others : GoMap Deployment)
    → Perm c.deployments others
    → SelectedOnce selects p c.deployments
    → get_pod_owner_id selects c p ≡ get_pod_owner_id selects (record c { deployments = others }) p
unfolding get_pod_owner_id owner_by_reference replica_set_owner job_owner
get_pod_owner_id-perm selects c p others same once =
    ground (arith, find_owner-perm selects p c.deployments others same once)
