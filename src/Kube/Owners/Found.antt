-- ===== src/Kube/Owners/Found.antt =====
-- Where the owner of a pod comes from, and when the order of the index does not matter.
use kvisor.Base.{
  String, GoMap, lookup, ◌≡◌, refl, sym, ap, ◌≢◌, ◌⊎◌, inl, inr, List, [], ◌∷◌, Option, none, some,
  Bool, true, arith, Option-cases, passes_cases, some_inj, subst, ◌∙◌,
}
use mathlib.Core.List.{Mem, mem-cons_self, mem-cons_of_mem, mem-cons, not-mem-nil}
use mathlib.Core.HLevel.{⊥_prop}
use mathlib.Core.Logic.Or
use kvisor.Kube.Object.{OwnerReference, Pod, Workload, Deployment, LabelSelector}
use kvisor.Kube.Index.{Controller}
use kvisor.Kube.Owners.{
  find_next_owner_id, find_owner_from_deployments, replica_set_owner, job_owner, owner_by_reference,
  get_pod_owner_id,
}
use kvisor.Kube.Owners.References.{
  some_not_none, first, NextOwner, NoNextOwner, find_next_owner_id-NextOwner,
  find_next_owner_id-NoNextOwner, reference_kind-cases,
}

module _ (selects : LabelSelector → GoMap String → Option Bool) (p : Pod) where
  -- A deployment whose selector is valid and matches the labels of the pod.
  abbrev pub Selects : Deployment → Type 0
  Selects d = selects d.selector p.labels ≡ some true

  Selected-cases : (d : Deployment) → Selects d ⊎ (¬ Selects d)
  Selected-cases d = passes_cases (selects d.selector p.labels)

  pub find_owner-mem :
      (items : GoMap Deployment) (id : String)
      → find_owner_from_deployments selects items p ≡ some id
      → (e : String × Deployment) × Mem e items × Selects e.1 × (e.1.uid ≡ id)
  unfolding find_owner_from_deployments
  find_owner-mem [] id e = cc
  find_owner-mem ((k, d) ∷ items) id e = elim (Selected-cases d) [
    | inl hit ↦ ((k, d), mem-cons_self, hit, ground arith)
    | inr miss ↦
        let (x, m, s, u) = find_owner-mem items id (ground (arith, miss)) in
        (x, mem-cons_of_mem (k, d) m, s, u)
  ]

  pub find_owner-none :
      (items : GoMap Deployment)
      → find_owner_from_deployments selects items p ≡ none
      → (e : String × Deployment) → Mem e items
      → ¬ Selects e.1
  unfolding find_owner_from_deployments
  find_owner-none [] e x m s = not-mem-nil m
  find_owner-none ((k, d) ∷ items) e x m s =
      Or.elim ⊥_prop (mem-cons.0 m) (λ here. ground arith)
        (λ there. find_owner-none items (ground arith) x there s)

  -- The pod's owner, by the kind of its first reference: an independent description of the search.
  pub data Owner (c : Controller) : String → Type 0 where
    unowned : {id : String} → p.owner_references ≡ [] → id ≡ p.uid → Owner c id
    direct :
        {id : String} (ref : OwnerReference)
        → first p.owner_references ≡ some ref
        → (ref.kind ≡ "DaemonSet") ⊎ (ref.kind ≡ "StatefulSet")
        → id ≡ ref.uid
        → Owner c id
    through_replica_set :
        {id : String} (ref : OwnerReference) (rs : Workload)
        → first p.owner_references ≡ some ref
        → ref.kind ≡ "ReplicaSet"
        → lookup ref.uid c.replica_sets ≡ some rs
        → NextOwner rs.meta "Deployment" id
        → Owner c id
    by_selector :
        {id : String} (ref : OwnerReference) (e : String × Deployment)
        → first p.owner_references ≡ some ref
        → ref.kind ≡ "ReplicaSet"
        → Mem e c.deployments
        → Selects e.1
        → ((rs : Workload)
            → lookup ref.uid c.replica_sets ≡ some rs
            → NoNextOwner rs.meta "Deployment")
        → id ≡ e.1.uid
        → Owner c id
    replica_set_itself :
        {id : String} (ref : OwnerReference) (rs : Workload)
        → first p.owner_references ≡ some ref
        → ref.kind ≡ "ReplicaSet"
        → lookup ref.uid c.replica_sets ≡ some rs
        → NoNextOwner rs.meta "Deployment"
        → ((e : String × Deployment) → Mem e c.deployments → ¬ Selects e.1)
        → id ≡ rs.uid
        → Owner c id
    unknown_replica_set :
        {id : String} (ref : OwnerReference)
        → first p.owner_references ≡ some ref
        → ref.kind ≡ "ReplicaSet"
        → lookup ref.uid c.replica_sets ≡ none
        → ((e : String × Deployment) → Mem e c.deployments → ¬ Selects e.1)
        → id ≡ p.uid
        → Owner c id
    through_job :
        {id : String} (ref : OwnerReference) (j : Workload)
        → first p.owner_references ≡ some ref
        → ref.kind ≡ "Job"
        → lookup ref.uid c.jobs ≡ some j
        → NextOwner j.meta "CronJob" id
        → Owner c id
    job_itself :
        {id : String} (ref : OwnerReference) (j : Workload)
        → first p.owner_references ≡ some ref
        → ref.kind ≡ "Job"
        → lookup ref.uid c.jobs ≡ some j
        → NoNextOwner j.meta "CronJob"
        → id ≡ j.uid
        → Owner c id
    unknown_job :
        {id : String} (ref : OwnerReference)
        → first p.owner_references ≡ some ref
        → ref.kind ≡ "Job"
        → lookup ref.uid c.jobs ≡ none
        → id ≡ p.uid
        → Owner c id
    other_kind :
        {id : String} (ref : OwnerReference)
        → first p.owner_references ≡ some ref
        → ref.kind ≢ "DaemonSet"
        → ref.kind ≢ "StatefulSet"
        → ref.kind ≢ "ReplicaSet"
        → ref.kind ≢ "Job"
        → id ≡ p.uid
        → Owner c id

  module _ (c : Controller) (ref : OwnerReference)
      (from : first p.owner_references ≡ some ref) where
    replica_set_slow :
        (is_rs : ref.kind ≡ "ReplicaSet") (known : Option Workload)
        → lookup ref.uid c.replica_sets ≡ known
        → ((rs : Workload)
            → lookup ref.uid c.replica_sets ≡ some rs
            → NoNextOwner rs.meta "Deployment")
        → (r : Option String) → find_owner_from_deployments selects c.deployments p ≡ r
        → Owner c
            (elim r [ some owner ↦ owner | none ↦ elim known [ none ↦ p.uid | some v ↦ v.uid ] ])
    replica_set_slow is_rs known k slow (some id) e =
        let (x, m, s, u) = find_owner-mem c.deployments id e in
        by_selector ref x from is_rs m s slow (sym u)
    replica_set_slow is_rs none k slow none e =
        unknown_replica_set ref from is_rs k (find_owner-none c.deployments e) refl
    replica_set_slow is_rs (some rs) k slow none e =
        replica_set_itself ref rs from is_rs k (slow rs k) (find_owner-none c.deployments e) refl

    replica_set_owner-Owner : ref.kind ≡ "ReplicaSet" → Owner c (replica_set_owner selects c p ref)
    unfolding replica_set_owner
    replica_set_owner-Owner is_rs = elim (Option-cases (lookup ref.uid c.replica_sets)) [
      | inl unknown ↦
          rw (unknown, replica_set_owner)
            (replica_set_slow is_rs _ refl (λ v e. absurd (some_not_none (sym e ∙ unknown))) _ refl)
      | inr (rs, known) ↦ elim (Option-cases (find_next_owner_id rs.meta "Deployment")) [
        | inl orphan ↦
            rw (known, replica_set_owner)
              (rw orphan (
                replica_set_slow is_rs _ refl
                  (λ v e.
                    subst (λ w. NoNextOwner w.meta "Deployment") (some_inj (sym known ∙ e))
                      (find_next_owner_id-NoNextOwner rs.meta "Deployment" _ refl orphan))
                  _ refl))
        | inr (id, next) ↦
            rw (known, next, replica_set_owner)
              (through_replica_set ref rs from is_rs known
                (find_next_owner_id-NextOwner rs.meta "Deployment" id _ refl next))
      ]
    ]

    job_owner-Owner : ref.kind ≡ "Job" → Owner c (job_owner selects c p ref)
    unfolding job_owner
    job_owner-Owner is_job = elim (Option-cases (lookup ref.uid c.jobs)) [
      | inl unknown ↦ rw (unknown, job_owner) (unknown_job ref from is_job unknown refl)
      | inr (j, known) ↦ elim (Option-cases (find_next_owner_id j.meta "CronJob")) [
        | inl orphan ↦
            rw (known, orphan, job_owner)
              (job_itself ref j from is_job known
                (find_next_owner_id-NoNextOwner j.meta "CronJob" _ refl orphan) refl)
        | inr (id, next) ↦
            rw (known, next, job_owner)
              (through_job ref j from is_job known
                (find_next_owner_id-NextOwner j.meta "CronJob" id _ refl next))
      ]
    ]

    owner_by_reference-Owner : Owner c (owner_by_reference selects c p ref)
    unfolding owner_by_reference
    owner_by_reference-Owner = elim (reference_kind-cases ref.kind) [
      | inl (e, k) ↦ rw (e, owner_by_reference) (direct ref from k refl)
      | inr (inl (e, k)) ↦ rw (e, owner_by_reference) (replica_set_owner-Owner k)
      | inr (inr (inl (e, k))) ↦ rw (e, owner_by_reference) (job_owner-Owner k)
      | inr (inr (inr (e, a, b, d, f))) ↦
          rw (e, owner_by_reference) (other_kind ref from a b d f refl)
    ]

  get_pod_owner_id_from :
      (c : Controller) (refs : List OwnerReference)
      → p.owner_references ≡ refs
      → Owner c (get_pod_owner_id selects c p)
  unfolding get_pod_owner_id
  get_pod_owner_id_from c [] e = unowned e (simp (e, get_pod_owner_id))
  get_pod_owner_id_from c (ref ∷ refs) e =
      simp (e, get_pod_owner_id) (owner_by_reference-Owner c ref (ap first e))

  -- The owner of a pod, by its first owner reference. Without one, it is the pod. For a DaemonSet
  -- or a StatefulSet it is what the reference names. For a ReplicaSet that is in the index it is
  -- its Deployment, or itself if nothing owns it; if there is no such ReplicaSet, or only others
  -- own it, it is a Deployment whose selector matches the pod; if there is none either, it is the
  -- ReplicaSet, or the pod if that is not in the index. For a Job in the index it is its CronJob,
  -- or itself if nothing owns it or only others do. For another Job or another kind it is the pod.
  pub get_pod_owner_id-Owner : (c : Controller) → Owner c (get_pod_owner_id selects c p)
  get_pod_owner_id-Owner c = get_pod_owner_id_from c p.owner_references refl
