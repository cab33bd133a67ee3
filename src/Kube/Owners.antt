-- ===== src/Kube/Owners.antt =====
-- kube/controller.go: the owner of a pod (`GetPodOwnerID`) and the image that kvisor itself runs.
pub mod References
pub mod Found
pub mod Order
use kvisor.Base.{
  String, GoMap, lookup, List, [], ◌∷◌, Option, none, some, Bool, ◌&&◌, ◌||◌, if◌then◌else◌, eq_str,
}
use kvisor.Kube.Object.{OwnerReference, Meta, Container, PodSpec, Pod, Deployment, LabelSelector}
use kvisor.Kube.Index.{Controller}

pub find_owner_kind : String → List OwnerReference → Option String
find_owner_kind expected_kind [] = none
find_owner_kind expected_kind (ref ∷ refs) =
    if eq_str ref.kind expected_kind then some ref.uid else find_owner_kind expected_kind refs

-- `findNextOwnerID`: the object itself if nothing owns it.
unfoldable pub find_next_owner_id : Meta → String → Option String
unfolding find_owner_kind
find_next_owner_id m expected_kind = elim m.owner_references [
  | [] ↦ some m.uid
  | ref ∷ refs ↦ find_owner_kind expected_kind (ref ∷ refs)
]

-- The cases of the switch over the kind of the first owner reference.
pub data ReferenceKind : Type 0 where
  set_reference replica_set_reference job_reference other_reference : ReferenceKind

unfoldable pub reference_kind : String → ReferenceKind
reference_kind kind =
    if eq_str kind "DaemonSet" || eq_str kind "StatefulSet"
    then set_reference
    else if eq_str kind "ReplicaSet"
    then replica_set_reference
    else if eq_str kind "Job"
    then job_reference
    else other_reference

-- `metav1.LabelSelectorAsSelector` followed by `Matches`; `none` if the selector is invalid.
module _ (selects : LabelSelector → GoMap String → Option Bool) where
  unfoldable pub find_owner_from_deployments : GoMap Deployment → Pod → Option String
  find_owner_from_deployments [] p = none
  find_owner_from_deployments ((_, d) ∷ items) p = elim (selects d.selector p.labels) [
    | none ↦ find_owner_from_deployments items p
    | some matched ↦ if matched then some d.uid else find_owner_from_deployments items p
  ]

  -- The case "ReplicaSet".
  unfoldable pub replica_set_owner : Controller → Pod → OwnerReference → String
  unfolding find_next_owner_id find_owner_from_deployments
  replica_set_owner c p ref =
      let rs = lookup ref.uid c.replica_sets in
      let fast : Option String = elim rs [
        | none ↦ none
        | some v ↦ find_next_owner_id v.meta "Deployment"
      ] in
      elim fast [
        | some owner ↦ owner
        | none ↦ elim (find_owner_from_deployments c.deployments p) [
          | some owner ↦ owner
          | none ↦ elim rs [ none ↦ p.uid | some v ↦ v.uid ]
        ]
      ]

  -- The case "Job".
  unfoldable pub job_owner : Controller → Pod → OwnerReference → String
  unfolding find_next_owner_id
  job_owner c p ref = elim (lookup ref.uid c.jobs) [
    | none ↦ p.uid
    | some v ↦ elim (find_next_owner_id v.meta "CronJob") [ some owner ↦ owner | none ↦ v.uid ]
  ]

  unfoldable pub owner_by_reference : Controller → Pod → OwnerReference → String
  owner_by_reference c p ref = elim (reference_kind ref.kind) [
    | set_reference ↦ ref.uid
    | replica_set_reference ↦ replica_set_owner c p ref
    | job_reference ↦ job_owner c p ref
    | other_reference ↦ p.uid
  ]

  unfoldable pub get_pod_owner_id : Controller → Pod → String
  unfolding owner_by_reference
  get_pod_owner_id c p = elim p.owner_references [
    | [] ↦ p.uid
    | ref ∷ _ ↦ owner_by_reference c p ref
  ]

pub record KvisorImageDetails : Type 0 where
  pub image_name : String
  pub image_pull_secrets : List String

pub get_kvisor_deployment_spec : String → GoMap Deployment → Option PodSpec
get_kvisor_deployment_spec kvisor_namespace [] = none
get_kvisor_deployment_spec kvisor_namespace ((_, d) ∷ items) =
    if eq_str d.namespace kvisor_namespace && eq_str d.name "castai-kvisor"
    then some d.template
    else get_kvisor_deployment_spec kvisor_namespace items

-- The loop over the containers: the image of the first one named "kvisor", or "".
pub kvisor_container_image : List Container → String
kvisor_container_image [] = ""
kvisor_container_image (container ∷ containers) =
    if eq_str container.name "kvisor" then container.image else kvisor_container_image containers

unfoldable pub get_kvisor_image_details : Controller → Option KvisorImageDetails
unfolding get_kvisor_deployment_spec kvisor_container_image
get_kvisor_image_details c = elim (get_kvisor_deployment_spec c.kvisor_namespace c.deployments) [
  | none ↦ none
  | some spec ↦
      let image_name = kvisor_container_image spec.containers in
      if eq_str image_name ""
      then none
      else some (record { image_name = image_name; image_pull_secrets = spec.image_pull_secrets })
]
