-- ===== src/Linter/Specs/Created.antt =====
-- linters/kubebench/controller.go: the spec for a node (`resolveSpec`) and the job that
-- `createKubebenchJob` creates from it, with the polls of the cluster.
use kvisor.Base.{String, lookup, List, [], ◌∷◌, Option, none, some, eq_str, is_some, if◌then◌else◌}
use kvisor.Kube.Object.{Node}
use kvisor.Kube.Owners.{KvisorImageDetails}
use kvisor.Linter.Specs.{BenchContainer, BenchJob}
use kvisor.Linter.Specs.Clouds.{gke, aks, eks}
use kvisor.Linter.Specs.Plain.{master, node_spec}

-- `resolveSpec`, applied to the names.
unfoldable pub resolve_spec : String → Node → String → String → BenchJob
resolve_spec provider node node_name job_name =
    if eq_str provider "gke"
    then gke node_name job_name
    else if eq_str provider "aks"
    then aks node_name job_name
    else if eq_str provider "eks"
    then eks node_name job_name
    else if is_some (lookup "node-role.kubernetes.io/control-plane" node.labels)
    then master node_name job_name
    else node_spec node_name job_name

-- The image is set in the first container; the specs have one, and an empty list is a panic.
abbrev set_image : String → String → List BenchContainer → Option (List BenchContainer)
set_image image pull_policy [] = none
set_image image pull_policy (c ∷ cs) =
    some (record c { image = image; image_pull_policy = pull_policy } ∷ cs)

pub data JobToCreate : Type 0 where
  details_not_found no_container : JobToCreate
  created : BenchJob → JobToCreate

-- `createKubebenchJob`, up to the creation.
unfoldable pub job_to_create :
    String → Node → String → String → Option KvisorImageDetails → JobToCreate
unfolding resolve_spec
job_to_create provider node job_name pull_policy details = elim details [
  | none ↦ details_not_found
  | some d ↦
      let job = resolve_spec provider node node.name job_name in
      elim (set_image d.image_name pull_policy job.containers) [
        | none ↦ no_container
        | some containers ↦
            created
              (record job { containers = containers; image_pull_secrets = d.image_pull_secrets })
      ]
]
