-- ===== src/Linter/Specs/Confined.antt =====
-- What a kube-bench job may do on its node.
use kvisor.Base.{
  String, [], ◌∷◌, map, some, Bool, true, false, if◌then◌else◌, All, ◌≡◌, refl, arith,
}
use kvisor.Kube.Object.{Node}
use kvisor.Kube.Owners.{KvisorImageDetails}
use kvisor.Linter.Specs.{VolumeMount, HostVolume, BenchContainer, BenchJob}
use kvisor.Linter.Specs.Clouds.{gke, aks, eks}
use kvisor.Linter.Specs.Plain.{master, node_spec}
use kvisor.Linter.Specs.Created.{resolve_spec, created, job_to_create}

-- A job on a node with one container, whose root is read-only, which cannot escalate its privileges
-- and mounts each volume, and nothing else, for reading only; the job is tried once.
pub record ConfinedJob (node_name job_name : String) (job : BenchJob) : Type 0 where
  pub named : job.name ≡ job_name
  pub placed : job.node_name ≡ node_name
  pub once : (job.backoff_limit ≡ 0) × (job.restart_policy ≡ "Never")
  pub one :
      (c : BenchContainer) × (job.containers ≡ c ∷ [])
      × (c.read_only_root_filesystem ≡ true)
      × (c.allow_privilege_escalation ≡ false)
      × All (λ (m : VolumeMount). m.read_only ≡ true) c.volume_mounts
      × (map (λ (m : VolumeMount). m.name) c.volume_mounts
          ≡ map (λ (v : HostVolume). v.name) job.volumes)

pick :
    (node_name job_name : String) (b : Bool) (x y : BenchJob)
    → ConfinedJob node_name job_name x
    → ConfinedJob node_name job_name y
    → ConfinedJob node_name job_name (if b then x else y)
pick node_name job_name true x y hx hy = hx
pick node_name job_name false x y hx hy = hy

module _ (n j : String) where
  gke-ConfinedJob : ConfinedJob n j (gke n j)
  unfolding gke
  gke-ConfinedJob = record {
    named = refl;
    placed = refl;
    once = (refl, refl);
    one = (_, refl, refl, refl, ground arith, refl);
  }

  aks-ConfinedJob : ConfinedJob n j (aks n j)
  unfolding aks
  aks-ConfinedJob = record {
    named = refl;
    placed = refl;
    once = (refl, refl);
    one = (_, refl, refl, refl, ground arith, refl);
  }

  eks-ConfinedJob : ConfinedJob n j (eks n j)
  unfolding eks
  eks-ConfinedJob = record {
    named = refl;
    placed = refl;
    once = (refl, refl);
    one = (_, refl, refl, refl, ground arith, refl);
  }

  master-ConfinedJob : ConfinedJob n j (master n j)
  unfolding master
  master-ConfinedJob = record {
    named = refl;
    placed = refl;
    once = (refl, refl);
    one = (_, refl, refl, refl, ground arith, refl);
  }

  node_spec-ConfinedJob : ConfinedJob n j (node_spec n j)
  unfolding node_spec
  node_spec-ConfinedJob = record {
    named = refl;
    placed = refl;
    once = (refl, refl);
    one = (_, refl, refl, refl, ground arith, refl);
  }

  resolve_spec-ConfinedJob :
      (provider : String) (node : Node) → ConfinedJob n j (resolve_spec provider node n j)
  unfolding resolve_spec
  resolve_spec-ConfinedJob provider node = pick n j _ _ _ gke-ConfinedJob (
      pick n j _ _ _ aks-ConfinedJob
        (pick n j _ _ _ eks-ConfinedJob (pick n j _ _ _ master-ConfinedJob node_spec-ConfinedJob)))

-- Whatever the provider and the node, once the agent's own image is known there is a job to create,
-- and it is confined: it has the job's name, runs on the node, once, in one container with a
-- read-only root and without escalation of privileges, which mounts each volume, and nothing else, for reading only. The
-- container runs the agent's image with the configured pull policy, and has the agent's pull secrets.
pub job_to_create-ConfinedJob :
    (provider : String) (node : Node) (job_name pull_policy : String) (d : KvisorImageDetails)
    → (job : BenchJob) × (job_to_create provider node job_name pull_policy (some d) ≡ created job)
      × ConfinedJob node.name job_name job
      × (map (λ (c : BenchContainer). c.image) job.containers ≡ d.image_name ∷ [])
      × (map (λ (c : BenchContainer). c.image_pull_policy) job.containers ≡ pull_policy ∷ [])
      × (job.image_pull_secrets ≡ d.image_pull_secrets)
unfolding job_to_create
job_to_create-ConfinedJob provider node job_name pull_policy d =
    let h = resolve_spec-ConfinedJob node.name job_name provider node in
    let job = resolve_spec provider node node.name job_name in
    let (c, one, root, privileges, mounts, names) = h.one in
    (
      record job {
        containers = record c { image = d.image_name; image_pull_policy = pull_policy } ∷ [];
        image_pull_secrets = d.image_pull_secrets;
      },
      ground (arith, one),
      record {
        named = h.named;
        placed = h.placed;
        once = h.once;
        one = (_, refl, root, privileges, mounts, names);
      },
      refl,
      refl,
      refl,
    )
