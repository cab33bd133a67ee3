-- ===== src/ImageScan/Jobs/Mounts.antt =====
-- What the job of a scan may touch on its node.
use kvisor.Base.{
  String, GoMap, List, [], ◌∷◌, map, Option, some, Bool, true, false, ◌≡◌, refl, has, All, arith,
  subst, sym, eq_str, not, ◌&&◌, if◌then◌else◌, ◌⊎◌, inl, inr, some_inj, of_bind, bind_made,
  str_dec, insert,
}
use kvisor.ImageScan.Jobs.Spec.{
  env_vars, pod_annotations, VolumeSource, host_path, secret, Volume, VolumesAndMounts,
  ScannerConfig, ScanImageParams, CollectorContainer, ScanJob, EnvVar, Toleration,
  KvisorImageDetails, with_quantity, scan_job_spec,
}
use kvisor.ImageScan.Jobs.Volumes.{
  containerd_content_dir, mode_for, docker_volumes, containerd_volumes, with_volume, volumes_for,
}
use kvisor.ImageScan.Jobs.Scan.{job_of, gen_job_name, scan_tolerations}

abbrev pub volume_names : List Volume → List String
volume_names = map (λ (v : Volume). v.name)

-- The paths of a node that the job may mount, by the container runtime.
abbrev pub allowed_paths : String → List String
allowed_paths runtime =
    if eq_str runtime "docker"
    then "/var/run/docker.sock" ∷ []
    else if eq_str runtime "containerd"
    then "/run/containerd/containerd.sock" ∷ containerd_content_dir ∷ []
    else []

-- The configured pull secret, or an allowed path.
abbrev pub allowed_source : String → String → VolumeSource → Bool
allowed_source pull_secret runtime (secret name) =
    eq_str name pull_secret && not (eq_str pull_secret "")
allowed_source pull_secret runtime (host_path path kind) = has path (allowed_paths runtime)

-- Each mount is read-only and has its volume, and the volumes are the pull secret or allowed paths.
pub record Confined (pull_secret runtime : String) (vol : VolumesAndMounts) : Type 0 where
  pub mounts :
      All (λ m. (m.read_only ≡ true) × (has m.name (volume_names vol.volumes) ≡ true)) vol.mounts
  pub sources : All (λ v. allowed_source pull_secret runtime v.source ≡ true) vol.volumes

volumes_for-Confined :
    (cfg : ScannerConfig) (runtime mode : String)
    → Confined cfg.pull_secret runtime (volumes_for cfg runtime mode)
unfolding volumes_for docker_volumes containerd_volumes with_volume
volumes_for-Confined cfg runtime mode = record { mounts = ground arith; sources = ground arith }

-- What a job has of its name, its mounts and its privileges.
pub record Unprivileged {Q : Type 0} (name : String) (vol : VolumesAndMounts) (job : ScanJob Q)
    : Type 0 where
  pub named : job.name ≡ name
  pub volumes : job.volumes ≡ vol.volumes
  pub no_token : job.automount_service_account_token ≡ false
  pub one :
      (c : CollectorContainer Q) × (job.containers ≡ c ∷ [])
      × (c.volume_mounts ≡ vol.mounts)
      × (c.run_as_non_root ≡ true)
      × (c.allow_privilege_escalation ≡ false)

module _ {Q : Type 0} (must_parse : String → Option Q) where
  scan_job_spec-Unprivileged :
      (ns node_name job_name : String) (env : List EnvVar) (annotations : GoMap String)
      (vol : VolumesAndMounts) (tolerations : List Toleration) (cfg : ScannerConfig)
      (details : KvisorImageDetails) (job : ScanJob Q)
      → scan_job_spec must_parse ns node_name job_name env annotations vol tolerations cfg details
        ≡ some job
      → Unprivileged job_name vol job
  unfolding scan_job_spec
  scan_job_spec-Unprivileged ns node_name job_name env annotations vol tolerations cfg details job =
      of_bind P _ _ job (λ cpu_limits. of_bind P _ _ job (λ cpu_requests.
        of_bind P _ _ job (λ requests. of_bind P _ _ job (λ limits e. subst P (some_inj e) (record {
          named = refl;
          volumes = refl;
          no_token = refl;
          one = (_, refl, refl, refl, refl);
        })))))
    where
      P : ScanJob Q → Type 0
      P = Unprivileged job_name vol

module _ {Q : Type 0} (must_parse : String → Option Q) (fnv_hex : String → String) where
  pub job_of-Unprivileged :
      (cfg : ScannerConfig) (params : ScanImageParams) (job : ScanJob Q)
      → job_of must_parse fnv_hex cfg params ≡ some job
      → Unprivileged
          (gen_job_name fnv_hex params.image_name)
          (volumes_for cfg params.container_runtime (mode_for params.container_runtime params.mode))
          job
  unfolding job_of
  job_of-Unprivileged cfg params job e =
      let mode = mode_for params.container_runtime params.mode in
      scan_job_spec-Unprivileged must_parse cfg.pod_namespace params.node_name
        (gen_job_name fnv_hex params.image_name) (env_vars cfg params mode) (pod_annotations cfg)
        (volumes_for cfg params.container_runtime mode) scan_tolerations cfg
        params.collector_image_details job e

  -- Whatever the settings and the parameters, the job of a scan mounts each volume for reading
  -- only, has a volume for each mount, and its volumes are the configured pull secret and the paths of
  -- the node's runtime: the socket of Docker, or the socket or content directory of containerd, and
  -- none for another runtime; it has no token of a service account, and its
  -- one container does not run as root nor gains privileges.
  pub job_of-Confined :
      (cfg : ScannerConfig) (params : ScanImageParams) (job : ScanJob Q)
      → job_of must_parse fnv_hex cfg params ≡ some job
      → All
          (λ v. allowed_source cfg.pull_secret params.container_runtime v.source ≡ true)
          job.volumes
        × (job.automount_service_account_token ≡ false)
        × (c : CollectorContainer Q) × (job.containers ≡ c ∷ [])
        × All
            (λ m. (m.read_only ≡ true) × (has m.name (volume_names job.volumes) ≡ true))
            c.volume_mounts
        × (c.run_as_non_root ≡ true)
        × (c.allow_privilege_escalation ≡ false)
  job_of-Confined cfg params job e =
      let u = job_of-Unprivileged cfg params job e in
      let v =
        volumes_for-Confined cfg params.container_runtime
          (mode_for params.container_runtime params.mode) in
      let (c, one, mounts, non_root, no_escalation) = u.one in
      (
        subst (All (λ v. allowed_source cfg.pull_secret params.container_runtime v.source ≡ true))
            (sym u.volumes) v.sources,
        u.no_token,
        c,
        one,
        subst
            (λ volumes.
              All (λ m. (m.read_only ≡ true) × (has m.name (volume_names volumes) ≡ true))
                c.volume_mounts)
            (sym u.volumes)
            (subst (All (λ m. (m.read_only ≡ true) × (has m.name (volume_names _) ≡ true)))
              (sym mounts) v.mounts),
        non_root,
        no_escalation,
      )

-- The text of a quantity is empty or parses.
abbrev pub Parses : {Q : Type 0} → (String → Option Q) → String → Type 0
Parses {Q} must_parse text = (text ≡ "") ⊎ ((q : Q) × (must_parse text ≡ some q))

-- The requests and limits of the settings, all of them.
pub record QuantitiesParse {Q : Type 0} (must_parse : String → Option Q) (cfg : ScannerConfig)
    : Type 0 where
  pub cpu_request : Parses must_parse cfg.cpu_request
  pub cpu_limit : Parses must_parse cfg.cpu_limit
  pub memory_request : Parses must_parse cfg.memory_request
  pub memory_limit : Parses must_parse cfg.memory_limit

-- A job can be put together if the quantities parse.
module _ {Q : Type 0} (must_parse : String → Option Q) (fnv_hex : String → String) where
  with_quantity_made :
      (resource text : String) (amounts : GoMap Q)
      → Parses must_parse text
      → (m : GoMap Q) × (with_quantity must_parse resource text amounts ≡ some m)
  unfolding with_quantity
  with_quantity_made resource text amounts (inl empty) = (amounts, ground (arith, empty))
  with_quantity_made resource text amounts (inr (q, e)) = elim (str_dec text "") [
    | yes empty ↦ (amounts, ground (arith, empty))
    | no there ↦ (insert resource q amounts, ground (arith, there, e))
  ]

  pub job_of_made :
      (cfg : ScannerConfig) (params : ScanImageParams)
      → QuantitiesParse must_parse cfg
      → (job : ScanJob Q) × (job_of must_parse fnv_hex cfg params ≡ some job)
  unfolding job_of scan_job_spec
  job_of_made cfg params parse =
      bind_made _ _ (with_quantity_made "cpu" cfg.cpu_limit [] parse.cpu_limit) (λ cpu_limits.
        bind_made _ _ (with_quantity_made "cpu" cfg.cpu_request [] parse.cpu_request)
          (λ cpu_requests.
            bind_made _ _
              (with_quantity_made "memory" cfg.memory_request cpu_requests parse.memory_request)
              (λ requests.
                bind_made _ _
                  (with_quantity_made "memory" cfg.memory_limit cpu_limits parse.memory_limit)
                  (λ limits. (_, refl)))))
