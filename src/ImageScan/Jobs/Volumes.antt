-- ===== src/ImageScan/Jobs/Volumes.antt =====
-- imagescan/scanner.go: the mode of a scan, and the volumes of its job, by the container runtime.
use mathlib.Core.List.{◌++◌}
use kvisor.Base.{String, [], ◌∷◌, true, if◌then◌else◌, eq_str}
use kvisor.ImageScan.Jobs.Spec.{VolumeSource, host_path, secret, VolumesAndMounts, ScannerConfig}

abbrev pub containerd_content_dir : String
containerd_content_dir = "/var/lib/containerd/io.containerd.content.v1.content"

abbrev pub secret_mount_path : String
secret_mount_path = "/secret"

-- `mode` after the default of the runtime.
unfoldable pub mode_for : String → String → String
mode_for runtime mode =
    if eq_str mode ""
    then if eq_str runtime "docker"
      then "daemon"
      else if eq_str runtime "containerd"
      then "hostfs"
      else mode
    else mode

abbrev pub no_volumes : VolumesAndMounts
no_volumes = record { volumes = []; mounts = [] }

-- The two appends for one volume, which is mounted for reading.
unfoldable pub with_volume : VolumesAndMounts → String → VolumeSource → String → VolumesAndMounts
with_volume vols name source path = record {
  volumes = vols.volumes ++ record { name = name; source = source } ∷ [];
  mounts = vols.mounts ++ record { name = name; read_only = true; mount_path = path } ∷ [];
}

unfoldable pub docker_volumes : String → VolumesAndMounts
unfolding with_volume
docker_volumes mode =
    if eq_str mode "daemon"
    then with_volume no_volumes "docker-sock" (host_path "/var/run/docker.sock" "Socket")
        "/var/run/docker.sock"
    else no_volumes

unfoldable pub containerd_volumes : String → VolumesAndMounts
unfolding with_volume
containerd_volumes mode =
    if eq_str mode "hostfs"
    then with_volume no_volumes "containerd-content" (host_path containerd_content_dir "Directory")
        containerd_content_dir
    else if eq_str mode "daemon"
    then with_volume no_volumes "containerd-sock"
        (host_path "/run/containerd/containerd.sock" "Socket") "/run/containerd/containerd.sock"
    else no_volumes

-- The `switch` on the container runtime.
unfoldable pub volumes_for : ScannerConfig → String → String → VolumesAndMounts
unfolding docker_volumes containerd_volumes with_volume
volumes_for cfg runtime mode =
    if eq_str runtime "docker"
    then docker_volumes mode
    else if eq_str runtime "containerd"
    then if eq_str cfg.pull_secret ""
      then containerd_volumes mode
      else with_volume (containerd_volumes mode) "pull-secret" (secret cfg.pull_secret)
          secret_mount_path
    else no_volumes
