-- ===== src/ImageScan/Collector/Secrets.antt =====
-- The collector in the job that the scanner makes for it.
use kvisor.Base.{
  String, GoMap, List, Option, none, Bool, true, false, any, eq_str, eq_str-test, ◌≡◌, ◌≢◌, ◌⊎◌,
  inl, arith,
}
use kvisor.ImageScan.Jobs.Spec.{ScannerConfig, VolumeMount}
use kvisor.ImageScan.Jobs.Volumes.{
  mode_for, volumes_for, docker_volumes, with_volume, secret_mount_path,
}
use kvisor.ImageScan.Collector.{
  CollectorConfig, RegistryAuth, DockerOption, reading_secret, remote_options, get_image,
}

-- A volume is mounted at the path.
abbrev pub mounted : String → List VolumeMount → Bool
mounted path mounts = any (λ (m : VolumeMount). eq_str m.mount_path path) mounts

docker_unmounted : (mode : String) → mounted secret_mount_path (docker_volumes mode).mounts ≡ false
unfolding docker_volumes with_volume
docker_unmounted mode = ground (arith, eq_str-test "/var/run/docker.sock" "/secret")

-- If a pull secret is configured and the collector is told of it, then for a node with the container
-- runtime Docker, in remote mode and for a name of an image that parses, the collector in a job with
-- the volumes that the scanner gives it ends with the error of reading the secret. This holds if a
-- secret that is not mounted cannot be read.
pub docker_remote_scan_fails :
    (sort_strings : List String → List String) (image_repo : String)
    (read : List VolumeMount → Option (String ⊎ GoMap RegistryAuth))
    (options : Option (String ⊎ DockerOption)) (scanner : ScannerConfig) (cfg : CollectorConfig)
    → ((mounts : List VolumeMount) → mounted secret_mount_path mounts ≡ false → read mounts ≡ none)
    → scanner.pull_secret ≢ ""
    → cfg.image_pull_secret ≡ scanner.pull_secret
    → cfg.runtime ≡ "docker"
    → cfg.mode ≡ mode_for cfg.runtime "remote"
    → get_image sort_strings image_repo
        (read (volumes_for scanner cfg.runtime cfg.mode).mounts)
        options
        true
        cfg
      ≡ inl reading_secret
unfolding get_image remote_options volumes_for mode_for
docker_remote_scan_fails sort_strings image_repo read options scanner cfg unreadable given same
      docker remote =
    let unread = unreadable (docker_volumes cfg.mode).mounts (docker_unmounted cfg.mode) in
    ground (arith, unread, given, same, docker, remote, eq_str-test "remote" "")
