-- ===== src/ImageScan/Collector.antt =====
-- cmd/kvisor/imgcollector/collector/collector.go: where the collector, which runs in the job of a scan,
-- takes the image from (`getImage`), and the credentials for it (`findRegistryAuth`). Files, JSON, YAML
-- and the libraries for images are outside.
pub mod Secrets
use kvisor.Base.{
  ℕ, String, GoMap, lookup, keys, List, [], ◌∷◌, Option, none, some, Bool, true, false, not, ◌&&◌,
  eq_str, if◌then◌else◌, ◌⊎◌, inl, inr, find,
}
use kvisor.ImageScan.Runtime.{codes, starts_with}

-- `config.Config`, the settings that `getImage` reads.
pub record CollectorConfig : Type 0 where
  pub image_name : String
  pub image_id : String
  pub image_architecture : String
  pub image_os : String
  pub image_pull_secret : String
  pub mode : String
  pub runtime : String
  pub docker_option_path : String

-- `image.RegistryAuth`.
pub record RegistryAuth : Type 0 where
  pub username : String
  pub password : String
  pub token : String

-- `image.DockerOption`.
pub record DockerOption : Type 0 where
  pub user_name : String
  pub password : String
  pub registry_token : String
  pub architecture : String
  pub os : String

abbrev pub no_option : DockerOption
no_option = record {
  user_name = "";
  password = "";
  registry_token = "";
  architecture = "";
  os = "";
}

-- Where the image comes from.
pub data ImageSource : Type 0 where
  from_remote : DockerOption → ImageSource
  from_containerd_daemon from_containerd_host_fs from_docker_tar_file from_docker_daemon :
      ImageSource

pub data GetError : Type 0 where
  parsing_reference reading_secret parsing_secret reading_options parsing_options : GetError
  unknown_mode : String → GetError

-- A text after a prefix of the given length.
abbrev after_prefix : List ℕ → List ℕ → List ℕ
after_prefix [] text = text
after_prefix (c ∷ prefix) [] = []
after_prefix (c ∷ prefix) (d ∷ text) = after_prefix prefix text

-- `strings.TrimPrefix`, on the codes of the characters.
abbrev pub trim_prefix : String → List ℕ → List ℕ
trim_prefix prefix text =
    if starts_with (codes prefix) text then after_prefix (codes prefix) text else text

-- Users can name a registry with its protocol.
abbrev pub is_registry_of : String → String → Bool
is_registry_of image_repo key =
    starts_with (trim_prefix "https://" (trim_prefix "http://" (codes key))) (codes image_repo)

-- `sort_strings` is `sort.Strings`, and `image_repo` the registry and the repository of the image, which
-- a library finds.
unfoldable pub find_registry_auth :
    (List String → List String) → String → GoMap RegistryAuth → Option (String × RegistryAuth)
find_registry_auth sort_strings image_repo auths =
    elim (find (is_registry_of image_repo) (sort_strings (keys auths))) [
      | none ↦ none
      | some key ↦ elim (lookup key auths) [ none ↦ none | some auth ↦ some (key, auth) ]
    ]

abbrev pub with_auth : DockerOption → Option (String × RegistryAuth) → DockerOption
with_auth opts none = opts
with_auth opts (some (key, auth)) = record opts {
  user_name = auth.username;
  password = auth.password;
  registry_token = auth.token;
}

abbrev pub with_platform : CollectorConfig → DockerOption → DockerOption
with_platform cfg opts =
    if not (eq_str cfg.image_architecture "") && not (eq_str cfg.image_os "")
    then record opts { architecture = cfg.image_architecture; os = cfg.image_os }
    else opts

-- The pull secret as it is read and parsed, and the file of options, read and parsed: `none` where
-- reading fails, and an error where parsing does.
module _ (sort_strings : List String → List String) (image_repo : String)
    (secret : Option (String ⊎ GoMap RegistryAuth)) (options : Option (String ⊎ DockerOption)) where
  -- The options for the registry.
  unfoldable pub remote_options : CollectorConfig → GetError ⊎ DockerOption
  unfolding find_registry_auth
  remote_options cfg =
      if not (eq_str cfg.image_pull_secret "")
      then elim secret [
        | none ↦ inl reading_secret
        | some parsed ↦ elim parsed [
          | inl err ↦ inl parsing_secret
          | inr auths ↦ inr (with_auth no_option (find_registry_auth sort_strings image_repo auths))
        ]
      ]
      else if not (eq_str cfg.docker_option_path "")
      then elim options [
        | none ↦ inl reading_options
        | some parsed ↦ elim parsed [ inl err ↦ inl parsing_options | inr opts ↦ inr opts ]
      ]
      else inr no_option

  unfoldable pub get_image : Bool → CollectorConfig → GetError ⊎ ImageSource
  unfolding remote_options
  get_image reference_parses cfg =
      if not reference_parses
      then inl parsing_reference
      else if eq_str cfg.mode "remote"
      then elim (remote_options cfg) [
        | inl err ↦ inl err
        | inr opts ↦ inr (from_remote (with_platform cfg opts))
      ]
      else if eq_str cfg.runtime "containerd" && eq_str cfg.mode "daemon"
      then inr from_containerd_daemon
      else if eq_str cfg.runtime "containerd" && eq_str cfg.mode "hostfs"
      then inr from_containerd_host_fs
      else if eq_str cfg.runtime "docker" && eq_str cfg.mode "tar"
      then inr from_docker_tar_file
      else if eq_str cfg.runtime "docker" && eq_str cfg.mode "daemon"
      then inr from_docker_daemon
      else inl (unknown_mode cfg.mode)
