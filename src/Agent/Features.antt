-- ===== src/Agent/Features.antt =====
-- castai/telemetry/config.go: the features that the server disables.
pub mod Restart
use kvisor.Base.{
  String, List, [], ◌∷◌, Option, none, some, Bool, true, false, if◌then◌else◌, eq_str,
}

-- The features of `config.Config` that are looked at.
pub record Config : Type 0 where
  pub linter_enabled : Bool
  pub kube_bench_enabled : Bool
  pub image_scan_enabled : Bool

pub data Feature : Type 0 where
  linter kube_bench image_scan : Feature

-- The cases of the switch.
unfoldable pub feature_of : String → Option Feature
feature_of name =
    if eq_str name "linter"
    then some linter
    else if eq_str name "kubebench"
    then some kube_bench
    else if eq_str name "imagescan"
    then some image_scan
    else none

abbrev pub is_enabled : Config → Feature → Bool
is_enabled cfg linter = cfg.linter_enabled
is_enabled cfg kube_bench = cfg.kube_bench_enabled
is_enabled cfg image_scan = cfg.image_scan_enabled

abbrev pub disable : Config → Feature → Config
disable cfg linter = record cfg { linter_enabled = false }
disable cfg kube_bench = record cfg { kube_bench_enabled = false }
disable cfg image_scan = record cfg { image_scan_enabled = false }

unfoldable pub modify_config : Config → List String → Config
modify_config cfg [] = cfg
modify_config cfg (name ∷ names) =
    modify_config (elim (feature_of name) [ none ↦ cfg | some feature ↦ disable cfg feature ]) names

unfoldable pub features_have_changed : Config → List String → Bool
features_have_changed cfg [] = false
features_have_changed cfg (name ∷ names) = elim (feature_of name) [
  | none ↦ features_have_changed cfg names
  | some feature ↦ if is_enabled cfg feature then true else features_have_changed cfg names
]
